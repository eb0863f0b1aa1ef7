-- ===== src/Api/Replies.antt =====
-- Private replies: who may send one, what it leaves, and what a retry answers.
use Prim.Native.String.{String}
use gh_stories.Prelude.{
  ℕ, ◌≡◌, ◌≤◌, refl, ap, sym, ◌∙◌, true, false, not, Option, none, some, List, [], ◌∷◌, ◌==◌,
  ==_refl, ltb, length, arith, inl, inr, find_row, exists_row, same_text, Bool-cases,
}
use gh_stories.Domain.{User, is_active}
use gh_stories.Store.Social.{codes, ok}
use gh_stories.Store.Stories.Items.{Loaded, story_for_viewer}
use gh_stories.Store.Interact.{create_reply}
use gh_stories.Store.Replays.{
  Stored, Replay, fresh, conflict, found, idempotent_replay, remember_idempotent, is_stored,
  replay_of,
}
use gh_stories.Api.{
  Db, Answer, done, fail, invalid, Response, replied, ReplyResponse, as_viewer, must_caller,
  path_uuid, unless, or_missing, ◌>>=◌,
}
use gh_stories.Api.Interact.{
  post_reply, idempotency_key, reply_scope, is_empty, reply_anew, reply_or_replay, reply_response,
}
use gh_stories.Api.Inversion.{>>=-done, unless-done, or_missing-done}

same_text_refl : (s : List ℕ) → same_text s s ≡ true
same_text_refl [] = refl
same_text_refl (c ∷ s) = let rest = same_text_refl s in ground arith

module _ {B : Type 0} where
  -- What was remembered under a fresh key is found.
  pub idempotent_replay-remember_idempotent :
      (rows : List (Stored B)) (user : ℕ) (scope key : List ℕ) (hash status : ℕ) (body : B)
      → 1 ≤ length key
      → idempotent_replay rows user scope key hash ≡ fresh
      → idempotent_replay
          (remember_idempotent rows user scope key hash status body)
          user
          scope
          key
          hash
        ≡ found status body
  unfolding idempotent_replay remember_idempotent
  idempotent_replay-remember_idempotent rows user scope [] hash status body k h =
      absurd (omega arith)
  idempotent_replay-remember_idempotent rows user scope (c ∷ key) hash status body k h =
      let none_yet =
        not_found_row rows (no_row (find_row (is_stored user scope (c ∷ key)) rows) h) in
      let s = same_text_refl scope in
      let t = same_text_refl (c ∷ key) in
      let u = ==_refl user in let r = ==_refl hash in rw none_yet (rw (u, s, t) (rw r refl))
    where
      no_row : (o : Option (Stored B)) → replay_of hash o ≡ fresh → o ≡ none
      no_row none g = refl
      no_row (some r) g = elim (Bool-cases (r.request_hash == hash)) [
        | inl e ↦ let g' = rw e at g in cc
        | inr e ↦ let g' = rw e at g in cc
      ]

      not_found_row :
          (rs : List (Stored B))
          → find_row (is_stored user scope (c ∷ key)) rs ≡ none
          → exists_row (is_stored user scope (c ∷ key)) rs ≡ false
      not_found_row [] g = refl
      not_found_row (r ∷ rs) g = elim (Bool-cases (is_stored user scope (c ∷ key) r)) [
        | inl e ↦ let g' = rw e at g in cc
        | inr e ↦ rw e (not_found_row rs (rw e at g))
      ]

-- What `postReply` did when it answers with a new reply.
abbrev pub Created :
    (String → String)
    → (ℕ → String → ℕ)
    → Db
    → ℕ
    → ℕ
    → ℕ
    → ℕ
    → ℕ
    → User
    → ℕ
    → List ℕ
    → String
    → Db
    → ReplyResponse
    → Type 0
Created trim hash db now db_now new_reply new_id retention u id header text db' out =
    (it : Loaded) × (story_for_viewer db.social db.pipeline (as_viewer u) now id ≡ ok it)
    × ((it.0.author_user_id == u.id) ≡ false)
    × (it.0.allow_replies ≡ true)
    × (is_empty (trim text) ≡ false)
    × (length (codes (trim text)) ≤ 500)
    × (idempotent_replay db.replays u.id reply_scope (idempotency_key header) (hash id (trim text))
        ≡ fresh)
    × (out ≡ reply_response new_reply id u.id it.0.author_user_id (trim text) now)
    × (db'.replays
        ≡ remember_idempotent db.replays u.id reply_scope (idempotency_key header)
            (hash id (trim text)) 201 out)
    × (db'.inbox
        ≡ (create_reply db.inbox now db_now new_reply new_id id u.id it.0.author_user_id (trim text)
            retention).1)

fresh-case :
    (db db' : Db) (out : ReplyResponse) (r : Replay ReplyResponse) (anew : Answer (Db × Response))
    → reply_or_replay db r anew ≡ done (db', replied out)
    → (r ≡ fresh) × (anew ≡ done (db', replied out))
fresh-case db db' out fresh anew h = (refl, h)
fresh-case db db' out conflict anew h = cc
fresh-case db db' out (found status old) anew h = cc

abbrev reply_answer : Db → ReplyResponse → Answer (Db × Response)
reply_answer d o = done (d, replied o)

replied_is :
    (d e : Db) (o p : ReplyResponse) → reply_answer d o ≡ reply_answer e p → (d ≡ e) × (o ≡ p)
replied_is d e o p h = (ap (λ a. db_of a) h, ap (λ a. out_of a) h)
  where
    db_of : Answer (Db × Response) → Db
    db_of (done r) = r.0
    db_of (fail x) = d

    out_in : Response → ReplyResponse
    out_in (replied x) = x
    out_in _ = o

    out_of : Answer (Db × Response) → ReplyResponse
    out_of (done r) = out_in r.1
    out_of (fail x) = o

pub post_reply-Created :
    (trim : String → String) (hash : ℕ → String → ℕ) (db db' : Db)
    (now db_now new_reply new_id retention id : ℕ) (u : User) (header : List ℕ) (text : String)
    (out : ReplyResponse)
    → post_reply trim hash db now db_now new_reply new_id retention
        (some u)
        (some id)
        header
        (done text)
      ≡ done (db', replied out)
    → (is_active (some u) ≡ true)
      × Created trim hash db now db_now new_reply new_id retention u id header text db' out
unfolding post_reply must_caller path_uuid create_reply
post_reply-Created trim hash db db' now db_now new_reply new_id retention id u header text out h =
    elim (Bool-cases (is_active (some u))) [
      | inr e ↦ let h' = rw e at h in cc
      | inl e ↦ (e, from_request (rw e at h))
    ]
  where
    from_anew :
        reply_anew db now db_now new_reply new_id retention u id
            (idempotency_key header)
            (hash id (trim text))
            (trim text)
          ≡ done (db', replied out)
        → (it : Loaded) × (story_for_viewer db.social db.pipeline (as_viewer u) now id ≡ ok it)
          × ((it.0.author_user_id == u.id) ≡ false)
          × (it.0.allow_replies ≡ true)
          × (out ≡ reply_response new_reply id u.id it.0.author_user_id (trim text) now)
          × (db'.replays
              ≡ remember_idempotent db.replays u.id reply_scope
                  (idempotency_key header)
                  (hash id (trim text))
                  201
                  out)
          × (db'.inbox
              ≡ (create_reply db.inbox now db_now new_reply new_id id u.id it.0.author_user_id
                  (trim text)
                  retention).1)
    from_anew g =
        let (it, hi, g1) =
          >>=-done (or_missing (story_for_viewer db.social db.pipeline (as_viewer u) now id)) _ g in
        let (t1, ho, g2) = >>=-done (unless (it.0.author_user_id == u.id) _) _ g1 in
        let (t2, ha, g3) = >>=-done (unless (not it.0.allow_replies) _) _ g2 in
        let not_own = unless-done (it.0.author_user_id == u.id) _ t1 ho in
        let allowed = unless-done (not it.0.allow_replies) _ t2 ha in
        let (same_db, same_out) = replied_is _ db' _ out g3 in
        (
          it,
          or_missing-done _ it hi,
          not_own,
          ground arith,
          sym same_out,
          ap (λ (d : Db). d.replays) (sym same_db)
              ∙ ap
                  (remember_idempotent db.replays u.id reply_scope (idempotency_key header)
                    (hash id (trim text)) 201)
                  same_out,
          ap (λ (d : Db). d.inbox) (sym same_db),
        )

    from_request :
        (do
          some_text ← unless (is_empty (trim text)) (invalid "body" "Write something first.")
          short ←
              unless
                (ltb 500 (length (codes (trim text))))
                (invalid "body" "Replies are limited to 500 characters.")
          reply_or_replay db
              (idempotent_replay db.replays u.id reply_scope
                (idempotency_key header)
                (hash id (trim text)))
              (reply_anew db now db_now new_reply new_id retention u id
                (idempotency_key header)
                (hash id (trim text))
                (trim text)))
          ≡ done (db', replied out)
        → Created trim hash db now db_now new_reply new_id retention u id header text db' out
    from_request g =
        let (t1, he, g1) = >>=-done (unless (is_empty (trim text)) _) _ g in
        let (t2, hl, g2) = >>=-done (unless (ltb 500 (length (codes (trim text)))) _) _ g1 in
        let (hf, ha) = fresh-case db db' out _ _ g2 in
        let full = unless-done (is_empty (trim text)) _ t1 he in
        let short = unless-done (ltb 500 (length (codes (trim text)))) _ t2 hl in
        let (it, hi, other, al, ho, hr, hb) = from_anew ha in
        (it, hi, other, al, full, ground arith, hf, ho, hr, hb)
