-- ===== src/Api/Retries.antt =====
-- What a sent reply leaves, and what a retry of it answers.
use Prim.Native.String.{String}
use gh_stories.Prelude.{
  ℕ, suc, ◌≡◌, ◌≤◌, refl, true, false, some, List, [], ◌∷◌, ◌==◌, ==_refl, ltb, length, arith, inl,
  inr, Bool-cases, Memᴰ,
}
use gh_stories.Domain.{User, StoryItem}
use gh_stories.Store.Social.{codes}
use gh_stories.Store.Visibility.{visible_to_viewer}
use gh_stories.Store.Stories.Items.{joined}
use gh_stories.Store.Interact.{create_reply, unread_count}
use gh_stories.Api.{Db, done, replied, replayed, ReplyResponse, as_viewer, must_caller, path_uuid}
use gh_stories.Api.Interact.{post_reply, idempotency_key, reply_scope, is_empty}
use gh_stories.Api.Hidden.{story_for_viewer-visible}
use gh_stories.Api.Replies.{post_reply-Created, idempotent_replay-remember_idempotent}

idempotency_key_nonempty : (k : List ℕ) → 1 ≤ length k → 1 ≤ length (idempotency_key k)
unfolding idempotency_key
idempotency_key_nonempty [] h = absurd (omega arith)
idempotency_key_nonempty (c ∷ k) h = elim (Bool-cases (ltb 128 (length (c ∷ k)))) [
  | inl e ↦ rw e (omega arith)
  | inr e ↦ rw e (omega arith)
]

-- Once `postReply` has answered a request that carries an idempotency key with a new reply, the same
-- request at any later time is answered with that reply again and changes no table.
pub post_reply-retry :
    (trim : String → String) (hash : ℕ → String → ℕ) (db db' : Db)
    (now db_now new_reply new_id retention id : ℕ) (u : User) (header : List ℕ) (text : String)
    (out : ReplyResponse) (later db_later next_reply next_id : ℕ)
    → 1 ≤ length header
    → post_reply trim hash db now db_now new_reply new_id retention
        (some u)
        (some id)
        header
        (done text)
      ≡ done (db', replied out)
    → post_reply trim hash db' later db_later next_reply next_id retention
        (some u)
        (some id)
        header
        (done text)
      ≡ done (db', replayed 201 out)
unfolding post_reply must_caller path_uuid
post_reply-retry trim hash db db' now db_now new_reply new_id retention id u header text out later
      db_later next_reply next_id k h =
    let (active, c) =
      post_reply-Created trim hash db db' now db_now new_reply new_id retention id u header text out
        h in
    let (it, hi, other, al, full, short, hf, ho, hr, hb) = c in
    let few = within short in
    let again =
      idempotent_replay-remember_idempotent db.replays u.id reply_scope (idempotency_key header)
        (hash id (trim text)) 201 out (idempotency_key_nonempty header k) hf in
    rw (active, full, few, hr, again) refl
  where
    within : {n : ℕ} → n ≤ 500 → ltb 500 n ≡ false
    within e = ground arith

-- When `postReply` answers with a new reply, the Story is one that the caller may see at that time,
-- it is another account's, its author takes replies, and the trimmed text has 1 to 500 runes. The
-- author's unread count goes up by one and nobody else's changes.
pub post_reply_sound :
    (trim : String → String) (hash : ℕ → String → ℕ) (db db' : Db)
    (now db_now new_reply new_id retention id : ℕ) (u : User) (header : List ℕ) (text : String)
    (out : ReplyResponse)
    → post_reply trim hash db now db_now new_reply new_id retention
        (some u)
        (some id)
        header
        (done text)
      ≡ done (db', replied out)
    → (s : StoryItem) × Memᴰ s db.pipeline.stories
      × (s.id ≡ id)
      × (joined db.social (visible_to_viewer db.social (as_viewer u) now) s ≡ true)
      × ((s.author_user_id == u.id) ≡ false)
      × (s.allow_replies ≡ true)
      × (is_empty (trim text) ≡ false)
      × (length (codes (trim text)) ≤ 500)
      × (unread_count db'.inbox s.author_user_id ≡ suc (unread_count db.inbox s.author_user_id))
      × ((other : ℕ)
          → (s.author_user_id == other) ≡ false
          → unread_count db'.inbox other ≡ unread_count db.inbox other)
unfolding create_reply unread_count
post_reply_sound trim hash db db' now db_now new_reply new_id retention id u header text out h =
    let (active, c) =
      post_reply-Created trim hash db db' now db_now new_reply new_id retention id u header text out
        h in
    let (it, hi, not_own, al, full, short, hf, ho, hr, hb) = c in
    let (m, same_id, v, vs) = story_for_viewer-visible db now u id it hi in
    let author = ==_refl it.0.author_user_id in
    (
      it.0,
      m,
      same_id,
      v,
      not_own,
      al,
      full,
      short,
      rw hb (rw author (omega arith)),
      λ other e. rw hb (rw e (omega arith)),
    )
