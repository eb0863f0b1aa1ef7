-- ===== src/Api/Blocks.antt =====
-- Following and blocks.
use gh_stories.Prelude.{
  ℕ, ◌≡◌, ◌≢◌, refl, false, ◌&&◌, some, List, ◌∷◌, ◌==◌, arith, inl, inr, Bool-cases,
}
use gh_stories.Domain.{User, is_active, stories_native}
use gh_stories.Store.Social.{
  Social, Rule, is_rule, blocked_either_way, follow, has_user, has_identity,
}
use gh_stories.Api.{Db, Answer, done, fail, ◌>>=◌, Response, must_caller, unless, or_missing}
use gh_stories.Api.Graph.{put_follow, resolve_target, nil_uuid}

-- An answer without the tables.
abbrev pub answered : Answer (Db × Response) → Answer Response
answered (fail e) = fail e
answered (done r) = done r.1

-- The tables with one more block.
abbrev pub with_block : Rule → Db → Db
with_block r db = record db { social = record db.social { blocks = r ∷ db.social.blocks } }

blocked-others :
    (g : Social) (r : Rule) (a a_github b_github : ℕ)
    → r.owner ≢ a
    → r.owner ≢ nil_uuid
    → blocked_either_way (record g { blocks = r ∷ g.blocks }) a a_github nil_uuid b_github
      ≡ blocked_either_way g a a_github nil_uuid b_github
unfolding blocked_either_way
blocked-others g r a a_github b_github h k =
    rw (other_owner a b_github h, other_owner nil_uuid a_github k) refl
  where
    other_owner : (owner target : ℕ) → r.owner ≢ owner → is_rule owner target r ≡ false
    other_owner owner target ne = ground arith

-- Two answers that start with the same call differ in nothing that their rests do not differ in.
answered->>= :
    {A : Type 0} (t : Answer A) (k l : A → Answer (Db × Response))
    → ((x : A) → answered (k x) ≡ answered (l x))
    → answered (t >>= k) ≡ answered (t >>= l)
answered->>= (fail e) k l h = refl
answered->>= (done x) k l h = h x

answered-follow :
    (db : Db) (r : Rule) (user target : ℕ) (k l : Social → Answer (Db × Response))
    → ((g h : Social) → answered (k g) ≡ answered (l h))
    → answered (or_missing (follow (with_block r db).social user target stories_native) >>= k)
      ≡ answered (or_missing (follow db.social user target stories_native) >>= l)
unfolding follow
answered-follow db r user target k l h =
    elim (Bool-cases (has_user db.social.users user && has_identity db.social.identities target)) [
      | inl e ↦ rw e (h _ _)
      | inr e ↦ rw e refl
    ]

-- A block that another account set never changes what `putFollow` answers a caller: whoever the
-- target has blocked may still follow the target. (No account has the nil id.)
pub put_follow-with_block :
    (lower : List ℕ → List ℕ) (size : List ℕ → ℕ) (db : Db) (db_now new_id : ℕ) (u : User)
    (raw : List ℕ) (r : Rule)
    → r.owner ≢ u.id
    → r.owner ≢ nil_uuid
    → answered (put_follow lower size (with_block r db) db_now new_id (some u) raw)
      ≡ answered (put_follow lower size db db_now new_id (some u) raw)
unfolding put_follow resolve_target must_caller
put_follow-with_block lower size db db_now new_id u raw r h k =
    elim (Bool-cases (is_active (some u))) [
      | inr e ↦ rw e refl
      | inl e ↦ rw e (
          answered->>= (resolve_target lower size db.social raw) _ _ (λ target.
            answered->>= (unless (target.github_id == u.github_id) _) _ _ (λ other.
              let same = blocked-others db.social r u.id u.github_id target.github_id h k in
              rw same (
                answered->>=
                  (unless (blocked_either_way db.social u.id u.github_id nil_uuid target.github_id)
                    _)
                  _ _ (λ free. answered-follow db r u.id target.github_id _ _ (λ g f. refl))))))
    ]
