-- ===== src/Store/Social/Preview.antt =====
-- A preview of an import against the import itself.
use gh_stories.Prelude.{
  ℕ, ◌≡◌, ◌≢◌, ◌⊎◌, inl, inr, Bool-cases, exists_row, refl, sym, ap, ◌∙◌, true, false, List, [],
  ◌∷◌, arith, find_row, All,
}
use gh_stories.Domain.{Relationship, Provenance, github_import}
use gh_stories.Store.Social.{
  Social, Identity, ok, Action, added, is_edge, upsert_follow, follow, insert_identity,
  upsert_identity, holds_login, refused, err, has_user, has_identity, decide_import, import_blocked,
  follow_added, import_loop, import_follows, mark_onboarded,
}

-- No account occurs twice.
abbrev pub Distinct : List Identity → Type 0
Distinct [] = Unit {0}
Distinct (i ∷ is) = All (λ (j : Identity). i.github_id ≢ j.github_id) is × Distinct is

-- The preview's graph `p` and the import's graph `q` decide alike about the accounts to come.
record Agrees (p q : Social) (user : ℕ) (is : List Identity) : Type 0 where
  same_users : p.users ≡ q.users
  same_blocks : p.blocks ≡ q.blocks
  same_identities : p.identities ≡ q.identities
  registered : has_user q.users user ≡ true
  same_edges :
      All
        (λ (j : Identity).
          find_row (is_edge user j.github_id) p.relationships
          ≡ find_row (is_edge user j.github_id) q.relationships)
        is

find-upsert_ne :
    (a b c : ℕ) (prov : Provenance) (rs : List Relationship)
    → b ≢ c
    → find_row (is_edge a c) (upsert_follow a b prov rs) ≡ find_row (is_edge a c) rs
unfolding upsert_follow
find-upsert_ne a b c prov [] ne = ground arith
find-upsert_ne a b c prov (r ∷ rs) ne = ground (arith, find-upsert_ne a b c prov rs ne)

pub has_identity-insert :
    (i : Identity) (js : List Identity) → has_identity (insert_identity i js) i.github_id ≡ true
unfolding insert_identity
has_identity-insert i [] = ground arith
has_identity-insert i (j ∷ js) = ground (arith, has_identity-insert i js)

same_edges-upsert :
    (p q : Social) (user gid : ℕ) (is : List Identity)
    → All (λ (j : Identity). gid ≢ j.github_id) is
    → All
        (λ (j : Identity).
          find_row (is_edge user j.github_id) p.relationships
          ≡ find_row (is_edge user j.github_id) q.relationships)
        is
    → All
        (λ (j : Identity).
          find_row (is_edge user j.github_id) p.relationships
          ≡ find_row
              (is_edge user j.github_id)
              (upsert_follow user gid github_import q.relationships))
        is
same_edges-upsert p q user gid [] ne same = tt
same_edges-upsert p q user gid (j ∷ is) ne same = (
  same.0 ∙ sym (find-upsert_ne user gid j.github_id github_import q.relationships ne.0),
  same_edges-upsert p q user gid is ne.1 same.1,
)

decide-Agrees :
    (p q : Social) (user : ℕ) (i : Identity) (is : List Identity)
    → Agrees p q user (i ∷ is)
    → decide_import p user i.github_id ≡ decide_import q user i.github_id
unfolding decide_import import_blocked
decide-Agrees p q user i is a = rw (a.same_users, a.same_blocks, a.same_edges.0)

abbrev with_identity : Social → Identity → Social
with_identity g i = record g { identities = insert_identity i g.identities }

-- The import's next graph still agrees with the preview's.
step-Agrees :
    (p q : Social) (user : ℕ) (i : Identity) (is : List Identity) (action : Action)
    → All (λ (j : Identity). i.github_id ≢ j.github_id) is
    → Agrees p q user (i ∷ is)
    → (h : Social) × (follow_added (with_identity q i) user i.github_id action false ≡ ok h)
      × Agrees (with_identity p i) h user is
unfolding follow
step-Agrees p q user i is added ne a = (
  record (with_identity q i) {
    relationships = upsert_follow user i.github_id github_import q.relationships;
  },
  ground (arith, has_identity-insert i q.identities, a.registered),
  record {
    same_users = a.same_users;
    same_blocks = a.same_blocks;
    same_identities = ap (insert_identity i) a.same_identities;
    registered = a.registered;
    same_edges = same_edges-upsert p q user i.github_id is ne a.same_edges.1;
  },
)
step-Agrees p q user i is other ne a = (
  with_identity q i,
  refl,
  record {
    same_users = a.same_users;
    same_blocks = a.same_blocks;
    same_identities = ap (insert_identity i) a.same_identities;
    registered = a.registered;
    same_edges = a.same_edges.1;
  },
)

preview_adds_nothing :
    (g : Social) (user gid : ℕ) (action : Action) → follow_added g user gid action true ≡ ok g
preview_adds_nothing g user gid added = refl
preview_adds_nothing g user gid _ = refl

-- When its turn comes, a listed account has a login that another account in the table holds.
abbrev pub Conflicts : List Identity → List Identity → Type 0
Conflicts js [] = ⊥
Conflicts js (i ∷ is) = (exists_row (holds_login i) js ≡ true) ⊎ Conflicts (insert_identity i js) is

-- The preview and the import both succeed with the same changes, or both are refused.
abbrev Alike : Social → Social → ℕ → List Identity → Type 0
Alike p q user is =
    ((p' q' : Social) × (changes : List (ℕ × Action)) × (import_loop p user is true
        ≡ ok (p', changes))
      × (import_loop q user is false ≡ ok (q', changes)))
    ⊎ ((import_loop p user is true ≡ err refused)
        × (import_loop q user is false ≡ err refused)
        × Conflicts p.identities is)

loops-Alike :
    (p q : Social) (user : ℕ) (is : List Identity)
    → Distinct is
    → Agrees p q user is
    → Alike p q user is
unfolding import_loop upsert_identity
loops-Alike p q user [] d a = inl (p, q, [], refl, refl)
loops-Alike p q user (i ∷ is) d a = elim (Bool-cases (exists_row (holds_login i) q.identities)) [
  | inl held ↦
      let held_p : exists_row (holds_login i) p.identities ≡ true = rw a.same_identities held in
      inr (rw held_p refl, rw held refl, inl held_p)
  | inr free ↦
      let free_p : exists_row (holds_login i) p.identities ≡ false = rw a.same_identities free in
      let action = decide_import (with_identity q i) user i.github_id in
      let alike : decide_import (with_identity p i) user i.github_id ≡ action =
        unfold decide_import import_blocked in decide-Agrees p q user i is a in
      let (h, added_ok, next) = step-Agrees p q user i is action d.0 a in
      let kept = preview_adds_nothing (with_identity p i) user i.github_id action in
      elim (loops-Alike (with_identity p i) h user is d.1 next) [
        | inl (p', q', changes, left, right) ↦ inl (
          p',
          q',
          (i.github_id, action) ∷ changes,
          rw (free_p, alike, kept, left),
          rw (free, added_ok, right),
        )
        | inr (left, right, later) ↦
            inr (rw (free_p, alike, kept, left), rw (free, added_ok, right), inr later)
      ]
]

-- For distinct accounts and a registered importer, a preview and the import itself agree: both succeed
-- and report the same changes, and the preview leaves the store as it was; or both are refused,
-- and then another account holds the login of a listed one when its turn comes.
pub import_follows-preview :
    (g : Social) (user now : ℕ) (is : List Identity)
    → Distinct is
    → has_user g.users user ≡ true
    → ((h : Social) × (changes : List (ℕ × Action)) × (import_follows g user is true now
          ≡ ok (g, changes))
        × (import_follows g user is false now ≡ ok (h, changes)))
      ⊎ ((import_follows g user is true now ≡ err refused)
          × (import_follows g user is false now ≡ err refused)
          × Conflicts g.identities is)
unfolding import_follows
import_follows-preview g user now is d registered =
    let start : Agrees g g user is = record {
      same_users = refl;
      same_blocks = refl;
      same_identities = refl;
      registered = registered;
      same_edges = same is;
    } in
    elim (loops-Alike g g user is d start) [
      | inl (p', q', changes, left, right) ↦
          inl (record q' { users = mark_onboarded user now q'.users }, changes, rw left, rw right)
      | inr (left, right, held) ↦ inr (rw left, rw right, held)
    ]
  where
    same :
        (js : List Identity)
        → All
            (λ (j : Identity).
              find_row (is_edge user j.github_id) g.relationships
              ≡ find_row (is_edge user j.github_id) g.relationships)
            js
    same [] = tt
    same (j ∷ js) = (refl, same js)
