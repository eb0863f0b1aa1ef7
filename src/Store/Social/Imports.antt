-- ===== src/Store/Social/Imports.antt =====
-- The import of GitHub follows: it only adds rows, and a preview tells what it would do.
use gh_stories.Prelude.{
  ℕ, ◌≡◌, refl, ◌∙◌, Bool, true, false, none, List, [], ◌∷◌, ◌++◌, append-nil, append_assoc, arith,
  find_row, All, All-append,
}
use gh_stories.Domain.{Relationship, active, Provenance, github_import}
use gh_stories.Store.Social.{
  Social, Identity, Result, ok, err, Action, added, already_following, skipped_unfollowed,
  skipped_blocked, is_edge, follow_row, upsert_follow, follow, upsert_identity, decide_import,
  follow_added, import_loop, import_follows, on_ok, >>=-eq-ok,
}

-- A row that an import adds: the importer's active follow, recorded as imported.
abbrev pub IsImported : ℕ → Relationship → Type 0
IsImported user r =
    (r.follower_user_id ≡ user) × (r.state ≡ active) × (r.provenance ≡ github_import)

abbrev Extends : ℕ → List Relationship → List Relationship → Type 0
Extends user old new = (rows : List Relationship) × (new ≡ old ++ rows) × All (IsImported user) rows

Extends-trans :
    (user : ℕ) (a b c : List Relationship) → Extends user a b → Extends user b c → Extends user a c
Extends-trans user a b c (xs, e, p) (ys, f, q) =
    (xs ++ ys, f ∙ rw (e, append_assoc a xs ys), All-append (IsImported user) xs ys p q)

upsert-append :
    (a b : ℕ) (prov : Provenance) (rs : List Relationship)
    → find_row (is_edge a b) rs ≡ none
    → upsert_follow a b prov rs ≡ rs ++ follow_row a b prov ∷ []
unfolding upsert_follow
upsert-append a b prov [] h = refl
upsert-append a b prov (r ∷ rs) h = ground (arith, upsert-append a b prov rs)

-- An account is added only where no row of the edge stands.
added-absent :
    (g : Social) (user gid : ℕ)
    → decide_import g user gid ≡ added
    → find_row (is_edge user gid) g.relationships ≡ none
unfolding decide_import
added-absent g user gid h = ground arith

follow_added-Extends :
    (g h : Social) (user gid : ℕ) (preview : Bool)
    → follow_added g user gid (decide_import g user gid) preview ≡ ok h
    → Extends user g.relationships h.relationships
follow_added-Extends g h user gid preview e = go (decide_import g user gid) preview refl e
  where
    go :
        (a : Action) (p : Bool)
        → decide_import g user gid ≡ a
        → follow_added g user gid a p ≡ ok h
        → Extends user g.relationships h.relationships
    go added false d f =
        let absent = added-absent g user gid d in
        (
          follow_row user gid github_import ∷ [],
          unfold follow in ground (arith, upsert-append user gid github_import g.relationships),
          ((refl, refl, refl), tt),
        )
    go added true d f = ([], ground (arith, append-nil g.relationships), tt)
    go already_following p d f = ([], ground (arith, append-nil g.relationships), tt)
    go skipped_unfollowed p d f = ([], ground (arith, append-nil g.relationships), tt)
    go skipped_blocked p d f = ([], ground (arith, append-nil g.relationships), tt)

import_loop-Extends :
    (g : Social) (user : ℕ) (is : List Identity) (preview : Bool) (r : Social × List (ℕ × Action))
    → import_loop g user is preview ≡ ok r
    → Extends user g.relationships r.0.relationships
unfolding import_loop
import_loop-Extends g user [] preview r e = ([], ground (arith, append-nil g.relationships), tt)
import_loop-Extends g user (i ∷ is) preview r e =
    let (identities, u, e0) = >>=-eq-ok (upsert_identity i g.identities) _ e in
    let g' = record g { identities = identities } in
    let (h, f, e') =
      >>=-eq-ok (follow_added g' user i.github_id (decide_import g' user i.github_id) preview) _
        e0 in
    let (s, k, e'') = >>=-eq-ok (import_loop h user is preview) _ e' in
    let result : s.0 ≡ r.0 = cc in
    rw result at (
      Extends-trans user g.relationships h.relationships s.0.relationships
        (follow_added-Extends g' h user i.github_id preview f)
        (import_loop-Extends h user is preview s k))

on_ok-eq-ok {ℓ κ} :
    {A : Type ℓ} {B : Type κ} (f : A → B) (m : Result A) {b : B}
    → on_ok f m ≡ ok b
    → (a : A) × (m ≡ ok a) × (f a ≡ b)
on_ok-eq-ok f (ok a) h = (a, refl, cc)
on_ok-eq-ok f (err e) h = cc

-- An import changes no row that was there: every unfollow tombstone, native follow and earlier
-- import stays as it was. It only adds active follows of the importer, recorded as imported.
pub import_follows-Extends :
    (g h : Social) (user now : ℕ) (is : List Identity) (changes : List (ℕ × Action))
    → import_follows g user is false now ≡ ok (h, changes)
    → (rows : List Relationship) × (h.relationships ≡ g.relationships ++ rows)
      × All (IsImported user) rows
unfolding import_follows
import_follows-Extends g h user now is changes e =
    let (r, f, k) = on_ok-eq-ok _ (import_loop g user is false) e in
    let (rows, grown, all) = import_loop-Extends g user is false r f in
    (rows, ground (arith, k, grown), all)
