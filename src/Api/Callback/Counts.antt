-- ===== src/Api/Callback/Counts.antt =====
-- The summary of an import accounts for everyone that it read.
use gh_stories.Prelude.{
  All, ◌==◌, exists_row, ℕ, ◌+◌, ◌≤◌, ◌≡◌, inl, inr, refl, true, false, some, List, [], ◌∷◌, length,
  length-append, arith, Bool-cases, Bool, ltb, ◌∙◌,
}
use gh_stories.Domain.{github_import}
use gh_stories.Store.Social.{
  Social, ok, Identity, Action, added, already_following, skipped_unfollowed, skipped_blocked,
  import_follows, import_loop, decide_import, follow_added, upsert_identity, insert_identity,
  holds_login, has_user, mark_onboarded, follow, upsert_follow,
}
use gh_stories.Store.Social.Preview.{has_identity-insert}
use gh_stories.Api.Callback.{ImportSummary, summarize, tally, no_summary, run_import}

abbrev pub counted : ImportSummary → ℕ
counted m = m.added_count + m.already_count + m.unfollowed_count + m.blocked_count

tally-counted : (m : ImportSummary) (c : ℕ × Action) → counted (tally m c) ≡ counted m + 1
tally-counted m (id, added) = omega arith
tally-counted m (id, already_following) = omega arith
tally-counted m (id, skipped_unfollowed) = omega arith
tally-counted m (id, skipped_blocked) = omega arith

tally-sample :
    (m : ImportSummary) (c : ℕ × Action) → length m.sample ≤ 5 → length (tally m c).sample ≤ 5
tally-sample m (id, added) h = elim (Bool-cases (ltb (length m.sample) 5)) [
  | inl e ↦ rw e (
      let shorter : length m.sample + 1 ≤ 5 = ground arith in
      omega (arith, length-append m.sample (id ∷ []), shorter))
  | inr e ↦ rw e h
]
tally-sample m (id, already_following) h = h
tally-sample m (id, skipped_unfollowed) h = h
tally-sample m (id, skipped_blocked) h = h

summarize-counted :
    (m : ImportSummary) (cs : List (ℕ × Action))
    → length m.sample ≤ 5
    → (counted (summarize m cs) ≡ counted m + length cs)
      × (length (summarize m cs).sample ≤ 5)
      × ((summarize m cs).github_following_count ≡ m.github_following_count)
unfolding summarize
summarize-counted m [] h = (omega arith, h, refl)
summarize-counted m (c ∷ cs) h =
    let (sum, short, same) = summarize-counted (tally m c) cs (tally-sample m c h) in
    (omega (arith, sum, tally-counted m c), short, same ∙ kept c)
  where
    kept : (c : ℕ × Action) → (tally m c).github_following_count ≡ m.github_following_count
    kept (id, added) = refl
    kept (id, already_following) = refl
    kept (id, skipped_unfollowed) = refl
    kept (id, skipped_blocked) = refl

-- No other account in the table holds a listed login, and no two listed accounts share one.
abbrev pub IsFree : List Identity → List Identity → Type 0
IsFree is js = All (λ i. exists_row (holds_login i) js ≡ false) is

abbrev pub IsConsistent : List Identity → Type 0
IsConsistent [] = Unit
IsConsistent (i ∷ is) = All (λ j. holds_login j i ≡ false) is × IsConsistent is

exists_row-insert_identity :
    (i j : Identity) (js : List Identity)
    → holds_login j i ≡ false
    → exists_row (holds_login j) js ≡ false
    → exists_row (holds_login j) (insert_identity i js) ≡ false
unfolding insert_identity
exists_row-insert_identity i j [] h f = rw h refl
exists_row-insert_identity i j (k ∷ js) h f = elim (Bool-cases (holds_login j k)) [
  | inl e ↦ let f' = rw e at f in cc
  | inr e ↦
      let rest = rw e at f in
      elim (Bool-cases (k.github_id == i.github_id)) [
        | inl same ↦ rw (same, h) rest
        | inr other ↦ rw (other, e) (exists_row-insert_identity i j js h rest)
      ]
]

IsFree-insert_identity :
    (i : Identity) (is js : List Identity)
    → All (λ j. holds_login j i ≡ false) is
    → IsFree is js
    → IsFree is (insert_identity i js)
IsFree-insert_identity i [] js h f = tt
IsFree-insert_identity i (j ∷ is) js h f =
    (exists_row-insert_identity i j js h.0 f.0, IsFree-insert_identity i is js h.1 f.1)

abbrev with_identity : Social → Identity → Social
with_identity g i = record g { identities = insert_identity i g.identities }

-- A follow that an import adds succeeds for a registered person, and keeps the accounts.
follow_added-ok :
    (g : Social) (user : ℕ) (i : Identity) (a : Action) (preview : Bool)
    → has_user g.users user ≡ true
    → (h : Social) × (follow_added (with_identity g i) user i.github_id a preview ≡ ok h)
      × (has_user h.users user ≡ true)
      × (h.identities ≡ insert_identity i g.identities)
unfolding follow
follow_added-ok g user i added false r = (
  record (with_identity g i) {
    relationships = upsert_follow user i.github_id github_import g.relationships;
  },
  rw (r, has_identity-insert i g.identities) refl,
  r,
  refl,
)
follow_added-ok g user i added true r = (_, refl, r, refl)
follow_added-ok g user i already_following preview r = (_, refl, r, refl)
follow_added-ok g user i skipped_unfollowed preview r = (_, refl, r, refl)
follow_added-ok g user i skipped_blocked preview r = (_, refl, r, refl)

import_loop-length :
    (g : Social) (user : ℕ) (is : List Identity) (preview : Bool)
    → has_user g.users user ≡ true
    → IsConsistent is
    → IsFree is g.identities
    → (h : Social) × (cs : List (ℕ × Action)) × (import_loop g user is preview ≡ ok (h, cs))
      × (length cs ≡ length is)
unfolding import_loop upsert_identity
import_loop-length g user [] preview r c f = (g, [], refl, refl)
import_loop-length g user (i ∷ is) preview r c f =
    let action = decide_import (with_identity g i) user i.github_id in
    let (h, added_ok, r', same) = follow_added-ok g user i action preview r in
    let free = IsFree-insert_identity i is g.identities c.0 f.1 in
    let (k, cs, done_ok, count) = import_loop-length h user is preview r' c.1 (rw same free) in
    (k, (i.github_id, action) ∷ cs, rw (f.0, added_ok, done_ok) refl, omega (arith, count))

-- An import that a registered person asks for, or its preview, succeeds once GitHub has answered, when
-- no other account holds a listed login, in the table or in the list. Its summary then accounts for
-- every account that GitHub listed: the four counts add up to their number, and at most five of them
-- are named. A declined import reads nothing and changes nothing.
pub run_import-counted :
    (g : Social) (user now : ℕ) (is : List Identity) (preview : Bool)
    → has_user g.users user ≡ true
    → IsConsistent is
    → IsFree is g.identities
    → ((h : Social) × (m : ImportSummary) × (run_import g user (some is) true preview now
          ≡ some (ok (h, m)))
        × (counted m ≡ length is)
        × (m.github_following_count ≡ length is)
        × (length m.sample ≤ 5))
      × (run_import g user (some is) false preview now ≡ some (ok (g, no_summary 0)))
unfolding run_import import_follows
run_import-counted g user now is true r c f =
    let (k, cs, loop_ok, same) = import_loop-length g user is true r c f in
    let (sum, short, total) = summarize-counted (no_summary (length is)) cs (omega arith) in
    (
      (
        g,
        summarize (no_summary (length is)) cs,
        rw loop_ok refl,
        omega (arith, sum, same),
        total,
        short,
      ),
      refl,
    )
run_import-counted g user now is false r c f =
    let (k, cs, loop_ok, same) = import_loop-length g user is false r c f in
    let (sum, short, total) = summarize-counted (no_summary (length is)) cs (omega arith) in
    (
      (
        record k { users = mark_onboarded user now k.users },
        summarize (no_summary (length is)) cs,
        rw loop_ok refl,
        omega (arith, sum, same),
        total,
        short,
      ),
      refl,
    )
