-- ===== src/Worker/Drains.antt =====
-- The drain of the cleanup queue ends, whatever happens to the deletions.
use mathlib.Core.Path.{subst}
use gh_stories.Prelude.{
  ℕ, suc, ◌+◌, ◌-◌, ◌≡◌, ◌≢◌, ◌<◌, refl, sym, ap, ◌∙◌, Bool, true, false, some, some-injective,
  List, [], ◌∷◌, ==_iff, leb, Bool-cases, Option-cases, inl, inr, ◌⊎◌, length, update_rows, Memᴰ,
  All, All-Mem, arith,
}
use gh_stories.Domain.{JobState}
use gh_stories.Store.Stories.{CleanupJob}
use gh_stories.Store.Stories.Cleanup.{
  claim_cleanup_job, complete_cleanup_job, fail_cleanup_job, first_due, is_claimable, is_cleanup,
  lease_cleanup, fail_with, earlier, complete_row, retry_at,
}
use gh_stories.Worker.{World}
use gh_stories.Worker.Loops.{Config, CleanupTurn, drain_cleanup_jobs, handle_cleanup_job}

-- How often a job can be handled at most: once for each attempt that is left, and once more, since a
-- lapsed lease is taken whatever its attempts are.
abbrev state_budget : JobState → ℕ → ℕ
state_budget JobState.queued n = n
state_budget JobState.leased n = n
state_budget _ n = 0

abbrev budget : CleanupJob → ℕ
budget j = state_budget j.state (suc (j.max_attempts - j.attempts))

abbrev pub total : List CleanupJob → ℕ
total [] = 0
total (j ∷ js) = budget j + total js

-- `id` is the key of the table.
abbrev pub IsKeyed : List CleanupJob → Type 0
IsKeyed [] = Unit
IsKeyed (j ∷ js) = All (λ k. k.id ≢ j.id) js × IsKeyed js

module _ (f : CleanupJob → CleanupJob) (same : (j : CleanupJob) → (f j).id ≡ j.id) (id : ℕ) where
  update_rows-other :
      (a : ℕ) (js : List CleanupJob)
      → All (λ k. k.id ≢ a) js
      → All (λ k. k.id ≢ a) (update_rows (is_cleanup id) f js)
  update_rows-other a [] h = tt
  update_rows-other a (j ∷ js) h = elim (Bool-cases (is_cleanup id j)) [
    | inl e ↦ rw e ((λ q. h.0 (sym (same j) ∙ q)), update_rows-other a js h.1)
    | inr e ↦ rw e (h.0, update_rows-other a js h.1)
  ]

  update_rows-IsKeyed :
      (js : List CleanupJob) → IsKeyed js → IsKeyed (update_rows (is_cleanup id) f js)
  update_rows-IsKeyed [] k = tt
  update_rows-IsKeyed (j ∷ js) k = elim (Bool-cases (is_cleanup id j)) [
    | inl e ↦ rw e (
      subst (λ a. All (λ x. x.id ≢ a) (update_rows (is_cleanup id) f js)) (sym (same j))
          (update_rows-other j.id js k.0),
      update_rows-IsKeyed js k.1,
    )
    | inr e ↦ rw e (update_rows-other j.id js k.0, update_rows-IsKeyed js k.1)
  ]

  -- Rows without the id stay.
  total-update_none :
      (js : List CleanupJob)
      → All (λ k. k.id ≢ id) js
      → total (update_rows (is_cleanup id) f js) ≡ total js
  total-update_none [] h = refl
  total-update_none (j ∷ js) h =
      let ne = h.0 in
      let other : is_cleanup id j ≡ false = ground arith in
      rw (other, total-update_none js h.1) refl

  -- Only the row with the id counts.
  total-update_rows :
      (j : CleanupJob) (js : List CleanupJob)
      → IsKeyed js
      → Memᴰ j js
      → j.id ≡ id
      → budget (f j) < budget j
      → total (update_rows (is_cleanup id) f js) < total js
  total-update_rows j [] k m e less = elim m [ ]
  total-update_rows j (x ∷ js) k (Memᴰ.head h) e less =
      let here : x.id ≡ id = ap (λ (y : CleanupJob). y.id) (sym h) ∙ e in
      let own : is_cleanup id x ≡ true = (==_iff _ _).1 here in
      let smaller = subst (λ (y : CleanupJob). budget (f y) < budget y) h less in
      let others = total-update_none js (subst (λ a. All (λ y. y.id ≢ a) js) here k.0) in
      rw own (omega (arith, others, smaller))
  total-update_rows j (x ∷ js) k (Memᴰ.tail m) e less =
      let ne = All-Mem (λ y. y.id ≢ x.id) m k.0 in
      let other : is_cleanup id x ≡ false = ground arith in
      let rest = total-update_rows j js k.1 m e less in rw other (omega arith)

-- Two updates of the same row are one.
update_rows_twice :
    (f g : CleanupJob → CleanupJob) (id : ℕ)
    → ((j : CleanupJob) → (f j).id ≡ j.id)
    → (js : List CleanupJob)
    → update_rows (is_cleanup id) g (update_rows (is_cleanup id) f js)
      ≡ update_rows (is_cleanup id) (λ j. g (f j)) js
update_rows_twice f g id same [] = refl
update_rows_twice f g id same (j ∷ js) = elim (Bool-cases (is_cleanup id j)) [
  | inl e ↦
      let own : is_cleanup id (f j) ≡ true = (==_iff _ _).1 (same j ∙ (==_iff _ _).0 e) in
      rw (e, own, update_rows_twice f g id same js) refl
  | inr e ↦ rw (e, e, update_rows_twice f g id same js) refl
]

earlier-either : (j k : CleanupJob) → (earlier j (some k) ≡ j) ⊎ (earlier j (some k) ≡ k)
earlier-either j k = elim (Bool-cases (leb j.run_after k.run_after)) [
  | inl e ↦ inl (rw e refl)
  | inr e ↦ inr (rw e refl)
]

-- The job that a claim takes is stored, and it is queued or leased.
first_due_sound :
    (p : CleanupJob → Bool) (js : List CleanupJob) (j : CleanupJob)
    → first_due p js ≡ some j
    → Memᴰ j js × (p j ≡ true)
unfolding first_due
first_due_sound p [] j h = cc
first_due_sound p (i ∷ js) j h = elim (Bool-cases (p i)) [
  | inr e ↦ let (m, pj) = first_due_sound p js j (rw e at h) in (Memᴰ.tail m, pj)
  | inl e ↦ elim (Option-cases (first_due p js)) [
    | inl last ↦ here i (rw (e, last) at h) e
    | inr (k, f) ↦ elim (earlier-either i k) [
      | inl first ↦ here i (rw (e, f, first) at h) e
      | inr later ↦
          let (m, pk) = first_due_sound p js k f in
          let same : k ≡ j = some-injective _ _ (rw (e, f, later) at h) in
          (Memᴰ.tail (rw (← same) m), rw (← same) pk)
    ]
  ]
]
  where
    here : (x : CleanupJob) → some x ≡ some j → p x ≡ true → Memᴰ j (x ∷ js) × (p j ≡ true)
    here x f e = let same = some-injective _ _ f in (Memᴰ.head (sym same), rw (← same) e)

claimable_budget :
    (now : ℕ) (j : CleanupJob)
    → is_claimable now j ≡ true
    → budget j ≡ suc (j.max_attempts - j.attempts)
claimable_budget now j h = by_state j.state refl
  where
    by_state : (s : JobState) → j.state ≡ s → budget j ≡ suc (j.max_attempts - j.attempts)
    by_state JobState.queued e = rw e refl
    by_state JobState.leased e = rw e refl
    by_state JobState.succeeded e = let f = rw e at h in ground arith
    by_state JobState.failed e = let f = rw e at h in ground arith

module _ (c : Config) (w : World) (t : CleanupTurn) (i : CleanupJob) where
  -- One claim and its end, for the job `i`.
  abbrev handled : World
  handled =
      handle_cleanup_job
        (record w {
          pipeline = record (w.pipeline) {
            cleanup =
                update_rows (is_cleanup i.id)
                  (lease_cleanup c.worker_id (t.claimed_at + c.cleanup_lease)) w.pipeline.cleanup;
          };
        })
        t (lease_cleanup c.worker_id (t.claimed_at + c.cleanup_lease) i)

  handled_lem :
      is_claimable t.claimed_at i ≡ true
      → (f : CleanupJob → CleanupJob) × (handled.pipeline.cleanup
          ≡ update_rows (is_cleanup i.id) f w.pipeline.cleanup)
        × ((j : CleanupJob) → (f j).id ≡ j.id)
        × (budget (f i) < budget i)
  unfolding handle_cleanup_job complete_cleanup_job fail_cleanup_job
  handled_lem due =
      let lease = lease_cleanup c.worker_id (t.claimed_at + c.cleanup_lease) in
      let rows = w.pipeline.cleanup in
      let left = claimable_budget t.claimed_at i due in
      elim (Option-cases t.deletion) [
        | inl e ↦ (
          λ j. complete_row (lease j),
          rw e (update_rows_twice lease complete_row i.id (λ j. refl) rows),
          λ j. refl,
          omega (arith, left),
        )
        | inr (m, e) ↦ elim (Bool-cases (leb i.max_attempts (i.attempts + 1))) [
          | inl spent ↦ (
            λ j. fail_with JobState.failed j.run_after m (lease j),
            rw (e, spent)
                (update_rows_twice lease (λ j. fail_with JobState.failed j.run_after m j) i.id
                  (λ j. refl) rows),
            λ j. refl,
            omega (arith, left),
          )
          | inr again ↦ (
            λ j. fail_with JobState.queued (retry_at t.ended_at (i.attempts + 1)) m (lease j),
            rw (e, again)
                (update_rows_twice lease
                  (fail_with JobState.queued (retry_at t.ended_at (i.attempts + 1)) m) i.id
                  (λ j. refl) rows),
            λ j. refl,
            ground (arith, left),
          )
        ]
      ]

drain_step :
    (c : Config) (w : World) (t : CleanupTurn) (i : CleanupJob) (ts : List CleanupTurn)
    → t.cancelled ≡ false
    → first_due (is_claimable t.claimed_at) w.pipeline.cleanup ≡ some i
    → drain_cleanup_jobs c (t ∷ ts) w ≡ drain_cleanup_jobs c ts (handled c w t i)
unfolding drain_cleanup_jobs claim_cleanup_job
drain_step c w t i ts e found = simp (e, found)

-- The drain of the cleanup queue ends: given more turns than the sum, over its queued and leased jobs,
-- of the attempts that each has left plus one, it comes to its end at any clock readings, however the deletions turn out and whenever
-- it is cancelled. `id` must be the key of the queue.
pub drain_cleanup_jobs-total :
    (c : Config) (turns : List CleanupTurn) (w : World)
    → IsKeyed w.pipeline.cleanup
    → total w.pipeline.cleanup < length turns
    → (w' : World) × (drain_cleanup_jobs c turns w ≡ some w')
unfolding drain_cleanup_jobs claim_cleanup_job
drain_cleanup_jobs-total c [] w k h = absurd (omega arith)
drain_cleanup_jobs-total c (t ∷ ts) w k h = elim (Bool-cases t.cancelled) [
  | inl e ↦ (w, rw e refl)
  | inr e ↦ elim (Option-cases (first_due (is_claimable t.claimed_at) w.pipeline.cleanup)) [
    | inl empty ↦ (w, rw (e, empty) refl)
    | inr (i, found) ↦
        let (m, due) = first_due_sound _ w.pipeline.cleanup i found in
        let (f, same_rows, same, less) = handled_lem c w t i due in
        let smaller = total-update_rows f same i.id i w.pipeline.cleanup k m refl less in
        let (w', done) =
          drain_cleanup_jobs-total c ts (handled c w t i)
            (rw same_rows (update_rows-IsKeyed f same i.id w.pipeline.cleanup k))
            (omega (arith, ap total same_rows, smaller)) in
        (w', drain_step c w t i ts e found ∙ done)
  ]
]
