-- ===== src/Worker/Runs.antt =====
-- A bounded run of the worker ends, and keeps to its bound.
use Prim.Native.String.{String}
use mathlib.Core.Path.{subst}
use gh_stories.Prelude.{
  ℕ, ◌+◌, ◌≡◌, ◌≤◌, ◌<◌, refl, sym, ap, Bool, true, false, not, ◌&&◌, Option, some, List, [], ◌∷◌,
  ◌==◌, leb, Bool-cases, inl, inr, length, arith,
}
use gh_stories.Worker.{World}
use gh_stories.Worker.Loops.{
  Config, CleanupTurn, Ended, MediaTurn, cleaned, deadline_of, is_past, media_phase,
  process_one_media_job, run_cleanup_pass, run_jobs, run_once, runs_cleanup, runs_media, sweep,
  Tables, with_world,
}
use gh_stories.Worker.Drains.{IsKeyed, total, drain_cleanup_jobs-total}

abbrev Ends : ℕ → Option Ended → Type 0
Ends most o = (e : Ended) × (o ≡ some e) × (e.processed ≤ most)

module _ (show : ℕ → String) (c : Config) (deadline : Option ℕ) (capped : 0 < c.max_jobs) where
  run_jobs-Ends :
      (ts : List MediaTurn) (processed : ℕ) (w : World)
      → processed ≤ c.max_jobs
      → c.max_jobs ≤ processed + length ts
      → Ends c.max_jobs (run_jobs show c deadline ts processed w)
  unfolding run_jobs
  run_jobs-Ends [] processed w le enough =
      let full : (not (c.max_jobs == 0) && leb c.max_jobs processed) ≡ true = ground arith in
      (record { processed = processed; was_cancelled = false; world = w }, rw full refl, le)
  run_jobs-Ends (t ∷ ts) processed w le enough =
      elim (Bool-cases (not (c.max_jobs == 0) && leb c.max_jobs processed)) [
        | inl full ↦
            (record { processed = processed; was_cancelled = false; world = w }, rw full refl, le)
        | inr room ↦ elim (Bool-cases t.cancelled) [
          | inl stop ↦ (
            record { processed = processed; was_cancelled = true; world = w },
            simp (room, stop),
            le,
          )
          | inr on ↦ elim (Bool-cases (is_past deadline t.wall)) [
            | inl late ↦ (
              record { processed = processed; was_cancelled = false; world = w },
              simp (room, on, late),
              le,
            )
            | inr early ↦ elim (Bool-cases (process_one_media_job show c w t).1) [
              | inl found ↦
                  let (e, done, most) =
                    run_jobs-Ends ts (processed + 1) (process_one_media_job show c w t).0
                      (ground arith) (omega arith) in
                  (e, simp (room, on, early, found) done, most)
              | inr idle ↦ (
                record {
                  processed = processed;
                  was_cancelled = false;
                  world = (process_one_media_job show c w t).0;
                },
                simp (room, on, early, idle),
                le,
              )
            ]
          ]
        ]
      ]

media_phase-Ends :
    (show : ℕ → String) (c : Config) (start : ℕ) (cancelled : Bool) (turns : List MediaTurn)
    (t : Tables)
    → 0 < c.max_jobs
    → c.max_jobs ≤ length turns
    → Ends c.max_jobs (media_phase show c start cancelled turns (some t))
media_phase-Ends show c start cancelled turns t capped enough =
    elim (Bool-cases (runs_media c.role)) [
      | inl e ↦ rw e (
          run_jobs-Ends show c (deadline_of c.max_duration start) capped turns 0 t.world
            (omega arith) (omega arith))
      | inr e ↦
          rw e (
            record { processed = 0; was_cancelled = cancelled; world = t.world },
            refl,
            omega arith,
          )
    ]

cleaned-total :
    (c : Config) (t : Tables) (clock ids more_ids : ℕ) (cleanups : List CleanupTurn)
    → IsKeyed (sweep c t clock ids more_ids).world.pipeline.cleanup
    → total (sweep c t clock ids more_ids).world.pipeline.cleanup < length cleanups
    → (t' : Tables) × (cleaned c t clock ids more_ids cleanups ≡ some t')
unfolding run_cleanup_pass
cleaned-total c t clock ids more_ids cleanups keyed few = elim (Bool-cases (runs_cleanup c.role)) [
  | inl e ↦
      let (w, done) =
        drain_cleanup_jobs-total c cleanups (sweep c t clock ids more_ids).world keyed few in
      (
        record (sweep c t clock ids more_ids) { world = w },
        rw e (ap (with_world (sweep c t clock ids more_ids)) done),
      )
  | inr e ↦ (t, rw e refl)
]

-- A bounded run ends: given more turns for the swept cleanup queue than the sum, over its queued and
-- leased jobs, of the attempts that each has left plus one, and as many turns for media jobs as the
-- cap allows, `RunOnce` returns in every role, and it has processed at most `MaxJobs` jobs. The cap
-- must be set and `id` be the queue's key.
pub run_once-Ends :
    (show : ℕ → String) (c : Config) (t : Tables) (start clock ids more_ids : ℕ)
    (cancelled_after : Bool) (cleanups : List CleanupTurn) (turns : List MediaTurn)
    → 0 < c.max_jobs
    → IsKeyed (sweep c t clock ids more_ids).world.pipeline.cleanup
    → total (sweep c t clock ids more_ids).world.pipeline.cleanup < length cleanups
    → c.max_jobs ≤ length turns
    → Ends c.max_jobs (run_once show c t start clock ids more_ids cancelled_after cleanups turns)
unfolding run_once
run_once-Ends show c t start clock ids more_ids cancelled_after cleanups turns capped keyed few
      enough =
    let (t', done) = cleaned-total c t clock ids more_ids cleanups keyed few in
    subst (λ o. Ends c.max_jobs (media_phase show c start cancelled_after turns o)) (sym done)
      (media_phase-Ends show c start cancelled_after turns t' capped enough)
