-- ===== src/Worker/Loops.antt =====
-- internal/worker/worker.go and cleanup_loop.go: single jobs, whole passes and bounded runs.
--
-- A loop takes a list of turns: what the clocks say and what happens outside in each round. It is
-- still running, `none`, where the list ends before the loop does.
use Prim.Native.String.{String}
use gh_stories.Prelude.{
  ℕ, ◌+◌, Bool, true, false, not, ◌&&◌, Option, none, some, List, [], ◌∷◌, ◌==◌, leb, if◌then◌else◌,
}
use gh_stories.Store.Social.{Result, ok, err}
use gh_stories.Store.Stories.{Pipeline, MediaJob, CleanupJob}
use gh_stories.Store.Stories.Jobs.{claim_media_job, reap_expired_leases}
use gh_stories.Store.Stories.Items.{expire_stories}
use gh_stories.Store.Stories.Abandoned.{gc_abandoned_uploads}
use gh_stories.Store.Stories.Cleanup.{claim_cleanup_job, complete_cleanup_job, fail_cleanup_job}
use gh_stories.Store.Interact.{Inbox}
use gh_stories.Store.Purges.{Pending, purge_replies, purge_views, purge_expired_auth}
use gh_stories.Worker.{World, Outside, handle_media_job, delete_objects}

-- `Role`
pub data Role : Type 0 where
  media cleanup both : Role

abbrev pub runs_media : Role → Bool
runs_media cleanup = false
runs_media _ = true

abbrev pub runs_cleanup : Role → Bool
runs_cleanup media = false
runs_cleanup _ = true

-- `Config`, the fields that the loops read. `max_duration` is `none` where there is no cap.
pub record Config : Type 0 where
  pub role : Role
  pub worker_id : String
  pub media_lease : ℕ
  pub media_limit : ℕ
  pub cleanup_lease : ℕ
  pub batch_size : ℕ
  pub story_lifetime : ℕ
  pub view_retention : ℕ
  pub max_jobs : ℕ
  pub max_duration : Option ℕ

-- One media job: the clock of its claim, that of its end, and what happens outside.
pub record MediaTurn : Type 0 where
  pub cancelled : Bool
  pub wall : ℕ
  pub claimed_at : ℕ
  pub ended_at : ℕ
  pub new_id : ℕ
  pub outside : Outside

-- How `RunOnce` ends: with the number of processed jobs, and whether it was cancelled.
pub record Ended : Type 0 where
  pub processed : ℕ
  pub was_cancelled : Bool
  pub world : World

abbrev pub is_past : Option ℕ → ℕ → Bool
is_past none wall = false
is_past (some deadline) wall = leb deadline wall

module _ (show : ℕ → String) (c : Config) where
  abbrev pub with_claim : World → MediaTurn → Result (MediaJob × Pipeline) → World × Bool
  with_claim w t (err e) = (w, false)
  with_claim w t (ok r) = (
    handle_media_job show (record w { pipeline = r.1 }) c.media_limit c.story_lifetime t.ended_at
        t.new_id r.0 t.outside,
    true,
  )

  -- `ProcessOneMediaJob`, and whether there was a job.
  unfoldable pub process_one_media_job : World → MediaTurn → World × Bool
  process_one_media_job w t =
      with_claim w t (claim_media_job w.pipeline t.claimed_at c.worker_id c.media_lease)

  -- The loop of `RunOnce`.
  unfoldable pub run_jobs : Option ℕ → List MediaTurn → ℕ → World → Option Ended
  run_jobs deadline [] processed w =
      if not (c.max_jobs == 0) && leb c.max_jobs processed
      then some (record { processed = processed; was_cancelled = false; world = w })
      else none
  run_jobs deadline (t ∷ ts) processed w =
      let r = process_one_media_job w t in
      let rest = run_jobs deadline ts (processed + 1) r.0 in
      if not (c.max_jobs == 0) && leb c.max_jobs processed
      then some (record { processed = processed; was_cancelled = false; world = w })
      else if t.cancelled
      then some (record { processed = processed; was_cancelled = true; world = w })
      else if is_past deadline t.wall
      then some (record { processed = processed; was_cancelled = false; world = w })
      else if r.1
      then rest
      else some (record { processed = processed; was_cancelled = false; world = r.0 })

-- One cleanup job; `deletion` is `none` where the objects are deleted, `some` the text of an
-- error with which only the keys of `removed` are deleted.
pub record CleanupTurn : Type 0 where
  pub cancelled : Bool
  pub claimed_at : ℕ
  pub ended_at : ℕ
  pub deletion : Option String
  pub removed : List String

-- `handleCleanupJob`, for the only kind of job that is queued.
unfoldable pub handle_cleanup_job : World → CleanupTurn → CleanupJob → World
handle_cleanup_job w t j = elim t.deletion [
  | none ↦ record {
    pipeline = complete_cleanup_job w.pipeline j.id;
    objects = delete_objects j.object_keys w.objects;
  }
  | some e ↦ record {
    objects = delete_objects t.removed w.objects;
    pipeline = fail_cleanup_job w.pipeline t.ended_at j.id j.attempts j.max_attempts e;
  }
]

-- `drainCleanupJobs`
unfoldable pub drain_cleanup_jobs : Config → List CleanupTurn → World → Option World
drain_cleanup_jobs c [] w = none
drain_cleanup_jobs c (t ∷ ts) w = elim t.cancelled [
  | true ↦ some w
  | false ↦ elim (claim_cleanup_job w.pipeline t.claimed_at c.worker_id c.cleanup_lease) [
    | err e ↦ some w
    | ok r ↦ drain_cleanup_jobs c ts (handle_cleanup_job (record w { pipeline = r.1 }) t r.0)
  ]
]

-- All tables that a cleanup pass changes.
pub record Tables : Type 0 where
  pub world : World
  pub inbox : Inbox
  pub pending : Pending

-- `runCleanupPass` before the drain; `ids` and `more_ids` are those that the database generates.
unfoldable pub sweep : Config → Tables → ℕ → ℕ → ℕ → Tables
sweep c t clock ids more_ids =
    let reaped = reap_expired_leases t.world.pipeline clock in
    let expired = (expire_stories reaped clock ids c.batch_size).1 in
    let collected = (gc_abandoned_uploads expired clock more_ids c.batch_size).1 in
    record {
      world = record (t.world) { pipeline = collected };
      inbox = (purge_views (purge_replies t.inbox clock).1 clock c.view_retention).1;
      pending = purge_expired_auth t.pending clock;
    }

abbrev pub with_world : Tables → Option World → Option Tables
with_world t none = none
with_world t (some w) = some (record t { world = w })

-- `runCleanupPass`
unfoldable pub run_cleanup_pass : Config → Tables → ℕ → ℕ → ℕ → List CleanupTurn → Option Tables
run_cleanup_pass c t clock ids more_ids turns =
    let swept = sweep c t clock ids more_ids in
    with_world swept (drain_cleanup_jobs c turns swept.world)

abbrev pub deadline_of : Option ℕ → ℕ → Option ℕ
deadline_of none start = none
deadline_of (some d) start = some (start + d)

abbrev pub cleaned : Config → Tables → ℕ → ℕ → ℕ → List CleanupTurn → Option Tables
cleaned c t clock ids more_ids turns =
    if runs_cleanup c.role then run_cleanup_pass c t clock ids more_ids turns else some t

-- The media jobs of `RunOnce`, behind its cleanup pass.
abbrev pub media_phase :
    (ℕ → String) → Config → ℕ → Bool → List MediaTurn → Option Tables → Option Ended
media_phase show c start cancelled turns none = none
media_phase show c start cancelled turns (some t) =
    if runs_media c.role
    then run_jobs show c (deadline_of c.max_duration start) turns 0 t.world
    else some (record { processed = 0; was_cancelled = cancelled; world = t.world })

-- `RunOnce`
unfoldable pub run_once :
    (ℕ → String)
    → Config
    → Tables
    → (start clock ids more_ids : ℕ) → (cancelled_after : Bool) → List CleanupTurn
    → List MediaTurn
    → Option Ended
run_once show c t start clock ids more_ids cancelled_after cleanups turns =
    media_phase show c start cancelled_after turns (cleaned c t clock ids more_ids cleanups)
