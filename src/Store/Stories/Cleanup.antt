-- ===== src/Store/Stories/Cleanup.antt =====
-- internal/store/jobs.go: the cleanup queue.
use Prim.Native.String.{String}
use gh_stories.Prelude.{
  ℕ, ◌+◌, ◌*◌, ◌^◌, Bool, ◌&&◌, ◌||◌, Option, none, some, List, [], ◌∷◌, leb, ◌==◌, if◌then◌else◌,
  update_rows,
}
use gh_stories.Domain.{JobState}
use gh_stories.Store.Social.{Result, ok, ◌>>=◌}
use gh_stories.Store.Stories.{CleanupJob, Pipeline}
use gh_stories.Store.Stories.Uploads.{or_not_found}
use gh_stories.Store.Stories.Jobs.{is_queued, is_leased, lapsed}

abbrev second : ℕ
second = 1_000_000_000

abbrev pub is_cleanup : ℕ → CleanupJob → Bool
is_cleanup id j = j.id == id

abbrev pub is_claimable : ℕ → CleanupJob → Bool
is_claimable now j =
    leb j.run_after now && (is_queued j.state || is_leased j.state && lapsed now j.lease_expires_at)

abbrev pub earlier : CleanupJob → Option CleanupJob → CleanupJob
earlier j none = j
earlier j (some k) = if leb j.run_after k.run_after then j else k

-- `WHERE p ORDER BY run_after LIMIT 1`
unfoldable pub first_due : (CleanupJob → Bool) → List CleanupJob → Option CleanupJob
first_due p [] = none
first_due p (j ∷ js) = let rest = first_due p js in if p j then some (earlier j rest) else rest

abbrev pub lease_cleanup : String → ℕ → CleanupJob → CleanupJob
lease_cleanup owner until j = record j {
  state = JobState.leased;
  lease_owner = some owner;
  lease_expires_at = some until;
  attempts = j.attempts + 1;
}

-- `ClaimCleanupJob`
unfoldable pub claim_cleanup_job : Pipeline → ℕ → String → ℕ → Result (CleanupJob × Pipeline)
claim_cleanup_job p clock owner lease = do
  j ← or_not_found (first_due (is_claimable clock) p.cleanup)
  let until = clock + lease
  ok (
    lease_cleanup owner until j,
    record p { cleanup = update_rows (is_cleanup j.id) (lease_cleanup owner until) p.cleanup },
  )

abbrev pub complete_row : CleanupJob → CleanupJob
complete_row j = record j {
  state = JobState.succeeded;
  lease_owner = none;
  lease_expires_at = none;
}

-- `CompleteCleanupJob`
unfoldable pub complete_cleanup_job : Pipeline → ℕ → Pipeline
complete_cleanup_job p id = record p {
  cleanup = update_rows (is_cleanup id) complete_row p.cleanup;
}

abbrev pub fail_with : JobState → ℕ → String → CleanupJob → CleanupJob
fail_with state run_after message j = record j {
  state = state;
  run_after = run_after;
  error_message = message;
  lease_owner = none;
  lease_expires_at = none;
}

abbrev pub retry_at : ℕ → ℕ → ℕ
retry_at clock attempts = clock + 2 ^ attempts * (30 * second)

-- `FailCleanupJob`, with the attempts and the budget that the claim returned.
unfoldable pub fail_cleanup_job : Pipeline → ℕ → ℕ → ℕ → ℕ → String → Pipeline
fail_cleanup_job p clock id attempts max message =
    if leb max attempts
    then record p {
      cleanup =
          update_rows (is_cleanup id) (λ j. fail_with JobState.failed j.run_after message j)
            p.cleanup;
    }
    else record p {
      cleanup =
          update_rows (is_cleanup id) (fail_with JobState.queued (retry_at clock attempts) message)
            p.cleanup;
    }
