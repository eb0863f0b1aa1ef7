-- ===== src/Store/Stories/Jobs.antt =====
-- internal/store/story.go and jobs.go: leased media and cleanup jobs, and the publication itself.
use Prim.Native.String.{String}
use gh_stories.Prelude.{
  ℕ, ◌+◌, ◌*◌, ◌^◌, Bool, true, false, ◌&&◌, ◌||◌, Option, none, some, List, [], ◌∷◌, ltb, leb,
  ◌==◌, if◌then◌else◌, find_row, exists_row, update_rows, select_rows, map,
}
use gh_stories.Domain.{
  StoryItem, is_processing, published, failed, JobState, MediaVariant, same_kind,
}
use gh_stories.Store.Social.{Result, ok, err, not_found, ◌>>=◌}
use gh_stories.Store.Stories.{
  UploadIntent, MediaJob, CleanupJob, Pipeline, has_id, is_job, new_cleanup,
}
use gh_stories.Store.Stories.Uploads.{or_not_found}

abbrev second : ℕ
second = 1_000_000_000

abbrev pub is_queued : JobState → Bool
is_queued JobState.queued = true
is_queued _ = false

abbrev pub is_leased : JobState → Bool
is_leased JobState.leased = true
is_leased _ = false

-- `t < now`, which NULL fails.
abbrev pub lapsed : ℕ → Option ℕ → Bool
lapsed now none = false
lapsed now (some t) = ltb t now

-- The `WHERE` of `ClaimMediaJob`.
abbrev pub is_claimable : ℕ → MediaJob → Bool
is_claimable now j =
    leb j.run_after now && (is_queued j.state || is_leased j.state && lapsed now j.lease_expires_at)

-- `WHERE p ORDER BY created_at LIMIT 1`
abbrev pub older : MediaJob → Option MediaJob → MediaJob
older j none = j
older j (some k) = if leb j.created_at k.created_at then j else k

unfoldable pub oldest : (MediaJob → Bool) → List MediaJob → Option MediaJob
oldest p [] = none
oldest p (j ∷ js) = let rest = oldest p js in if p j then some (older j rest) else rest

abbrev pub lease_media : String → ℕ → MediaJob → MediaJob
lease_media owner until j = record j {
  state = JobState.leased;
  lease_owner = some owner;
  lease_expires_at = some until;
  attempts = j.attempts + 1;
}

-- `ClaimMediaJob`
unfoldable pub claim_media_job : Pipeline → ℕ → String → ℕ → Result (MediaJob × Pipeline)
claim_media_job p clock owner lease = do
  j ← or_not_found (oldest (is_claimable clock) p.jobs)
  let until = clock + lease
  ok (
    lease_media owner until j,
    record p { jobs = update_rows (is_job j.id) (lease_media owner until) p.jobs },
  )

-- `INSERT INTO media_variants … ON CONFLICT (story_item_id, kind) DO UPDATE`
abbrev pub upsert_variant : MediaVariant → List MediaVariant → List MediaVariant
upsert_variant v [] = v ∷ []
upsert_variant v (w ∷ ws) =
    if w.story_id == v.story_id && same_kind w.kind v.kind then v ∷ ws else w ∷ upsert_variant v ws

abbrev pub upsert_variants : List MediaVariant → List MediaVariant → List MediaVariant
upsert_variants [] ws = ws
upsert_variants (v ∷ vs) ws = upsert_variants vs (upsert_variant v ws)

abbrev pub for_story : ℕ → MediaVariant → MediaVariant
for_story id v = record v { story_id = id }

-- The keys of the job's original: `media_jobs mj JOIN upload_intents ui`.
abbrev original_keys : Pipeline → ℕ → List String
original_keys p job =
    map (λ (u : UploadIntent). u.object_key)
      (select_rows (λ u. exists_row (λ mj. mj.id == job && mj.upload_intent_id == u.id) p.jobs)
        p.uploads)

abbrev pub schedule_original : Pipeline → ℕ → ℕ → ℕ → List CleanupJob
schedule_original p new_id job run_after = elim (original_keys p job) [
  | [] ↦ p.cleanup
  | k ∷ ks ↦ new_cleanup new_id (k ∷ ks) run_after ∷ p.cleanup
]

abbrev pub is_processing_item : ℕ → StoryItem → Bool
is_processing_item id s = has_id id s && is_processing s.state

abbrev pub publish_row : ℕ → ℕ → StoryItem → StoryItem
publish_row now expires s = record s {
  state = published;
  published_at = some now;
  expires_at = some expires;
}

abbrev pub end_job : JobState → MediaJob → MediaJob
end_job state j = record j { state = state; lease_owner = none; lease_expires_at = none }

-- `PublishStory`; the publication and the expiry time are its other results.
unfoldable pub publish_story :
    Pipeline → ℕ → ℕ → ℕ → ℕ → List MediaVariant → ℕ → Result ((ℕ × ℕ) × Pipeline)
publish_story p clock new_id job story variants lifetime =
    let expires = clock + lifetime in
    if exists_row (is_processing_item story) p.stories
    then ok (
      (clock, expires),
      record p {
        variants = upsert_variants (map (for_story story) variants) p.variants;
        stories = update_rows (is_processing_item story) (publish_row clock expires) p.stories;
        jobs = update_rows (is_job job) (end_job JobState.succeeded) p.jobs;
        cleanup = schedule_original p new_id job clock;
      },
    )
    else err not_found

abbrev pub retry_row : ℕ → String → String → MediaJob → MediaJob
retry_row run_after code message j = record j {
  state = JobState.queued;
  run_after = run_after;
  error_code = code;
  error_message = message;
  lease_owner = none;
  lease_expires_at = none;
}

abbrev pub fail_row : String → String → MediaJob → MediaJob
fail_row code message j = record j {
  state = JobState.failed;
  error_code = code;
  error_message = message;
  lease_owner = none;
  lease_expires_at = none;
}

abbrev pub fail_story_row : String → String → StoryItem → StoryItem
fail_story_row code message s = record s {
  state = failed;
  failure_code = code;
  failure_message = message;
}

-- `FailMediaJob`
unfoldable pub fail_media_job : Pipeline → ℕ → ℕ → ℕ → ℕ → String → String → Bool → Result Pipeline
fail_media_job p clock new_id job story code message retryable = do
  j ← or_not_found (find_row (is_job job) p.jobs)
  ok (
      if retryable && ltb j.attempts j.max_attempts
      then record p {
        jobs =
            update_rows (is_job job)
              (retry_row (clock + 2 ^ j.attempts * (10 * second)) code message) p.jobs;
      }
      else record p {
        jobs = update_rows (is_job job) (fail_row code message) p.jobs;
        stories = update_rows (is_processing_item story) (fail_story_row code message) p.stories;
        cleanup = schedule_original p new_id job clock;
      })

abbrev requeue_media : MediaJob → MediaJob
requeue_media j = record j { state = JobState.queued; lease_owner = none; lease_expires_at = none }

abbrev requeue_cleanup : CleanupJob → CleanupJob
requeue_cleanup j = record j {
  state = JobState.queued;
  lease_owner = none;
  lease_expires_at = none;
}

-- `ReapExpiredLeases`
unfoldable pub reap_expired_leases : Pipeline → ℕ → Pipeline
reap_expired_leases p clock = record p {
  jobs =
      update_rows
        (λ j. is_leased j.state && lapsed clock j.lease_expires_at && ltb j.attempts j.max_attempts)
        requeue_media p.jobs;
  cleanup =
      update_rows
        (λ j. is_leased j.state && lapsed clock j.lease_expires_at && ltb j.attempts j.max_attempts)
        requeue_cleanup p.cleanup;
}
