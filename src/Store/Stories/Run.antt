-- ===== src/Store/Stories/Run.antt =====
-- Sequences of the pipeline's operations, by any callers and workers. Every operation is one
-- transaction; an operation that fails changes nothing.
use Prim.Native.String.{String}
use gh_stories.Prelude.{ℕ, Bool, List, [], ◌∷◌}
use gh_stories.Domain.{MediaVariant}
use gh_stories.Store.Social.{Result, ok, err}
use gh_stories.Store.Stories.{Pipeline}
use gh_stories.Store.Stories.Uploads.{
  StoryDraft, Finalize, Finalized, create_upload_intent, stash_draft, finalize_upload,
}
use gh_stories.Store.Stories.Jobs.{
  claim_media_job, publish_story, fail_media_job, reap_expired_leases,
}
use gh_stories.Store.Stories.Items.{
  Edit, record_anonymous_view, update_story, delete_story, expire_stories,
}
use gh_stories.Store.Stories.Abandoned.{gc_abandoned_uploads}
use gh_stories.Store.Stories.Cleanup.{claim_cleanup_job, complete_cleanup_job, fail_cleanup_job}

pub data Op : Type 0 where
  create : (clock id user : ℕ) → String → String → (size ttl : ℕ) → Op
  stash : (id : ℕ) → StoryDraft → String → Op
  finalize : (clock : ℕ) → Finalize → Op
  claim : (clock : ℕ) → String → (lease : ℕ) → Op
  publish : (clock new_id job story : ℕ) → List MediaVariant → Op
  fail : (clock new_id job story : ℕ) → String → String → Bool → Op
  reap : (clock : ℕ) → Op
  view : (clock id : ℕ) → Op
  edit : (owner id : ℕ) → Edit → Op
  delete : (clock db_now new_id owner id : ℕ) → Bool → String → Op
  expire : (clock new_id limit : ℕ) → Op
  gc_uploads : (clock new_id limit : ℕ) → Op
  claim_cleanup : (clock : ℕ) → String → (lease : ℕ) → Op
  complete_cleanup : (id : ℕ) → Op
  fail_cleanup : (clock id attempts max : ℕ) → String → Op

abbrev pub committed {ℓ} : {A : Type ℓ} → (A → Pipeline) → Pipeline → Result A → Pipeline
committed f p (ok a) = f a
committed f p (err e) = p

-- The lifetime of a published item is the worker's `StoryLifetime`.
unfoldable pub step : ℕ → Pipeline → Op → Pipeline
step lifetime p (create clock id user key mime size ttl) =
    create_upload_intent p clock id user key mime size ttl
step lifetime p (stash id d filename) = stash_draft p id d filename
step lifetime p (finalize clock a) =
    committed (λ (r : Finalized). r.1) p (finalize_upload p clock a)
step lifetime p (claim clock owner lease) =
    committed (λ r. r.1) p (claim_media_job p clock owner lease)
step lifetime p (publish clock new_id job story vs) =
    committed (λ r. r.1) p (publish_story p clock new_id job story vs lifetime)
step lifetime p (fail clock new_id job story code message retryable) =
    committed (λ r. r) p (fail_media_job p clock new_id job story code message retryable)
step lifetime p (reap clock) = reap_expired_leases p clock
step lifetime p (view clock id) = record_anonymous_view p clock id
step lifetime p (edit owner id e) = committed (λ r. r) p (update_story p owner id e)
step lifetime p (delete clock db_now new_id owner id moderator reason) =
    committed (λ r. r) p (delete_story p clock db_now new_id owner id moderator reason)
step lifetime p (expire clock new_id limit) = (expire_stories p clock new_id limit).1
step lifetime p (gc_uploads clock new_id limit) = (gc_abandoned_uploads p clock new_id limit).1
step lifetime p (claim_cleanup clock owner lease) =
    committed (λ r. r.1) p (claim_cleanup_job p clock owner lease)
step lifetime p (complete_cleanup id) = complete_cleanup_job p id
step lifetime p (fail_cleanup clock id attempts max message) =
    fail_cleanup_job p clock id attempts max message

unfoldable pub run : ℕ → Pipeline → List Op → Pipeline
run lifetime p [] = p
run lifetime p (o ∷ os) = run lifetime (step lifetime p o) os
