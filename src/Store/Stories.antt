-- ===== src/Store/Stories.antt =====
-- internal/store/story.go and jobs.go: the tables of the publication pipeline, and their rows.
--
-- `Clock.Now()` is an argument `clock` of an operation, the database's `now()` an argument `db_now`,
-- and the ids that the database generates are arguments too. A new row stands first in its table.
pub mod Uploads
pub mod Jobs
pub mod Items
pub mod Cleanup
pub mod Abandoned
pub mod Run
pub mod Rows
pub mod Lifecycle
pub mod Window
pub mod Claims
pub mod Finalizing
use Prim.Native.String.{String}
use gh_stories.Prelude.{ℕ, ◌+◌, Bool, ◌==◌, Option, none, some, List, [], ◌∷◌}
use gh_stories.Domain.{Visibility, UploadState, JobState, MediaJobInput, MediaVariant, StoryItem}

-- `draftRecord`: what `StashDraft` writes.
pub record DraftRecord : Type 0 where
  pub caption : String
  pub alt_text : String
  pub visibility : String
  pub audience_list_id : Option ℕ
  pub allow_replies : Bool
  pub allow_reactions : Bool

pub record UploadIntent : Type 0 where
  pub id : ℕ
  pub user_id : ℕ
  pub object_key : String
  pub declared_mime : String
  pub declared_size : ℕ
  pub state : UploadState
  pub actual_size : Option ℕ
  pub checksum : Option String
  pub expires_at : ℕ
  pub draft : Option DraftRecord
  pub filename : String

pub record MediaJob : Type 0 where
  pub id : ℕ
  pub upload_intent_id : ℕ
  pub user_id : ℕ
  pub state : JobState
  pub input : MediaJobInput
  pub attempts : ℕ
  pub max_attempts : ℕ
  pub lease_owner : Option String
  pub lease_expires_at : Option ℕ
  pub run_after : ℕ
  pub created_at : ℕ
  pub error_code : String
  pub error_message : String

-- A job `delete_objects`: the only kind that the code queues.
pub record CleanupJob : Type 0 where
  pub id : ℕ
  pub object_keys : List String
  pub state : JobState
  pub attempts : ℕ
  pub max_attempts : ℕ
  pub lease_owner : Option String
  pub lease_expires_at : Option ℕ
  pub run_after : ℕ
  pub error_message : String

pub record Pipeline : Type 0 where
  pub uploads : List UploadIntent
  pub jobs : List MediaJob
  pub stories : List StoryItem
  pub variants : List MediaVariant
  pub cleanup : List CleanupJob

abbrev pub empty : Pipeline
empty = record { uploads = []; jobs = []; stories = []; variants = []; cleanup = [] }

abbrev pub has_id : ℕ → StoryItem → Bool
has_id id s = s.id == id

abbrev pub is_job : ℕ → MediaJob → Bool
is_job id j = j.id == id

abbrev pub is_upload : ℕ → UploadIntent → Bool
is_upload id u = u.id == id

-- The defaults of `cleanup_jobs`.
abbrev pub new_cleanup : ℕ → List String → ℕ → CleanupJob
new_cleanup id keys run_after = record {
  id = id;
  object_keys = keys;
  state = JobState.queued;
  attempts = 0;
  max_attempts = 8;
  lease_owner = none;
  lease_expires_at = none;
  run_after = run_after;
  error_message = "";
}
