-- ===== src/Store/Stories/Uploads.antt =====
-- internal/store/story.go: upload intents, their drafts, and `FinalizeUpload`.
use Prim.Native.String.{String}
use gh_stories.Prelude.{
  ℕ, ◌+◌, Bool, true, false, not, ◌&&◌, Option, none, some, ◌∷◌, ltb, ◌==◌, if◌then◌else◌, find_row,
  exists_row, update_rows,
}
use gh_stories.Domain.{
  Visibility, followers_of_author, parse_visibility, visibility_text, UploadState, JobState,
  StoryItem, processing,
}
use gh_stories.Store.Social.{Result, ok, err, not_found, refused, ◌>>=◌}
use gh_stories.Store.Stories.{DraftRecord, UploadIntent, MediaJob, Pipeline, is_upload}

-- `StoryDraft`
pub record StoryDraft : Type 0 where
  pub caption : String
  pub alt_text : String
  pub visibility : Visibility
  pub audience_list_id : Option ℕ
  pub allow_replies : Bool
  pub allow_reactions : Bool

-- A query that wants one row: no row is `ErrNotFound`.
abbrev pub or_not_found {ℓ} : {A : Type ℓ} → Option A → Result A
or_not_found none = err not_found
or_not_found (some a) = ok a

-- The same where the code returns the driver's own error for no row.
abbrev pub or_refused {ℓ} : {A : Type ℓ} → Option A → Result A
or_refused none = err refused
or_refused (some a) = ok a

-- `CreateUploadIntent`
unfoldable pub create_upload_intent : Pipeline → ℕ → ℕ → ℕ → String → String → ℕ → ℕ → Pipeline
create_upload_intent p clock new_id user key mime size ttl = record p {
  uploads =
      record {
        id = new_id;
        user_id = user;
        object_key = key;
        declared_mime = mime;
        declared_size = size;
        state = UploadState.issued;
        actual_size = none;
        checksum = none;
        expires_at = clock + ttl;
        draft = none;
        filename = "";
      }
      ∷ p.uploads;
}

-- `UploadIntent`
unfoldable pub upload_intent : Pipeline → ℕ → Result UploadIntent
upload_intent p id = or_not_found (find_row (is_upload id) p.uploads)

abbrev pub stash_row : StoryDraft → String → UploadIntent → UploadIntent
stash_row d filename u = record u {
  draft = some (record {
    caption = d.caption;
    alt_text = d.alt_text;
    visibility = visibility_text d.visibility;
    audience_list_id = d.audience_list_id;
    allow_replies = d.allow_replies;
    allow_reactions = d.allow_reactions;
  });
  filename = filename;
}

-- `StashDraft`
unfoldable pub stash_draft : Pipeline → ℕ → StoryDraft → String → Pipeline
stash_draft p id d filename = record p {
  uploads = update_rows (is_upload id) (stash_row d filename) p.uploads;
}

abbrev or_default : Option Visibility → Visibility
or_default none = followers_of_author
or_default (some v) = v

-- The migration's default for a row with no stashed draft is the empty object.
abbrev stored_draft : Option DraftRecord → DraftRecord
stored_draft (some d) = d
stored_draft none = record {
  caption = "";
  alt_text = "";
  visibility = "";
  audience_list_id = none;
  allow_replies = false;
  allow_reactions = false;
}

-- `LoadDraft`: an unknown audience falls back to the default one.
unfoldable pub load_draft : Pipeline → ℕ → Result (StoryDraft × String)
unfolding upload_intent
load_draft p id = do
  u ← upload_intent p id
  let d = stored_draft u.draft
  ok (
    record {
      caption = d.caption;
      alt_text = d.alt_text;
      visibility = or_default (parse_visibility d.visibility);
      audience_list_id = d.audience_list_id;
      allow_replies = d.allow_replies;
      allow_reactions = d.allow_reactions;
    },
    u.filename,
  )

-- The arguments of `FinalizeUpload`, with the ids that the database generates.
pub record Finalize : Type 0 where
  pub user : ℕ
  pub upload : ℕ
  pub size : ℕ
  pub checksum : String
  pub draft : StoryDraft
  pub filename : String
  pub new_job : ℕ
  pub new_story : ℕ

abbrev pub mark_finalized : Finalize → UploadIntent → UploadIntent
mark_finalized a u = record u {
  state = UploadState.finalized;
  actual_size = some a.size;
  checksum = some a.checksum;
}

abbrev pub new_media_job : Finalize → ℕ → UploadIntent → MediaJob
new_media_job a clock u = record {
  id = a.new_job;
  upload_intent_id = a.upload;
  user_id = a.user;
  state = JobState.queued;
  input = record {
    object_key = u.object_key;
    declared_mime = u.declared_mime;
    byte_size = a.size;
    checksum = a.checksum;
    story_item_id = a.new_story;
    filename = a.filename;
  };
  attempts = 0;
  max_attempts = 3;
  lease_owner = none;
  lease_expires_at = none;
  run_after = clock;
  created_at = clock;
  error_code = "";
  error_message = "";
}

abbrev pub new_story_item : Finalize → StoryItem
new_story_item a = record {
  id = a.new_story;
  author_user_id = a.user;
  media_job_id = a.new_job;
  state = processing;
  caption = a.draft.caption;
  alt_text = a.draft.alt_text;
  visibility = a.draft.visibility;
  audience_list_id = a.draft.audience_list_id;
  allow_replies = a.draft.allow_replies;
  allow_reactions = a.draft.allow_reactions;
  published_at = none;
  expires_at = none;
  deleted_at = none;
  removed_by = none;
  removal_reason = "";
  failure_code = "";
  failure_message = "";
  anonymous_view_count = 0;
}

-- The statements of `FinalizeUpload` behind its guards.
abbrev pub create_item : Pipeline → ℕ → Finalize → UploadIntent → Pipeline
create_item p clock a u = record p {
  uploads = update_rows (is_upload a.upload) (mark_finalized a) p.uploads;
  jobs = new_media_job a clock u ∷ p.jobs;
  stories = new_story_item a ∷ p.stories;
}

-- The item of a finalized upload, through its media job.
abbrev pub item_of : Pipeline → ℕ → Option StoryItem
item_of p upload =
    find_row
      (λ si. exists_row (λ mj. mj.id == si.media_job_id && mj.upload_intent_id == upload) p.jobs)
      p.stories

-- What a finalize call answers: the item's id, and whether it was created by this call.
abbrev pub Finalized : Type 0
Finalized = (ℕ × Bool) × Pipeline

abbrev pub finalize_in : UploadState → Pipeline → ℕ → Finalize → UploadIntent → Result Finalized
finalize_in UploadState.finalized p clock a u = do
  si ← or_refused (item_of p a.upload)
  ok ((si.id, false), p)
finalize_in UploadState.issued p clock a u =
    if ltb u.expires_at clock
    then err not_found
    else ok ((a.new_story, true), create_item p clock a u)
finalize_in _ p clock a u = err not_found

-- `FinalizeUpload`
unfoldable pub finalize_upload : Pipeline → ℕ → Finalize → Result Finalized
unfolding upload_intent
finalize_upload p clock a = do
  u ← upload_intent p a.upload
  if not (u.user_id == a.user) then err not_found else finalize_in u.state p clock a u
