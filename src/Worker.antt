-- ===== src/Worker.antt =====
-- internal/worker: the media loop (media_loop.go) and the cleanup loop (cleanup_loop.go).
--
-- What happens outside the process is an argument: a temporary directory that is made or not, the
-- download, the outcome of `media.Process`, the uploads and the deletions. Of the object store only
-- the keys that are in use are kept. A job's input names its Story by an id that is well formed.
-- `clock` is the time of the one store operation that ends a job.
pub mod Loops
pub mod Stored
pub mod Dropped
pub mod Drains
pub mod Runs
use Prim.Native.String.{String}
use text.Mathlib.Text.{◌==◌ as str_eq}
use gh_stories.Prelude.{
  ℕ, suc, ◌+◌, ◌*◌, Bool, true, false, not, ◌&&◌, ◌||◌, Option, none, some, List, [], ◌∷◌, ◌==◌,
  ltb, leb, min, if◌then◌else◌, exists_row, select_rows,
}
use gh_stories.Domain.{VariantKind, MediaVariant}
use gh_stories.Store.Social.{Result, ok, err}
use gh_stories.Store.Stories.{Pipeline, MediaJob, CleanupJob}
use gh_stories.Store.Stories.Jobs.{claim_media_job, publish_story, fail_media_job}
use gh_stories.Store.Stories.Cleanup.{claim_cleanup_job, complete_cleanup_job, fail_cleanup_job}
use gh_stories.Objects.{append, kind_text, variant_key}

-- The tables, and the keys of the objects that are stored.
pub record World : Type 0 where
  pub pipeline : Pipeline
  pub objects : List String

-- `objects.Get` with the copy to a file: no object, an error with its text, or so many bytes.
pub data Download : Type 0 where
  not_there : Download
  broken : String → Download
  bytes : ℕ → Download

-- `media.Variant`
pub record Produced : Type 0 where
  pub kind : VariantKind
  pub mime : String
  pub width : ℕ
  pub height : ℕ
  pub duration_ms : ℕ
  pub byte_size : ℕ
  pub checksum : String
  pub has_audio : Bool

-- The outcome of `media.Process`: variants, a `*media.Error`, another error, or a panic.
pub data Processed : Type 0 where
  made : List Produced → Processed
  refused : (code message : String) → (retryable : Bool) → Processed
  failing : String → Processed
  panicked : String → Processed

-- `none` is a success, `some` the text of an error.
pub record Outside : Type 0 where
  pub temp_dir : Option String
  pub original : Download
  pub processed : Processed
  pub upload : VariantKind → Option String

abbrev internal : String
internal = "internal"

abbrev default_limit : ℕ
default_limit = 104_857_600

abbrev or_default : ℕ → ℕ
or_default limit = if limit == 0 then default_limit else limit

pub data Fetched : Type 0 where
  fetched too_large no_object : Fetched
  unread : String → Fetched

-- `downloadOriginal`: it reads one byte more than the limit, to see that there is one.
unfoldable pub download_original : ℕ → Download → Fetched
download_original limit not_there = no_object
download_original limit (broken e) = unread e
download_original limit (bytes n) =
    if ltb (or_default limit) (min n (or_default limit + 1)) then too_large else fetched

-- `extForMIME`
unfoldable pub ext_for_mime : String → String
ext_for_mime mime =
    if str_eq mime "image/jpeg"
    then "jpg"
    else if str_eq mime "image/png"
    then "png"
    else if str_eq mime "image/webp"
    then "webp"
    else if str_eq mime "video/mp4"
    then "mp4"
    else "bin"

-- A set of keys.
abbrev pub has_object : String → List String → Bool
has_object key keys = exists_row (λ k. str_eq k key) keys

abbrev pub put_object : String → List String → List String
put_object key keys = if has_object key keys then keys else key ∷ keys

abbrev pub delete_objects : List String → List String → List String
delete_objects keys objects = select_rows (λ k. not (has_object k keys)) objects

abbrev row_of : ℕ → String → Produced → MediaVariant
row_of story key v = record {
  story_id = story;
  kind = v.kind;
  object_key = key;
  mime = v.mime;
  width = v.width;
  height = v.height;
  duration_ms = v.duration_ms;
  byte_size = v.byte_size;
  checksum = v.checksum;
  has_audio = v.has_audio;
}

-- The loop over the variants: the objects, and the rows or the message of the first failure.
pub data Uploaded : Type 0 where
  rows : List MediaVariant → Uploaded
  stopped : String → Uploaded

abbrev pub add_row : MediaVariant → List String × Uploaded → List String × Uploaded
add_row r (os, rows vs) = (os, rows (r ∷ vs))
add_row r (os, stopped e) = (os, stopped e)

abbrev upload_message : String → String → String
upload_message kind e = append "upload variant " (append kind (append ": " e))

-- `show` is `UUID.String`.
module _ (show : ℕ → String) where
  unfoldable pub upload_variants :
      (VariantKind → Option String) → ℕ → List Produced → List String → List String × Uploaded
  upload_variants upload story [] os = (os, rows [])
  upload_variants upload story (v ∷ vs) os =
      let key = variant_key (show story) v.kind (ext_for_mime v.mime) in
      let rest = upload_variants upload story vs (put_object key os) in
      elim (upload v.kind) [
        | none ↦ add_row (row_of story key v) rest
        | some e ↦ (os, stopped (upload_message (kind_text v.kind) e))
      ]

-- `failMediaJob`: an error of the store is only logged.
unfoldable pub record_failure : World → ℕ → ℕ → MediaJob → String → String → Bool → World
record_failure w clock new_id job code message retryable =
    elim (fail_media_job w.pipeline clock new_id job.id job.input.story_item_id code message
      retryable) [ ok p ↦ record w { pipeline = p } | err e ↦ w ]

-- The end of `handleMediaJob`: a Story that can no longer be published is dropped with its job.
abbrev pub published : World → Result ((ℕ × ℕ) × Pipeline) → World
published w (ok r) = record w { pipeline = r.1 }
published w (err e) = w

abbrev pub after_upload : World → ℕ → ℕ → ℕ → MediaJob → List String × Uploaded → World
after_upload w lifetime clock new_id job (os, rows vs) =
    published (record w { objects = os })
      (publish_story w.pipeline clock new_id job.id job.input.story_item_id vs lifetime)
after_upload w lifetime clock new_id job (os, stopped e) =
    record_failure (record w { objects = os }) clock new_id job internal e true

module _ (show : ℕ → String) where
  abbrev pub after_process : World → ℕ → ℕ → ℕ → MediaJob → Outside → Processed → World
  after_process w lifetime clock new_id job o (made vs) =
      after_upload w lifetime clock new_id job
        (upload_variants show o.upload job.input.story_item_id vs w.objects)
  after_process w lifetime clock new_id job o (refused code message retryable) =
      record_failure w clock new_id job code message retryable
  after_process w lifetime clock new_id job o (failing e) =
      record_failure w clock new_id job internal e true
  after_process w lifetime clock new_id job o (panicked e) =
      record_failure w clock new_id job internal (append "panic: " e) true

  abbrev pub after_download : World → ℕ → ℕ → ℕ → MediaJob → Outside → Fetched → World
  after_download w lifetime clock new_id job o too_large =
      record_failure w clock new_id job "too_large"
        "worker: downloaded original exceeds the configured size limit" false
  after_download w lifetime clock new_id job o no_object =
      record_failure w clock new_id job internal
        "original object not found: objstore: object does not exist" false
  after_download w lifetime clock new_id job o (unread e) =
      record_failure w clock new_id job internal (append "download original: " e) true
  after_download w lifetime clock new_id job o fetched =
      after_process w lifetime clock new_id job o o.processed

  -- `handleMediaJob`
  unfoldable pub handle_media_job : World → ℕ → ℕ → ℕ → ℕ → MediaJob → Outside → World
  unfolding download_original
  handle_media_job w limit lifetime clock new_id job o = elim o.temp_dir [
    | some e ↦ record_failure w clock new_id job internal (append "create temp dir: " e) true
    | none ↦ after_download w lifetime clock new_id job o (download_original limit o.original)
  ]
