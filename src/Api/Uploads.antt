-- ===== src/Api/Uploads.antt =====
-- internal/api/handlers_upload.go: authorizing an upload, and finalizing it.
--
-- `lower` and `trim` are `strings.ToLower` and `strings.TrimSpace`, `presign` the object store's
-- `PresignPut` of a key. The key that the server chooses is an argument, and so are the caller's
-- default settings. The worker that a new item wakes up is left out.
use Prim.Native.String.{String}
use text.Mathlib.Text.{◌==◌ as str_eq}
use gh_stories.Prelude.{
  ℕ, ◌+◌, Bool, true, false, not, ◌&&◌, ◌||◌, Option, none, some, List, [], ◌∷◌, ◌==◌, ltb, between,
  if◌then◌else◌, length, exists_row,
}
use gh_stories.Domain.{User, Visibility, custom_list, is_none}
use gh_stories.Store.Social.{codes, Result, ok, err}
use gh_stories.Store.Stories.Uploads.{
  StoryDraft, create_upload_intent, stash_draft, load_draft, finalize_upload, Finalize,
}
use gh_stories.Store.Stories.Items.{Loaded, own_story}
use gh_stories.Api.{
  Db, Answer, done, fail, ◌>>=◌, invalid, unsupported, too_large, internal, Response, uploading,
  accepted, unless, or_missing, path_uuid, must_caller,
}
use gh_stories.Api.Stories.{resolve_audience_list, read_visibility, present_story, PresentOpts}

-- `acceptedInputs`
unfoldable pub accepted_input : String → Bool
accepted_input mime =
    exists_row (λ known. str_eq known mime)
      ("image/jpeg" ∷ "image/png" ∷ "image/webp" ∷ "image/gif" ∷ "video/mp4" ∷ "video/webm"
        ∷ "video/quicktime" ∷ [])

-- The settings of an account that a new Story starts from.
pub record Defaults : Type 0 where
  pub visibility : Visibility
  pub audience_list_id : Option ℕ
  pub allow_replies : Bool
  pub allow_reactions : Bool

pub record UploadRequest : Type 0 where
  pub mime : String
  pub byte_size : ℕ
  pub filename : String
  pub caption : String
  pub alt_text : String
  pub visibility : Option String
  pub audience_list_id : Option (String × Option ℕ)
  pub allow_replies : Option Bool
  pub allow_reactions : Option Bool

abbrev pub chosen {ℓ} : {A : Type ℓ} → Option A → A → A
chosen none a = a
chosen (some b) a = b

abbrev pub is_custom : Visibility → Bool
is_custom custom_list = true
is_custom _ = false

abbrev pub choose_audience :
    Db
    → User
    → Defaults
    → Option Visibility
    → Option (String × Option ℕ)
    → Answer (Visibility × Option ℕ)
choose_audience db u d none raw = done (d.visibility, d.audience_list_id)
choose_audience db u d (some v) raw = do
  list ← resolve_audience_list db u (some v) raw
  done (v, list)

abbrev pub draft_of : UploadRequest → Defaults → Visibility × Option ℕ → StoryDraft
draft_of req d audience = record {
  caption = req.caption;
  alt_text = req.alt_text;
  visibility = audience.0;
  audience_list_id = audience.1;
  allow_replies = chosen req.allow_replies d.allow_replies;
  allow_reactions = chosen req.allow_reactions d.allow_reactions;
}

abbrev pub is_separator : ℕ → Bool
is_separator c = c == b'/' || c == b'\\'

abbrev pub is_dropped : ℕ → Bool
is_dropped c = ltb c 32 || c == 127

-- The bytes of a rune in UTF-8.
abbrev pub rune_bytes : ℕ → ℕ
rune_bytes c = if ltb c 0x80 then 1 else if ltb c 0x800 then 2 else if ltb c 0x10000 then 3 else 4

-- The loop of `sanitizeFilename`, over the replaced runes, with the bytes written so far.
unfoldable pub filename_loop : ℕ → List ℕ → List ℕ
filename_loop n [] = []
filename_loop n (c ∷ cs) =
    let skipped = filename_loop n cs in
    let written = filename_loop (n + rune_bytes c) cs in
    if is_dropped c then skipped else if ltb 200 (n + rune_bytes c) then c ∷ [] else c ∷ written

-- The `NewReplacer`: separators become underscores, NUL goes.
abbrev pub replaced : List ℕ → List ℕ
replaced [] = []
replaced (c ∷ cs) =
    let rest = replaced cs in
    if c == 0 then rest else if is_separator c then b'_' ∷ rest else c ∷ rest

-- `sanitizeFilename`, of the runes of the trimmed name.
unfoldable pub sanitize_filename : List ℕ → List ℕ
sanitize_filename [] = []
sanitize_filename (c ∷ cs) = filename_loop 0 (replaced (c ∷ cs))

abbrev pub presigned : ℕ → ℕ → ℕ → Option String → Answer Response
presigned id expires size none = fail internal
presigned id expires size (some url) = done (uploading id url expires size)

-- `postUpload`: the tables with the intent and its draft, and the answer, which fails when the
-- object store does. `text` makes a text of runes.
unfoldable pub post_upload :
    (String → String)
    → (String → String)
    → (List ℕ → String)
    → (String → Option String)
    → Db
    → ℕ
    → ℕ
    → ℕ
    → ℕ
    → Option User
    → Defaults
    → String
    → Answer UploadRequest
    → Answer (Db × Answer Response)
post_upload lower trim text presign db now new_id max ttl caller defaults key body = do
  u ← must_caller caller
  req ← body
  let mime = lower (trim req.mime)
  known ← unless (not (accepted_input mime)) unsupported
  nonempty ← unless (req.byte_size == 0) (invalid "byte_size" "The file appears to be empty.")
  fits ← unless (ltb max req.byte_size) too_large
  ok1 ←
      unless (ltb 500 (length (codes req.caption)))
        (invalid "caption" "Captions are limited to 500 characters.")
  ok2 ←
      unless (ltb 500 (length (codes req.alt_text)))
        (invalid "alt_text" "Descriptions are limited to 500 characters.")
  vis ← read_visibility req.visibility
  audience ← choose_audience db u defaults vis req.audience_list_id
  listed ←
      unless (is_custom audience.0 && is_none audience.1)
        (invalid "audience_list_id" "Choose a list for a custom audience.")
  let made = create_upload_intent db.pipeline now new_id u.id key mime req.byte_size ttl
  let stashed =
      stash_draft made new_id (draft_of req defaults audience)
        (text (sanitize_filename (codes (trim req.filename))))
  done (record db { pipeline = stashed }, presigned new_id (now + ttl) req.byte_size (presign key))

abbrev is_hex : ℕ → Bool
is_hex c = between b'a' b'f' c || between b'0' b'9' c

abbrev all_hex : List ℕ → Bool
all_hex [] = true
all_hex (c ∷ cs) = is_hex c && all_hex cs

-- `checksumPattern`
unfoldable pub is_checksum : String → Bool
is_checksum s = length (codes s) == 64 && all_hex (codes s)

pub record FinalizeRequest : Type 0 where
  pub byte_size : ℕ
  pub checksum : String

abbrev pub owner_opts : User → PresentOpts
owner_opts u = record {
  viewer = some u;
  seen = false;
  my_reaction = "";
  views = none;
  reactions = none;
}

abbrev pub shown_to_owner : User → Result Loaded → Answer Response
shown_to_owner u (err e) = fail internal
shown_to_owner u (ok it) = done (accepted (present_story it (owner_opts u)))

abbrev pub finalize_of : ℕ → ℕ → FinalizeRequest → String → StoryDraft × String → ℕ → ℕ → Finalize
finalize_of user upload req checksum drafted new_job new_story = record {
  user = user;
  upload = upload;
  size = req.byte_size;
  checksum = checksum;
  draft = drafted.0;
  filename = drafted.1;
  new_job = new_job;
  new_story = new_story;
}

-- `postFinalize`
unfoldable pub post_finalize :
    (String → String)
    → Db
    → ℕ
    → ℕ
    → ℕ
    → ℕ
    → Option User
    → Option ℕ
    → Answer FinalizeRequest
    → Answer (Db × Answer Response)
post_finalize lower db now new_job new_story max caller raw body = do
  u ← must_caller caller
  id ← path_uuid raw
  req ← body
  valid ←
      unless (not (is_checksum (lower req.checksum)))
        (invalid "checksum_sha256" "Expected a lowercase hex SHA-256.")
  size ←
      unless (req.byte_size == 0 || ltb max req.byte_size)
        (invalid "byte_size" "That size is not acceptable.")
  drafted ← or_missing (load_draft db.pipeline id)
  r ← or_missing (
      finalize_upload db.pipeline now
        (finalize_of u.id id req (lower req.checksum) drafted new_job new_story))
  let db' = record db { pipeline = r.1 }
  done (db', shown_to_owner u (own_story db'.social db'.pipeline u.id r.0.0))
