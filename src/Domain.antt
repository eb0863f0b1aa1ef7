-- ===== src/Domain.antt =====
-- internal/domain/domain.go: the types that the API, the worker and the authorization rules share.
--
-- A UUID and a GitHub id are numbers, a time is a number of nanoseconds, a nil pointer is `none`.
-- The string-typed enumerations are data types; `parse_visibility` reads the stored text.
use Prim.Native.String.{String}
use text.Mathlib.Text.{◌==◌ as str_eq}
use gh_stories.Prelude.{
  ℕ, Bool, true, false, not, ◌&&◌, ◌||◌, Option, none, some, ltb, if◌then◌else◌,
}

abbrev pub is_none {ℓ} : {A : Type ℓ} → Option A → Bool
is_none none = true
is_none (some _) = false

-- `User`, the fields that decide what an account may do.
pub record User : Type 0 where
  pub id : ℕ
  pub github_id : ℕ
  pub is_moderator : Bool
  pub suspended_at : Option ℕ
  pub deleted_at : Option ℕ
  pub onboarded_at : Option ℕ

unfoldable pub is_active : Option User → Bool
is_active none = false
is_active (some u) = is_none u.suspended_at && is_none u.deleted_at

pub record Session : Type 0 where
  pub id : ℕ
  pub user_id : ℕ
  pub token_hash : ℕ
  pub expires_at : ℕ
  pub revoked_at : Option ℕ

unfoldable pub session_valid : Option Session → ℕ → Bool
session_valid none now = false
session_valid (some s) now = is_none s.revoked_at && ltb now s.expires_at

pub data Provenance : Type 0 where
  github_import stories_native : Provenance

pub data RelationshipState : Type 0 where
  active unfollowed : RelationshipState

pub record Relationship : Type 0 where
  pub follower_user_id : ℕ
  pub followee_github_id : ℕ
  pub state : RelationshipState
  pub provenance : Provenance

abbrev pub is_following : RelationshipState → Bool
is_following active = true
is_following unfollowed = false

pub data Visibility : Type 0 where
  followers_of_author author_follows mutuals custom_list everyone : Visibility

-- `Visibility.Valid`: the stored text names one of the five.
unfoldable pub parse_visibility : String → Option Visibility
parse_visibility v =
    if str_eq v "followers_of_author"
    then some followers_of_author
    else if str_eq v "author_follows"
    then some author_follows
    else if str_eq v "mutuals"
    then some mutuals
    else if str_eq v "custom_list"
    then some custom_list
    else if str_eq v "public"
    then some everyone
    else none

-- The stored text of a visibility.
unfoldable pub visibility_text : Visibility → String
visibility_text followers_of_author = "followers_of_author"
visibility_text author_follows = "author_follows"
visibility_text mutuals = "mutuals"
visibility_text custom_list = "custom_list"
visibility_text everyone = "public"

pub data StoryState : Type 0 where
  processing published failed deleted removed : StoryState

abbrev pub is_published : StoryState → Bool
is_published published = true
is_published _ = false

abbrev pub is_processing : StoryState → Bool
is_processing processing = true
is_processing _ = false

pub data VariantKind : Type 0 where
  image video poster thumb terminal : VariantKind

abbrev pub same_kind : VariantKind → VariantKind → Bool
same_kind image image = true
same_kind video video = true
same_kind poster poster = true
same_kind thumb thumb = true
same_kind terminal terminal = true
same_kind _ _ = false

unfoldable pub content_bearing : VariantKind → Bool
content_bearing k =
    same_kind k image || same_kind k video || same_kind k poster || same_kind k terminal

pub record MediaVariant : Type 0 where
  pub story_id : ℕ
  pub kind : VariantKind
  pub object_key : String
  pub mime : String
  pub width : ℕ
  pub height : ℕ
  pub duration_ms : ℕ
  pub byte_size : ℕ
  pub checksum : String
  pub has_audio : Bool

pub record StoryItem : Type 0 where
  pub id : ℕ
  pub author_user_id : ℕ
  pub media_job_id : ℕ
  pub state : StoryState
  pub caption : String
  pub alt_text : String
  pub visibility : Visibility
  pub audience_list_id : Option ℕ
  pub allow_replies : Bool
  pub allow_reactions : Bool
  pub published_at : Option ℕ
  pub expires_at : Option ℕ
  pub deleted_at : Option ℕ
  pub removed_by : Option ℕ
  pub removal_reason : String
  pub failure_code : String
  pub failure_message : String
  pub anonymous_view_count : ℕ

abbrev pub past : Option ℕ → ℕ → Bool
past none now = false
past (some t) now = not (ltb now t)

-- `StoryItem.Expired`
unfoldable pub is_expired : StoryItem → ℕ → Bool
is_expired s now = past s.expires_at now

-- `StoryItem.Live`
unfoldable pub is_live : Option StoryItem → ℕ → Bool
unfolding is_expired
is_live none now = false
is_live (some s) now =
    is_published s.state && not (is_none s.published_at) && not (is_expired s now)

pub data UploadState : Type 0 where
  issued finalized aborted expired : UploadState

pub data JobState : Type 0 where
  queued leased succeeded failed : JobState

-- `MediaJobInput`
pub record MediaJobInput : Type 0 where
  pub object_key : String
  pub declared_mime : String
  pub byte_size : ℕ
  pub checksum : String
  pub story_item_id : ℕ
  pub filename : String
