-- ===== src/Api.antt =====
-- internal/api: the HTTP handlers, over the store. middleware.go: who calls, and who may.
--
-- A handler maps the tables and a request to an answer: a failure, which leaves the tables as they
-- are, or the new tables and the response. `uuid.Parse` has been applied to an id: `none` is one
-- that is malformed. A request's body is the answer of `httpx.DecodeJSON`. A statement that fails
-- only when the connection does is not modelled as failing.
pub mod Stories
pub mod Media
pub mod Interact
pub mod Graph
pub mod Logins
pub mod Callback
pub mod Feed
pub mod Moderation
pub mod Uploads
pub mod Posting
pub mod Limits
pub mod Inversion
pub mod Hidden
pub mod Replies
pub mod Retries
pub mod Blocks
pub mod Gate
pub mod Revoked
pub mod Resolved
use Prim.Native.String.{String}
use gh_stories.Prelude.{
  ℕ, ◌+◌, Bool, true, false, not, ◌&&◌, Option, none, some, List, [], ◌∷◌, ◌==◌, leb, if◌then◌else◌,
  length, take, drop, same_text,
}
use gh_stories.Domain.{User, Session, is_active, MediaVariant, Visibility, StoryState}
use gh_stories.Store.Social.{Social, Identity, Result, ok, err, not_found, refused}
use gh_stories.Store.Feed.{Standing}
use gh_stories.Store.Feed.Lookups.{RingStatus}
use gh_stories.Store.Stories.{Pipeline}
use gh_stories.Store.Interact.{Inbox}
use gh_stories.Store.Replays.{Stored}
use gh_stories.Store.Reports.{Reports}
use gh_stories.Store.Visibility.{Viewer}

-- `httpx.Error`
pub data Failure : Type 0 where
  unauthorized missing unsupported too_large internal : Failure
  forbidden bad_request conflicting : String → Failure
  invalid : (field text : String) → Failure
  rate_limited : (retry_after : ℕ) → Failure

pub data Answer {ℓ} (A : Type ℓ) : Type ℓ where
  done : A → Answer A
  fail : Failure → Answer A

infixl 5 ◌>>=◌
abbrev pub ◌>>=◌ {ℓ κ} : {A : Type ℓ} {B : Type κ} → Answer A → (A → Answer B) → Answer B
fail e >>= k = fail e
done x >>= k = k x

-- `if bad { return e }`
abbrev pub unless : Bool → Failure → Answer {0} Unit
unless true e = fail e
unless false e = done tt

-- `replyResponse`
pub record ReplyResponse : Type 0 where
  pub id : ℕ
  pub story_id : ℕ
  pub sender : ℕ
  pub recipient : ℕ
  pub body : String
  pub created_at : ℕ

-- The tables.
pub record Db : Type 0 where
  pub social : Social
  pub pipeline : Pipeline
  pub inbox : Inbox
  pub replays : List (Stored ReplyResponse)
  pub reports : Reports

-- `storyItem`; what only the author is told is optional.
pub record StoryView : Type 0 where
  pub id : ℕ
  pub author : ℕ
  pub state : StoryState
  pub caption : String
  pub alt_text : String
  pub visibility : Visibility
  pub audience_list_id : Option ℕ
  pub allow_replies : Bool
  pub allow_reactions : Bool
  pub published_at : Option ℕ
  pub expires_at : Option ℕ
  pub seen : Bool
  pub is_owner : Bool
  pub my_reaction : String
  pub failure_code : String
  pub failure_message : String
  pub audience_label : Option Visibility
  pub viewer_count : Option ℕ
  pub reaction_count : Option ℕ
  pub variants : List MediaVariant

pub record ViewerEntry : Type 0 where
  pub user : ℕ
  pub viewed_at : ℕ
  pub reaction : String

-- `authorGroup`
pub record AuthorGroup : Type 0 where
  pub author : ℕ
  pub items : List StoryView
  pub has_unseen : Bool
  pub muted : Bool
  pub provenance : Standing

-- `feedResponse`
pub record FeedResponse : Type 0 where
  pub me : Option AuthorGroup
  pub groups : List AuthorGroup
  pub server_time : ℕ
  pub version : List ℕ

-- A response with a status below 400. Bytes come with the object's handle, and whether shared
-- caches may keep them.
pub data Response : Type 0 where
  no_content : Response
  story : StoryView → Response
  viewers : List ViewerEntry → Response
  reacted : (story_id : ℕ) → (emoji : String) → Response
  replied : ReplyResponse → Response
  replayed : (status : ℕ) → ReplyResponse → Response
  bytes : (object : ℕ) → (is_public : Bool) → Response
  followed : (github_id : ℕ) → Response
  reported : (id : ℕ) → Response
  recorded : Response
  uploading : (upload_id : ℕ) → (url : String) → (expires_at : ℕ) → (max_bytes : ℕ) → Response
  accepted : StoryView → Response
  feed_page : FeedResponse → Response
  group : AuthorGroup → Response
  rings : List RingStatus → Response
  users : List Identity → Response

abbrev pub or_missing {ℓ} : {A : Type ℓ} → Result A → Answer A
or_missing (ok a) = done a
or_missing (err not_found) = fail missing
or_missing (err refused) = fail internal

-- A handler that answers 500 to every error of the store.
abbrev pub or_internal {ℓ} : {A : Type ℓ} → Result A → Answer A
or_internal (ok a) = done a
or_internal (err e) = fail internal

-- `pathUUID`
unfoldable pub path_uuid : Option ℕ → Answer ℕ
path_uuid none = fail missing
path_uuid (some id) = done id

abbrev pub as_viewer : User → Viewer
as_viewer u = record { id = u.id; github_id = u.github_id }

abbrev pub suspended : Failure
suspended = forbidden "This account is suspended."

-- `mustCaller`
unfoldable pub must_caller : Option User → Answer User
must_caller none = fail unauthorized
must_caller (some u) = if is_active (some u) then done u else fail suspended

-- `requireAuth`
unfoldable pub require_auth {ℓ} : {A : Type ℓ} → Option User → Answer A → Answer A
require_auth caller next = do u ← must_caller caller; next

-- `requireModerator`
unfoldable pub require_moderator {ℓ} : {A : Type ℓ} → Option User → Answer A → Answer A
require_moderator caller next = do
  u ← must_caller caller
  if u.is_moderator then next else fail missing

abbrev lower_ascii : ℕ → ℕ
lower_ascii c = if leb 65 c && leb c 90 then c + 32 else c

abbrev fold_case : List ℕ → List ℕ
fold_case [] = []
fold_case (c ∷ cs) = lower_ascii c ∷ fold_case cs

-- "bearer "
abbrev bearer : List ℕ
bearer = b'b' ∷ b'e' ∷ b'a' ∷ b'r' ∷ b'e' ∷ b'r' ∷ b' ' ∷ []

-- `bearerToken`, of the bytes of the header; `trim` is `strings.TrimSpace`.
unfoldable pub bearer_token : (List ℕ → List ℕ) → List ℕ → List ℕ
bearer_token trim h =
    if leb (length h) 7
    then []
    else if same_text (fold_case (take 7 h)) bearer
    then trim (drop 7 h)
    else []

abbrev known : Option (Session × User) → Option User
known none = none
known (some r) = some r.1

-- `authenticate`: the caller of a request, where `check` is `account.Authenticate`.
unfoldable pub authenticate :
    (List ℕ → List ℕ) → (List ℕ → Option (Session × User)) → List ℕ → Option User
unfolding bearer_token
authenticate trim check h =
    let token = bearer_token trim h in if length token == 0 then none else known (check token)
