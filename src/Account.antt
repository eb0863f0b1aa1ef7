-- ===== src/Account.antt =====
-- internal/account: the pages that a browser shows a signed-in person (account.go).
--
-- A page is what a template is given; the rendering, the titles and the headers are left out. The
-- bearer of the session cookie is a number, and none when the cookie is absent or empty. A form's
-- field that is no UUID is none.
pub mod Samples
pub mod Viewer
pub mod Approvals
use gh_stories.Prelude.{
  ℕ, ◌-◌, ◌/◌, Bool, true, false, not, ◌&&◌, Option, none, some, List, [], ◌∷◌, ◌++◌, ltb, ◌==◌,
  if◌then◌else◌, exists_row,
}
use gh_stories.Domain.{
  User, Session, MediaVariant, is_active, is_none, VariantKind, image, video, same_kind,
}
use gh_stories.Store.Social.{Result, ok, err, mark_onboarded}
use gh_stories.Store.Stories.Items.{Loaded, public_story, story_for_viewer}
use gh_stories.Store.Logins.{PendingLogin, is_pending}
use gh_stories.Store.Logins.Listings.{list_sessions, pending_login, pending_login_by_code}
use gh_stories.Api.{Db, as_viewer}
use gh_stories.Auth.{AuthError, AuthState, approve_login, authenticate_token, deny_login}

pub record AccountState : Type 0 where
  pub db : Db
  pub sessions : List Session
  pub logins : List PendingLogin

-- The tables that package auth reads.
abbrev pub auth_of : AccountState → AuthState
auth_of s = record {
  users = s.db.social.users;
  identities = s.db.social.identities;
  sessions = s.sessions;
  logins = s.logins;
}

-- The answers: redirects, pages and plain errors.
pub data Page : Type 0 where
  to_login : Page
  to_account : Page
  to_authorize : ℕ → Page
  to_github : Option (List ℕ) → Page
  onboarding : Page
  authorize : PendingLogin → Page
  authorize_error : Page
  authorized : Bool → Page
  device : List ℕ → Page
  device_error : Page
  settings : List Session → Page
  story : Loaded → VariantKind → (signed_in : Bool) → Page
  gone : Page
  http_error : ℕ → Page

-- `caller`
unfoldable pub caller : (ℕ → ℕ) → AccountState → ℕ → Option ℕ → Option User
caller hash s clock cookie = elim (authenticate_token hash (auth_of s) clock cookie) [
  | none ↦ none
  | some r ↦ some r.1
]

-- `requireUser`, for a handler without effects.
abbrev pub require_user : Option User → (User → Page) → Page
require_user none next = to_login
require_user (some u) next = next u

-- `requireUser`, for a handler that changes the tables.
abbrev pub require_writer {ℓ} : {S : Type ℓ} → S → Option User → (User → Page × S) → Page × S
require_writer s none next = (to_login, s)
require_writer s (some u) next = next u

abbrev starts_with_slash : List ℕ → Bool
starts_with_slash [] = false
starts_with_slash (c ∷ cs) = c == b'/'

abbrev starts_with_slashes : List ℕ → Bool
starts_with_slashes (c ∷ d ∷ cs) = c == b'/' && d == b'/'
starts_with_slashes _ = false

-- `getLogin`: where GitHub's answer shall lead, of the query's `return_to`.
unfoldable pub get_login : List ℕ → Page
get_login return_to =
    if starts_with_slash return_to && not (starts_with_slashes return_to)
    then to_github (some return_to)
    else to_github none

-- `getOnboarding`
unfoldable pub get_onboarding : Option User → Page
get_onboarding who =
    require_user who (λ u. if is_none u.onboarded_at then onboarding else to_account)

-- `postSkipOnboarding`
unfoldable pub post_skip_onboarding : AccountState → ℕ → Option User → Page × AccountState
post_skip_onboarding s now who = require_writer s who (λ u. (
  to_account,
  record s {
    db = record s.db {
      social = record s.db.social { users = mark_onboarded u.id now s.db.social.users };
    };
  },
))

abbrev pub authorize_page : Result PendingLogin → Page
authorize_page (err e) = authorize_error
authorize_page (ok r) = if is_pending r.state then authorize r else authorize_error

-- `getAuthorize`
unfoldable pub get_authorize : AccountState → Option User → Option ℕ → Page
get_authorize s who none = require_user who (λ u. authorize_error)
get_authorize s who (some id) = require_user who (λ u. authorize_page (pending_login s.logins id))

abbrev pub with_auth : AccountState → AuthState → AccountState
with_auth s a = record s { sessions = a.sessions; logins = a.logins }

abbrev pub after_approval : AccountState → Option AuthError × AuthState → Page × AccountState
after_approval s (none, a) = (authorized true, with_auth s a)
after_approval s (some e, a) = (authorize_error, with_auth s a)

-- `postAuthorize`, of the form's request, action and code.
unfoldable pub post_authorize :
    (ℕ → ℕ)
    → (List ℕ → List ℕ)
    → (List ℕ → List ℕ)
    → ℕ
    → AccountState
    → ℕ
    → ℕ
    → ℕ
    → Option User
    → Option ℕ
    → (deny : Bool) → List ℕ
    → Page × AccountState
post_authorize hash trim to_upper session_ttl s clock new_session token who none deny user_code =
    require_writer s who (λ u. (http_error 400, s))
post_authorize hash trim to_upper session_ttl s clock new_session token who (some id) true
      user_code =
    require_writer s who (λ u. (authorized false, with_auth s (deny_login (auth_of s) id)))
post_authorize hash trim to_upper session_ttl s clock new_session token who (some id) false
      user_code =
    require_writer s who (λ u. after_approval s (
      approve_login hash trim to_upper session_ttl (auth_of s) clock new_session token id u.id
        (trim user_code)))

-- `getDevice`
unfoldable pub get_device : (List ℕ → List ℕ) → Option User → List ℕ → Page
get_device trim who code = require_user who (λ u. device (trim code))

abbrev device_found : Result PendingLogin → Page
device_found (err e) = device_error
device_found (ok r) = to_authorize r.id

-- `postDevice`; `upper` is the database's function.
unfoldable pub post_device :
    (List ℕ → List ℕ) → (List ℕ → List ℕ) → AccountState → ℕ → Option User → List ℕ → Page
post_device trim upper s clock who user_code =
    require_user who
      (λ u. device_found (pending_login_by_code upper s.logins clock (trim user_code)))

-- `getSettings`, of its lists the sessions.
unfoldable pub get_settings : AccountState → ℕ → Option User → Page
get_settings s clock who = require_user who (λ u. settings (list_sessions s.sessions clock u.id))

-- `MediaKind`, as the variant that the page plays.
abbrev pub shown_kind : List MediaVariant → VariantKind
shown_kind vs = if exists_row (λ v. same_kind v.kind video) vs then video else image

abbrev pub public_page : Result Loaded → Page
public_page (err e) = to_login
public_page (ok it) = story it (shown_kind it.1) false

abbrev pub viewer_page : Result Loaded → Page
viewer_page (err e) = gone
viewer_page (ok it) = story it (shown_kind it.1) true

-- `getExternalViewer`
unfoldable pub get_external_viewer : Db → ℕ → Option User → Option ℕ → Page
get_external_viewer db clock who none = http_error 404
get_external_viewer db clock none (some id) =
    public_page (public_story db.social db.pipeline clock id)
get_external_viewer db clock (some u) (some id) =
    if is_active (some u)
    then viewer_page (story_for_viewer db.social db.pipeline (as_viewer u) clock id)
    else http_error 403
