-- ===== src/Api/Logins.antt =====
-- internal/api/handlers_auth.go: signing in from a terminal, and the sessions of an account.
--
-- Package auth is configured. A field that is no UUID is none, and so is an empty secret. The client's
-- label and the page's URL are left out.
use gh_stories.Prelude.{
  ℕ, Bool, true, false, Option, none, some, List, ◌+◌, ◌==◌, ◌&&◌, not, find_row, map,
  if◌then◌else◌,
}
use gh_stories.Domain.{User, Session, is_none}
use gh_stories.Store.Social.{mark_onboarded, has_identity}
use gh_stories.Store.Interact.{unread_count}
use gh_stories.Store.Logins.{LoginState, PollResult, is_approved, revoke_session}
use gh_stories.Store.Logins.Listings.{list_sessions}
use gh_stories.Auth.{AuthState, logout, poll_login, start_login}
use gh_stories.Api.{
  Db, Answer, done, fail, ◌>>=◌, invalid, or_internal, or_missing, must_caller, path_uuid,
}

-- The kinds that `ClientKind` names.
pub data ClientKind : Type 0 where
  web cli browser_extension : ClientKind

-- `sessionInfo`, as far as it is modelled.
pub record SessionInfo : Type 0 where
  pub id : ℕ
  pub expires_at : ℕ
  pub current : Bool

pub data LoginResponse : Type 0 where
  started : (login secret : ℕ) → (code : List ℕ) → (expires_at interval_seconds : ℕ) → LoginResponse
  polled : (status : LoginState) → (token : Option ℕ) → (user : Option User) → LoginResponse
  signed_out : LoginResponse
  session_list : List SessionInfo → LoginResponse
  no_content : LoginResponse
  me : (user : User) → (needs_onboarding is_moderator : Bool) → (unread now : ℕ) → LoginResponse
  import_declined : User → LoginResponse
  import_offered : User → LoginResponse

abbrev can_start : Option ClientKind → Bool
can_start (some cli) = true
can_start (some browser_extension) = true
can_start _ = false

-- `postPendingLogin`; the id, the secret and the code are new.
unfoldable pub post_pending_login :
    (ℕ → ℕ)
    → ℕ
    → AuthState
    → ℕ
    → ℕ
    → ℕ
    → List ℕ
    → Option ClientKind
    → Answer (AuthState × LoginResponse)
post_pending_login hash login_ttl s clock new_id secret code kind =
    if can_start kind
    then done (
      start_login hash login_ttl s clock new_id secret code,
      started new_id secret code (clock + login_ttl) 5,
    )
    else fail (invalid "client_kind" "Unknown client.")

-- `UserByID`
abbrev user_by_id : AuthState → ℕ → Option User
user_by_id s id = find_row (λ u. u.id == id && has_identity s.identities u.github_id) s.users

abbrev user_of_poll : AuthState → Option ℕ → Option User
user_of_poll s none = none
user_of_poll s (some id) = user_by_id s id

abbrev poll_response : AuthState → PollResult → LoginResponse
poll_response s r =
    if is_approved r.status && not (is_none r.token)
    then polled r.status r.token (user_of_poll s r.user_id)
    else polled r.status none none

-- `postPollLogin`
unfoldable pub post_poll_login :
    (ℕ → ℕ) → ℕ → AuthState → ℕ → Option ℕ → Option ℕ → Answer (AuthState × LoginResponse)
post_poll_login hash login_ttl s clock id secret = do
  login ← path_uuid id
  given ← path_uuid secret
  r ← or_missing (poll_login hash login_ttl s clock login given)
  done (r.1, poll_response r.1 r.0)

abbrev log_out_of : AuthState → ℕ → ℕ → Option Session → Answer AuthState
log_out_of s db_now user none = done s
log_out_of s db_now user (some se) = or_internal (logout s db_now user se.id)

-- `postLogout`; `session` is the caller's.
unfoldable pub post_logout :
    AuthState → ℕ → Option User → Option Session → Answer (AuthState × LoginResponse)
post_logout s db_now caller session = do
  u ← must_caller caller
  s' ← log_out_of s db_now u.id session
  done (s', signed_out)

abbrev is_current : Option Session → ℕ → Bool
is_current none id = false
is_current (some se) id = se.id == id

-- `presentSession`
abbrev present_session : Option Session → Session → SessionInfo
present_session session se = record {
  id = se.id;
  expires_at = se.expires_at;
  current = is_current session se.id;
}

-- `listAuthSessions`
unfoldable pub list_auth_sessions :
    AuthState → ℕ → Option User → Option Session → Answer LoginResponse
list_auth_sessions s clock caller session = do
  u ← must_caller caller
  done (session_list (map (present_session session) (list_sessions s.sessions clock u.id)))

-- `revokeSession`
unfoldable pub delete_session :
    AuthState → ℕ → Option User → Option ℕ → Answer (AuthState × LoginResponse)
delete_session s db_now caller id = do
  u ← must_caller caller
  session ← path_uuid id
  rows ← or_missing (revoke_session s.sessions db_now u.id session)
  done (record s { sessions = rows }, no_content)

-- `getMe`
unfoldable pub get_me : Db → ℕ → Option User → Answer LoginResponse
get_me db now caller = do
  u ← must_caller caller
  done (me u (is_none u.onboarded_at) u.is_moderator (unread_count db.inbox u.id) now)

abbrev is_wanted : Option Bool → Bool
is_wanted none = true
is_wanted (some enabled) = enabled

-- `postImportFollows`
unfoldable pub post_import_follows :
    Db → ℕ → Option User → Option Bool → Answer (Db × LoginResponse)
post_import_follows db now caller enabled = do
  u ← must_caller caller
  done (
      if is_wanted enabled then (db, import_offered u) else (
        record db { social = record db.social { users = mark_onboarded u.id now db.social.users } },
        import_declined u,
      ))
