-- ===== src/Auth.antt =====
-- internal/auth: sessions (session.go), and the logins of terminal clients that a person approves in a
-- browser (pending.go).
--
-- A token, a secret and a hash are numbers; the random ones and the ids that the database generates
-- are arguments, and times are nanoseconds. `hash` is SHA-256, and `trim` and `to_upper` are `strings.TrimSpace` and `strings.ToUpper`.

pub mod Flow
pub mod Codes
use gh_stories.Prelude.{
  ℕ, ◌+◌, ◌/◌, Bool, true, false, Option, none, some, List, [], ◌∷◌, ltb, ◌==◌, if◌then◌else◌,
  find_row, same_text,
}
use gh_stories.Domain.{User, Session, is_active}
use gh_stories.Store.Social.{Result, ok, err, Identity}
use gh_stories.Store.Logins.{
  PendingLogin, PollResult, approve_pending_login, create_pending_login, create_session,
  deny_pending_login, is_pending, poll_pending_login, revoke_session, session_by_token,
}
use gh_stories.Store.Logins.Listings.{pending_login}

pub record AuthState : Type 0 where
  pub users : List User
  pub identities : List Identity
  pub sessions : List Session
  pub logins : List PendingLogin

-- `ErrUnauthenticated`, `ErrPendingLoginNotFound` and `ErrUserCodeMismatch`
pub data AuthError : Type 0 where
  unauthenticated pending_login_not_found user_code_mismatch : AuthError

-- `IssueSession`, with the session's lifetime of the configuration.
unfoldable pub issue_session : (ℕ → ℕ) → ℕ → AuthState → ℕ → ℕ → ℕ → ℕ → AuthState
issue_session hash session_ttl s clock new_id token user = record s {
  sessions = create_session hash s.sessions clock new_id user token session_ttl;
}

abbrev pub is_user : ℕ → User → Bool
is_user id u = u.id == id

-- A session with the user that `SessionByToken` joins to it, if active.
abbrev pub if_active : Session → Option User → Option (Session × User)
if_active se none = none
if_active se (some u) = if is_active (some u) then some (se, u) else none

abbrev pub bearer_of : AuthState → Result Session → Option (Session × User)
bearer_of s (err e) = none
bearer_of s (ok se) = if_active se (find_row (is_user se.user_id) s.users)

-- `Authenticate`, whose every refusal is `ErrUnauthenticated`; an empty bearer is `none`. The time of
-- the last use is left out.
unfoldable pub authenticate_token : (ℕ → ℕ) → AuthState → ℕ → Option ℕ → Option (Session × User)
authenticate_token hash s clock none = none
authenticate_token hash s clock (some token) =
    bearer_of s (session_by_token hash s.users s.identities s.sessions clock token)

abbrev with_sessions : AuthState → Result (List Session) → Result AuthState
with_sessions s (ok rows) = ok (record s { sessions = rows })
with_sessions s (err e) = err e

-- `Logout`
unfoldable pub logout : AuthState → ℕ → ℕ → ℕ → Result AuthState
logout s db_now user session = with_sessions s (revoke_session s.sessions db_now user session)

-- `CreatePendingLogin`; the code and the secret are new.
unfoldable pub start_login : (ℕ → ℕ) → ℕ → AuthState → ℕ → ℕ → ℕ → List ℕ → AuthState
start_login hash login_ttl s clock new_id secret code = record s {
  logins = create_pending_login s.logins clock new_id (hash secret) code login_ttl;
}

-- The outcome of an approval: the session stays when the approval is refused.
abbrev approved_logins : AuthState → Result (List PendingLogin) → Option AuthError × AuthState
approved_logins s (ok rows) = (none, record s { logins = rows })
approved_logins s (err e) = (some pending_login_not_found, s)

-- `ApprovePendingLogin` behind its query and its check of the state.
abbrev pub approve_with_code :
    (ℕ → ℕ)
    → (List ℕ → List ℕ)
    → (List ℕ → List ℕ)
    → ℕ
    → AuthState
    → ℕ
    → ℕ
    → ℕ
    → PendingLogin
    → ℕ
    → List ℕ
    → Option AuthError × AuthState
approve_with_code hash trim to_upper session_ttl s clock new_session token p user typed =
    if same_text (to_upper (trim typed)) p.user_code
    then (let issued = issue_session hash session_ttl s clock new_session token user in
        approved_logins issued
          (approve_pending_login issued.logins clock p.id user new_session token))
    else (some user_code_mismatch, s)

abbrev approve_found :
    (ℕ → ℕ)
    → (List ℕ → List ℕ)
    → (List ℕ → List ℕ)
    → ℕ
    → AuthState
    → ℕ
    → ℕ
    → ℕ
    → Result PendingLogin
    → ℕ
    → List ℕ
    → Option AuthError × AuthState
approve_found hash trim to_upper session_ttl s clock new_session token (err e) user typed =
    (some pending_login_not_found, s)
approve_found hash trim to_upper session_ttl s clock new_session token (ok p) user typed =
    if is_pending p.state
    then approve_with_code hash trim to_upper session_ttl s clock new_session token p user typed
    else (some pending_login_not_found, s)

-- `ApprovePendingLogin`
unfoldable pub approve_login :
    (ℕ → ℕ)
    → (List ℕ → List ℕ)
    → (List ℕ → List ℕ)
    → ℕ
    → AuthState
    → ℕ
    → ℕ
    → ℕ
    → ℕ
    → ℕ
    → List ℕ
    → Option AuthError × AuthState
approve_login hash trim to_upper session_ttl s clock new_session token id user typed =
    approve_found hash trim to_upper session_ttl s clock new_session token
      (pending_login s.logins id) user typed

-- `DenyPendingLogin`
unfoldable pub deny_login : AuthState → ℕ → AuthState
deny_login s id = record s { logins = deny_pending_login s.logins id }

-- `pollIntervalSeconds`, in nanoseconds
abbrev pub poll_interval : ℕ
poll_interval = 5000000000

-- `maxPolls`
unfoldable pub max_polls : ℕ → ℕ
max_polls login_ttl =
    let budget = login_ttl / poll_interval + 12 in if ltb budget 1 then 1 else budget

abbrev with_logins :
    AuthState → Result (PollResult × List PendingLogin) → Result (PollResult × AuthState)
with_logins s (ok r) = ok (r.0, record s { logins = r.1 })
with_logins s (err e) = err e

-- `Poll`
unfoldable pub poll_login : (ℕ → ℕ) → ℕ → AuthState → ℕ → ℕ → ℕ → Result (PollResult × AuthState)
poll_login hash login_ttl s clock id secret =
    with_logins s (poll_pending_login s.logins clock id (hash secret) (max_polls login_ttl))
