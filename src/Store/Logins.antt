-- ===== src/Store/Logins.antt =====
-- internal/store/session.go and device.go: sessions, OAuth flows, and the logins of terminal clients
-- that a browser or GitHub approves. A token, a secret and their hashes are numbers.
pub mod Spent
pub mod Single
pub mod Listings
use gh_stories.Prelude.{
  ℕ, ◌+◌, Bool, true, false, not, ◌&&◌, Option, none, some, List, [], ◌∷◌, ltb, leb, ◌==◌,
  if◌then◌else◌, find_row, exists_row, update_rows,
}
use gh_stories.Domain.{User, Session, is_none}
use gh_stories.Store.Social.{Result, ok, err, not_found, ◌>>=◌, Identity, has_identity}
use gh_stories.Store.Stories.Uploads.{or_not_found}

-- The states of `pending_logins` and `device_logins`; the latter has no `denied`.
pub data LoginState : Type 0 where
  pending approved denied expired consumed : LoginState

abbrev pub is_pending : LoginState → Bool
is_pending pending = true
is_pending _ = false

abbrev pub is_approved : LoginState → Bool
is_approved approved = true
is_approved _ = false

pub record PendingLogin : Type 0 where
  pub id : ℕ
  pub polling_secret_hash : ℕ
  pub user_code : List ℕ
  pub state : LoginState
  pub expires_at : ℕ
  pub poll_count : ℕ
  pub approved_user_id : Option ℕ
  pub issued_session_id : Option ℕ
  pub issued_token : Option ℕ

abbrev pub is_login : ℕ → PendingLogin → Bool
is_login id r = r.id == id

-- `CreatePendingLogin`
unfoldable pub create_pending_login : List PendingLogin → ℕ → ℕ → ℕ → List ℕ → ℕ → List PendingLogin
create_pending_login rows clock new_id secret code ttl =
    record {
      id = new_id;
      polling_secret_hash = secret;
      user_code = code;
      state = pending;
      expires_at = clock + ttl;
      poll_count = 0;
      approved_user_id = none;
      issued_session_id = none;
      issued_token = none;
    }
    ∷ rows

abbrev pub is_approvable : ℕ → ℕ → PendingLogin → Bool
is_approvable clock id r = is_login id r && is_pending r.state && ltb clock r.expires_at

abbrev pub approve_row : ℕ → ℕ → ℕ → PendingLogin → PendingLogin
approve_row user session token r = record r {
  state = approved;
  approved_user_id = some user;
  issued_session_id = some session;
  issued_token = some token;
}

-- `ApprovePendingLogin`
unfoldable pub approve_pending_login :
    List PendingLogin → ℕ → ℕ → ℕ → ℕ → ℕ → Result (List PendingLogin)
approve_pending_login rows clock id user session token =
    if exists_row (is_approvable clock id) rows
    then ok (update_rows (is_approvable clock id) (approve_row user session token) rows)
    else err not_found

abbrev pub is_deniable : ℕ → PendingLogin → Bool
is_deniable id r = is_login id r && is_pending r.state

abbrev pub deny_row : PendingLogin → PendingLogin
deny_row r = record r { state = denied }

-- `DenyPendingLogin`
unfoldable pub deny_pending_login : List PendingLogin → ℕ → List PendingLogin
deny_pending_login rows id = update_rows (is_deniable id) deny_row rows

-- `PollResult`: the status, and the token with the user who approved.
pub record PollResult : Type 0 where
  pub status : LoginState
  pub token : Option ℕ
  pub user_id : Option ℕ

abbrev pub only : LoginState → PollResult
only s = record { status = s; token = none; user_id = none }

abbrev pub count_poll : PendingLogin → PendingLogin
count_poll r = record r { poll_count = r.poll_count + 1 }

-- The `switch` of `PollPendingLogin`, on the row that the query read: the answer, and whether the
-- row is consumed.
abbrev pub answer : LoginState → PendingLogin → PollResult × Bool
answer approved r = elim r.issued_token [
  | none ↦ (only expired, false)
  | some t ↦ (record { status = approved; token = some t; user_id = r.approved_user_id }, true)
]
answer pending r = (only pending, false)
answer denied r = (only denied, false)
answer expired r = (only expired, false)
answer consumed r = (only expired, false)

abbrev pub expire_row : PendingLogin → PendingLogin
expire_row r = record r { state = expired }

abbrev pub consume_row : PendingLogin → PendingLogin
consume_row r = record r { state = consumed; issued_token = none }

abbrev pub expire_login : ℕ → List PendingLogin → List PendingLogin
expire_login id rows = update_rows (is_login id) expire_row rows

abbrev pub consume_login : ℕ → Bool → List PendingLogin → List PendingLogin
consume_login id true rows = update_rows (is_login id) consume_row rows
consume_login id false rows = rows

-- `PollPendingLogin` behind its query.
abbrev pub poll_row : List PendingLogin → ℕ → ℕ → ℕ → PendingLogin → PollResult × List PendingLogin
poll_row rows clock id max_polls r =
    if leb max_polls r.poll_count
    then (only expired, expire_login id rows)
    else (let counted = update_rows (is_login id) count_poll rows in
        if not (ltb clock r.expires_at) && is_pending r.state
        then (only expired, expire_login id counted)
        else (let a = answer r.state r in (a.0, consume_login id a.1 counted)))

abbrev pub has_secret : ℕ → ℕ → PendingLogin → Bool
has_secret id secret r = is_login id r && r.polling_secret_hash == secret

-- `PollPendingLogin`
unfoldable pub poll_pending_login :
    List PendingLogin → ℕ → ℕ → ℕ → ℕ → Result (PollResult × List PendingLogin)
poll_pending_login rows clock id secret max_polls = do
  r ← or_not_found (find_row (has_secret id secret) rows)
  ok (poll_row rows clock id max_polls r)

pub record DeviceLogin : Type 0 where
  pub id : ℕ
  pub state : LoginState
  pub user_id : Option ℕ
  pub expires_at : ℕ
  pub poll_count : ℕ
  pub issued_token : Option ℕ

abbrev pub is_device : ℕ → DeviceLogin → Bool
is_device id d = d.id == id

-- The rows of a poll: expiry first, then the count; an approved token is then consumed.
abbrev pub expire_device : ℕ → DeviceLogin → DeviceLogin
expire_device clock d =
    if is_pending d.state && not (ltb clock d.expires_at) then record d { state = expired } else d

abbrev pub consume_device : DeviceLogin → DeviceLogin
consume_device d =
    if is_approved d.state && not (is_none d.issued_token)
    then record d { state = consumed; issued_token = none }
    else d

abbrev pub count_device : DeviceLogin → DeviceLogin
count_device d = record d { poll_count = d.poll_count + 1 }

abbrev pub handed : DeviceLogin → Option ℕ
handed d = if is_approved d.state then d.issued_token else none

abbrev pub polled_device : ℕ → DeviceLogin → DeviceLogin
polled_device clock r = consume_device (count_device (expire_device clock r))

-- `PollDeviceLogin`: the state and the token that it answers, and the rows. `id` is the primary key.
unfoldable pub poll_device_login :
    List DeviceLogin → ℕ → ℕ → Result ((LoginState × Option ℕ) × List DeviceLogin)
poll_device_login rows clock id = do
  d ← or_not_found (find_row (is_device id) rows)
  let late = expire_device clock d
  ok (
    ((consume_device late).state, handed late),
    update_rows (is_device id) (polled_device clock) rows,
  )

-- `ApproveDeviceLogin`
abbrev pub is_approvable_device : ℕ → ℕ → DeviceLogin → Bool
is_approvable_device clock id d = is_device id d && is_pending d.state && ltb clock d.expires_at

unfoldable pub approve_device_login : List DeviceLogin → ℕ → ℕ → ℕ → ℕ → Bool × List DeviceLogin
approve_device_login rows clock id user token = (
  exists_row (is_approvable_device clock id) rows,
  update_rows (is_approvable_device clock id)
      (λ d. record d { state = approved; user_id = some user; issued_token = some token }) rows,
)

-- `ExpireDeviceLogin`
unfoldable pub expire_device_login : List DeviceLogin → ℕ → List DeviceLogin
expire_device_login rows id =
    update_rows (λ d. is_device id d && is_pending d.state)
      (λ d. record d { state = expired; issued_token = none }) rows

-- `OAuthFlow`, with the columns that its consumption reads.
pub record OAuthFlow : Type 0 where
  pub id : ℕ
  pub state_hash : ℕ
  pub code_verifier : ℕ
  pub pending_login_id : Option ℕ
  pub consumed_at : Option ℕ
  pub expires_at : ℕ

abbrev pub is_usable : ℕ → ℕ → OAuthFlow → Bool
is_usable clock hash f = f.state_hash == hash && is_none f.consumed_at && ltb clock f.expires_at

abbrev pub consume_flow : ℕ → OAuthFlow → OAuthFlow
consume_flow db_now f = record f { consumed_at = some db_now }

-- `ConsumeOAuthFlow`
unfoldable pub consume_oauth_flow : List OAuthFlow → ℕ → ℕ → ℕ → Result (OAuthFlow × List OAuthFlow)
consume_oauth_flow rows clock db_now hash = do
  f ← or_not_found (find_row (is_usable clock hash) rows)
  ok (consume_flow db_now f, update_rows (is_usable clock hash) (consume_flow db_now) rows)

-- `CreateSession`; SHA-256 is `hash_token`.
unfoldable pub create_session : (ℕ → ℕ) → List Session → ℕ → ℕ → ℕ → ℕ → ℕ → List Session
create_session hash_token rows clock new_id user token ttl =
    record {
      id = new_id;
      user_id = user;
      token_hash = hash_token token;
      expires_at = clock + ttl;
      revoked_at = none;
    }
    ∷ rows

abbrev pub is_bearer : List User → List Identity → ℕ → ℕ → Session → Bool
is_bearer users identities hash clock se =
    se.token_hash == hash
    && is_none se.revoked_at
    && ltb clock se.expires_at
    && exists_row
        (λ u. u.id == se.user_id && has_identity identities u.github_id && is_none u.deleted_at)
        users

-- `SessionByToken`; the user is the one that `user_id` names.
unfoldable pub session_by_token :
    (ℕ → ℕ) → List User → List Identity → List Session → ℕ → ℕ → Result Session
session_by_token hash_token users identities rows clock token =
    or_not_found (find_row (is_bearer users identities (hash_token token) clock) rows)

abbrev pub is_revocable : ℕ → ℕ → Session → Bool
is_revocable user id se = se.id == id && se.user_id == user && is_none se.revoked_at

abbrev pub revoke_row : ℕ → Session → Session
revoke_row db_now se = record se { revoked_at = some db_now }

-- `RevokeSession`
unfoldable pub revoke_session : List Session → ℕ → ℕ → ℕ → Result (List Session)
revoke_session rows db_now user id =
    if exists_row (is_revocable user id) rows
    then ok (update_rows (is_revocable user id) (revoke_row db_now) rows)
    else err not_found
