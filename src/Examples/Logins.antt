-- ===== src/Examples/Logins.antt =====
-- Runs of logins and sessions.
use gh_stories.Prelude.{
  refl, false, ◌+◌, ◌≡◌, ◌⊎◌, List, arith, ℕ, ◌≤◌, Option, none, some, [], ◌∷◌,
}
use gh_stories.Domain.{User, Session, is_active}
use gh_stories.Store.Logins.{PendingLogin, pending, approved, consumed, expired, only, DeviceLogin}
use gh_stories.Store.Social.{ok}
use gh_stories.Auth.{
  AuthState, AuthError, approve_login, start_login, poll_login, authenticate_token,
}
use gh_stories.Auth.Codes.{approve_login-IsConfirmed, IsConfirmed}
use gh_stories.Auth.Flow.{authenticate_token-approve_login}
use gh_stories.Store.Logins.Single.{delivered, delivered-le, approve, deny, poll}

abbrev pub login : PendingLogin
login = record {
  id = 4;
  polling_secret_hash = 9;
  user_code = 65 ∷ [];
  state = pending;
  expires_at = 100;
  poll_count = 0;
  approved_user_id = none;
  issued_session_id = none;
  issued_token = none;
}

-- An approval between polls; the token is collected by the second poll, and asked for again.
delivered-le_example :
    delivered 4
      (login ∷ [])
      (poll 1 4 9 50 ∷ approve 2 4 1 3 77 ∷ poll 3 4 9 50 ∷ deny 4 ∷ poll 4 4 9 50 ∷ [])
    ≤ 1
delivered-le_example =
    delivered-le 4 (login ∷ [])
      (poll 1 4 9 50 ∷ approve 2 4 1 3 77 ∷ poll 3 4 9 50 ∷ deny 4 ∷ poll 4 4 9 50 ∷ [])
      (tt, (tt, (tt, (tt, (tt, tt)))))

abbrev session : Session
session = record { id = 3; user_id = 1; token_hash = 77; expires_at = 100; revoked_at = none }

abbrev other : Session
other = record { id = 6; user_id = 1; token_hash = 78; expires_at = 100; revoked_at = none }

abbrev device : DeviceLogin
device = record {
  id = 2;
  state = approved;
  user_id = some 1;
  expires_at = 100;
  poll_count = 0;
  issued_token = some 77;
}

abbrev collected : ℕ → DeviceLogin
collected n = record device { state = consumed; poll_count = n; issued_token = none }

abbrev nothing : Option ℕ
nothing = none

abbrev person : User
person = record {
  id = 1;
  github_id = 11;
  is_moderator = false;
  suspended_at = none;
  deleted_at = none;
  onboarded_at = none;
}

abbrev accounts : AuthState
accounts = record {
  users = person ∷ [];
  identities = record { github_id = 11; login_lower = 97 ∷ [] } ∷ [];
  sessions = [];
  logins = [];
}

abbrev double : ℕ → ℕ
double n = n + n

abbrev same : List ℕ → List ℕ
same c = c

-- The code AB is approved at 10, the token 77 collected at 20, and used at 40.
authenticate_token-approve_login_example :
    let a =
      approve_login double same same 1000
        (start_login double 900 accounts 5 4 9 (65 ∷ 66 ∷ []))
        10
        3
        77
        4
        1
        (65 ∷ 66 ∷ []) in
    (a.0 ≡ none)
    × ((polled again : AuthState) × (poll_login double 900 a.1 20 4 9
          ≡ ok (record { status = approved; token = some 77; user_id = some 1 }, polled))
        × (poll_login double 900 polled 30 4 9 ≡ ok (only expired, again))
        × (authenticate_token double again 40 (some 77)
            ≡ some (
              record {
                id = 3;
                user_id = 1;
                token_hash = 154;
                expires_at = 1010;
                revoked_at = none;
              },
              person,
            )))
unfolding is_active
authenticate_token-approve_login_example =
    authenticate_token-approve_login double same same 900 1000 accounts person 4 9 3 77
      (65 ∷ 66 ∷ []) 5 10 20 30 40 (65 ∷ 66 ∷ []) refl refl refl refl (omega arith) (omega arith)

-- A wrong code.
approve_login-IsConfirmed_example :
    let o =
      approve_login double same same 1000
        (start_login double 900 accounts 5 4 9 (65 ∷ 66 ∷ []))
        10
        3
        77
        4
        1
        (65 ∷ 67 ∷ []) in
    ((o.0 ≡ none)
      × IsConfirmed same (start_login double 900 accounts 5 4 9 (65 ∷ 66 ∷ [])) 10 4 (65 ∷ 67 ∷ []))
    ⊎ ((o.1.logins ≡ (start_login double 900 accounts 5 4 9 (65 ∷ 66 ∷ [])).logins)
        × (e : AuthError) × (o.0 ≡ some e))
approve_login-IsConfirmed_example =
    approve_login-IsConfirmed double same same 1000
      (start_login double 900 accounts 5 4 9 (65 ∷ 66 ∷ [])) 10 3 77 4 1 (65 ∷ 67 ∷ [])
