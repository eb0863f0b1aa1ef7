-- ===== src/Auth/Flow.antt =====
-- A login from its start in a terminal to the requests that its token authenticates.
use gh_stories.Prelude.{
  ℕ, ◌+◌, ◌<◌, ◌≡◌, inl, inr, refl, true, false, none, some, List, ◌∷◌, ltb, leb, ◌==◌, arith,
  find_row, update_rows, same_text, ==_refl, Bool-cases, find_row_sound, exists_row_complete, ◌&&◌,
}
use gh_stories.Domain.{User, Session, is_active, is_none}
use gh_stories.Store.Social.{ok, has_identity}
use gh_stories.Store.Logins.{
  PendingLogin, pending, approved, expired, is_login, only, approve_row, is_approvable, consume_row,
  count_poll, create_pending_login, create_session, approve_pending_login, poll_pending_login,
  session_by_token,
}
use gh_stories.Store.Logins.Listings.{pending_login}
use gh_stories.Auth.{
  AuthState, is_user, start_login, approve_login, poll_login, authenticate_token, max_polls,
  issue_session,
}

-- The budget of polls is never below twelve.
max_polls_left : (login_ttl n : ℕ) → n < 12 → leb (max_polls login_ttl) n ≡ false
unfolding max_polls
max_polls_left login_ttl n l = ground arith

module _ (hash : ℕ → ℕ) (trim to_upper : List ℕ → List ℕ) (login_ttl session_ttl : ℕ)
    (s : AuthState) (u : User) (id secret session token : ℕ) (code : List ℕ) where
  -- The login's row after its start, its approval, the poll that collects the token, and one more.
  abbrev row_at : ℕ → PendingLogin
  row_at clock = record {
    id = id;
    polling_secret_hash = hash secret;
    user_code = code;
    state = pending;
    expires_at = clock + login_ttl;
    poll_count = 0;
    approved_user_id = none;
    issued_session_id = none;
    issued_token = none;
  }

  abbrev session_at : ℕ → Session
  session_at clock = record {
    id = session;
    user_id = u.id;
    token_hash = hash token;
    expires_at = clock + session_ttl;
    revoked_at = none;
  }

  approve_started :
      (t0 t1 : ℕ) (typed : List ℕ)
      → same_text (to_upper (trim typed)) code ≡ true
      → t1 < t0 + login_ttl
      → (rest : List PendingLogin) × approve_login hash trim to_upper session_ttl
            (start_login hash login_ttl s t0 id secret code)
            t1
            session
            token
            id
            u.id
            typed
          ≡ (
            none,
            record s {
              sessions = session_at t1 ∷ s.sessions;
              logins = approve_row u.id session token (row_at t0) ∷ rest;
            },
          )
  unfolding start_login approve_login issue_session create_pending_login create_session
      approve_pending_login pending_login
  approve_started t0 t1 typed h l =
      let fits : is_approvable t1 id (row_at t0) ≡ true = ground arith in
      (
        update_rows (is_approvable t1 id) (approve_row u.id session token) s.logins,
        rw (==_refl id, h, fits) refl,
      )

  poll_approved :
      (t0 t2 : ℕ) (sessions : List Session) (rest : List PendingLogin)
      → (after : List PendingLogin) × (poll_login hash login_ttl
            (record s {
              sessions = sessions;
              logins = approve_row u.id session token (row_at t0) ∷ rest;
            })
            t2
            id
            secret
          ≡ ok (
            record { status = approved; token = some token; user_id = some u.id },
            record s {
              sessions = sessions;
              logins =
                  consume_row (count_poll (approve_row u.id session token (row_at t0))) ∷ after;
            },
          ))
  unfolding poll_login poll_pending_login
  poll_approved t0 t2 sessions rest = (
    update_rows (is_login id) consume_row (update_rows (is_login id) count_poll rest),
    rw (==_refl id, ==_refl (hash secret), max_polls_left login_ttl 0 (ground arith))
        (elim (Bool-cases (ltb t2 (t0 + login_ttl))) [
          | inl e ↦ rw (e, ==_refl id) refl
          | inr e ↦ rw (e, ==_refl id) refl
        ]),
  )

  poll_consumed :
      (t0 t2 : ℕ) (sessions : List Session) (rest : List PendingLogin)
      → (after : List PendingLogin) × (poll_login hash login_ttl
            (record s {
              sessions = sessions;
              logins = consume_row (count_poll (approve_row u.id session token (row_at t0))) ∷ rest;
            })
            t2
            id
            secret
          ≡ ok (only expired, record s { sessions = sessions; logins = after }))
  unfolding poll_login poll_pending_login
  poll_consumed t0 t2 sessions rest = (
    count_poll (consume_row (count_poll (approve_row u.id session token (row_at t0))))
        ∷ update_rows (is_login id) count_poll rest,
    rw (==_refl id, ==_refl (hash secret), max_polls_left login_ttl 1 (ground arith))
        (elim (Bool-cases (ltb t2 (t0 + login_ttl))) [ inl e ↦ rw e refl | inr e ↦ rw e refl ]),
  )

  issued_authenticates :
      (t1 t3 : ℕ) (logins : List PendingLogin)
      → find_row (is_user u.id) s.users ≡ some u
      → has_identity s.identities u.github_id ≡ true
      → is_active (some u) ≡ true
      → t3 < t1 + session_ttl
      → authenticate_token hash
          (record s { sessions = session_at t1 ∷ s.sessions; logins = logins })
          t3
          (some token)
        ≡ some (session_at t1, u)
  unfolding authenticate_token session_by_token is_active
  issued_authenticates t1 t3 logins f i a l =
      let live : ltb t3 (t1 + session_ttl) ≡ true = ground arith in
      let (m, same) = find_row_sound (is_user u.id) s.users u f in
      let known =
        exists_row_complete
          (λ (w : User).
            w.id == u.id && has_identity s.identities w.github_id && is_none w.deleted_at)
          m (ground arith) in
      rw (==_refl (hash token), live, known, f, a) refl

  -- A login that a person approves before it expires, with the code that its terminal shows, is polled
  -- with its secret at any time after: the answer is approved and hands over the token, a further poll
  -- answers expired and hands over nothing, and until its session's end the token authenticates the
  -- person who approved, whose account has an identity and is active. These calls follow each other
  -- with no other call between them.
  pub authenticate_token-approve_login :
      (t0 t1 t2 t3 t4 : ℕ) (typed : List ℕ)
      → find_row (is_user u.id) s.users ≡ some u
      → has_identity s.identities u.github_id ≡ true
      → is_active (some u) ≡ true
      → same_text (to_upper (trim typed)) code ≡ true
      → t1 < t0 + login_ttl
      → t4 < t1 + session_ttl
      → let a =
          approve_login hash trim to_upper session_ttl
            (start_login hash login_ttl s t0 id secret code)
            t1
            session
            token
            id
            u.id
            typed in
        (a.0 ≡ none)
        × ((polled again : AuthState) × (poll_login hash login_ttl a.1 t2 id secret
              ≡ ok (record { status = approved; token = some token; user_id = some u.id }, polled))
            × (poll_login hash login_ttl polled t3 id secret ≡ ok (only expired, again))
            × (authenticate_token hash again t4 (some token) ≡ some (session_at t1, u)))
  authenticate_token-approve_login t0 t1 t2 t3 t4 typed f i a h l m =
      let (rest, approval) = approve_started t0 t1 typed h l in
      let (left, collected) = poll_approved t0 t2 (session_at t1 ∷ s.sessions) rest in
      let (again, refused) = poll_consumed t0 t3 (session_at t1 ∷ s.sessions) left in
      rw approval (refl, (_, _, collected, refused, issued_authenticates t1 t4 again f i a m))
