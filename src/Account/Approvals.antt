-- ===== src/Account/Approvals.antt =====
-- The page that asks a person to approve a login, and its form.
use gh_stories.Prelude.{
  ℕ, ◌≡◌, ap, inl, inr, refl, true, false, some, ltb, find_row, exists_row_complete, List,
  Bool-cases, Option-cases, find_row_sound, arith, same_text,
}
use gh_stories.Domain.{User}
use gh_stories.Store.Logins.{
  PendingLogin, is_login, is_pending, is_approvable, approve_pending_login,
}
use gh_stories.Store.Logins.Listings.{pending_login}
use gh_stories.Auth.{approve_login, issue_session}
use gh_stories.Account.{AccountState, Page, authorize, authorized, get_authorize, post_authorize}

-- The row that the page shows.
abbrev authorize_of : Page → PendingLogin → PendingLogin
authorize_of (authorize r) d = r
authorize_of _ d = d

get_authorize_sound :
    (s : AccountState) (u : User) (id : ℕ) (r : PendingLogin)
    → get_authorize s (some u) (some id) ≡ authorize r
    → (find_row (is_login id) s.logins ≡ some r) × (is_pending r.state ≡ true)
unfolding get_authorize pending_login
get_authorize_sound s u id r h = elim (Option-cases (find_row (is_login id) s.logins)) [
  | inl e ↦ let h' = rw e at h in cc
  | inr (p, e) ↦ elim (Bool-cases (is_pending p.state)) [
    | inl a ↦
        let h' : authorize p ≡ authorize r = rw (e, a) at h in
        let same : p ≡ r = ap (λ g. authorize_of g p) h' in (rw (← same) e, rw (← same) a)
    | inr a ↦ let h' = rw (e, a) at h in cc
  ]
]

-- The form of the approval page that the person is shown carries the login's own code, so its approval
-- is accepted as long as the login has not expired, for every code that trimming and capitals leave
-- as it is.
pub post_authorize-get_authorize :
    (hash : ℕ → ℕ) (trim to_upper : List ℕ → List ℕ) (session_ttl : ℕ) (s : AccountState)
    (clock new_session token id : ℕ) (u : User) (r : PendingLogin)
    → get_authorize s (some u) (some id) ≡ authorize r
    → ltb clock r.expires_at ≡ true
    → same_text (to_upper (trim (trim r.user_code))) r.user_code ≡ true
    → (post_authorize hash trim to_upper session_ttl s clock new_session token
        (some u)
        (some id)
        false
        r.user_code).0
      ≡ authorized true
unfolding post_authorize approve_login pending_login approve_pending_login issue_session
post_authorize-get_authorize hash trim to_upper session_ttl s clock new_session token id u r h early
      same =
    let (f, a) = get_authorize_sound s u id r h in
    let (m, i) = find_row_sound (is_login id) s.logins r f in
    let at_id : r.id ≡ id = ground arith in
    let fits = exists_row_complete (is_approvable clock id) m (ground arith) in
    rw (f, a, same, at_id, fits) refl
