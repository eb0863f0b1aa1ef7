-- ===== src/Auth/Codes.antt =====
-- What an approval asks of a login before a terminal is signed in.
use gh_stories.Prelude.{
  ℕ, ◌≡◌, ◌⊎◌, inl, inr, refl, true, Option, none, some, List, find_row, exists_row, arith,
  same_text, Bool-cases, Option-cases, Memᴰ, find_row_sound,
}
use gh_stories.Store.Logins.{
  PendingLogin, is_login, is_pending, is_approvable, approve_pending_login,
}
use gh_stories.Store.Logins.Listings.{pending_login}
use gh_stories.Auth.{AuthState, AuthError, approve_login, approve_with_code, issue_session}

-- The stored login that an approval needs: pending, not expired, with the code that was typed.
abbrev pub IsConfirmed : (List ℕ → List ℕ) → AuthState → ℕ → ℕ → List ℕ → Type 0
IsConfirmed normal s clock id typed =
    ((r : PendingLogin) × Memᴰ r s.logins
      × (is_login id r ≡ true)
      × (is_pending r.state ≡ true)
      × (same_text (normal typed) r.user_code ≡ true))
    × (exists_row (is_approvable clock id) s.logins ≡ true)

module _ (hash : ℕ → ℕ) (trim to_upper : List ℕ → List ℕ) (session_ttl : ℕ) (s : AuthState)
    (clock new_session token id user : ℕ) (typed : List ℕ) where
  abbrev Outcome : Option AuthError × AuthState → Type 0
  Outcome o =
      ((o.0 ≡ none) × IsConfirmed (λ c. to_upper (trim c)) s clock id typed)
      ⊎ ((o.1.logins ≡ s.logins) × (e : AuthError) × (o.0 ≡ some e))

  with_code :
      (p : PendingLogin)
      → Memᴰ p s.logins
      → is_login id p ≡ true
      → is_pending p.state ≡ true
      → Outcome
          (approve_with_code hash trim to_upper session_ttl s clock new_session token p user typed)
  unfolding approve_pending_login issue_session
  with_code p m i a = elim (Bool-cases (same_text (to_upper (trim typed)) p.user_code)) [
    | inr e ↦ rw e (inr (refl, _, refl))
    | inl e ↦
        let at_id : p.id ≡ id = ground arith in
        elim (Bool-cases (exists_row (is_approvable clock id) s.logins)) [
          | inl x ↦ rw (e, at_id, x) (inl (refl, ((p, m, i, a, e), refl)))
          | inr x ↦ rw (e, at_id, x) (inr (refl, _, refl))
        ]
  ]

  -- An approval succeeds only when a stored login of this id is pending, has the code that the person
  -- typed, trimmed and in capitals, and one of this id is approvable at this time; after every error
  -- the logins are as they were.
  pub approve_login-IsConfirmed :
      Outcome (approve_login hash trim to_upper session_ttl s clock new_session token id user typed)
  unfolding approve_login pending_login
  approve_login-IsConfirmed = elim (Option-cases (find_row (is_login id) s.logins)) [
    | inl f ↦ rw f (inr (refl, _, refl))
    | inr (p, f) ↦
        let (m, i) = find_row_sound (is_login id) s.logins p f in
        elim (Bool-cases (is_pending p.state)) [
          | inl a ↦ rw (f, a) (with_code p m i a)
          | inr a ↦ rw (f, a) (inr (refl, _, refl))
        ]
  ]
