-- ===== src/Store/Logins/Spent.antt =====
-- What a poll hands over, and the logins that hand over nothing any more.
use gh_stories.Prelude.{
  ℕ, ◌⊎◌, ◌≡◌, refl, inl, inr, Bool, true, false, not, ◌&&◌, ◌||◌, Option, none, some, List, ltb,
  leb, arith, if◌then◌else◌, update_rows, Bool-cases, Option-cases, All, All-update_rows,
  All-update_rows_of, Memᴰ,
}
use gh_stories.Store.Logins.{
  PendingLogin, LoginState, pending, approved, denied, expired, consumed, is_pending, is_approved,
  poll_row, is_login, consume_login, count_poll, expire_row, consume_row, answer,
}

abbrev pub one_if : Option ℕ → ℕ
one_if none = 0
one_if (some t) = 1

-- The row of this id, if there is one, hands over nothing from now on.
abbrev pub IsSpent : ℕ → PendingLogin → Type 0
IsSpent id r = (is_login id r && (is_pending r.state || is_approved r.state)) ≡ false

pub keep :
    (w : ℕ) (p : PendingLogin → Bool) (f : PendingLogin → PendingLogin) (rows : List PendingLogin)
    → ((r : PendingLogin) → p r ≡ true → IsSpent w r → IsSpent w (f r))
    → All (IsSpent w) rows
    → All (IsSpent w) (update_rows p f rows)
keep w p f rows k h = All-update_rows (IsSpent w) p f rows k h

consume_login-All :
    (w id : ℕ) (b : Bool) (rows : List PendingLogin)
    → All (IsSpent w) rows
    → All (IsSpent w) (consume_login id b rows)
consume_login-All w id true rows h = keep w (is_login id) consume_row rows (λ r e x. ground arith) h
consume_login-All w id false rows h = h

pub poll_row-All :
    (w : ℕ) (rows : List PendingLogin) (clock id max_polls : ℕ) (r : PendingLogin)
    → All (IsSpent w) rows
    → All (IsSpent w) (poll_row rows clock id max_polls r).1
poll_row-All w rows clock id max_polls r h = elim (Bool-cases (leb max_polls r.poll_count)) [
  | inl e ↦ rw e (keep w (is_login id) expire_row rows (λ s f x. ground arith) h)
  | inr e ↦ elim (Bool-cases (not (ltb clock r.expires_at) && is_pending r.state)) [
    | inl late ↦ rw (e, late) (keep w (is_login id) expire_row _ (λ s f x. ground arith) counted)
    | inr live ↦ rw (e, live) (consume_login-All w id _ _ counted)
  ]
]
  where
    counted : All (IsSpent w) (update_rows (is_login id) count_poll rows)
    counted = keep w (is_login id) count_poll rows (λ s f x. x) h

consumed-All : (id : ℕ) (rows : List PendingLogin) → All (IsSpent id) (consume_login id true rows)
consumed-All id rows = All-update_rows_of (IsSpent id) (is_login id) consume_row rows row
  where
    row : (r : PendingLogin) → Memᴰ r rows → IsSpent id (if is_login id r then consume_row r else r)
    row r m = elim (Bool-cases (is_login id r)) [ inl e ↦ rw (e, e) refl | inr e ↦ rw (e, e) refl ]

-- A poll hands over at most one token, and a login that was polled for one is spent.
pub poll_row-token :
    (rows : List PendingLogin) (clock id max_polls : ℕ) (r : PendingLogin)
    → (one_if (poll_row rows clock id max_polls r).0.token ≡ 0)
      ⊎ ((one_if (poll_row rows clock id max_polls r).0.token ≡ 1)
          × (is_approved r.state ≡ true)
          × All (IsSpent id) (poll_row rows clock id max_polls r).1)
poll_row-token rows clock id max_polls r = elim (Bool-cases (leb max_polls r.poll_count)) [
  | inl e ↦ rw e (inl refl)
  | inr e ↦ elim (Bool-cases (not (ltb clock r.expires_at) && is_pending r.state)) [
    | inl late ↦ rw (e, late) (inl refl)
    | inr live ↦ rw (e, live) (answered r.state r refl)
  ]
]
  where
    counted : List PendingLogin
    counted = update_rows (is_login id) count_poll rows

    answered :
        (s : LoginState) (x : PendingLogin)
        → x.state ≡ s
        → (one_if (answer s x).0.token ≡ 0)
          ⊎ ((one_if (answer s x).0.token ≡ 1)
              × (is_approved s ≡ true)
              × All (IsSpent id) (consume_login id (answer s x).1 counted))
    answered approved x e = elim (Option-cases x.issued_token) [
      | inl f ↦ rw f (inl refl)
      | inr (t, f) ↦ rw f (inr (refl, refl, consumed-All id counted))
    ]
    answered pending x e = inl refl
    answered denied x e = inl refl
    answered expired x e = inl refl
    answered consumed x e = inl refl
