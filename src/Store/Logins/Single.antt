-- ===== src/Store/Logins/Single.antt =====
-- A login's token is handed over at most once.
use gh_stories.Prelude.{
  ℕ, ◌+◌, ◌≤◌, ◌⊎◌, ◌≡◌, refl, inl, inr, true, false, List, [], ◌∷◌, ◌==◌, arith, if◌then◌else◌,
  find_row, exists_row, Bool-cases, Option-cases, All, ==_iff, find_row_sound, All-Mem, Memᴰ,
}
use gh_stories.Store.Social.{Result, ok, err}
use gh_stories.Store.Logins.{
  PendingLogin, expired, is_approved, PollResult, create_pending_login, approve_pending_login,
  deny_pending_login, poll_pending_login, is_login, is_approvable, approve_row, is_deniable,
  deny_row, only,
}
use gh_stories.Store.Logins.{has_secret}
use gh_stories.Store.Logins.Spent.{IsSpent, one_if, keep, poll_row-All, poll_row-token}

-- What clients and browsers do to the table.
pub data LoginOp : Type 0 where
  create : (clock new_id secret : ℕ) (code : List ℕ) (ttl : ℕ) → LoginOp
  approve : (clock id user session token : ℕ) → LoginOp
  deny : (id : ℕ) → LoginOp
  poll : (clock id secret max_polls : ℕ) → LoginOp

abbrev or_same {ℓ} : {A : Type ℓ} → A → Result A → A
or_same a (ok b) = b
or_same a (err e) = a

abbrev none_if_err :
    List PendingLogin → Result (PollResult × List PendingLogin) → PollResult × List PendingLogin
none_if_err rows (ok r) = r
none_if_err rows (err e) = (only expired, rows)

-- The rows after an operation, and how many tokens it handed over for the login `watched`.
abbrev pub login_step : ℕ → List PendingLogin → LoginOp → ℕ × List PendingLogin
login_step watched rows (create clock new_id secret code ttl) =
    (0, create_pending_login rows clock new_id secret code ttl)
login_step watched rows (approve clock id user session token) =
    (0, or_same rows (approve_pending_login rows clock id user session token))
login_step watched rows (deny id) = (0, deny_pending_login rows id)
login_step watched rows (poll clock id secret max_polls) =
    let a = none_if_err rows (poll_pending_login rows clock id secret max_polls) in
    (if id == watched then one_if a.0.token else 0, a.1)

-- The tokens handed over for the login `watched` by a sequence of operations.
unfoldable pub delivered : ℕ → List PendingLogin → List LoginOp → ℕ
delivered watched rows [] = 0
delivered watched rows (o ∷ os) =
    let s = login_step watched rows o in s.0 + delivered watched s.1 os

-- The database does not generate this id again.
abbrev pub IsFreshLogin : ℕ → LoginOp → Type 0
IsFreshLogin watched (create clock new_id secret code ttl) = (new_id == watched) ≡ false
IsFreshLogin watched _ = Unit

approve-All :
    (w : ℕ) (rows : List PendingLogin) (clock id user session token : ℕ)
    → All (IsSpent w) rows
    → All (IsSpent w) (or_same rows (approve_pending_login rows clock id user session token))
unfolding approve_pending_login
approve-All w rows clock id user session token h =
    elim (Bool-cases (exists_row (is_approvable clock id) rows)) [
      | inl e ↦ rw e (
          keep w (is_approvable clock id) (approve_row user session token) rows
            (λ s f x. ground arith) h)
      | inr e ↦ rw e h
    ]

poll-All :
    (w : ℕ) (rows : List PendingLogin) (clock id secret max_polls : ℕ)
    → All (IsSpent w) rows
    → All (IsSpent w) (none_if_err rows (poll_pending_login rows clock id secret max_polls)).1
unfolding poll_pending_login
poll-All w rows clock id secret max_polls h =
    elim (Option-cases (find_row (has_secret id secret) rows)) [
      | inl e ↦ rw e h
      | inr (r, e) ↦ rw e (poll_row-All w rows clock id max_polls r h)
    ]

login_step-All :
    (w : ℕ) (rows : List PendingLogin) (o : LoginOp)
    → IsFreshLogin w o
    → All (IsSpent w) rows
    → All (IsSpent w) (login_step w rows o).1
login_step-All w rows (create clock new_id secret code ttl) f h =
    unfold create_pending_login in (rw f refl, h)
login_step-All w rows (approve clock id user session token) f h =
    approve-All w rows clock id user session token h
login_step-All w rows (deny id) f h =
    unfold deny_pending_login in keep w (is_deniable id) deny_row rows (λ s e x. ground arith) h
login_step-All w rows (poll clock id secret max_polls) f h =
    poll-All w rows clock id secret max_polls h

poll-token :
    (rows : List PendingLogin) (clock id secret max_polls w : ℕ)
    → ((login_step w rows (poll clock id secret max_polls)).0 ≡ 0)
      ⊎ (((login_step w rows (poll clock id secret max_polls)).0 ≡ 1)
          × ((r : PendingLogin) × Memᴰ r rows
              × (is_login w r ≡ true)
              × (is_approved r.state ≡ true))
          × All (IsSpent w) (login_step w rows (poll clock id secret max_polls)).1)
unfolding poll_pending_login
poll-token rows clock id secret max_polls w = elim (Bool-cases (id == w)) [
  | inr e ↦ rw e (inl refl)
  | inl e ↦ elim (Option-cases (find_row (has_secret id secret) rows)) [
    | inl f ↦ rw (e, f) (inl refl)
    | inr (r, f) ↦
        let (m, t) = find_row_sound (has_secret id secret) rows r f in
        let same : id ≡ w = (==_iff id w).0 e in
        elim (poll_row-token rows clock id max_polls r) [
          | inl g ↦ rw (e, f, g) (inl refl)
          | inr (g, a, spent) ↦
              rw (e, f, g) (inr (refl, (r, m, ground arith, a), rw (← same) spent))
        ]
  ]
]

Hands : ℕ → List PendingLogin → LoginOp → Type 0
Hands w rows o =
    ((login_step w rows o).0 ≡ 1)
    × ((r : PendingLogin) × Memᴰ r rows × (is_login w r ≡ true) × (is_approved r.state ≡ true))
    × All (IsSpent w) (login_step w rows o).1

login_step-token :
    (w : ℕ) (rows : List PendingLogin) (o : LoginOp)
    → ((login_step w rows o).0 ≡ 0) ⊎ Hands w rows o
unfolding Hands
login_step-token w rows (create clock new_id secret code ttl) = inl refl
login_step-token w rows (approve clock id user session token) = inl refl
login_step-token w rows (deny id) = inl refl
login_step-token w rows (poll clock id secret max_polls) =
    poll-token rows clock id secret max_polls w

spent_hands_nothing :
    (w : ℕ) (rows : List PendingLogin) (o : LoginOp)
    → All (IsSpent w) rows
    → (login_step w rows o).0 ≡ 0
unfolding Hands
spent_hands_nothing w rows o h = elim (login_step-token w rows o) [
  | inl e ↦ e
  | inr (e, (r, m, i, a), t) ↦ let spent = All-Mem (IsSpent w) m h in ground arith
]

-- A login in which no row of this id is pending or approved hands over nothing.
delivered-IsSpent :
    (w : ℕ) (rows : List PendingLogin) (os : List LoginOp)
    → All (IsFreshLogin w) os
    → All (IsSpent w) rows
    → delivered w rows os ≡ 0
unfolding delivered
delivered-IsSpent w rows [] f h = refl
delivered-IsSpent w rows (o ∷ os) f h = omega (
  arith,
  spent_hands_nothing w rows o h,
  delivered-IsSpent w (login_step w rows o).1 os f.1 (login_step-All w rows o f.0 h),
)

-- However often, with whatever secret, and in whatever order browsers approve or deny a login and
-- clients poll it: its token is handed over at most once, provided that no new login gets its id.
pub delivered-le :
    (w : ℕ) (rows : List PendingLogin) (os : List LoginOp)
    → All (IsFreshLogin w) os
    → delivered w rows os ≤ 1
unfolding delivered Hands
delivered-le w rows [] f = omega arith
delivered-le w rows (o ∷ os) f = elim (login_step-token w rows o) [
  | inl e ↦ omega (arith, e, delivered-le w (login_step w rows o).1 os f.1)
  | inr (e, _, spent) ↦ omega (arith, e, delivered-IsSpent w (login_step w rows o).1 os f.1 spent)
]
