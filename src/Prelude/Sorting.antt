-- ===== src/Prelude/Sorting.antt =====
-- Sorting by a Boolean order, as an `ORDER BY` does it. Rows that the order does not tell apart keep
-- the order in which they are stored.
use mathlib.Core.Path.{◌≡◌, refl}
use mathlib.Core.Bool.{Bool, true, false}
use mathlib.Core.Logic.{inl, inr}
use mathlib.Core.List.{List, [], ◌∷◌, Memᴰ}
use gh_stories.Prelude.Tests.{if◌then◌else◌, Bool-cases}
use gh_stories.Prelude.Lists.{All}

module _ {ℓ} {A : Type ℓ} (le : A → A → Bool) where
  abbrev pub insert_by : A → List A → List A
  insert_by x [] = x ∷ []
  insert_by x (y ∷ ys) = if le x y then x ∷ y ∷ ys else y ∷ insert_by x ys

  abbrev pub sort_by : List A → List A
  sort_by [] = []
  sort_by (x ∷ xs) = insert_by x (sort_by xs)

  pub All-insert_by {κ} :
      (P : A → Type κ) (x : A) (xs : List A) → P x → All P xs → All P (insert_by x xs)
  All-insert_by P x [] h hs = (h, tt)
  All-insert_by P x (y ∷ ys) h hs = elim (Bool-cases (le x y)) [
    | inl e ↦ rw e (h, hs)
    | inr e ↦ rw e (hs.0, All-insert_by P x ys h hs.1)
  ]

  pub All-sort_by {κ} : (P : A → Type κ) (xs : List A) → All P xs → All P (sort_by xs)
  All-sort_by P [] h = tt
  All-sort_by P (x ∷ xs) h = All-insert_by P x (sort_by xs) h.0 (All-sort_by P xs h.1)

  insert_by-head : (x : A) (xs : List A) → Memᴰ x (insert_by x xs)
  insert_by-head x [] = Memᴰ.head refl
  insert_by-head x (y ∷ ys) = elim (Bool-cases (le x y)) [
    | inl e ↦ rw e (Memᴰ.head refl)
    | inr e ↦ rw e (Memᴰ.tail (insert_by-head x ys))
  ]

  insert_by-tail : (x z : A) (xs : List A) → Memᴰ z xs → Memᴰ z (insert_by x xs)
  insert_by-tail x z [] m = elim m [ ]
  insert_by-tail x z (y ∷ ys) (Memᴰ.head e) = elim (Bool-cases (le x y)) [
    | inl t ↦ rw t (Memᴰ.tail (Memᴰ.head e))
    | inr t ↦ rw t (Memᴰ.head e)
  ]
  insert_by-tail x z (y ∷ ys) (Memᴰ.tail m) = elim (Bool-cases (le x y)) [
    | inl t ↦ rw t (Memᴰ.tail (Memᴰ.tail m))
    | inr t ↦ rw t (Memᴰ.tail (insert_by-tail x z ys m))
  ]

  -- Sorting loses nothing.
  pub sort_by-Mem : (z : A) (xs : List A) → Memᴰ z xs → Memᴰ z (sort_by xs)
  sort_by-Mem z [] m = elim m [ ]
  sort_by-Mem z (x ∷ xs) (Memᴰ.head e) = rw e (insert_by-head x (sort_by xs))
  sort_by-Mem z (x ∷ xs) (Memᴰ.tail m) = insert_by-tail x z (sort_by xs) (sort_by-Mem z xs m)

  -- Where the order puts every row of one kind before all others, so does the result.
  module _ (own : A → Bool) where
    abbrev pub First : List A → Type 0
    First [] = Unit
    First (x ∷ xs) = (own x ≡ false → All (λ y. own y ≡ false) xs) × First xs

    module _ (up : (x y : A) → own x ≡ true → own y ≡ false → le x y ≡ true)
        (down : (x y : A) → own x ≡ false → own y ≡ true → le x y ≡ false) where
      First-insert_by : (x : A) (xs : List A) → First xs → First (insert_by x xs)
      First-insert_by x [] f = ((λ o. tt), tt)
      First-insert_by x (y ∷ ys) f = elim (Bool-cases (le x y)) [
        | inl e ↦ rw e (
          (λ o. elim (Bool-cases (own y)) [
            | inl oy ↦ let no = down x y o oy in absurd (cc)
            | inr oy ↦ (oy, f.0 oy)
          ]),
          f,
        )
        | inr e ↦ rw e (
          (λ oy. elim (Bool-cases (own x)) [
            | inl ox ↦ let no = up x y ox oy in absurd (cc)
            | inr ox ↦ All-insert_by (λ z. own z ≡ false) x ys ox (f.0 oy)
          ]),
          First-insert_by x ys f.1,
        )
      ]

      pub First-sort_by : (xs : List A) → First (sort_by xs)
      First-sort_by [] = tt
      First-sort_by (x ∷ xs) = First-insert_by x (sort_by xs) (First-sort_by xs)
