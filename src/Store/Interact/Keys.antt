-- ===== src/Store/Interact/Keys.antt =====
-- How many rows have a key, when rows are upserted, updated and deleted.
use gh_stories.Prelude.{
  ◌≤◌, ◌≡◌, refl, inl, inr, Bool, true, false, List, [], ◌∷◌, arith, exists_row, count_rows,
  update_rows, delete_rows, Bool-cases,
}
use gh_stories.Store.Interact.{upsert}

module _ {A : Type 0} (q p : A → Bool) (f : A → A) where
  pub count-update :
      (xs : List A)
      → ((x : A) → p x ≡ true → q (f x) ≡ q x)
      → count_rows q (update_rows p f xs) ≡ count_rows q xs
  count-update [] keeps = refl
  count-update (x ∷ xs) keeps = elim (Bool-cases (p x)) [
    | inl e ↦ rw (e, keeps x e, count-update xs keeps) refl
    | inr e ↦ rw (e, count-update xs keeps) refl
  ]

  count-absent :
      (xs : List A)
      → ((x : A) → q x ≡ true → p x ≡ true)
      → exists_row p xs ≡ false
      → count_rows q xs ≡ 0
  count-absent [] key h = refl
  count-absent (x ∷ xs) key h = elim (Bool-cases (q x)) [
    | inl e ↦ let pass = key x e in ground arith
    | inr e ↦ elim (Bool-cases (p x)) [
      | inl g ↦ ground arith
      | inr g ↦ rw e (omega (arith, count-absent xs key (rw g at h)))
    ]
  ]

  -- An upsert on a key keeps that no key has two rows.
  pub count-upsert :
      (new : A) (xs : List A)
      → ((x : A) → p x ≡ true → q (f x) ≡ q x)
      → (q new ≡ true → (x : A) → q x ≡ true → p x ≡ true)
      → count_rows q xs ≤ 1
      → count_rows q (upsert p f new xs) ≤ 1
  count-upsert new xs keeps key h = elim (Bool-cases (exists_row p xs)) [
    | inl e ↦ rw (e, count-update xs keeps) h
    | inr e ↦ elim (Bool-cases (q new)) [
      | inl g ↦ rw (e, g, count-absent xs (key g) e) (omega arith)
      | inr g ↦ rw (e, g) (omega (arith, h))
    ]
  ]

pub count-delete :
    {A : Type 0} (q p : A → Bool) (xs : List A) → count_rows q (delete_rows p xs) ≤ count_rows q xs
count-delete q p [] = omega arith
count-delete q p (x ∷ xs) = elim (Bool-cases (p x)) [
  | inl e ↦ rw e (omega (arith, count-delete q p xs))
  | inr e ↦ rw e (omega (arith, count-delete q p xs))
]
