-- ===== src/Prelude/Lists.antt =====
-- Lists over the native numbers, and tables: lists of rows with SQL-like operations.
use Prim.Native.Nat.{◌<◌, ℕ, zero, suc, ◌+◌, ◌-◌, ◌/◌, ◌%◌}
use mathlib.Core.Path.{◌≡◌, refl, sym}
use mathlib.Core.Bool.{Bool, true, false, ◌&&◌, not}
use mathlib.Core.List.{List, [], ◌∷◌, ◌++◌, Memᴰ, map}
use mathlib.Core.Logic.{inl, inr}
use mathlib.Core.Option.{Option, none, some, some-injective}
use native.Mathlib.Omega.{arith}
use gh_stories.Prelude.Tests.{if◌then◌else◌, ltb, ◌==◌, Bool-cases}

module _ {ℓ} {A : Type ℓ} where
  abbrev pub length : List A → ℕ
  length [] = 0
  length (x ∷ xs) = suc (length xs)

  abbrev pub get_elem? : List A → ℕ → Option A
  get_elem? [] i = none
  get_elem? (x ∷ xs) zero = some x
  get_elem? (x ∷ xs) (suc i) = get_elem? xs i

  abbrev pub take : ℕ → List A → List A
  take zero xs = []
  take (suc n) [] = []
  take (suc n) (x ∷ xs) = x ∷ take n xs

  abbrev pub drop : ℕ → List A → List A
  drop zero xs = xs
  drop (suc n) [] = []
  drop (suc n) (x ∷ xs) = drop n xs

  pub length-append : (xs ys : List A) → length (xs ++ ys) ≡ length xs + length ys
  length-append [] ys = omega arith
  length-append (x ∷ xs) ys = omega (arith, length-append xs ys)

  pub length-drop : (n : ℕ) (xs : List A) → length (drop n xs) ≡ length xs - n
  length-drop zero xs = omega arith
  length-drop (suc n) [] = omega arith
  length-drop (suc n) (x ∷ xs) = omega (arith, length-drop n xs)

  pub get_elem?_of_lt : (xs : List A) (i : ℕ) → i < length xs → (x : A) × (get_elem? xs i ≡ some x)
  get_elem?_of_lt [] i h = absurd (omega arith)
  get_elem?_of_lt (x ∷ xs) zero h = (x, refl)
  get_elem?_of_lt (x ∷ xs) (suc i) h = get_elem?_of_lt xs i (omega arith)

-- A predicate of every entry, by recursion: it computes to tuples, which the tactics read.
abbrev pub All {ℓ κ} : {A : Type ℓ} → (A → Type κ) → List A → Type κ
All P [] = Unit
All P (x ∷ xs) = P x × All P xs

module _ {ℓ κ} {A : Type ℓ} (P : A → Type κ) where
  pub All-append : (xs ys : List A) → All P xs → All P ys → All P (xs ++ ys)
  All-append [] zs h g = g
  All-append (x ∷ xs) zs h g = (h.0, All-append xs zs h.1 g)

-- A table is the list of its rows. `SELECT … WHERE p LIMIT 1`, `EXISTS`, `count(*)`,
-- `UPDATE … SET f WHERE p` and `DELETE … WHERE p`.
module _ {ℓ} {A : Type ℓ} where
  abbrev pub find_row : (A → Bool) → List A → Option A
  find_row p [] = none
  find_row p (x ∷ xs) = if p x then some x else find_row p xs

  abbrev pub exists_row : (A → Bool) → List A → Bool
  exists_row p [] = false
  exists_row p (x ∷ xs) = if p x then true else exists_row p xs

  abbrev pub count_rows : (A → Bool) → List A → ℕ
  count_rows p [] = 0
  count_rows p (x ∷ xs) = (if p x then 1 else 0) + count_rows p xs

  abbrev pub select_rows : (A → Bool) → List A → List A
  select_rows p [] = []
  select_rows p (x ∷ xs) = let rest = select_rows p xs in if p x then x ∷ rest else rest

  abbrev pub update_rows : (A → Bool) → (A → A) → List A → List A
  update_rows p f [] = []
  update_rows p f (x ∷ xs) = (if p x then f x else x) ∷ update_rows p f xs

  abbrev pub delete_rows : (A → Bool) → List A → List A
  delete_rows p = select_rows (λ x. not (p x))

pub exists_row_sound {ℓ} :
    {A : Type ℓ} (p : A → Bool) (xs : List A)
    → exists_row p xs ≡ true
    → (x : A) × Memᴰ x xs × (p x ≡ true)
exists_row_sound p [] h = cc
exists_row_sound p (x ∷ xs) h = elim (Bool-cases (p x)) [
  | inl e ↦ (x, Memᴰ.head refl, e)
  | inr e ↦ let (y, m, py) = exists_row_sound p xs (rw e at h) in (y, Memᴰ.tail m, py)
]

pub exists_row_complete {ℓ} :
    {A : Type ℓ} (p : A → Bool) {x : A} {xs : List A}
    → Memᴰ x xs
    → p x ≡ true
    → exists_row p xs ≡ true
exists_row_complete p (Memᴰ.head {x = y} e) h = rw (← e, h)
exists_row_complete p (Memᴰ.tail {x = y} m) h = let rest = exists_row_complete p m h in ground arith

pub find_row_sound {ℓ} :
    {A : Type ℓ} (p : A → Bool) (xs : List A) (x : A)
    → find_row p xs ≡ some x
    → Memᴰ x xs × (p x ≡ true)
find_row_sound p [] x h = cc
find_row_sound p (y ∷ xs) x h = elim (Bool-cases (p y)) [
  | inl e ↦ first_is (rw e at h) e
  | inr e ↦ let (m, px) = find_row_sound p xs x (rw e at h) in (Memᴰ.tail m, px)
]
  where
    first_is : some y ≡ some x → p y ≡ true → Memᴰ x (y ∷ xs) × (p x ≡ true)
    first_is h e = let same = some-injective _ _ h in (Memᴰ.head (sym same), rw (← same, e))

pub All-Mem {ℓ κ} : {A : Type ℓ} (P : A → Type κ) {x : A} {xs : List A} → Memᴰ x xs → All P xs → P x
All-Mem P (Memᴰ.head {x = y} e) h = rw e h.0
All-Mem P (Memᴰ.tail {x = y} m) h = All-Mem P m h.1

pub All-intro {ℓ κ} :
    {A : Type ℓ} (P : A → Type κ) (xs : List A) → ((x : A) → Memᴰ x xs → P x) → All P xs
All-intro P [] h = tt
All-intro P (x ∷ xs) h = (h x (Memᴰ.head refl), All-intro P xs (λ y m. h y (Memᴰ.tail m)))

-- What an update leaves, row by row.
pub All-update_rows_of {ℓ κ} :
    {A : Type ℓ} (P : A → Type κ) (p : A → Bool) (f : A → A) (xs : List A)
    → ((x : A) → Memᴰ x xs → P (if p x then f x else x))
    → All P (update_rows p f xs)
All-update_rows_of P p f [] h = tt
All-update_rows_of P p f (x ∷ xs) h =
    (h x (Memᴰ.head refl), All-update_rows_of P p f xs (λ y m. h y (Memᴰ.tail m)))

-- Texts as lists of code points.
abbrev pub same_text : List ℕ → List ℕ → Bool
same_text [] [] = true
same_text (c ∷ s) (d ∷ t) = c == d && same_text s t
same_text _ _ = false

-- The decimal digits of a number; its own value is fuel enough.
abbrev pub digits : ℕ → ℕ → List ℕ
digits zero n = []
digits (suc f) n =
    let higher = digits f (n / 10) in
    if ltb n 10 then (48 + n) ∷ [] else higher ++ (48 + n % 10) ∷ []

unfoldable pub decimal : ℕ → List ℕ
decimal n = digits (suc n) n

-- An update keeps what it keeps of each row that it changes.
pub All-update_rows {ℓ κ} :
    {A : Type ℓ} (P : A → Type κ) (p : A → Bool) (f : A → A) (xs : List A)
    → ((x : A) → p x ≡ true → P x → P (f x))
    → All P xs
    → All P (update_rows p f xs)
All-update_rows P p f [] keep h = tt
All-update_rows P p f (x ∷ xs) keep h = (row (p x) refl, All-update_rows P p f xs keep h.1)
  where
    row : (b : Bool) → p x ≡ b → P (if b then f x else x)
    row true e = keep x e h.0
    row false e = h.0

-- A selection keeps what the rows that it selects have.
pub All-select_rows {ℓ κ μ} :
    {A : Type ℓ} (P : A → Type κ) (Q : A → Type μ) (p : A → Bool) (xs : List A)
    → ((x : A) → p x ≡ true → P x → Q x)
    → All P xs
    → All Q (select_rows p xs)
All-select_rows P Q p [] keep h = tt
All-select_rows P Q p (x ∷ xs) keep h =
    let rest = All-select_rows P Q p xs keep h.1 in
    elim (Bool-cases (p x)) [ inl e ↦ rw e (keep x e h.0, rest) | inr e ↦ rw e rest ]

pub All-map {ℓ κ μ} :
    {A : Type ℓ} (P : A → Type κ) (Q : A → Type μ) (xs : List A)
    → ((x : A) → P x → Q x)
    → All P xs
    → All Q xs
All-map P Q [] f h = tt
All-map P Q (x ∷ xs) f h = (f x h.0, All-map P Q xs f h.1)

-- Where no row has the one property, no row has a stronger one.
module _ {ℓ} {A : Type ℓ} (q p : A → Bool) where
  pub exists_row-false_of :
      (xs : List A)
      → ((x : A) → q x ≡ true → p x ≡ true)
      → exists_row p xs ≡ false
      → exists_row q xs ≡ false
  exists_row-false_of [] h e = refl
  exists_row-false_of (x ∷ xs) h e = elim (Bool-cases (q x)) [
    | inl f ↦ let g = h x f in let e' = rw g at e in cc
    | inr f ↦ elim (Bool-cases (p x)) [
      | inl g ↦ let e' = rw g at e in cc
      | inr g ↦ let e' = rw g at e in rw f (exists_row-false_of xs h e')
    ]
  ]

  pub find_row-none_of :
      (xs : List A)
      → ((x : A) → q x ≡ true → p x ≡ true)
      → exists_row p xs ≡ false
      → find_row q xs ≡ none
  find_row-none_of [] h e = refl
  find_row-none_of (x ∷ xs) h e = elim (Bool-cases (q x)) [
    | inl f ↦ let g = h x f in let e' = rw g at e in cc
    | inr f ↦ elim (Bool-cases (p x)) [
      | inl g ↦ let e' = rw g at e in cc
      | inr g ↦ let e' = rw g at e in rw f (find_row-none_of xs h e')
    ]
  ]

pub find_row-update_rows-none {ℓ} :
    {A : Type ℓ} (p q : A → Bool) (f : A → A) (xs : List A)
    → All (λ x. p (if q x then f x else x) ≡ false) xs
    → find_row p (update_rows q f xs) ≡ none
find_row-update_rows-none p q f [] h = refl
find_row-update_rows-none p q f (x ∷ xs) h = rw h.0 (find_row-update_rows-none p q f xs h.1)

-- A property of all images.
pub All-map_of {ℓ κ μ} :
    {A : Type ℓ} {B : Type κ} (P : B → Type μ) (f : A → B) (xs : List A)
    → All (λ x. P (f x)) xs
    → All P (map f xs)
All-map_of P f [] h = tt
All-map_of P f (x ∷ xs) h = (h.0, All-map_of P f xs h.1)

pub length-map {ℓ κ} :
    {A : Type ℓ} {B : Type κ} (f : A → B) (xs : List A) → length (map f xs) ≡ length xs
length-map f [] = refl
length-map f (x ∷ xs) = omega (arith, length-map f xs)
