-- ===== src/Objects/Reads.antt =====
-- Which bytes a range asks for, and what is read of a stored object.
use Prim.Native.String.{String}
use text.Mathlib.Text.{◌==◌ as str_eq}
use text.Mathlib.TextPositions.{eq_refl}
use mathlib.Core.Path.{subst}
use gh_stories.Prelude.{
  ℕ, zero, suc, min, ◌≡◌, ◌+◌, ◌-◌, ◌*◌, ◌/◌, ◌%◌, ◌^◌, ◌≤◌, ◌<◌, refl, ap, ◌∙◌, true, false,
  Option, some, some-injective, List, [], ◌∷◌, ◌++◌, ◌==◌, ltb, leb, between, length, length-append,
  take, drop, decimal, digits, arith, Bool-cases, inl, inr,
}
use gh_stories.Objects.Ranges.{
  atoi, digits_value, plus, parse_byte_range, prefix, split_dash, up_to,
}
use gh_stories.Objects.Memory.{ok, is_size, MemObject, part, get, put, Object}

-- A list of digits that is read from the left.
digit_last :
    (acc d : ℕ) {v : ℕ} → acc ≡ v → d < 10 → digits_value acc ((48 + d) ∷ []) ≡ some (v * 10 + d)
digit_last acc d e lt = ground arith

digits_value-append :
    (acc : ℕ) (xs : List ℕ) (d v : ℕ)
    → d < 10
    → digits_value acc xs ≡ some v
    → digits_value acc (xs ++ (48 + d) ∷ []) ≡ some (v * 10 + d)
digits_value-append acc [] d v lt h = digit_last acc d (some-injective _ _ h) lt
digits_value-append acc (x ∷ xs) d v lt h = elim (Bool-cases (between 48 57 x)) [
  | inl e ↦ rw e (digits_value-append (acc * 10 + (x - 48)) xs d v lt (rw e at h))
  | inr e ↦ let f = rw e at h in absurd (cc)
]

digits_value-digits : (f n : ℕ) → n < f → digits_value 0 (digits f n) ≡ some n
digits_value-digits zero n h = absurd (omega arith)
digits_value-digits (suc f) n h = elim (Bool-cases (ltb n 10)) [
  | inl e ↦ rw e (digit_last 0 n refl (ground arith) ∙ ap some (omega arith))
  | inr e ↦
      let ih = digits_value-digits f (n / 10) (ground arith) in
      rw e (
        digits_value-append 0 (digits f (n / 10)) (n % 10) (n / 10) (omega arith) ih
        ∙ ap some (omega arith))
]

digits_nonempty : (f n : ℕ) → 0 < length (digits (suc f) n)
digits_nonempty f n = elim (Bool-cases (ltb n 10)) [
  | inl e ↦ rw e (omega arith)
  | inr e ↦ rw e (omega (arith, length-append (digits f (n / 10)) ((48 + n % 10) ∷ [])))
]

-- The number that digits spell, read with a sign or split at a dash.
atoi-digits :
    (xs : List ℕ) (v : ℕ)
    → digits_value 0 xs ≡ some v
    → 0 < length xs
    → v < 2 ^ 63
    → atoi xs ≡ some (plus v)
unfolding atoi
atoi-digits [] v h n lt = absurd (omega arith)
atoi-digits (c ∷ cs) v h n lt = elim (Bool-cases (between 48 57 c)) [
  | inr e ↦ let f = rw e at h in absurd (cc)
  | inl e ↦
      let dash : (c == b'-') ≡ false = ground arith in
      let cross : (c == b'+') ≡ false = ground arith in
      let small : ltb v (2 ^ 63) ≡ true = ground arith in rw (dash, cross, h, small) refl
]

split_dash-digits :
    (acc : ℕ) (xs ys : List ℕ) (v : ℕ)
    → digits_value acc xs ≡ some v
    → split_dash (xs ++ b'-' ∷ ys) ≡ some (xs, ys)
split_dash-digits acc [] ys v h = refl
split_dash-digits acc (c ∷ cs) ys v h = elim (Bool-cases (between 48 57 c)) [
  | inr e ↦ let f = rw e at h in absurd (cc)
  | inl e ↦
      let dash : (c == b'-') ≡ false = ground arith in
      rw (dash, split_dash-digits (acc * 10 + (c - 48)) cs ys v (rw e at h)) refl
]

up_to-plus : (size s e : ℕ) → s ≤ e → up_to size s (some (plus e)) ≡ some (s, min size (e + 1))
up_to-plus size s e h = elim (Bool-cases (leb size e)) [
  | inl past ↦ ground arith
  | inr inside ↦ ground arith
]

range-digits :
    (size s e : ℕ) (xs ys : List ℕ)
    → digits_value 0 xs ≡ some s
    → digits_value 0 ys ≡ some e
    → 0 < length xs
    → 0 < length ys
    → s ≤ e
    → s < size
    → e < 2 ^ 63
    → parse_byte_range (prefix ++ xs ++ b'-' ∷ ys) size ≡ some (s, min size (e + 1))
unfolding parse_byte_range
range-digits size s e [] ys a b n m le lt big = absurd (omega arith)
range-digits size s e (x ∷ xs) [] a b n m le lt big = absurd (omega arith)
range-digits size s e (x ∷ xs) (y ∷ ys) a b n m le lt big =
    let inside : leb size s ≡ false = ground arith in
    rw
      (
        split_dash-digits 0 (x ∷ xs) (y ∷ ys) s a,
        atoi-digits (x ∷ xs) s a n (omega arith),
        inside,
        atoi-digits (y ∷ ys) e b m big,
      )
      (up_to-plus size s e le)

ok-elim {ℓ κ} : {A : Type ℓ} (P : A → Type κ) {a b : A} → ok a ≡ ok b → P a → P b
ok-elim {A = A} P {a = a} {b = b} h p = subst P (ok-injective a b h) p
  where
    ok-injective : (x y : A) → ok x ≡ ok y → x ≡ y
    ok-injective x y e = cc

-- What is put is read back: a request for the bytes from `a` to `e`, as a client writes it, is
-- answered with status 206 and these bytes, up to the object's end, if `a` lies in the object. The
-- request's numbers must fit an int64.
pub get-put :
    (sha : List ℕ → List ℕ) (objects stored : List MemObject) (key content_type : String)
    (bytes : List ℕ) (size : Option ℕ) (a e : ℕ)
    → put sha objects key content_type bytes size ≡ ok stored
    → a ≤ e
    → a < length bytes
    → e < 2 ^ 63
    → (o : Object) × (get stored key (prefix ++ decimal a ++ b'-' ∷ decimal e) ≡ ok o)
      × (o.status ≡ 206)
      × (o.body ≡ take (min (length bytes) (e + 1) - a) (drop a bytes))
unfolding put get decimal
get-put sha objects stored key content_type bytes size a e h le lt big =
    elim (Bool-cases (str_eq key "")) [
      | inl e1 ↦ let f = rw e1 at h in absurd (cc)
      | inr e1 ↦ elim (Bool-cases (is_size size (length bytes))) [
        | inr e2 ↦ let f = rw (e1, e2) at h in absurd (cc)
        | inl e2 ↦
            let f = rw (e1, e2) at h in
            let new : MemObject = record {
              key = key;
              content = bytes;
              content_type = content_type;
              etag = sha bytes;
            } in
            let parsed =
              range-digits (length bytes) a e (decimal a) (decimal e)
                (digits_value-digits (suc a) a (omega arith))
                (digits_value-digits (suc e) e (omega arith)) (digits_nonempty a a)
                (digits_nonempty e e) le lt big in
            ok-elim
              (λ (os : List MemObject).
                (o : Object) × (get os key (prefix ++ decimal a ++ b'-' ∷ decimal e) ≡ ok o)
                × (o.status ≡ 206)
                × (o.body ≡ take (min (length bytes) (e + 1) - a) (drop a bytes)))
              f
              (
                part new (some (a, min (length bytes) (e + 1))),
                rw (eq_refl key) (ap (λ r. ok (part new r)) parsed),
                refl,
                refl,
              )
      ]
    ]
