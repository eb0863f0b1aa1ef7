-- ===== src/Objects/Ranges.antt =====
-- internal/objstore/memory.go: `parseByteRange`, over the bytes of the header.
--
-- `strconv.Atoi` reads an optional sign and decimal digits, and refuses what does not fit an int64.
use gh_stories.Prelude.{
  ℕ, ◌+◌, ◌-◌, ◌*◌, ◌^◌, ◌&&◌, Option, none, some, List, [], ◌∷◌, ◌==◌, ltb, leb, between,
  if◌then◌else◌,
}

-- A number with its sign.
pub data Int64 : Type 0 where
  plus minus : ℕ → Int64

abbrev pub digits_value : ℕ → List ℕ → Option ℕ
digits_value acc [] = some acc
digits_value acc (c ∷ cs) =
    let rest = digits_value (acc * 10 + (c - 48)) cs in if between 48 57 c then rest else none

abbrev nonempty_value : List ℕ → Option ℕ
nonempty_value [] = none
nonempty_value (c ∷ cs) = digits_value 0 (c ∷ cs)

abbrev in_plus : Option ℕ → Option Int64
in_plus none = none
in_plus (some n) = if ltb n (2 ^ 63) then some (plus n) else none

abbrev in_minus : Option ℕ → Option Int64
in_minus none = none
in_minus (some n) = if leb n (2 ^ 63) then some (minus n) else none

unfoldable pub atoi : List ℕ → Option Int64
atoi [] = none
atoi (c ∷ cs) =
    if c == b'-'
    then in_minus (nonempty_value cs)
    else if c == b'+'
    then in_plus (nonempty_value cs)
    else in_plus (nonempty_value (c ∷ cs))

-- `strings.HasPrefix` with `strings.TrimPrefix`.
abbrev pub strip : List ℕ → List ℕ → Option (List ℕ)
strip [] s = some s
strip (c ∷ p) [] = none
strip (c ∷ p) (d ∷ s) = let rest = strip p s in if c == d then rest else none

-- `strings.SplitN(spec, "-", 2)` with the test that there are two parts.
abbrev pub cons_left : ℕ → Option (List ℕ × List ℕ) → Option (List ℕ × List ℕ)
cons_left c none = none
cons_left c (some (a, b)) = some (c ∷ a, b)

abbrev pub split_dash : List ℕ → Option (List ℕ × List ℕ)
split_dash [] = none
split_dash (c ∷ cs) =
    let rest = cons_left c (split_dash cs) in if c == b'-' then some ([], cs) else rest

-- A range: its first byte, and the one behind its last; `end` of the code is one less.
abbrev pub Range : Type 0
Range = ℕ × ℕ

-- The last `n` bytes.
abbrev pub suffix : ℕ → Option Int64 → Option Range
suffix size none = none
suffix size (some (minus n)) = none
suffix size (some (plus n)) =
    if n == 0 then none else if ltb size n then some (0, size) else some (size - n, size)

abbrev pub up_to : ℕ → ℕ → Option Int64 → Option Range
up_to size s none = none
up_to size s (some (minus n)) = if n == 0 && s == 0 then some (0, 1) else none
up_to size s (some (plus e)) =
    if ltb e s then none else if leb size e then some (s, size) else some (s, e + 1)

abbrev pub from_byte : ℕ → ℕ → List ℕ → Option Range
from_byte size s [] = if leb size s then none else some (s, size)
from_byte size s (c ∷ cs) = if leb size s then none else up_to size s (atoi (c ∷ cs))

abbrev pub first_byte : ℕ → List ℕ → Option Int64 → Option Range
first_byte size last none = none
first_byte size last (some (plus s)) = from_byte size s last
first_byte size last (some (minus n)) = if n == 0 then from_byte size 0 last else none

abbrev pub in_parts : ℕ → Option (List ℕ × List ℕ) → Option Range
in_parts size none = none
in_parts size (some ([], b)) = suffix size (atoi b)
in_parts size (some (c ∷ a, b)) = first_byte size b (atoi (c ∷ a))

-- "bytes="
abbrev pub prefix : List ℕ
prefix = b'b' ∷ b'y' ∷ b't' ∷ b'e' ∷ b's' ∷ b'=' ∷ []

abbrev pub of_spec : ℕ → Option (List ℕ) → Option Range
of_spec size none = none
of_spec size (some spec) = in_parts size (split_dash spec)

-- `parseByteRange`
unfoldable pub parse_byte_range : List ℕ → ℕ → Option Range
unfolding atoi
parse_byte_range header size = of_spec size (strip prefix header)
