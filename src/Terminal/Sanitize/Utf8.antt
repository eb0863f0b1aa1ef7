-- ===== src/Terminal/Sanitize/Utf8.antt =====
-- Go's `utf8.DecodeRuneInString` and `strings.Builder.WriteRune`, as internal/terminal/sanitize.go
-- uses them. A rune is its code point.
pub mod Laws
use gh_stories.Prelude.{
  ℕ, ◌+◌, ◌-◌, ◌*◌, ◌/◌, ◌%◌, ◌≤◌, ◌<◌, ◌⊎◌, Bool, ◌&&◌, ◌||◌, List, [], ◌∷◌, ltb, ◌==◌, between,
  if◌then◌else◌,
}

abbrev pub Bytes : Type 0
Bytes = List ℕ

abbrev pub rune_error : ℕ
rune_error = 0xfffd

-- The range of the second byte that the first byte admits.
abbrev pub second_ok : ℕ → ℕ → Bool
second_ok c d =
    if c == 0xe0
    then between 0xa0 0xbf d
    else if c == 0xed
    then between 0x80 0x9f d
    else if c == 0xf0
    then between 0x90 0xbf d
    else if c == 0xf4
    then between 0x80 0x8f d
    else between 0x80 0xbf d

abbrev decode_two : ℕ → Bytes → ℕ × ℕ
decode_two c [] = (rune_error, 1)
decode_two c (d ∷ _) = if second_ok c d then ((c - 0xc0) * 64 + (d - 0x80), 2) else (rune_error, 1)

abbrev decode_three : ℕ → Bytes → ℕ × ℕ
decode_three c [] = (rune_error, 1)
decode_three c (d ∷ []) = (rune_error, 1)
decode_three c (d ∷ e ∷ _) =
    if second_ok c d && between 0x80 0xbf e
    then ((c - 0xe0) * 4096 + (d - 0x80) * 64 + (e - 0x80), 3)
    else (rune_error, 1)

abbrev decode_four : ℕ → Bytes → ℕ × ℕ
decode_four c [] = (rune_error, 1)
decode_four c (d ∷ []) = (rune_error, 1)
decode_four c (d ∷ e ∷ []) = (rune_error, 1)
decode_four c (d ∷ e ∷ f ∷ _) =
    if second_ok c d && between 0x80 0xbf e && between 0x80 0xbf f
    then ((c - 0xf0) * 262144 + (d - 0x80) * 4096 + (e - 0x80) * 64 + (f - 0x80), 4)
    else (rune_error, 1)

-- The first rune and its width; `(RuneError, 1)` on what is not UTF-8.
unfoldable pub decode_rune : Bytes → ℕ × ℕ
decode_rune [] = (rune_error, 0)
decode_rune (c ∷ s) =
    if ltb c 0x80
    then (c, 1)
    else if between 0xc2 0xdf c
    then decode_two c s
    else if between 0xe0 0xef c
    then decode_three c s
    else if between 0xf0 0xf4 c
    then decode_four c s
    else (rune_error, 1)

-- The encoding of a code point; what is none is written as U+FFFD.
unfoldable pub encode_rune : ℕ → Bytes
encode_rune r =
    if ltb r 0x80
    then r ∷ []
    else if ltb r 0x800
    then (0xc0 + r / 64) ∷ (0x80 + r % 64) ∷ []
    else if between 0xd800 0xdfff r || ltb 0x10ffff r
    then 0xef ∷ 0xbf ∷ 0xbd ∷ []
    else if ltb r 0x10000
    then (0xe0 + r / 4096) ∷ (0x80 + r / 64 % 64) ∷ (0x80 + r % 64) ∷ []
    else (0xf0 + r / 262144) ∷ (0x80 + r / 4096 % 64) ∷ (0x80 + r / 64 % 64) ∷ (0x80 + r % 64) ∷ []

-- A Unicode scalar value: a code point that UTF-8 can write.
abbrev pub IsScalar : ℕ → Type 0
IsScalar r = (r < 0xd800) ⊎ ((0xe000 ≤ r) × (r < 0x110000))
