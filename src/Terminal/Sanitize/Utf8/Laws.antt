-- ===== src/Terminal/Sanitize/Utf8/Laws.antt =====
-- Decoding undoes encoding, and every decoded rune is a scalar value.
use gh_stories.Prelude.{
  ℕ, ◌≡◌, ◌++◌, length, arith, refl, ◌<◌, ◌≤◌, ◌+◌, ◌/◌, ◌%◌, [], ◌∷◌, Bool-cases, inl, inr, ltb,
}
use gh_stories.Terminal.Sanitize.Utf8.{Bytes, IsScalar, decode_rune, encode_rune, rune_error}

pub decode-encode :
    (r : ℕ) (s : Bytes)
    → IsScalar r
    → decode_rune (encode_rune r ++ s) ≡ (r, length (encode_rune r))
unfolding decode_rune encode_rune
decode-encode r s h = ground arith

pub decode-IsScalar : (s : Bytes) → IsScalar (decode_rune s).0
unfolding decode_rune
decode-IsScalar s = ground arith

pub encode_rune-ascii : (r : ℕ) → r < 0x80 → encode_rune r ≡ r ∷ []
unfolding encode_rune
encode_rune-ascii r h = ground arith

pub encode_rune-rune_error : encode_rune rune_error ≡ 0xef ∷ 0xbf ∷ 0xbd ∷ []
unfolding encode_rune
encode_rune-rune_error = refl

-- The first byte of a longer encoding, and the bytes after it.
pub encode_rune-cons :
    (r : ℕ)
    → IsScalar r
    → 0x80 ≤ r
    → (c : ℕ) × (t : Bytes) × (encode_rune r ≡ c ∷ t) × (0xc2 ≤ c) × (c ≤ 0xf4)
unfolding encode_rune
encode_rune-cons r h k = elim (Bool-cases (ltb r 0x800)) [
  | inl e ↦ (0xc0 + r / 64, (0x80 + r % 64) ∷ [], ground arith, ground arith, ground arith)
  | inr e ↦ elim (Bool-cases (ltb r 0x10000)) [
    | inl f ↦ (
      0xe0 + r / 4096,
      (0x80 + r / 64 % 64) ∷ (0x80 + r % 64) ∷ [],
      ground arith,
      ground arith,
      ground arith,
    )
    | inr f ↦ (
      0xf0 + r / 262144,
      (0x80 + r / 4096 % 64) ∷ (0x80 + r / 64 % 64) ∷ (0x80 + r % 64) ∷ [],
      ground arith,
      ground arith,
      ground arith,
    )
  ]
]

pub length-encode_rune : (r : ℕ) → 0x80 ≤ r → 2 ≤ length (encode_rune r)
unfolding encode_rune
length-encode_rune r h = ground arith
