-- ===== src/Terminal/Sanitize/Identity.antt =====
-- Plain printable text passes `sanitize` unchanged.
use gh_stories.Prelude.{
  ℕ, suc, ◌-◌, ◌≤◌, ◌<◌, ◌≡◌, ◌⊎◌, inl, inr, refl, ap, ◌∙◌, Bool, false, List, [], ◌∷◌, ◌++◌,
  length, arith, All, Bool-cases, ltb,
}
use gh_stories.Terminal.Sanitize.Utf8.{Bytes, IsScalar, encode_rune}
use gh_stories.Terminal.Sanitize.Utf8.Laws.{
  decode-encode, encode_rune-ascii, encode_rune-cons, length-encode_rune,
}
use gh_stories.Terminal.Sanitize.Safety.{IsPrintable, encode_runes}
use gh_stories.Terminal.Sanitize.{is_bidi_override, rune_step, step, loop, sanitize_with}

pub loop-skip :
    (allow_newline : Bool) (t s : Bytes)
    → loop allow_newline (length t) (t ++ s) ≡ loop allow_newline 0 s
unfolding loop
loop-skip allow_newline [] s = refl
loop-skip allow_newline (c ∷ t) s = loop-skip allow_newline t s

step-ascii :
    (allow_newline : Bool) (r : ℕ) (s : Bytes)
    → r < 0x80
    → IsPrintable allow_newline r
    → step allow_newline r s ≡ (r ∷ [], 1)
unfolding step
step-ascii allow_newline r s k h = ground arith

step-rune_step :
    (allow_newline : Bool) (c : ℕ) (s : Bytes)
    → 0xc2 ≤ c
    → step allow_newline c s ≡ rune_step (c ∷ s)
unfolding step
step-rune_step allow_newline c s h = ground arith

rune_step-encode_rune :
    (r : ℕ) (s : Bytes)
    → IsScalar r
    → 0x80 ≤ r
    → is_bidi_override r ≡ false
    → rune_step (encode_rune r ++ s) ≡ (encode_rune r, length (encode_rune r))
unfolding rune_step
rune_step-encode_rune r s h k b = rw (decode-encode r s h) (ground (arith, length-encode_rune r))

pub loop-cons :
    (allow_newline : Bool) (c : ℕ) (s : Bytes)
    → loop allow_newline 0 (c ∷ s)
      ≡ (step allow_newline c s).0 ++ loop allow_newline ((step allow_newline c s).1 - 1) s
unfolding loop
loop-cons allow_newline c s = refl

loop-long_rune :
    (allow_newline : Bool) (r c : ℕ) (t s : Bytes)
    → IsPrintable allow_newline r
    → 0x80 ≤ r
    → encode_rune r ≡ c ∷ t
    → 0xc2 ≤ c
    → loop allow_newline 0 (c ∷ (t ++ s)) ≡ (c ∷ t) ++ loop allow_newline 0 s
loop-long_rune allow_newline r c t s h k e g =
    let written : step allow_newline c (t ++ s) ≡ (c ∷ t, length (c ∷ t)) =
      step-rune_step allow_newline c (t ++ s) g ∙ (rw e at (rune_step-encode_rune r s h.0 k h.1)) in
    rw (loop-cons allow_newline c (t ++ s), written, sub_one (length t))
      (rw (loop-skip allow_newline t s))
  where
    sub_one : (n : ℕ) → suc n - 1 ≡ n
    sub_one n = omega arith

-- One round at a printable rune copies it, and passes its bytes.
pub loop-encode_rune :
    (allow_newline : Bool) (r : ℕ) (s : Bytes)
    → IsPrintable allow_newline r
    → loop allow_newline 0 (encode_rune r ++ s) ≡ encode_rune r ++ loop allow_newline 0 s
loop-encode_rune allow_newline r s h = elim (Bool-cases (ltb r 0x80)) [
  | inl e ↦ rw (
    encode_rune-ascii r (ground arith),
    loop-cons allow_newline r s,
    step-ascii allow_newline r s (ground arith) h,
  )
  | inr e ↦
      let (c, t, spelt, low, _) = encode_rune-cons r h.0 (ground arith) in
      rw spelt (loop-long_rune allow_newline r c t s h (ground arith) spelt low)
]

loop-encode_runes :
    (allow_newline : Bool) (rs : List ℕ)
    → All (IsPrintable allow_newline) rs
    → loop allow_newline 0 (encode_runes rs) ≡ encode_runes rs
unfolding encode_runes
loop-encode_runes allow_newline [] h = unfold loop in refl
loop-encode_runes allow_newline (r ∷ rs) h =
    loop-encode_rune allow_newline r (encode_runes rs) h.0
    ∙ ap (◌++◌ (encode_rune r)) (loop-encode_runes allow_newline rs h.1)

-- A printable rune outside the controls U+0080 to U+009F.
abbrev pub IsPlain : Bool → ℕ → Type 0
IsPlain allow_newline r = IsPrintable allow_newline r × ((r < 0x80) ⊎ (0xa0 ≤ r))

plain-All :
    (allow_newline : Bool) (rs : List ℕ)
    → All (IsPlain allow_newline) rs
    → All (IsPrintable allow_newline) rs
plain-All allow_newline [] h = tt
plain-All allow_newline (r ∷ rs) h = (h.0.0, plain-All allow_newline rs h.1)

-- Text that is the UTF-8 encoding of printable runes outside U+0080 to U+009F is left as it is.
pub sanitize_with-encode_runes :
    (rs : List ℕ) (allow_newline : Bool)
    → All (IsPlain allow_newline) rs
    → sanitize_with (encode_runes rs) allow_newline ≡ encode_runes rs
unfolding sanitize_with
sanitize_with-encode_runes rs allow_newline h =
    loop-encode_runes allow_newline rs (plain-All allow_newline rs h)
