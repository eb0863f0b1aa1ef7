-- ===== src/Terminal/Sanitize/Safety.antt =====
-- What `sanitize` writes is a list of runes that no terminal acts on, apart from U+0080 to U+009F.
use gh_stories.Prelude.{
  ℕ, zero, suc, ◌-◌, ◌≤◌, ◌≡◌, ◌≢◌, ◌⊎◌, refl, Bool, true, false, List, [], ◌∷◌, ◌++◌, arith, All,
  ◌==◌, ◌&&◌, ◌||◌, leb, ltb, if◌then◌else◌,
}
use gh_stories.Terminal.Sanitize.Utf8.{Bytes, IsScalar, decode_rune, encode_rune, rune_error}
use gh_stories.Terminal.Sanitize.Utf8.Laws.{
  decode-IsScalar, encode_rune-ascii, encode_rune-rune_error,
}
use gh_stories.Terminal.Sanitize.{is_bidi_override, rune_step, step, loop, sanitize_with}

-- A scalar value that is no control below U+0020 (LF excepted where it is allowed), no DEL and no bidi
-- override.
abbrev pub IsPrintable : Bool → ℕ → Type 0
IsPrintable allow_newline r =
    IsScalar r
    × (is_bidi_override r ≡ false)
    × (((0x20 ≤ r) × (r ≢ 0x7f)) ⊎ ((allow_newline ≡ true) × (r ≡ 0x0a)))

unfoldable pub encode_runes : List ℕ → Bytes
encode_runes [] = []
encode_runes (r ∷ rs) = encode_rune r ++ encode_runes rs

rune_written : Bytes → ℕ
rune_written s =
    let (r, size) = decode_rune s in
    if (r == rune_error && leb size 1) || is_bidi_override r then rune_error else r

rune_step-eq : (s : Bytes) → (rune_step s).0 ≡ encode_rune (rune_written s)
unfolding rune_step encode_rune rune_written
rune_step-eq s = ground arith

decode-ge : (c : ℕ) (s : Bytes) → 0x80 ≤ c → 0x80 ≤ (decode_rune (c ∷ s)).0
unfolding decode_rune
decode-ge c s h = ground arith

rune_written-IsPrintable :
    (allow_newline : Bool) (c : ℕ) (s : Bytes)
    → 0x80 ≤ c
    → IsPrintable allow_newline (rune_written (c ∷ s))
unfolding rune_written is_bidi_override
rune_written-IsPrintable allow_newline c s h =
    ground (arith, decode-IsScalar (c ∷ s), decode-ge c s h)

-- The rune that one round of the loop writes.
step_written : Bool → ℕ → Bytes → ℕ
step_written allow_newline c s =
    if c == 0x09
    then 0x20
    else if c == 0x0a && allow_newline
    then 0x0a
    else if ltb c 0x20 || c == 0x7f || leb 0x80 c && leb c 0x9f
    then rune_error
    else if ltb c 0x80
    then c
    else rune_written (c ∷ s)

step-eq :
    (allow_newline : Bool) (c : ℕ) (s : Bytes)
    → (step allow_newline c s).0 ≡ encode_rune (step_written allow_newline c s)
unfolding step step_written
step-eq allow_newline c s = ground (
  arith,
  rune_step-eq (c ∷ s),
  encode_rune-ascii c,
  encode_rune-ascii 0x20,
  encode_rune-ascii 0x0a,
  encode_rune-rune_error,
)

step_written-IsPrintable :
    (allow_newline : Bool) (c : ℕ) (s : Bytes)
    → IsPrintable allow_newline (step_written allow_newline c s)
unfolding step_written is_bidi_override
step_written-IsPrintable allow_newline c s =
    ground (arith, rune_written-IsPrintable allow_newline c s)

-- The runes that the loop writes.
loop_written : Bool → ℕ → Bytes → List ℕ
loop_written allow_newline skip [] = []
loop_written allow_newline (suc skip) (c ∷ s) = loop_written allow_newline skip s
loop_written allow_newline zero (c ∷ s) =
    step_written allow_newline c s ∷ loop_written allow_newline ((step allow_newline c s).1 - 1) s

loop-eq :
    (allow_newline : Bool) (skip : ℕ) (s : Bytes)
    → loop allow_newline skip s ≡ encode_runes (loop_written allow_newline skip s)
unfolding loop loop_written encode_runes
loop-eq allow_newline skip [] = refl
loop-eq allow_newline (suc skip) (c ∷ s) = loop-eq allow_newline skip s
loop-eq allow_newline zero (c ∷ s) =
    cc (step-eq allow_newline c s, loop-eq allow_newline ((step allow_newline c s).1 - 1) s)

loop_written-All :
    (allow_newline : Bool) (skip : ℕ) (s : Bytes)
    → All (IsPrintable allow_newline) (loop_written allow_newline skip s)
unfolding loop_written
loop_written-All allow_newline skip [] = tt
loop_written-All allow_newline (suc skip) (c ∷ s) = loop_written-All allow_newline skip s
loop_written-All allow_newline zero (c ∷ s) =
    (step_written-IsPrintable allow_newline c s, loop_written-All allow_newline _ s)

-- Whatever the bytes, the output is the UTF-8 encoding of a list of scalar values, none of which
-- is ESC or another control below U+0020 (LF excepted where it is allowed), DEL or a bidi override.
pub sanitize_with-IsPrintable :
    (s : Bytes) (allow_newline : Bool)
    → (rs : List ℕ) × All (IsPrintable allow_newline) rs
      × (sanitize_with s allow_newline ≡ encode_runes rs)
unfolding sanitize_with
sanitize_with-IsPrintable s allow_newline =
    (loop_written allow_newline 0 s, loop_written-All allow_newline 0 s, loop-eq allow_newline 0 s)
