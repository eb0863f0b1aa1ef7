-- ===== src/Terminal/Sanitize.antt =====
-- internal/terminal/sanitize.go: `Sanitize` and `SanitizeMultiline`.
--
-- A text is the list of its bytes. The loop's index `i` into `s` is the list of the bytes from `i`
-- on, and `i += n` leaves `n` more bytes to skip, so the loop is a recursion on the list.
pub mod Utf8
pub mod Safety
pub mod Identity
use gh_stories.Prelude.{
  ℕ, zero, suc, ◌+◌, ◌-◌, Bool, true, false, ◌&&◌, ◌||◌, List, [], ◌∷◌, ◌++◌, ltb, leb, ◌==◌,
  between, if◌then◌else◌, take,
}
use Utf8.{Bytes, decode_rune, encode_rune, rune_error}

abbrev pub replacement_char : ℕ
replacement_char = 0xfffd

abbrev pub max_escape_scan : ℕ
max_escape_scan = 4096

unfoldable pub is_bidi_override : ℕ → Bool
is_bidi_override r = between 0x202a 0x202e r || between 0x2066 0x2069 r

-- the first loop of `escapeSeqEnd`, over the bytes before `limit`: how many it passes
unfoldable pub scan_csi : Bytes → ℕ
scan_csi [] = 0
scan_csi (c ∷ s) = if between 0x40 0x7e c then 1 else suc (scan_csi s)

abbrev pub starts_with_byte : ℕ → Bytes → Bool
starts_with_byte b [] = false
starts_with_byte b (c ∷ _) = c == b

-- the second loop of `escapeSeqEnd`
unfoldable pub scan_string : ℕ → Bytes → ℕ
scan_string introducer [] = 0
scan_string introducer (c ∷ s) =
    if c == 0x07 && introducer == b']'
    then 1
    else if c == 0x1b && starts_with_byte 92 s
    then 2
    else if c == 0x9c
    then 1
    else suc (scan_string introducer s)

-- `escapeSeqEnd(s, i, introducer) - i`
unfoldable pub escape_seq_len : Bytes → ℕ → ℕ
escape_seq_len s introducer =
    let body = take max_escape_scan s in
    if introducer == b'[' then scan_csi body else scan_string introducer body

abbrev is_introducer : ℕ → Bool
is_introducer c = c == b'[' || c == b']' || c == b'P' || c == b'_' || c == b'^' || c == b'X'

-- `skipEscape`, given the bytes after the ESC
unfoldable pub skip_escape : Bytes → ℕ
skip_escape [] = 1
skip_escape (c ∷ s) = if is_introducer c then 2 + escape_seq_len s c else 2

-- `skipC1`, given that byte and the bytes after it
unfoldable pub skip_c1 : ℕ → Bytes → ℕ
skip_c1 c s =
    if c == 0x9b
    then 1 + escape_seq_len s b'['
    else if c == 0x9d
    then 1 + escape_seq_len s b']'
    else if c == 0x90
    then 1 + escape_seq_len s b'P'
    else if c == 0x9f
    then 1 + escape_seq_len s b'_'
    else if c == 0x9e
    then 1 + escape_seq_len s b'^'
    else if c == 0x98
    then 1 + escape_seq_len s b'X'
    else 1

abbrev pub replacement : Bytes
replacement = 0xef ∷ 0xbf ∷ 0xbd ∷ []

-- the `default` case of the switch
unfoldable pub rune_step : Bytes → Bytes × ℕ
rune_step s =
    let (r, size) = decode_rune s in
    if r == rune_error && leb size 1
    then (replacement, 1)
    else if is_bidi_override r
    then (replacement, size)
    else (encode_rune r, size)

-- One round of the loop at the bytes `c ∷ s`: what it writes, and by how much `i` grows.
unfoldable pub step : Bool → ℕ → Bytes → Bytes × ℕ
step allow_newline c s =
    if c == 0x1b
    then (replacement, skip_escape s)
    else if c == 0x09
    then (0x20 ∷ [], 1)
    else if c == 0x0a && allow_newline
    then (0x0a ∷ [], 1)
    else if ltb c 0x20 || c == 0x7f
    then (replacement, 1)
    else if leb 0x80 c && leb c 0x9f
    then (replacement, skip_c1 c s)
    else if ltb c 0x80
    then (c ∷ [], 1)
    else rune_step (c ∷ s)

-- The loop, with the number of bytes that the last round still has to pass.
unfoldable pub loop : Bool → ℕ → Bytes → Bytes
loop allow_newline skip [] = []
loop allow_newline (suc skip) (c ∷ s) = loop allow_newline skip s
loop allow_newline zero (c ∷ s) =
    let (written, size) = step allow_newline c s in written ++ loop allow_newline (size - 1) s

unfoldable pub sanitize_with : Bytes → Bool → Bytes
unfolding loop
sanitize_with s allow_newline = loop allow_newline 0 s

unfoldable pub sanitize : Bytes → Bytes
unfolding sanitize_with
sanitize s = sanitize_with s false

unfoldable pub sanitize_multiline : Bytes → Bytes
unfolding sanitize_with
sanitize_multiline s = sanitize_with s true
