-- ===== src/Examples/Terminal.antt =====
-- Runs of the sanitizer on short texts.
use gh_stories.Prelude.{ℕ, ◌≡◌, true, false, List, [], ◌∷◌, All, arith}
use gh_stories.Terminal.Sanitize.{is_bidi_override, sanitize_with}
use gh_stories.Terminal.Sanitize.Utf8.{Bytes}
use gh_stories.Terminal.Sanitize.Safety.{IsPrintable, encode_runes, sanitize_with-IsPrintable}
use gh_stories.Terminal.Sanitize.Identity.{sanitize_with-encode_runes}

-- ESC [ 3 1 m A LF
abbrev coloured : Bytes
coloured = 0x1b ∷ 0x5b ∷ 0x33 ∷ 0x31 ∷ 0x6d ∷ 0x41 ∷ 0x0a ∷ []

sanitize_with-IsPrintable_example :
    (rs : List ℕ) × All (IsPrintable false) rs × (sanitize_with coloured false ≡ encode_runes rs)
sanitize_with-IsPrintable_example = sanitize_with-IsPrintable coloured false

-- A LF U+20AC
sanitize_with-encode_runes_example :
    sanitize_with (encode_runes (0x41 ∷ 0x0a ∷ 0x20ac ∷ [])) true
    ≡ encode_runes (0x41 ∷ 0x0a ∷ 0x20ac ∷ [])
unfolding is_bidi_override
sanitize_with-encode_runes_example =
    sanitize_with-encode_runes (0x41 ∷ 0x0a ∷ 0x20ac ∷ []) true
      (ground arith, (ground arith, (ground arith, tt)))
