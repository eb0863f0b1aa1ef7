-- ===== src/Objects.antt =====
-- internal/objstore: the keys of stored objects (keys.go) and the store in memory (memory.go).
pub mod Memory
pub mod Ranges
pub mod Reads
use Prim.Native.String.{String}
use Prim.Native.Char.{Char, code}
use gh_stories.Prelude.{ℕ, Bool, true, false, ◌||◌, ◌==◌, between, if◌then◌else◌}
use gh_stories.Domain.{VariantKind, image, video, poster, thumb, terminal}

abbrev pub append : String → String → String
append String.[] t = t
append (String.◌∷◌ c s) t = String.◌∷◌ c (append s t)

abbrev pub is_safe : ℕ → Bool
is_safe r = between 97 122 r || between 65 90 r || between 48 57 r || r == 45 || r == 95

abbrev underscore : Char
underscore = "_"

-- The loop of `sanitizeSegment`.
abbrev pub safe_runes : String → String
safe_runes String.[] = String.[]
safe_runes (String.◌∷◌ c s) = String.◌∷◌ (if is_safe (code c) then c else underscore) (safe_runes s)

abbrev or_underscore : String → String
or_underscore String.[] = "_"
or_underscore (String.◌∷◌ c s) = String.◌∷◌ c s

-- `sanitizeSegment`
unfoldable pub sanitize_segment : String → String
sanitize_segment s = or_underscore (safe_runes s)

abbrev pub kind_text : VariantKind → String
kind_text image = "image"
kind_text video = "video"
kind_text poster = "poster"
kind_text thumb = "thumb"
kind_text terminal = "terminal"

-- `VariantKey`
unfoldable pub variant_key : String → VariantKind → String → String
variant_key story kind ext = append "m/" (
    append (sanitize_segment story)
      (append "/" (append (sanitize_segment (kind_text kind)) (append "." (sanitize_segment ext)))))
