-- ===== src/Media.antt =====
-- internal/media/probe.go: what a file is, and how many frames it claims to have, from its bytes.
--
-- A file is the list of its bytes, an index `i` the number of bytes before it. Reading a byte out of
-- range, which Go would panic on, is 256, no byte. The loops take fuel; `no_fuel` is no result of
-- the code.
pub mod Frames
pub mod Encoded
use gh_stories.Prelude.{
  ℕ, zero, suc, ◌+◌, ◌*◌, ◌%◌, ◌/◌, ◌^◌, Bool, true, false, not, ◌&&◌, ◌||◌, Option, none, some,
  List, [], ◌∷◌, ◌==◌, ltb, leb, if◌then◌else◌, length, take, drop, same_text, exists_row,
}

pub data Mime : Type 0 where
  jpeg png gif webp webm mp4 quicktime : Mime

-- `bytes.HasPrefix`
abbrev pub has_prefix : List ℕ → List ℕ → Bool
has_prefix [] file = true
has_prefix (c ∷ p) [] = false
has_prefix (c ∷ p) (d ∷ file) = c == d && has_prefix p file

-- `bytes.Contains`
abbrev pub contains : List ℕ → List ℕ → Bool
contains [] p = has_prefix p []
contains (d ∷ file) p = has_prefix p (d ∷ file) || contains file p

abbrev slice : ℕ → ℕ → List ℕ → List ℕ
slice lo n file = take n (drop lo file)

-- `bytes.TrimRight(_, " ")`
abbrev trim_right : List ℕ → List ℕ
trim_right [] = []
trim_right (c ∷ cs) =
    let rest = trim_right cs in if c == 32 && length rest == 0 then [] else c ∷ rest

abbrev mp4_brands : List (List ℕ)
mp4_brands =
    (b'i' ∷ b's' ∷ b'o' ∷ b'm' ∷ [])
    ∷ (b'i' ∷ b's' ∷ b'o' ∷ b'2' ∷ [])
    ∷ (b'm' ∷ b'p' ∷ b'4' ∷ b'1' ∷ [])
    ∷ (b'm' ∷ b'p' ∷ b'4' ∷ b'2' ∷ [])
    ∷ (b'm' ∷ b'p' ∷ b'7' ∷ b'1' ∷ [])
    ∷ (b'M' ∷ b'4' ∷ b'V' ∷ [])
    ∷ (b'M' ∷ b'4' ∷ b'A' ∷ [])
    ∷ (b'a' ∷ b'v' ∷ b'c' ∷ b'1' ∷ [])
    ∷ (b'3' ∷ b'g' ∷ b'p' ∷ b'4' ∷ [])
    ∷ (b'3' ∷ b'g' ∷ b'p' ∷ b'5' ∷ [])
    ∷ (b'd' ∷ b'a' ∷ b's' ∷ b'h' ∷ [])
    ∷ (b'M' ∷ b'S' ∷ b'N' ∷ b'V' ∷ [])
    ∷ []

abbrev of_brand : List ℕ → Option Mime
of_brand brand =
    if same_text brand (b'q' ∷ b't' ∷ [])
    then some quicktime
    else if exists_row (same_text brand) mp4_brands
    then some mp4
    else none

abbrev gif87 : List ℕ
gif87 = b'G' ∷ b'I' ∷ b'F' ∷ b'8' ∷ b'7' ∷ b'a' ∷ []

abbrev gif89 : List ℕ
gif89 = b'G' ∷ b'I' ∷ b'F' ∷ b'8' ∷ b'9' ∷ b'a' ∷ []

abbrev riff : List ℕ
riff = b'R' ∷ b'I' ∷ b'F' ∷ b'F' ∷ []

abbrev is_gif : List ℕ → Bool
is_gif file = has_prefix gif87 file || has_prefix gif89 file

abbrev is_webp : List ℕ → Bool
is_webp file =
    leb 12 (length file)
    && has_prefix riff file
    && same_text (slice 8 4 file) (b'W' ∷ b'E' ∷ b'B' ∷ b'P' ∷ [])

-- `Sniff`
unfoldable pub sniff : List ℕ → Option Mime
sniff head =
    if has_prefix (0xff ∷ 0xd8 ∷ 0xff ∷ []) head
    then some jpeg
    else if has_prefix (0x89 ∷ b'P' ∷ b'N' ∷ b'G' ∷ 0x0d ∷ 0x0a ∷ 0x1a ∷ 0x0a ∷ []) head
    then some png
    else if is_gif head
    then some gif
    else if is_webp head
    then some webp
    else if has_prefix (0x1a ∷ 0x45 ∷ 0xdf ∷ 0xa3 ∷ []) head
    then if contains head (b'w' ∷ b'e' ∷ b'b' ∷ b'm' ∷ []) then some webm else none
    else if leb 12 (length head) && same_text (slice 4 4 head) (b'f' ∷ b't' ∷ b'y' ∷ b'p' ∷ [])
    then of_brand (trim_right (slice 8 4 head))
    else none

-- What a scan answers.
pub data Scan (A : Type 0) : Type 0 where
  result : A → Scan A
  malformed no_fuel : Scan A

-- The byte at the front.
abbrev pub first_byte : List ℕ → ℕ
first_byte [] = 256
first_byte (b ∷ bs) = b

-- `skipSubBlocks`, of the bytes from `i` on: those after the sequence.
unfoldable pub skip_sub_blocks : ℕ → List ℕ → Scan (List ℕ)
skip_sub_blocks zero file = no_fuel
skip_sub_blocks (suc f) [] = malformed
skip_sub_blocks (suc f) (n ∷ file) =
    let rest = skip_sub_blocks f (drop n file) in
    if n == 0 then result file else if ltb (length file) n then malformed else rest

-- The size of a colour table, by the packed byte that announces it.
abbrev pub table_size : ℕ → ℕ
table_size packed = if leb 128 (packed % 256) then 3 * 2 ^ (packed % 8 + 1) else 0

abbrev pub image_blocks : ℕ → List ℕ → Scan (List ℕ)
image_blocks f [] = malformed
image_blocks f (minimum ∷ file) = skip_sub_blocks f file

abbrev pub in_image : ℕ → List ℕ → Scan (List ℕ)
in_image f file =
    if ltb (length file) 10
    then malformed
    else image_blocks f (drop (table_size (first_byte (drop 9 file))) (drop 10 file))

abbrev pub in_extension : ℕ → List ℕ → Scan (List ℕ)
in_extension f file = if ltb (length file) 2 then malformed else skip_sub_blocks f (drop 2 file)

abbrev pub then_count : Scan (List ℕ) → (List ℕ → Scan ℕ) → Scan ℕ
then_count (result file) k = k file
then_count malformed k = malformed
then_count no_fuel k = no_fuel

-- The loop of `countGIFFrames`, of the bytes from `i` on.
unfoldable pub gif_loop : ℕ → ℕ → ℕ → List ℕ → Scan ℕ
gif_loop zero limit frames file = no_fuel
gif_loop (suc f) limit frames [] = result frames
gif_loop (suc f) limit frames (b ∷ file) =
    if leb limit frames
    then result frames
    else if b == 0x21
    then then_count (in_extension f (b ∷ file)) (gif_loop f limit frames)
    else if b == 0x2c
    then then_count (in_image f (b ∷ file)) (gif_loop f limit (frames + 1))
    else if b == 0x3b
    then result frames
    else malformed

-- `countGIFFrames`; one more than the file's length is fuel enough.
unfoldable pub count_gif_frames : List ℕ → ℕ → Scan ℕ
count_gif_frames file limit =
    if ltb (length file) 13 || not (is_gif file)
    then malformed
    else gif_loop (length file + 1) limit 0
        (drop (table_size (first_byte (drop 10 file))) (drop 13 file))
