-- ===== src/Media/Encoded.antt =====
-- GIF files that are written block by block, and what the scan counts in them.
use gh_stories.Prelude.{
  ℕ, zero, suc, ◌+◌, ◌≡◌, ◌≤◌, ◌<◌, refl, ap, ◌∙◌, inl, inr, false, List, [], ◌∷◌, ◌++◌, ◌==◌, ltb,
  leb, arith, min, length, length-append, drop, All, Bool-cases,
}
use gh_stories.Media.{result, skip_sub_blocks, in_image, in_extension, gif_loop, count_gif_frames}

-- A block of a GIF: an extension, or an image with its descriptor's eight bytes of place and size,
-- its code size, and no colour table of its own. Both hold sub-blocks.
pub data Block : Type 0 where
  extension : (label : ℕ) → List (List ℕ) → Block
  frame : (x0 x1 y0 y1 w0 w1 h0 h1 code_size : ℕ) → List (List ℕ) → Block

-- Sub-blocks, in front of the rest of the file: each after its length, and a zero at the end.
abbrev pub encode_sub_blocks : List (List ℕ) → List ℕ → List ℕ
encode_sub_blocks [] rest = 0 ∷ rest
encode_sub_blocks (b ∷ bs) rest = length b ∷ b ++ encode_sub_blocks bs rest

abbrev pub encode_blocks : List Block → List ℕ
encode_blocks [] = 0x3b ∷ []
encode_blocks (extension label bs ∷ blocks) =
    0x21 ∷ label ∷ encode_sub_blocks bs (encode_blocks blocks)
encode_blocks (frame x0 x1 y0 y1 w0 w1 h0 h1 code_size bs ∷ blocks) =
    0x2c
    ∷ x0
    ∷ x1
    ∷ y0
    ∷ y1
    ∷ w0
    ∷ w1
    ∷ h0
    ∷ h1
    ∷ 0
    ∷ code_size
    ∷ encode_sub_blocks bs (encode_blocks blocks)

-- A GIF of the newer version, of the given size, with no colour table.
abbrev pub encode_gif : ℕ → ℕ → ℕ → ℕ → List Block → List ℕ
encode_gif w0 w1 h0 h1 blocks =
    b'G' ∷ b'I' ∷ b'F' ∷ b'8' ∷ b'9' ∷ b'a' ∷ w0 ∷ w1 ∷ h0 ∷ h1 ∷ 0 ∷ 0 ∷ 0 ∷ encode_blocks blocks

abbrev pub frames_of : List Block → ℕ
frames_of [] = 0
frames_of (extension label bs ∷ blocks) = frames_of blocks
frames_of (frame x0 x1 y0 y1 w0 w1 h0 h1 code_size bs ∷ blocks) = suc (frames_of blocks)

abbrev pub sub_blocks_of : Block → List (List ℕ)
sub_blocks_of (extension label bs) = bs
sub_blocks_of (frame x0 x1 y0 y1 w0 w1 h0 h1 code_size bs) = bs

-- Every sub-block has 1 to 255 bytes.
abbrev pub IsProper : List (List ℕ) → Type 0
IsProper = All (λ b. (0 < length b) × (length b ≤ 255))

drop-append : (b rest : List ℕ) → drop (length b) (b ++ rest) ≡ rest
drop-append [] rest = refl
drop-append (c ∷ b) rest = drop-append b rest

encode_sub_blocks_longer :
    (bs : List (List ℕ)) (rest : List ℕ) → length rest < length (encode_sub_blocks bs rest)
encode_sub_blocks_longer [] rest = omega arith
encode_sub_blocks_longer (b ∷ bs) rest =
    let a = length-append b (encode_sub_blocks bs rest) in
    let r = encode_sub_blocks_longer bs rest in omega arith

skip_sub_blocks-encode :
    (f : ℕ) (bs : List (List ℕ)) (rest : List ℕ)
    → IsProper bs
    → length (encode_sub_blocks bs rest) ≤ f
    → skip_sub_blocks f (encode_sub_blocks bs rest) ≡ result rest
unfolding skip_sub_blocks
skip_sub_blocks-encode zero [] rest p h = absurd (omega arith)
skip_sub_blocks-encode zero (b ∷ bs) rest p h = absurd (omega arith)
skip_sub_blocks-encode (suc f) [] rest p h = refl
skip_sub_blocks-encode (suc f) (b ∷ bs) rest p h =
    let a = length-append b (encode_sub_blocks bs rest) in
    let nonzero : (length b == 0) ≡ false = ground (arith, p.0.0) in
    let fits : ltb (length (b ++ encode_sub_blocks bs rest)) (length b) ≡ false =
      ground (arith, a) in
    rw (nonzero, fits, drop-append b (encode_sub_blocks bs rest))
      (skip_sub_blocks-encode f bs rest p.1 (omega arith))

module _ (f : ℕ) (bs : List (List ℕ)) (rest : List ℕ) (proper : IsProper bs) where
  in_extension-encode :
      (label : ℕ)
      → length (encode_sub_blocks bs rest) ≤ f
      → in_extension f (0x21 ∷ label ∷ encode_sub_blocks bs rest) ≡ result rest
  in_extension-encode label h =
      let long : ltb (suc (suc (length (encode_sub_blocks bs rest)))) 2 ≡ false = ground arith in
      rw long (skip_sub_blocks-encode f bs rest proper h)

  in_image-encode :
      (x0 x1 y0 y1 w0 w1 h0 h1 code_size : ℕ)
      → length (encode_sub_blocks bs rest) ≤ f
      → in_image f
          (0x2c ∷ x0 ∷ x1 ∷ y0 ∷ y1 ∷ w0 ∷ w1 ∷ h0 ∷ h1 ∷ 0 ∷ code_size ∷ encode_sub_blocks bs rest)
        ≡ result rest
  in_image-encode x0 x1 y0 y1 w0 w1 h0 h1 code_size h =
      let long : ltb
            (length (
              0x2c
              ∷ x0
              ∷ x1
              ∷ y0
              ∷ y1
              ∷ w0
              ∷ w1
              ∷ h0
              ∷ h1
              ∷ 0
              ∷ code_size
              ∷ encode_sub_blocks bs rest))
            10
          ≡ false =
        ground arith in
      rw long (skip_sub_blocks-encode f bs rest proper h)

gif_loop-encode :
    (f limit frames : ℕ) (blocks : List Block)
    → All (λ b. IsProper (sub_blocks_of b)) blocks
    → frames ≤ limit
    → length (encode_blocks blocks) < f
    → gif_loop f limit frames (encode_blocks blocks)
      ≡ result (min (frames + frames_of blocks) limit)
unfolding gif_loop
gif_loop-encode zero limit frames blocks p b h = absurd (omega arith)
gif_loop-encode (suc f) limit frames [] p b h = elim (Bool-cases (leb limit frames)) [
  | inl e ↦ rw e (ap result (ground arith))
  | inr e ↦ rw e (ap result (ground arith))
]
gif_loop-encode (suc f) limit frames (extension label bs ∷ blocks) p b h =
    elim (Bool-cases (leb limit frames)) [
      | inl e ↦ rw e (ap result (ground arith))
      | inr e ↦
          let longer = encode_sub_blocks_longer bs (encode_blocks blocks) in
          rw (e, in_extension-encode f bs (encode_blocks blocks) p.0 label (omega arith))
            (gif_loop-encode f limit frames blocks p.1 b (omega arith))
    ]
gif_loop-encode (suc f) limit frames (frame x0 x1 y0 y1 w0 w1 h0 h1 code_size bs ∷ blocks) p b h =
    elim (Bool-cases (leb limit frames)) [
      | inl e ↦ rw e (ap result (ground arith))
      | inr e ↦
          let longer = encode_sub_blocks_longer bs (encode_blocks blocks) in
          rw
            (
              e,
              in_image-encode f bs (encode_blocks blocks) p.0 x0 x1 y0 y1 w0 w1 h0 h1 code_size
                  (omega arith),
            )
            (gif_loop-encode f limit (frames + 1) blocks p.1 (ground arith) (omega arith)
              ∙ ap (λ n. result (min n limit)) (omega arith))
    ]

-- On a GIF written block by block, with sub-blocks of 1 to 255 bytes and without colour tables,
-- `countGIFFrames` answers the number of its frames, or the number that it was asked for when there
-- are more.
pub count_gif_frames-encode_gif :
    (w0 w1 h0 h1 limit : ℕ) (blocks : List Block)
    → All (λ b. IsProper (sub_blocks_of b)) blocks
    → count_gif_frames (encode_gif w0 w1 h0 h1 blocks) limit ≡ result (min (frames_of blocks) limit)
unfolding count_gif_frames
count_gif_frames-encode_gif w0 w1 h0 h1 limit blocks p =
    let long : ltb (length (encode_gif w0 w1 h0 h1 blocks)) 13 ≡ false = ground arith in
    rw long (
      gif_loop-encode (length (encode_gif w0 w1 h0 h1 blocks) + 1) limit 0 blocks p (omega arith)
        (omega arith)
      ∙ ap (λ n. result (min n limit)) (omega arith))
