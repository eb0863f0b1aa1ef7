-- ===== src/Media/Frames.antt =====
-- The scan of a GIF ends within its fuel, and counts no more frames than it was asked for.
use gh_stories.Prelude.{
  ℕ, zero, suc, ◌+◌, ◌≤◌, ◌<◌, not, ◌||◌, List, [], ◌∷◌, ◌==◌, ltb, leb, arith, if_intro, length,
  drop, length-drop,
}
use gh_stories.Media.{
  Scan, result, malformed, no_fuel, skip_sub_blocks, in_image, in_extension, image_blocks,
  then_count, gif_loop, count_gif_frames, first_byte, table_size, is_gif,
}

-- The scan answered, with less of the file left than `n` bytes, or refused the file.
abbrev pub Shrinks : ℕ → Scan (List ℕ) → Type 0
Shrinks n (result rest) = length rest < n
Shrinks n malformed = Unit
Shrinks n no_fuel = ⊥

-- The scan answered a number up to the limit, or refused the file.
abbrev pub IsBounded : ℕ → Scan ℕ → Type 0
IsBounded limit (result n) = n ≤ limit
IsBounded limit malformed = Unit
IsBounded limit no_fuel = ⊥

Shrinks-le : (m n : ℕ) (s : Scan (List ℕ)) → m ≤ n → Shrinks m s → Shrinks n s
Shrinks-le m n (result rest) h g = omega arith
Shrinks-le m n malformed h g = tt
Shrinks-le m n no_fuel h g = absurd g

skip_sub_blocks-Shrinks :
    (f : ℕ) (file : List ℕ) → length file < f → Shrinks (length file) (skip_sub_blocks f file)
unfolding skip_sub_blocks
skip_sub_blocks-Shrinks zero file h = absurd (omega arith)
skip_sub_blocks-Shrinks (suc f) [] h = tt
skip_sub_blocks-Shrinks (suc f) (n ∷ file) h =
    let d = length-drop n file in
    if_intro (Shrinks (suc (length file))) (n == 0) (result file) _ (λ e. omega arith)
      (λ e.
        if_intro (Shrinks (suc (length file))) (ltb (length file) n) malformed
          (skip_sub_blocks f (drop n file)) (λ g. tt)
          (λ g.
            Shrinks-le (length (drop n file)) (suc (length file)) (skip_sub_blocks f (drop n file))
              (omega arith) (skip_sub_blocks-Shrinks f (drop n file) (omega arith))))

image_blocks-Shrinks :
    (f : ℕ) (file : List ℕ) → length file ≤ f → Shrinks (length file) (image_blocks f file)
image_blocks-Shrinks f [] h = tt
image_blocks-Shrinks f (minimum ∷ file) h =
    Shrinks-le (length file) (suc (length file)) (skip_sub_blocks f file) (omega arith)
      (skip_sub_blocks-Shrinks f file (omega arith))

in_image-Shrinks :
    (f : ℕ) (file : List ℕ) → length file ≤ f → Shrinks (length file) (in_image f file)
in_image-Shrinks f file h =
    let n = table_size (first_byte (drop 9 file)) in
    let a = length-drop 10 file in
    let b = length-drop n (drop 10 file) in
    if_intro (Shrinks (length file)) (ltb (length file) 10) malformed
      (image_blocks f (drop n (drop 10 file))) (λ e. tt)
      (λ e.
        Shrinks-le (length (drop n (drop 10 file))) (length file)
          (image_blocks f (drop n (drop 10 file))) (omega arith)
          (image_blocks-Shrinks f (drop n (drop 10 file)) (omega arith)))

in_extension-Shrinks :
    (f : ℕ) (file : List ℕ) → length file ≤ f → Shrinks (length file) (in_extension f file)
in_extension-Shrinks f file h =
    let a = length-drop 2 file in
    if_intro (Shrinks (length file)) (ltb (length file) 2) malformed
      (skip_sub_blocks f (drop 2 file)) (λ e. tt)
      (λ e.
        Shrinks-le (length (drop 2 file)) (length file) (skip_sub_blocks f (drop 2 file))
          (omega arith) (skip_sub_blocks-Shrinks f (drop 2 file) (ground arith)))

then_count-IsBounded :
    (limit n : ℕ) (s : Scan (List ℕ)) (k : List ℕ → Scan ℕ)
    → Shrinks n s
    → ((rest : List ℕ) → length rest < n → IsBounded limit (k rest))
    → IsBounded limit (then_count s k)
then_count-IsBounded limit n (result rest) k h g = g rest h
then_count-IsBounded limit n malformed k h g = tt
then_count-IsBounded limit n no_fuel k h g = absurd h

gif_loop-IsBounded :
    (f limit frames : ℕ) (file : List ℕ)
    → length file < f
    → frames ≤ limit
    → IsBounded limit (gif_loop f limit frames file)
unfolding gif_loop
gif_loop-IsBounded zero limit frames file h b = absurd (omega arith)
gif_loop-IsBounded (suc f) limit frames [] h b = b
gif_loop-IsBounded (suc f) limit frames (c ∷ file) h b =
    if_intro (IsBounded limit) (leb limit frames) (result frames) _ (λ e. b)
      (λ e.
        if_intro (IsBounded limit) (c == 0x21) _ _
          (λ e1.
            then_count-IsBounded limit (suc (length file)) (in_extension f (c ∷ file))
              (gif_loop f limit frames) (in_extension-Shrinks f (c ∷ file) (omega arith))
              (λ rest g. gif_loop-IsBounded f limit frames rest (omega arith) b))
          (λ e1.
            if_intro (IsBounded limit) (c == 0x2c) _ _
              (λ e2.
                then_count-IsBounded limit (suc (length file)) (in_image f (c ∷ file))
                  (gif_loop f limit (frames + 1)) (in_image-Shrinks f (c ∷ file) (omega arith))
                  (λ rest g.
                    gif_loop-IsBounded f limit (frames + 1) rest (omega arith) (ground arith)))
              (λ e2.
                if_intro (IsBounded limit) (c == 0x3b) (result frames) malformed (λ e3. b)
                  (λ e3. tt))))

-- `countGIFFrames` ends on every file: its scan never runs out of fuel, as each block takes at least
-- one byte. It refuses the file or counts at most as many frames as it was asked for.
pub count_gif_frames-IsBounded :
    (file : List ℕ) (limit : ℕ) → IsBounded limit (count_gif_frames file limit)
unfolding count_gif_frames
count_gif_frames-IsBounded file limit =
    let n = table_size (first_byte (drop 10 file)) in
    let a = length-drop 13 file in
    let b = length-drop n (drop 13 file) in
    if_intro (IsBounded limit) (ltb (length file) 13 || not (is_gif file)) malformed _ (λ e. tt)
      (λ e.
        gif_loop-IsBounded (length file + 1) limit 0 (drop n (drop 13 file)) (omega arith)
          (omega arith))
