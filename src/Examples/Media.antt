-- ===== src/Examples/Media.antt =====
-- Runs of the scan of a GIF.
use gh_stories.Prelude.{◌≡◌, List, [], ◌∷◌, arith, min}
use gh_stories.Media.{count_gif_frames, result}
use gh_stories.Media.Frames.{IsBounded, count_gif_frames-IsBounded}
use gh_stories.Media.Encoded.{
  Block, extension, frame, frames_of, encode_gif, count_gif_frames-encode_gif,
}

-- A control extension and two frames of one sub-block each.
abbrev blocks : List Block
blocks =
    extension 0xf9 ((0 ∷ 10 ∷ 0 ∷ 0 ∷ []) ∷ [])
    ∷ frame 0 0 0 0 1 0 1 0 2 ((68 ∷ 1 ∷ []) ∷ [])
    ∷ frame 0 0 0 0 1 0 1 0 2 ((68 ∷ 1 ∷ []) ∷ [])
    ∷ []

count_gif_frames-IsBounded_example :
    IsBounded 513 (count_gif_frames (encode_gif 1 0 1 0 blocks) 513)
count_gif_frames-IsBounded_example = count_gif_frames-IsBounded (encode_gif 1 0 1 0 blocks) 513

count_gif_frames-encode_gif_example :
    count_gif_frames (encode_gif 1 0 1 0 blocks) 513 ≡ result (min (frames_of blocks) 513)
count_gif_frames-encode_gif_example = count_gif_frames-encode_gif 1 0 1 0 513 blocks (
  ((omega arith, omega arith), tt),
  (((omega arith, omega arith), tt), (((omega arith, omega arith), tt), tt)),
)
