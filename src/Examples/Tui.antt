-- ===== src/Examples/Tui.antt =====
-- Runs of the viewer.
use gh_stories.Prelude.{ℕ, ◌≡◌, refl, true, false, some, List, [], ◌∷◌, arith}
use gh_stories.Tui.{Model, Item, video_auto, new, current_item, item_duration, is_expired, advance}
use gh_stories.Tui.Update.{
  Msg, Key, resize, key, media_loaded, ticked, handle_tick, put_away, pass_time, then_tick,
  map_updated,
}
use gh_stories.Tui.Position.{IsValid}
use gh_stories.Tui.Returns.{run, new-run-IsValid}
use gh_stories.Tui.Playback.{ticks, played, ticks-finishes}

abbrev photo : Item
photo = record {
  id = 7;
  is_video = false;
  variants = [];
  expires_at = some 20;
  allow_replies = true;
  allow_reactions = true;
  is_owner = false;
}

abbrev groups : List (List Item)
groups = (photo ∷ []) ∷ []

-- The viewer gets its size and the picture, and the right key.
abbrev session : List (ℕ × Msg)
session = (10, resize 80 24) ∷ (11, media_loaded 7 3) ∷ (12, ticked) ∷ (13, key Key.right) ∷ []

abbrev same : List ℕ → List ℕ
same s = s

new-run-IsValid_example :
    (n : Model) × (run same
        (λ id. true)
        (new groups 5 true false false false true true video_auto)
        session
      ≡ some n)
    × IsValid n
new-run-IsValid_example =
    new-run-IsValid same (λ id. true) groups 5 true false false false true true video_auto session
      (omega arith)

-- The old picture 1001 is queued while the next one is loaded.
abbrev shown : Model
shown = record (new groups 0 true false false false true true video_auto) {
  width = 80;
  height = 24;
  current = some 3;
  image_id = 1001;
  pending_clear = 1001 ∷ [];
}

abbrev fit : ℕ → ℕ → ℕ → ℕ × ℕ
fit image width rows = (width, rows)

-- After 4500 of its 5000 ms the photo takes one more tick and the one that advances.
abbrev playing : Model
playing = record shown { elapsed = 4500 }

ticks-finishes_example :
    (ticks playing (12 ∷ []) ≡ some (played playing 1))
    × (handle_tick (played playing 1) 13
        ≡ map_updated then_tick (advance (put_away (pass_time (played playing 1)))))
unfolding current_item item_duration is_expired new
ticks-finishes_example =
    ticks-finishes playing (12 ∷ []) 13 refl (omega arith) refl (refl, (refl, tt))
