-- ===== src/Tui/Returns.antt =====
-- No message takes the viewer off the list of items, and none makes it panic.
use Prim.Native.String.{String}
use gh_stories.Prelude.{
  ℕ, ◌<◌, ◌≡◌, refl, inl, inr, Bool, true, false, not, ◌&&◌, ◌||◌, Option, none, some, List, [],
  ◌∷◌, ◌++◌, ◌==◌, arith, if◌then◌else◌, length, Bool-cases,
}
use gh_stories.Tui.{
  Model, viewing, viewers_open, Item, Updated, VideoMode, new, current_item, load_current,
  animate_item, start_animation,
}
use gh_stories.Tui.Update.{Msg, put_away, has_story, is_inline}
use gh_stories.Tui.Messages.{
  update, show_image, show_failure, loaded, take_frames, play, note_inline, cleanups,
}
use gh_stories.Tui.Position.{
  IsValid, Returns, returned, load_current-IsValid, put_away-IsValid, handle_tick-Returns,
}
use gh_stories.Tui.Keys.{handle_key-Returns}

animate_item-IsValid : (m : Model) (o : Option Item) → IsValid m → IsValid (animate_item m o).0
animate_item-IsValid m none v = v
animate_item-IsValid m (some it) v =
    elim (Bool-cases
      (m.has_animator && not (length m.frames == 0 || m.width == 0 || m.height == 0))) [
        | inl e ↦ rw e v
        | inr e ↦ rw e v
      ]

start_animation-IsValid : (m : Model) → IsValid m → IsValid (start_animation m).0
unfolding start_animation
start_animation-IsValid m v = animate_item-IsValid m (current_item m) v

note_inline-IsValid : (text : String) (m : Model) → IsValid m → IsValid (note_inline text m)
note_inline-IsValid text m v = elim (Bool-cases (is_inline m.video_mode)) [
  | inl e ↦ rw e v
  | inr e ↦ rw e v
]

-- Whichever way an answer's story is tested, both branches return.
branch-Returns :
    (b : Bool) (r s : Updated) → IsValid r.0 → IsValid s.0 → Returns (if b then some r else some s)
branch-Returns true r s v w = returned r v
branch-Returns false r s v w = returned s w

-- When the group that is shown exists, and so does the item unless the group is empty, `Update`
-- returns for every message at every time: it does not index out of range, and the model that it
-- returns is again in such a position.
pub update-Returns :
    (trim : List ℕ → List ℕ) (opens : ℕ → Bool) (now : ℕ) (m : Model) (msg : Msg)
    → IsValid m
    → Returns (update trim opens now m msg)
unfolding update
update-Returns trim opens now m (Msg.resize width height) v =
    let sized = record m { width = width; height = height } in
    returned (load_current (put_away sized))
      (load_current-IsValid (put_away sized) (put_away-IsValid sized v))
update-Returns trim opens now m (Msg.key k) v = handle_key-Returns trim opens m m.mode k v
update-Returns trim opens now m (Msg.media_loaded story image) v =
    branch-Returns (has_story (current_item m) story) (show_image (loaded m) image, [])
      (loaded m, []) v v
update-Returns trim opens now m (Msg.media_failed story e) v =
    branch-Returns (has_story (current_item m) story) (show_failure (loaded m) e, []) (loaded m, [])
      v v
update-Returns trim opens now m (Msg.frames_loaded story frames handle) v =
    let r = start_animation (take_frames m story frames handle) in
    branch-Returns (has_story (current_item m) story) (r.0, cleanups m.frames_cleanup ++ r.1)
      (m, cleanups handle) (start_animation-IsValid (take_frames m story frames handle) v) v
update-Returns trim opens now m (Msg.frames_failed story handle e) v =
    branch-Returns (has_story (current_item m) story)
      (note_inline "inline video unavailable: " m, []) (m, cleanups handle)
      (note_inline-IsValid "inline video unavailable: " m v) v
update-Returns trim opens now m (Msg.animated story animation) v =
    branch-Returns (has_story (current_item m) story) (play m story animation, []) (m, []) v v
update-Returns trim opens now m (Msg.animation_failed story e) v =
    branch-Returns (has_story (current_item m) story) (note_inline "inline video failed: " m, [])
      (m, []) (note_inline-IsValid "inline video failed: " m v) v
update-Returns trim opens now m (Msg.action_done status) v =
    returned (record m { status_msg = status }, []) v
update-Returns trim opens now m (Msg.action_failed e) v = returned (record m { err_msg = e }, []) v
update-Returns trim opens now m (Msg.viewers_loaded list) v =
    returned (record m { viewers = some list; mode = viewers_open }, []) v
update-Returns trim opens now m (Msg.viewers_failed e) v =
    returned (record m { err_msg = e; mode = viewing }, []) v
update-Returns trim opens now m Msg.ticked v = handle_tick-Returns m now v

-- A viewer that answers a list of messages, each at its time; `none` once one of them panics.
abbrev pub and_then : Option Updated → (Model → Option Model) → Option Model
and_then none f = none
and_then (some r) f = f r.0

abbrev pub run : (List ℕ → List ℕ) → (ℕ → Bool) → Model → List (ℕ × Msg) → Option Model
run trim opens m [] = some m
run trim opens m ((now, msg) ∷ msgs) =
    and_then (update trim opens now m msg) (λ n. run trim opens n msgs)

run-IsValid :
    (trim : List ℕ → List ℕ) (opens : ℕ → Bool) (m : Model) (msgs : List (ℕ × Msg))
    → IsValid m
    → (n : Model) × (run trim opens m msgs ≡ some n) × IsValid n
run-IsValid trim opens m [] v = (m, refl, v)
run-IsValid trim opens m ((now, msg) ∷ msgs) v =
    let (r, e, w) = update-Returns trim opens now m msg v in
    let (n, f, x) = run-IsValid trim opens r.0 msgs w in (n, rw e f, x)

-- A viewer made by `New` on at least one group, whatever the start, answers every list of messages
-- at any times without indexing out of range. The group that it then shows exists, and so does the
-- item unless that group is empty.
pub new-run-IsValid :
    (trim : List ℕ → List ℕ) (opens : ℕ → Bool) (groups : List (List Item)) (start : ℕ)
    (renderer animator external ssh url browser : Bool) (mode : VideoMode) (msgs : List (ℕ × Msg))
    → 0 < length groups
    → (n : Model) × (run trim opens
          (new groups start renderer animator external ssh url browser mode)
          msgs
        ≡ some n)
      × IsValid n
unfolding new
new-run-IsValid trim opens groups start renderer animator external ssh url browser mode msgs h =
    run-IsValid trim opens (new groups start renderer animator external ssh url browser mode) msgs
      (ground arith, inl refl)
