-- ===== src/Tui/Messages.antt =====
-- internal/tui/update.go: the messages that `Update` answers.
use Prim.Native.String.{String}
use gh_stories.Prelude.{ℕ, Bool, false, Option, none, some, List, [], ◌∷◌, ◌++◌, if◌then◌else◌}
use gh_stories.Tui.{
  Model, viewing, viewers_open, Cmd, Updated, cleanup, current_item, load_current, start_animation,
}
use gh_stories.Tui.Update.{
  resize, key, media_loaded, media_failed, frames_loaded, frames_failed, animated, animation_failed,
  action_done, action_failed, viewers_loaded, viewers_failed, ticked, Failure, Msg, handle_key,
  handle_tick, has_story, is_inline, put_away,
}

abbrev pub cleanups : Option ℕ → List Cmd
cleanups none = []
cleanups (some h) = cleanup h ∷ []

abbrev pub note_inline : String → Model → Model
note_inline text m = if is_inline m.video_mode then record m { video_note = text } else m

abbrev pub show_image : Model → ℕ → Model
show_image m image = record m { current = some image; err_msg = "" }

abbrev pub show_failure : Model → Failure → Model
show_failure m e = record m {
  current = none;
  err_msg = if e.is_no_graphics then m.err_msg else e.text;
}

abbrev pub take_frames : Model → ℕ → List ℕ → Option ℕ → Model
take_frames m story frames handle = record m {
  frames = frames;
  frames_cleanup = handle;
  frames_for = some story;
}

abbrev pub play : Model → ℕ → ℕ → Model
play m story animation = record m {
  animation = some animation;
  animated_for = some story;
  elapsed = 0;
}

abbrev pub loaded : Model → Model
loaded m = record m { loading = false }

-- `Update`, at the server's time `now`.
unfoldable pub update : (List ℕ → List ℕ) → (ℕ → Bool) → ℕ → Model → Msg → Option Updated
update trim opens now m (resize width height) =
    some (load_current (put_away (record m { width = width; height = height })))
update trim opens now m (key k) = handle_key trim opens m m.mode k
update trim opens now m (media_loaded story image) =
    if has_story (current_item m) story
    then some (show_image (loaded m) image, [])
    else some (loaded m, [])
update trim opens now m (media_failed story e) =
    if has_story (current_item m) story
    then some (show_failure (loaded m) e, [])
    else some (loaded m, [])
update trim opens now m (frames_loaded story frames handle) =
    if has_story (current_item m) story
    then (let r = start_animation (take_frames m story frames handle) in
        some (r.0, cleanups m.frames_cleanup ++ r.1))
    else some (m, cleanups handle)
update trim opens now m (frames_failed story handle e) =
    if has_story (current_item m) story
    then some (note_inline "inline video unavailable: " m, [])
    else some (m, cleanups handle)
update trim opens now m (animated story animation) =
    if has_story (current_item m) story then some (play m story animation, []) else some (m, [])
update trim opens now m (animation_failed story e) =
    if has_story (current_item m) story
    then some (note_inline "inline video failed: " m, [])
    else some (m, [])
update trim opens now m (action_done status) = some (record m { status_msg = status }, [])
update trim opens now m (action_failed e) = some (record m { err_msg = e }, [])
update trim opens now m (viewers_loaded list) =
    some (record m { viewers = some list; mode = viewers_open }, [])
update trim opens now m (viewers_failed e) = some (record m { err_msg = e; mode = viewing }, [])
update trim opens now m ticked = handle_tick m now
