-- ===== src/Tui/Update.antt =====
-- internal/tui/update.go: ticks and keys.
--
-- `trim` is `strings.TrimSpace`, `opens` the caller's `openURL`. A key pressed with Alt, and a
-- bracketed paste, are not told apart from the plain key.
use Prim.Native.String.{String}
use gh_stories.Prelude.{
  ℕ, ◌+◌, ◌-◌, Bool, true, false, not, ◌&&◌, ◌||◌, Option, none, some, List, [], ◌∷◌, ◌++◌, ltb,
  leb, ◌==◌, between, if◌then◌else◌, length, same_text,
}
use gh_stories.Store.Social.{codes}
use gh_stories.Tui.{
  Model, Mode, viewing, replying, reacting, viewers_open, help, VideoMode, video_inline, Item,
  Updated, reply, react, list_viewers, tick, quit, current_item, load_current, is_expired,
  item_duration, advance, back, stop_animation, clear_image,
}

pub data Key : Type 0 where
  runes : List ℕ → Key
  space : List ℕ → Key
  esc enter backspace ctrl_c left right up down other : Key

-- An error's text, and whether it is `errNoGraphics`.
pub record Failure : Type 0 where
  pub text : String
  pub is_no_graphics : Bool

pub data Msg : Type 0 where
  resize : (width height : ℕ) → Msg
  key : Key → Msg
  media_loaded : (story image : ℕ) → Msg
  media_failed : (story : ℕ) → Failure → Msg
  frames_loaded : (story : ℕ) → List ℕ → Option ℕ → Msg
  frames_failed : (story : ℕ) → Option ℕ → String → Msg
  animated : (story animation : ℕ) → Msg
  animation_failed : (story : ℕ) → String → Msg
  action_done : String → Msg
  action_failed : String → Msg
  viewers_loaded : (list : ℕ) → Msg
  viewers_failed : String → Msg
  ticked : Msg

-- The named keys of the viewing mode.
pub data Action : Type 0 where
  leave next previous next_author previous_author pause answer emote who open_link show_help
        nothing :
      Action

abbrev pub action_of_rune : ℕ → Action
action_of_rune c =
    if c == b'q'
    then leave
    else if c == b'n' || c == b'l'
    then next
    else if c == b'p' || c == b'h'
    then previous
    else if c == b'j'
    then next_author
    else if c == b'k'
    then previous_author
    else if c == b' '
    then pause
    else if c == b'r'
    then answer
    else if c == b'e'
    then emote
    else if c == b'v'
    then who
    else if c == b'?'
    then show_help
    else nothing

-- Several runes that arrive at once have the name of a key when they spell it.
abbrev pub action_of_text : List ℕ → Action
action_of_text text =
    if same_text text (codes "esc") || same_text text (codes "ctrl+c")
    then leave
    else if same_text text (codes "right")
    then next
    else if same_text text (codes "left")
    then previous
    else if same_text text (codes "down")
    then next_author
    else if same_text text (codes "up")
    then previous_author
    else if same_text text (codes "enter")
    then open_link
    else nothing

abbrev pub action_of : Key → Action
action_of (runes (c ∷ [])) = action_of_rune c
action_of (runes text) = action_of_text text
action_of (space _) = pause
action_of esc = leave
action_of ctrl_c = leave
action_of right = next
action_of left = previous
action_of down = next_author
action_of up = previous_author
action_of enter = open_link
action_of backspace = nothing
action_of other = nothing

abbrev pub is_viewing : Mode → Bool
is_viewing viewing = true
is_viewing _ = false

abbrev pub is_inline : VideoMode → Bool
is_inline video_inline = true
is_inline _ = false

abbrev pub has_story : Option Item → ℕ → Bool
has_story none story = false
has_story (some it) story = it.id == story

-- `tea.Batch(m.clearImage(), …)` after `stopAnimation`
abbrev pub put_away : Model → Model
put_away m = clear_image (stop_animation m)

abbrev pub then_tick : Updated → Updated
then_tick r = (r.0, r.1 ++ tick ∷ [])

abbrev pub map_updated : (Updated → Updated) → Option Updated → Option Updated
map_updated f none = none
map_updated f (some r) = some (f r)

abbrev pub expire_current : Model → Model
expire_current m = record m { current = none; status_msg = "This Story expired." }

abbrev pub is_waiting : Model → Bool
is_waiting m = m.paused || not (is_viewing m.mode) || m.loading

abbrev pub pass_time : Model → Model
pass_time m = record m { elapsed = m.elapsed + 250 }

-- `handleTick`
unfoldable pub handle_tick : Model → ℕ → Option Updated
handle_tick m now =
    if is_expired now (current_item m)
    then map_updated then_tick (advance (put_away (expire_current m)))
    else if is_waiting m
    then some (m, tick ∷ [])
    else if leb (item_duration (current_item m)) (m.elapsed + 250)
    then map_updated then_tick (advance (put_away (pass_time m)))
    else some (pass_time m, tick ∷ [])

abbrev pub drop_last : List ℕ → List ℕ
drop_last [] = []
drop_last (c ∷ []) = []
drop_last (c ∷ d ∷ cs) = c ∷ drop_last (d ∷ cs)

abbrev pub close_editor : Model → Model
close_editor m = record m { mode = viewing; reply_input = [] }

abbrev pub type_text : Model → List ℕ → Model
type_text m text =
    if ltb (length m.reply_input) 500 then record m { reply_input = m.reply_input ++ text } else m

abbrev pub send_reply : Model → List ℕ → Option Item → Updated
send_reply m [] it = (m, [])
send_reply m (c ∷ body) none = (m, [])
send_reply m (c ∷ body) (some it) = (m, reply it.id (c ∷ body) ∷ [])

-- `handleKey` while the reply editor is open.
unfoldable pub edit_key : (List ℕ → List ℕ) → Model → Key → Updated
edit_key trim m esc = (close_editor m, [])
edit_key trim m enter = send_reply (close_editor m) (trim m.reply_input) (current_item m)
edit_key trim m backspace = (record m { reply_input = drop_last m.reply_input }, [])
edit_key trim m (runes text) = (type_text m text, [])
edit_key trim m (space text) = (type_text m (text ++ 32 ∷ []), [])
edit_key trim m _ = (m, [])

abbrev pub send_reaction : Model → ℕ → Option Item → Updated
send_reaction m emoji none = (m, [])
send_reaction m emoji (some it) = (m, react it.id emoji ∷ [])

-- `handleKey` while a reaction is picked; there are five.
unfoldable pub pick_key : Model → Key → Updated
pick_key m esc = (record m { mode = viewing }, [])
pick_key m (runes (c ∷ [])) =
    if between 49 53 c
    then send_reaction (record m { mode = viewing }) (c - 49) (current_item m)
    else (m, [])
pick_key m _ = (m, [])

abbrev pub say : String → Model → Updated
say text m = (record m { status_msg = text }, [])

abbrev pub open_editor : Model → Option Item → Updated
open_editor m none = say "Replies are turned off for this Story." m
open_editor m (some it) =
    if it.allow_replies && not it.is_owner
    then (record m { mode = replying; status_msg = "" }, [])
    else if it.is_owner
    then say "You cannot reply to your own Story." m
    else say "Replies are turned off for this Story." m

abbrev pub open_picker : Model → Option Item → Updated
open_picker m none = say "Reactions are turned off for this Story." m
open_picker m (some it) =
    if it.allow_reactions && not it.is_owner
    then (record m { mode = reacting }, [])
    else say "Reactions are turned off for this Story." m

abbrev pub ask_viewers : Model → Option Item → Updated
ask_viewers m none = say "Only the author can see who viewed a Story." m
ask_viewers m (some it) =
    if it.is_owner
    then (m, list_viewers it.id ∷ [])
    else say "Only the author can see who viewed a Story." m

-- The texts are followed by the link.
abbrev pub open_story : (ℕ → Bool) → Model → Option Item → Updated
open_story opens m none = (m, [])
open_story opens m (some it) =
    if not m.has_url
    then (m, [])
    else if m.over_ssh || not m.has_browser
    then say "Open on your machine: " m
    else if opens it.id
    then say "Opened in your browser." m
    else say "Open this URL: " m

-- `handleKey` in the viewing mode.
unfoldable pub act : (ℕ → Bool) → Model → Action → Option Updated
act opens m leave = some (put_away (record m { quitting = true }), quit ∷ [])
act opens m next = advance (put_away m)
act opens m previous = some (back (put_away m))
act opens m next_author =
    if ltb (m.group + 1) (length m.groups)
    then some (load_current (put_away (record m { group = m.group + 1; item = 0 })))
    else some (m, [])
act opens m previous_author =
    if ltb 0 m.group
    then some (load_current (put_away (record m { group = m.group - 1; item = 0 })))
    else some (m, [])
act opens m pause = some (record m { paused = not m.paused }, [])
act opens m answer = some (open_editor m (current_item m))
act opens m emote = some (open_picker m (current_item m))
act opens m who = some (ask_viewers m (current_item m))
act opens m open_link = some (open_story opens m (current_item m))
act opens m show_help = some (record m { mode = help }, [])
act opens m nothing = some (m, [])

-- `handleKey`
unfoldable pub handle_key : (List ℕ → List ℕ) → (ℕ → Bool) → Model → Mode → Key → Option Updated
handle_key trim opens m replying k = some (edit_key trim m k)
handle_key trim opens m reacting k = some (pick_key m k)
handle_key trim opens m viewers_open k = some (record m { mode = viewing }, [])
handle_key trim opens m help k = some (record m { mode = viewing }, [])
handle_key trim opens m viewing k = act opens m (action_of k)
