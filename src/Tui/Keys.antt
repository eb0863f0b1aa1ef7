-- ===== src/Tui/Keys.antt =====
-- Keys leave the viewer at a valid position: the editor, the reaction picker and the viewing mode.
use gh_stories.Prelude.{
  ℕ, ◌+◌, ◌-◌, refl, inl, inr, Bool, true, not, ◌&&◌, ◌||◌, Option, none, some, List, [], ◌∷◌, ◌++◌,
  ltb, between, arith, length, Bool-cases,
}
use gh_stories.Tui.{Model, Mode, viewing, help, Item, current_item, load_current, back, quit}
use gh_stories.Tui.Update.{
  Key, Action, handle_key, act, action_of, edit_key, pick_key, put_away, send_reply, send_reaction,
  type_text, close_editor, open_editor, open_picker, ask_viewers, open_story,
}
use gh_stories.Tui.Position.{
  IsValid, Returns, returned, load_current-IsValid, put_away-IsValid, advance-Returns, back-IsValid,
}

send_reply-IsValid :
    (m : Model) (body : List ℕ) (o : Option Item) → IsValid m → IsValid (send_reply m body o).0
send_reply-IsValid m [] o v = v
send_reply-IsValid m (c ∷ body) none v = v
send_reply-IsValid m (c ∷ body) (some it) v = v

type_text-IsValid : (m : Model) (text : List ℕ) → IsValid m → IsValid (type_text m text)
type_text-IsValid m text v = elim (Bool-cases (ltb (length m.reply_input) 500)) [
  | inl e ↦ rw e v
  | inr e ↦ rw e v
]

edit_key-IsValid :
    (trim : List ℕ → List ℕ) (m : Model) (k : Key) → IsValid m → IsValid (edit_key trim m k).0
unfolding edit_key
edit_key-IsValid trim m (Key.runes text) v = type_text-IsValid m text v
edit_key-IsValid trim m (Key.space text) v = type_text-IsValid m (text ++ 32 ∷ []) v
edit_key-IsValid trim m Key.esc v = v
edit_key-IsValid trim m Key.enter v =
    send_reply-IsValid (close_editor m) (trim m.reply_input) (current_item m) v
edit_key-IsValid trim m Key.backspace v = v
edit_key-IsValid trim m Key.ctrl_c v = v
edit_key-IsValid trim m Key.left v = v
edit_key-IsValid trim m Key.right v = v
edit_key-IsValid trim m Key.up v = v
edit_key-IsValid trim m Key.down v = v
edit_key-IsValid trim m Key.other v = v

send_reaction-IsValid :
    (m : Model) (emoji : ℕ) (o : Option Item) → IsValid m → IsValid (send_reaction m emoji o).0
send_reaction-IsValid m emoji none v = v
send_reaction-IsValid m emoji (some it) v = v

pick_key-IsValid : (m : Model) (k : Key) → IsValid m → IsValid (pick_key m k).0
unfolding pick_key
pick_key-IsValid m (Key.runes []) v = v
pick_key-IsValid m (Key.runes (c ∷ [])) v = elim (Bool-cases (between 49 53 c)) [
  | inl e ↦ rw e (send_reaction-IsValid (record m { mode = viewing }) (c - 49) (current_item m) v)
  | inr e ↦ rw e v
]
pick_key-IsValid m (Key.runes (c ∷ d ∷ cs)) v = v
pick_key-IsValid m (Key.space text) v = v
pick_key-IsValid m Key.esc v = v
pick_key-IsValid m Key.enter v = v
pick_key-IsValid m Key.backspace v = v
pick_key-IsValid m Key.ctrl_c v = v
pick_key-IsValid m Key.left v = v
pick_key-IsValid m Key.right v = v
pick_key-IsValid m Key.up v = v
pick_key-IsValid m Key.down v = v
pick_key-IsValid m Key.other v = v

open_editor-IsValid : (m : Model) (o : Option Item) → IsValid m → IsValid (open_editor m o).0
open_editor-IsValid m none v = v
open_editor-IsValid m (some it) v = elim (Bool-cases (it.allow_replies && not it.is_owner)) [
  | inl e ↦ rw e v
  | inr e ↦ elim (Bool-cases it.is_owner) [ inl f ↦ rw (e, f) v | inr f ↦ rw (e, f) v ]
]

open_picker-IsValid : (m : Model) (o : Option Item) → IsValid m → IsValid (open_picker m o).0
open_picker-IsValid m none v = v
open_picker-IsValid m (some it) v = elim (Bool-cases (it.allow_reactions && not it.is_owner)) [
  | inl e ↦ rw e v
  | inr e ↦ rw e v
]

ask_viewers-IsValid : (m : Model) (o : Option Item) → IsValid m → IsValid (ask_viewers m o).0
ask_viewers-IsValid m none v = v
ask_viewers-IsValid m (some it) v = elim (Bool-cases it.is_owner) [
  | inl e ↦ rw e v
  | inr e ↦ rw e v
]

open_story-IsValid :
    (opens : ℕ → Bool) (m : Model) (o : Option Item) → IsValid m → IsValid (open_story opens m o).0
open_story-IsValid opens m none v = v
open_story-IsValid opens m (some it) v = elim (Bool-cases (not m.has_url)) [
  | inl e ↦ rw e v
  | inr e ↦ elim (Bool-cases (m.over_ssh || not m.has_browser)) [
    | inl f ↦ rw (e, f) v
    | inr f ↦ elim (Bool-cases (opens it.id)) [ inl g ↦ rw (e, f, g) v | inr g ↦ rw (e, f, g) v ]
  ]
]

act-Returns : (opens : ℕ → Bool) (m : Model) (a : Action) → IsValid m → Returns (act opens m a)
unfolding act
act-Returns opens m Action.leave v =
    returned (put_away (record m { quitting = true }), quit ∷ [])
      (put_away-IsValid (record m { quitting = true }) v)
act-Returns opens m Action.next v = advance-Returns (put_away m) (put_away-IsValid m v)
act-Returns opens m Action.previous v =
    returned (back (put_away m)) (back-IsValid (put_away m) (put_away-IsValid m v))
act-Returns opens m Action.next_author v = elim (Bool-cases (ltb (m.group + 1) (length m.groups))) [
  | inl e ↦
      let to = record m { group = m.group + 1; item = 0 } in
      rw e (
        returned (load_current (put_away to))
          (load_current-IsValid (put_away to) (put_away-IsValid to (ground arith, inl refl))))
  | inr e ↦ rw e (returned (m, []) v)
]
act-Returns opens m Action.previous_author v = elim (Bool-cases (ltb 0 m.group)) [
  | inl e ↦
      let to = record m { group = m.group - 1; item = 0 } in
      rw e (
        returned (load_current (put_away to))
          (load_current-IsValid (put_away to) (put_away-IsValid to (ground arith, inl refl))))
  | inr e ↦ rw e (returned (m, []) v)
]
act-Returns opens m Action.pause v = returned (record m { paused = not m.paused }, []) v
act-Returns opens m Action.answer v =
    returned (open_editor m (current_item m)) (open_editor-IsValid m (current_item m) v)
act-Returns opens m Action.emote v =
    returned (open_picker m (current_item m)) (open_picker-IsValid m (current_item m) v)
act-Returns opens m Action.who v =
    returned (ask_viewers m (current_item m)) (ask_viewers-IsValid m (current_item m) v)
act-Returns opens m Action.open_link v =
    returned (open_story opens m (current_item m)) (open_story-IsValid opens m (current_item m) v)
act-Returns opens m Action.show_help v = returned (record m { mode = help }, []) v
act-Returns opens m Action.nothing v = returned (m, []) v

pub handle_key-Returns :
    (trim : List ℕ → List ℕ) (opens : ℕ → Bool) (m : Model) (mode : Mode) (k : Key)
    → IsValid m
    → Returns (handle_key trim opens m mode k)
unfolding handle_key
handle_key-Returns trim opens m Mode.viewing k v = act-Returns opens m (action_of k) v
handle_key-Returns trim opens m Mode.replying k v =
    returned (edit_key trim m k) (edit_key-IsValid trim m k v)
handle_key-Returns trim opens m Mode.reacting k v = returned (pick_key m k) (pick_key-IsValid m k v)
handle_key-Returns trim opens m Mode.viewers_open k v = returned (record m { mode = viewing }, []) v
handle_key-Returns trim opens m Mode.help k v = returned (record m { mode = viewing }, []) v
