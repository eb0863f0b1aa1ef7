-- ===== src/Tui.antt =====
-- internal/tui/model.go: the state of the full-screen viewer, and how it moves between items.
--
-- A command that Bubble Tea runs later is a value, and a batch is the list of its commands. An index
-- that Go would panic on makes the call `none`. A story's id, an image and a decoded frame are
-- numbers, times are in milliseconds, a typed text is the list of its runes.
pub mod Update
pub mod Messages
pub mod Screen
pub mod Position
pub mod Playback
pub mod Keys
pub mod Returns
pub mod OnePicture
use Prim.Native.String.{String}
use gh_stories.Prelude.{
  ℕ, ◌+◌, ◌-◌, Bool, true, false, not, ◌&&◌, Option, none, some, List, [], ◌∷◌, ◌++◌, ltb, leb,
  ◌||◌, ◌==◌, if◌then◌else◌, length, get_elem?,
}
use gh_stories.Domain.{VariantKind, same_kind, video}

pub record Variant : Type 0 where
  pub kind : VariantKind
  pub duration_ms : ℕ

-- `cliapi.StoryItem`, the fields that decide what the viewer does.
pub record Item : Type 0 where
  pub id : ℕ
  pub is_video : Bool
  pub variants : List Variant
  pub expires_at : Option ℕ
  pub allow_replies : Bool
  pub allow_reactions : Bool
  pub is_owner : Bool

-- `VideoMode`
pub data VideoMode : Type 0 where
  video_auto video_inline video_poster : VideoMode

pub data Mode : Type 0 where
  viewing replying reacting viewers_open help : Mode

pub record Signature : Type 0 where
  pub image : ℕ
  pub col : ℕ
  pub row : ℕ
  pub cols : ℕ
  pub rows : ℕ

-- `Model`. What never changes: the groups, the renderer and the animator, whether the terminal has
-- no graphics, runs over SSH, and whether there is a link and a browser to open it with.
pub record Model : Type 0 where
  pub groups : List (List Item)
  pub has_renderer : Bool
  pub has_animator : Bool
  pub is_external : Bool
  pub over_ssh : Bool
  pub has_url : Bool
  pub has_browser : Bool
  pub video_mode : VideoMode
  pub group : ℕ
  pub item : ℕ
  pub width : ℕ
  pub height : ℕ
  pub mode : Mode
  pub reply_input : List ℕ
  pub status_msg : String
  pub err_msg : String
  pub loading : Bool
  pub paused : Bool
  pub current : Option ℕ
  pub image_id : ℕ
  pub placed_id : ℕ
  pub placed_sig : Option Signature
  pub pending_clear : List ℕ
  pub frames : List ℕ
  pub frames_cleanup : Option ℕ
  pub frames_for : Option ℕ
  pub animation : Option ℕ
  pub animated_for : Option ℕ
  pub video_note : String
  pub elapsed : ℕ
  pub viewers : Option ℕ
  pub quitting : Bool

-- What an update asks Bubble Tea to do, and the cleanups that it calls itself.
pub data Cmd : Type 0 where
  load_image load_poster load_frames no_graphics : (story : ℕ) → Cmd
  animate : (story stale : ℕ) → Cmd
  reply : (story : ℕ) → List ℕ → Cmd
  react : (story emoji : ℕ) → Cmd
  list_viewers : (story : ℕ) → Cmd
  cleanup : (handle : ℕ) → Cmd
  tick : Cmd
  quit : Cmd

abbrev pub Updated : Type 0
Updated = Model × List Cmd

abbrev pub is_poster : VideoMode → Bool
is_poster video_poster = true
is_poster _ = false

-- `New`; a negative start is one out of range.
unfoldable pub new :
    List (List Item) → ℕ → Bool → Bool → Bool → Bool → Bool → Bool → VideoMode → Model
new groups start renderer animator is_external over_ssh has_url has_browser mode = record {
  groups = groups;
  has_renderer = renderer;
  has_animator = not (is_poster mode) && animator;
  is_external = is_external;
  over_ssh = over_ssh;
  has_url = has_url;
  has_browser = has_browser;
  video_mode = mode;
  group = if ltb start (length groups) then start else 0;
  item = 0;
  width = 0;
  height = 0;
  mode = viewing;
  reply_input = [];
  status_msg = "";
  err_msg = "";
  loading = false;
  paused = false;
  current = none;
  image_id = 1000;
  placed_id = 0;
  placed_sig = none;
  pending_clear = [];
  frames = [];
  frames_cleanup = none;
  frames_for = none;
  animation = none;
  animated_for = none;
  video_note = "";
  elapsed = 0;
  viewers = none;
  quitting = false;
}

abbrev pub items_of : Option (List Item) → List Item
items_of none = []
items_of (some items) = items

abbrev pub items_at : Model → ℕ → List Item
items_at m g = items_of (get_elem? m.groups g)

-- `currentItem`
unfoldable pub current_item : Model → Option Item
current_item m = get_elem? (items_at m m.group) m.item

abbrev pub loads : Model → Item → List Cmd
loads m it =
    if it.is_video && m.has_animator
    then load_poster it.id ∷ load_frames it.id ∷ []
    else if m.is_external
    then no_graphics it.id ∷ []
    else if it.is_video
    then load_poster it.id ∷ []
    else load_image it.id ∷ []

abbrev pub start_loading : Model → Model
start_loading m = record m { loading = true; current = none; elapsed = 0 }

abbrev pub load_item : Model → Option Item → Updated
load_item m none = (m, [])
load_item m (some it) = (start_loading m, loads m it)

-- `loadCurrent`
unfoldable pub load_current : Model → Updated
load_current m = load_item m (current_item m)

-- `expired`, by the server's time `now`.
abbrev pub past : ℕ → Option ℕ → Bool
past now none = false
past now (some t) = leb t now

unfoldable pub is_expired : ℕ → Option Item → Bool
is_expired now none = false
is_expired now (some it) = past now it.expires_at

abbrev pub first_duration : List Variant → ℕ
first_duration [] = 5000
first_duration (v ∷ vs) =
    let rest = first_duration vs in
    if same_kind v.kind video && ltb 0 v.duration_ms then v.duration_ms else rest

-- `itemDuration`
unfoldable pub item_duration : Option Item → ℕ
item_duration none = 5000
item_duration (some it) = if it.is_video then first_duration it.variants else 5000

abbrev pub advance_in : Model → Option (List Item) → Option Updated
advance_in m none = none
advance_in m (some items) =
    if ltb (m.item + 1) (length items)
    then some (load_current (record m { item = m.item + 1 }))
    else if ltb (m.group + 1) (length m.groups)
    then some (load_current (record m { group = m.group + 1; item = 0 }))
    else some (record m { quitting = true }, quit ∷ [])

-- `advance`; with no group at all it indexes out of range.
unfoldable pub advance : Model → Option Updated
advance m = advance_in m (get_elem? m.groups m.group)

-- `back`
unfoldable pub back : Model → Updated
back m =
    if ltb 0 m.item
    then load_current (record m { item = m.item - 1 })
    else if ltb 0 m.group
    then load_current
        (record m { group = m.group - 1; item = length (items_at m (m.group - 1)) - 1 })
    else (m, [])

abbrev pub unless_playing : Option ℕ → Option ℕ → Option ℕ
unless_playing none story = story
unless_playing (some a) story = none

-- `stopAnimation`; the escapes that stop it are the animator's.
unfoldable pub stop_animation : Model → Model
stop_animation m = record m {
  animation = none;
  animated_for = unless_playing m.animation m.animated_for;
}

-- `clearImage`: the delete is queued for the next frame.
unfoldable pub clear_image : Model → Model
clear_image m =
    if not m.has_renderer || m.placed_id == 0
    then m
    else record m { pending_clear = m.pending_clear ++ m.placed_id ∷ []; placed_id = 0 }

abbrev pub animate_item : Model → Option Item → Updated
animate_item m none = (m, [])
animate_item m (some it) =
    if m.has_animator && not (length m.frames == 0 || m.width == 0 || m.height == 0)
    then (record m { placed_id = 0; placed_sig = none }, animate it.id m.placed_id ∷ [])
    else (m, [])

-- `startAnimation`: no geometry, no animation. The still image on screen is removed by the command.
unfoldable pub start_animation : Model → Updated
start_animation m = animate_item m (current_item m)
