-- ===== src/Tui/Screen.antt =====
-- internal/tui/view.go: the graphics that a frame writes, and what they leave on the screen.
--
-- The text of a frame is not modelled. `fit` is `terminal.FitCells`, whose scale is a floating-point
-- number: the columns and rows of an image in a box. `renders` says whether `Renderer.Render`
-- succeeds; one that fails writes nothing. A frame that `View` returns is written to the terminal.
use gh_stories.Prelude.{
  ℕ, ◌+◌, ◌-◌, ◌/◌, ◌%◌, ◌^◌, Bool, false, not, ◌&&◌, ◌||◌, Option, none, some, List, [], ◌∷◌, ◌++◌,
  ltb, ◌==◌, if◌then◌else◌, length, delete_rows,
}
use gh_stories.Tui.{Model, Item, Signature, current_item}
use gh_stories.Tui.Update.{is_viewing}

-- An escape of the renderer: remove an image, or draw one under an id.
pub data Escape : Type 0 where
  clear : (id : ℕ) → Escape
  draw : (id image : ℕ) → Escape

-- The ids on the screen after an escape, and after several, for a renderer whose `Clear` removes
-- whatever is drawn under the id. `ITerm2.Clear` writes nothing for an id whose placement the renderer
-- has dropped already, as it does when a frame that holds the escape is thrown away.
abbrev pub shown_after : List ℕ → Escape → List ℕ
shown_after ids (clear id) = delete_rows (λ i. i == id) ids
shown_after ids (draw id image) = id ∷ ids

abbrev pub written : List ℕ → List Escape → List ℕ
written ids [] = ids
written ids (e ∷ es) = written (shown_after ids e) es

abbrev pub clears : List ℕ → List Escape
clears [] = []
clears (id ∷ ids) = clear id ∷ clears ids

abbrev pub Drawn : Type 0
Drawn = Model × List Escape

-- `flushClears`
unfoldable pub flush_clears : Model → Drawn
flush_clears m =
    if not m.has_renderer
    then (m, [])
    else (record m { pending_clear = [] }, clears m.pending_clear)

abbrev is_for : Option ℕ → ℕ → Bool
is_for none story = false
is_for (some s) story = s == story

abbrev has_frames : Model → Option Item → Bool
has_frames m none = false
has_frames m (some it) = m.has_animator && is_for m.frames_for it.id && not (length m.frames == 0)

-- `hasInlineVideo`
unfoldable pub has_inline_video : Model → Bool
has_inline_video m = has_frames m (current_item m)

abbrev pub same_signature : Signature → Option Signature → Bool
same_signature s none = false
same_signature s (some t) =
    s.image == t.image && s.col == t.col && s.row == t.row && s.cols == t.cols && s.rows == t.rows

-- Where an image goes: centred below the first `imageTop - 1` rows, which are two.
abbrev pub signature : (ℕ → ℕ → ℕ → ℕ × ℕ) → Model → ℕ → ℕ → Signature
signature fit m image rows =
    let size = fit image m.width rows in
    record {
      image = image;
      col = 1 + (m.width - size.0) / 2;
      row = 3 + (rows - size.1) / 2;
      cols = size.0;
      rows = size.1;
    }

abbrev pub old_image : ℕ → List Escape
old_image id = if id == 0 then [] else clear id ∷ []

abbrev pub next_id : Model → ℕ
next_id m = (m.image_id + 1) % 2 ^ 32

abbrev pub place : (ℕ → Signature → Bool) → Model → Signature → Drawn
place renders m sig =
    if not (m.placed_id == 0) && same_signature sig m.placed_sig
    then (m, [])
    else if renders (next_id m) sig
    then (
      record m { image_id = next_id m; placed_id = next_id m; placed_sig = some sig },
      old_image m.placed_id ++ draw (next_id m) sig.image ∷ [],
    )
    else (record m { image_id = next_id m }, [])

-- `imagePlacement`
abbrev pub place_current :
    (ℕ → ℕ → ℕ → ℕ × ℕ) → (ℕ → Signature → Bool) → Model → Option ℕ → ℕ → Drawn
place_current fit renders m none rows = (m, [])
place_current fit renders m (some image) rows =
    if not m.has_renderer then (m, []) else place renders m (signature fit m image rows)

unfoldable pub image_placement : (ℕ → ℕ → ℕ → ℕ × ℕ) → (ℕ → Signature → Bool) → Model → ℕ → Drawn
image_placement fit renders m rows = place_current fit renders m m.current rows

abbrev pub image_rows : Model → ℕ
image_rows m = if ltb (m.height - 6) 1 then 1 else m.height - 6

abbrev pub then_place : (ℕ → ℕ → ℕ → ℕ × ℕ) → (ℕ → Signature → Bool) → Drawn → Drawn
then_place fit renders d =
    if is_viewing d.0.mode && not (has_inline_video d.0)
    then (let p = image_placement fit renders d.0 (image_rows d.0) in (p.0, d.1 ++ p.1))
    else d

abbrev pub draw_item : (ℕ → ℕ → ℕ → ℕ × ℕ) → (ℕ → Signature → Bool) → Model → Option Item → Drawn
draw_item fit renders m none = (m, [])
draw_item fit renders m (some it) = then_place fit renders (flush_clears m)

-- `View`: the queued clears go before the picture, in the same frame.
unfoldable pub view : (ℕ → ℕ → ℕ → ℕ × ℕ) → (ℕ → Signature → Bool) → Model → Drawn
view fit renders m =
    if m.quitting
    then (m, [])
    else if m.width == 0 || m.height == 0
    then (m, [])
    else draw_item fit renders m (current_item m)

-- What `Run` writes when the program has ended.
unfoldable pub restore : Model → List Escape
restore m = if m.has_renderer then old_image m.placed_id else []
