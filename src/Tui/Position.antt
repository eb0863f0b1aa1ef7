-- ===== src/Tui/Position.antt =====
-- The position of the viewer: no message takes it off the list of items, and none makes it panic.
use gh_stories.Prelude.{
  ℕ, ◌+◌, ◌-◌, ◌<◌, ◌≡◌, ◌⊎◌, refl, inl, inr, true, not, ◌||◌, Option, none, some, [], ◌∷◌, ltb,
  leb, ◌==◌, arith, length, get_elem?_of_lt, Bool-cases,
}
use gh_stories.Tui.{
  Model, Item, Updated, items_at, current_item, load_current, load_item, is_expired, item_duration,
  advance, back, stop_animation, clear_image, quit, tick,
}
use gh_stories.Tui.Update.{
  handle_tick, put_away, then_tick, map_updated, expire_current, pass_time, is_waiting,
}

-- The group exists, and so does the item, unless the group is empty.
abbrev pub IsValid : Model → Type 0
IsValid m = (m.group < length m.groups) × ((m.item ≡ 0) ⊎ (m.item < length (items_at m m.group)))

load_item-IsValid : (m : Model) (o : Option Item) → IsValid m → IsValid (load_item m o).0
load_item-IsValid m none v = v
load_item-IsValid m (some it) v = v

pub load_current-IsValid : (m : Model) → IsValid m → IsValid (load_current m).0
unfolding load_current
load_current-IsValid m v = load_item-IsValid m (current_item m) v

pub put_away-IsValid : (m : Model) → IsValid m → IsValid (put_away m)
unfolding clear_image stop_animation
put_away-IsValid m v = elim (Bool-cases (not m.has_renderer || m.placed_id == 0)) [
  | inl e ↦ rw e v
  | inr e ↦ rw e v
]

-- The call returns, in a valid position.
abbrev pub Returns : Option Updated → Type 0
Returns o = (r : Updated) × (o ≡ some r) × IsValid r.0

pub advance-Returns : (m : Model) → IsValid m → Returns (advance m)
unfolding advance
advance-Returns m v =
    let (items, e) = get_elem?_of_lt m.groups m.group v.0 in
    elim (Bool-cases (ltb (m.item + 1) (length items))) [
      | inl f ↦ (
        load_current (record m { item = m.item + 1 }),
        rw (e, f) refl,
        load_current-IsValid (record m { item = m.item + 1 }) (v.0, inr (rw e (ground arith))),
      )
      | inr f ↦ elim (Bool-cases (ltb (m.group + 1) (length m.groups))) [
        | inl g ↦ (
          load_current (record m { group = m.group + 1; item = 0 }),
          rw (e, f, g) refl,
          load_current-IsValid (record m { group = m.group + 1; item = 0 })
              (ground arith, inl refl),
        )
        | inr g ↦ ((record m { quitting = true }, quit ∷ []), rw (e, f, g) refl, v)
      ]
    ]

pub back-IsValid : (m : Model) → IsValid m → IsValid (back m).0
unfolding back
back-IsValid m v = elim (Bool-cases (ltb 0 m.item)) [
  | inl e ↦ rw e (load_current-IsValid (record m { item = m.item - 1 }) (v.0, ground arith))
  | inr e ↦ elim (Bool-cases (ltb 0 m.group)) [
    | inl f ↦
        rw (e, f)
          (load_current-IsValid
            (record m { group = m.group - 1; item = length (items_at m (m.group - 1)) - 1 })
            (ground arith, omega arith))
    | inr f ↦ rw (e, f) v
  ]
]

pub returned : (r : Updated) → IsValid r.0 → Returns (some r)
returned r v = (r, refl, v)

pub then_tick-Returns : (o : Option Updated) → Returns o → Returns (map_updated then_tick o)
then_tick-Returns o (r, e, v) = (then_tick r, rw e refl, v)

pub handle_tick-Returns : (m : Model) (now : ℕ) → IsValid m → Returns (handle_tick m now)
unfolding handle_tick
handle_tick-Returns m now v = elim (Bool-cases (is_expired now (current_item m))) [
  | inl e ↦ rw e (
      then_tick-Returns _
        (advance-Returns (put_away (expire_current m)) (put_away-IsValid (expire_current m) v)))
  | inr e ↦ elim (Bool-cases (is_waiting m)) [
    | inl f ↦ rw (e, f) (returned (m, tick ∷ []) v)
    | inr f ↦ elim (Bool-cases (leb (item_duration (current_item m)) (m.elapsed + 250))) [
      | inl g ↦
          rw (e, f, g)
            (then_tick-Returns _
              (advance-Returns (put_away (pass_time m)) (put_away-IsValid (pass_time m) v)))
      | inr g ↦ rw (e, f, g) (returned (pass_time m, tick ∷ []) v)
    ]
  ]
]
