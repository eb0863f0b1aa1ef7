-- ===== src/Tui/Playback.antt =====
-- How long an item plays: ticks come every 250 ms.
use gh_stories.Prelude.{
  ℕ, ◌+◌, ◌-◌, ◌*◌, ◌/◌, ◌≡◌, ◌≤◌, ◌<◌, refl, ap, ◌∙◌, arith, true, false, Option, some, List, [],
  ◌∷◌, leb, length, All,
}
use gh_stories.Tui.{Model, tick, current_item, is_expired, item_duration, advance}
use gh_stories.Tui.Update.{handle_tick, is_waiting, put_away, pass_time, then_tick, map_updated}
use gh_stories.Tui.Returns.{and_then}

-- A tick at each of the given times.
abbrev pub ticks : Model → List ℕ → Option Model
ticks m [] = some m
ticks m (now ∷ nows) = and_then (handle_tick m now) (λ n. ticks n nows)

abbrev pub played : Model → ℕ → Model
played m n = record m { elapsed = m.elapsed + 250 * n }

tick-plays :
    (m : Model) (now : ℕ)
    → is_expired now (current_item m) ≡ false
    → is_waiting m ≡ false
    → m.elapsed + 250 < item_duration (current_item m)
    → handle_tick m now ≡ some (pass_time m, tick ∷ [])
unfolding handle_tick
tick-plays m now he hw hd = let late = leb-false hd in rw (he, hw, late) refl
  where
    leb-false :
        m.elapsed + 250 < item_duration (current_item m)
        → leb (item_duration (current_item m)) (m.elapsed + 250) ≡ false
    leb-false h = ground arith

tick-moves :
    (m : Model) (now : ℕ)
    → is_expired now (current_item m) ≡ false
    → is_waiting m ≡ false
    → item_duration (current_item m) ≤ m.elapsed + 250
    → handle_tick m now ≡ map_updated then_tick (advance (put_away (pass_time m)))
unfolding handle_tick
tick-moves m now he hw hd = let late = leb-true hd in rw (he, hw, late) refl
  where
    leb-true :
        item_duration (current_item m) ≤ m.elapsed + 250
        → leb (item_duration (current_item m)) (m.elapsed + 250) ≡ true
    leb-true h = ground arith

ticks-plays :
    (m : Model) (nows : List ℕ)
    → is_waiting m ≡ false
    → All (λ now. is_expired now (current_item m) ≡ false) nows
    → m.elapsed + 250 * length nows < item_duration (current_item m)
    → ticks m nows ≡ some (played m (length nows))
unfolding current_item
ticks-plays m [] hw he hd = ap_played (omega arith)
  where
    ap_played : m.elapsed ≡ m.elapsed + 250 * 0 → some m ≡ some (played m 0)
    ap_played h = ap (λ t. some (record m { elapsed = t })) h
ticks-plays m (now ∷ nows) hw he hd = rw (tick-plays m now he.0 hw (omega arith)) (
    ticks-plays (pass_time m) nows hw he.1 (omega arith)
    ∙ ap (λ t. some (record m { elapsed = t })) (omega arith))

-- An item that is shown, loaded and not paused, that has played less than its duration, and that
-- does not expire at the ticks' times, stays for exactly ⌈(duration - elapsed) / 250⌉ ticks: the
-- ticks before the last only add 250 ms each, and the last one puts the picture away and advances.
pub ticks-finishes :
    (m : Model) (nows : List ℕ) (now : ℕ)
    → is_waiting m ≡ false
    → m.elapsed < item_duration (current_item m)
    → length nows ≡ (item_duration (current_item m) - m.elapsed - 1) / 250
    → All (λ t. is_expired t (current_item m) ≡ false) (now ∷ nows)
    → (ticks m nows ≡ some (played m (length nows)))
      × (handle_tick (played m (length nows)) now
          ≡ map_updated then_tick (advance (put_away (pass_time (played m (length nows))))))
unfolding current_item
ticks-finishes m nows now hw hd hn he = (
  ticks-plays m nows hw he.1 (omega arith),
  tick-moves (played m (length nows)) now he.0 hw (omega arith),
)
