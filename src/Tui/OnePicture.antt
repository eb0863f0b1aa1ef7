-- ===== src/Tui/OnePicture.antt =====
-- A frame leaves no old picture on the screen.
use gh_stories.Prelude.{ℕ, ◌≡◌, ◌<◌, ◌⊎◌, Bool, true, List, ◌==◌, exists_row, All}
use gh_stories.Tui.{Model}

abbrev pub is_queued : List ℕ → ℕ → Bool
is_queued ids id = exists_row (λ i. i == id) ids

-- Every id on the screen is the placed one or queued for removal.
abbrev pub Tracked : Model → List ℕ → Type 0
Tracked m screen =
    All (λ id. ((0 < id) × (id ≡ m.placed_id)) ⊎ (is_queued m.pending_clear id ≡ true)) screen

-- Every id on the screen is the placed one.
abbrev pub Single : Model → List ℕ → Type 0
Single m screen = All (λ id. (0 < id) × (id ≡ m.placed_id)) screen
