-- ===== src/Store/Stories/Window.antt =====
-- The window of a published item: `PublishStory` sets it, and no later operation moves it.
use gh_stories.Prelude.{
  ℕ, ◌+◌, ◌<◌, ◌≡◌, refl, ◌⊎◌, inl, inr, true, false, some, List, All, All-Mem, Memᴰ, arith,
  if◌then◌else◌, exists_row, All-update_rows_of, exists_row_sound, Bool-cases, Option-cases,
}
use gh_stories.Domain.{User, StoryItem, is_processing, MediaVariant}
use gh_stories.Store.Social.{Social, ok-elim, ok}
use gh_stories.Store.Visibility.{Viewer, visible_to_viewer, is_open}
use gh_stories.Store.Stories.{Pipeline, has_id}
use gh_stories.Store.Stories.Jobs.{publish_story, publish_row, is_processing_item}
use gh_stories.Store.Stories.Items.{story_for_viewer, select_story}
use gh_stories.Store.Stories.Run.{Op, run}
use gh_stories.Store.Stories.Rows.{Keeps, Creates-weaken, run-All}
use gh_stories.Store.Stories.Lifecycle.{IsKeyed, IsOther, IsFresh, select_story_sound}

-- The row of this id, if there is one, has left processing, with the window that it has now.
abbrev pub IsWindow : ℕ → ℕ → ℕ → StoryItem → Type 0
IsWindow id t e s =
    IsOther id s
    ⊎ ((s.published_at ≡ some t) × (s.expires_at ≡ some e) × (is_processing s.state ≡ false))

window : (lifetime id t e : ℕ) → Keeps lifetime (IsWindow id t e)
window lifetime id t e = record {
  on_publish = λ s now f h. ground arith;
  on_fail = λ s code message f h. ground arith;
  on_edit = λ s f g h. h;
  on_remove = λ s now owner reason h. ground arith;
  on_delete = λ s now h. ground arith;
  on_view = λ s h. h;
}

published_row :
    (p : Pipeline) (id clock expires : ℕ) (x y : StoryItem)
    → IsKeyed p
    → Memᴰ x p.stories
    → Memᴰ y p.stories
    → is_processing_item id y ≡ true
    → IsWindow id clock expires (if is_processing_item id x then publish_row clock expires x else x)
published_row p id clock expires x y key mx my py = elim (Bool-cases (has_id id x)) [
  | inl e ↦
      let same = key x y mx my (ground arith) in
      let px : is_processing_item id x ≡ true = rw same py in rw px (inr (refl, refl, refl))
  | inr e ↦ rw e (inl e)
]

publish_story-IsWindow :
    (p q : Pipeline) (clock new_id job id : ℕ) (vs : List MediaVariant) (lifetime : ℕ) (t e : ℕ)
    → IsKeyed p
    → publish_story p clock new_id job id vs lifetime ≡ ok ((t, e), q)
    → (t ≡ clock) × (e ≡ clock + lifetime) × All (IsWindow id t e) q.stories
unfolding publish_story
publish_story-IsWindow p q clock new_id job id vs lifetime t e key h =
    elim (Bool-cases (exists_row (is_processing_item id) p.stories)) [
      | inl f ↦
          let (y, my, py) = exists_row_sound _ p.stories f in
          ok-elim
            (λ r.
              (r.0.0 ≡ clock)
              × (r.0.1 ≡ clock + lifetime)
              × All (IsWindow id r.0.0 r.0.1) r.1.stories)
            (rw f at h)
            (
              refl,
              refl,
              All-update_rows_of (IsWindow id clock (clock + lifetime)) (is_processing_item id)
                  (publish_row clock (clock + lifetime)) p.stories
                  (λ x m. published_row p id clock (clock + lifetime) x y key m my py),
            )
      | inr f ↦ let g = rw f at h in cc
    ]

-- The window of a published item is fixed: whatever operations follow, edits, failures of its job
-- and repeated publications included, whoever still finds it finds it before the expiry time that
-- the publication returned, one lifetime after its clock, and with the times that it returned;
-- provided that `id` is the key of the table and that the database does not hand it out again.
pub publish_story-run :
    (p q : Pipeline) (clock new_id job id : ℕ) (vs : List MediaVariant) (lifetime t e : ℕ)
    → IsKeyed p
    → publish_story p clock new_id job id vs lifetime ≡ ok ((t, e), q)
    → (os : List Op) → All (IsFresh id) os
    → (g : Social) (v : Viewer) (now : ℕ) (si : StoryItem) (ws : List MediaVariant)
    → story_for_viewer g (run lifetime q os) v now id ≡ ok (si, ws)
    → (t ≡ clock)
      × (e ≡ clock + lifetime)
      × (si.published_at ≡ some t)
      × (si.expires_at ≡ some e)
      × (now < e)
unfolding story_for_viewer visible_to_viewer is_open
publish_story-run p q clock new_id job id vs lifetime t e key h os fresh g v now si ws found =
    let (same_t, same_e, windows) =
      publish_story-IsWindow p q clock new_id job id vs lifetime t e key h in
    let rest =
      run-All lifetime (IsWindow id t e) (window lifetime id t e) q os
        (Creates-weaken (IsOther id) (IsWindow id t e) os (λ s f. inl f) fresh) windows in
    elim (Option-cases (select_story g (run lifetime q os) id (visible_to_viewer g v now))) [
      | inl f ↦ let none_found = rw f at found in cc
      | inr (s, f) ↦
          let (m, i, (au, c)) = select_story_sound g (run lifetime q os) id _ s f in
          let w = All-Mem (IsWindow id t e) m rest in
          let (b, d, l) =
            ok-elim (λ r. (r.0.published_at ≡ some t) × (r.0.expires_at ≡ some e) × (now < e))
              (rw f at found) (in_window s au w i c) in
          (same_t, same_e, b, d, l)
    ]
  where
    in_window :
        (s : StoryItem) (au : User)
        → IsWindow id t e s
        → has_id id s ≡ true
        → visible_to_viewer g v now s au ≡ true
        → (s.published_at ≡ some t) × (s.expires_at ≡ some e) × (now < e)
    in_window s au w i c = ground arith
