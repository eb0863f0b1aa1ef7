-- ===== src/Store/Stories/Lifecycle.antt =====
-- The life of an item under every operation of the pipeline: what a deletion leaves for good.
use Prim.Native.String.{String}
use gh_stories.Prelude.{
  ℕ, ◌≡◌, refl, inl, inr, Bool, true, false, ◌&&◌, ◌==◌, some, List, All, All-Mem, Memᴰ, arith,
  if◌then◌else◌, exists_row, update_rows, find_row_sound, All-update_rows_of, exists_row_sound,
  Bool-cases, &&-right, Option-cases,
}
use gh_stories.Domain.{User, StoryItem}
use gh_stories.Store.Social.{Social, Result, >>=-eq-ok, ok, err, not_found}
use gh_stories.Store.Visibility.{Viewer, visible_to_viewer, is_open}
use gh_stories.Store.Stories.{Pipeline, has_id}
use gh_stories.Store.Stories.Items.{
  is_deletable, delete_story, story_for_viewer, select_story, update_some,
}
use gh_stories.Store.Stories.Run.{Op, run, committed}
use gh_stories.Store.Stories.Rows.{Keeps, Creates, Creates-weaken, run-All}

-- The primary key of `story_items`: two rows with one id are one row.
abbrev pub IsKeyed : Pipeline → Type 0
IsKeyed p = (s t : StoryItem) → Memᴰ s p.stories → Memᴰ t p.stories → s.id ≡ t.id → s ≡ t

abbrev pub IsOther : ℕ → StoryItem → Type 0
IsOther id s = has_id id s ≡ false

-- The database does not generate this id again.
abbrev pub IsFresh : ℕ → Op → Type 0
IsFresh id = Creates (IsOther id)

-- The row of this id, if there is one, is neither in processing nor published.
abbrev pub IsOver : ℕ → StoryItem → Type 0
IsOver id s = (has_id id s && is_deletable s.state) ≡ false

over : (lifetime id : ℕ) → Keeps lifetime (IsOver id)
over lifetime id = record {
  on_publish = λ s now e h. ground arith;
  on_fail = λ s code message e h. ground arith;
  on_edit = λ s e f h. h;
  on_remove = λ s now owner reason h. ground arith;
  on_delete = λ s now h. ground arith;
  on_view = λ s h. h;
}

update_some-ok :
    (p : StoryItem → Bool) (f : StoryItem → StoryItem) (rows out : List StoryItem)
    → update_some p f rows ≡ ok out
    → (exists_row p rows ≡ true) × (update_rows p f rows ≡ out)
update_some-ok p f rows out h = elim (Bool-cases (exists_row p rows)) [
  | inl e ↦ ground arith
  | inr e ↦ ground arith
]

-- The rows behind a change that was committed.
rows_of :
    (r : Result Pipeline) (q : Pipeline) → r ≡ ok q → (committed (λ x. x) q r).stories ≡ q.stories
rows_of r q h = rw h refl

changed-IsOver :
    (id : ℕ) (t : StoryItem → Bool) (f : StoryItem → StoryItem) (rows out : List StoryItem)
    → ((x : StoryItem) → t x ≡ false → Memᴰ x rows → IsOver id x)
    → ((x : StoryItem) → IsOver id (f x))
    → update_some t f rows ≡ ok out
    → All (IsOver id) out
changed-IsOver id t f rows out kept ended h =
    let (e, same) = update_some-ok t f rows out h in
    rw (← same) (All-update_rows_of (IsOver id) t f rows row)
  where
    row : (x : StoryItem) → Memᴰ x rows → IsOver id (if t x then f x else x)
    row x m = elim (Bool-cases (t x)) [ inl e ↦ rw e (ended x) | inr e ↦ rw e (kept x e m) ]

abbrev deletes : ℕ → ℕ → StoryItem → Bool
deletes owner id s = has_id id s && s.author_user_id == owner && is_deletable s.state

other_row :
    (p : Pipeline) (owner id : ℕ) (x y : StoryItem)
    → IsKeyed p
    → deletes owner id x ≡ false
    → Memᴰ x p.stories
    → Memᴰ y p.stories
    → deletes owner id y ≡ true
    → IsOver id x
other_row p owner id x y key k mx my ty = elim (Bool-cases (has_id id x)) [
  | inl e ↦ let same = key x y mx my (ground arith) in cc
  | inr e ↦ ground arith
]

delete_story-IsOver :
    (p q : Pipeline) (clock db_now new_id owner id : ℕ) (moderator : Bool) (reason : String)
    → IsKeyed p
    → delete_story p clock db_now new_id owner id moderator reason ≡ ok q
    → All (IsOver id) q.stories
unfolding delete_story
delete_story-IsOver p q clock db_now new_id owner id true reason key h =
    let (rows, e, f) = >>=-eq-ok _ _ h in
    rw (← rows_of _ q f) (changed-IsOver id _ _ p.stories rows (λ x k m. k) (λ x. ground arith) e)
delete_story-IsOver p q clock db_now new_id owner id false reason key h =
    let (rows, e, f) = >>=-eq-ok _ _ h in
    let (found, _) = update_some-ok _ _ p.stories rows e in
    let (y, my, ty) = exists_row_sound _ p.stories found in
    rw (← rows_of _ q f) (
      changed-IsOver id _ _ p.stories rows (λ x k m. other_row p owner id x y key k m my ty)
        (λ x. ground arith) e)

-- A row that a read returns: it is stored, it has the id, and the condition holds of an author.
pub select_story_sound :
    (g : Social) (p : Pipeline) (id : ℕ) (q : StoryItem → User → Bool) (si : StoryItem)
    → select_story g p id q ≡ some si
    → Memᴰ si p.stories × (has_id id si ≡ true) × ((au : User) × (q si au ≡ true))
unfolding select_story
select_story_sound g p id q si h =
    let (m, t) = find_row_sound _ p.stories si h in
    let (au, _, c) = exists_row_sound _ g.users (&&-right (has_id id si) _ t) in
    (m, ground arith, (au, ground arith))

-- A committed deletion is final: whatever operations follow, by whomever, a deleted item is not
-- found again by any viewer, provided that `id` is the key of the table and that the database does
-- not hand it out again.
pub delete_story-run :
    (p q : Pipeline) (clock db_now new_id owner id : ℕ) (moderator : Bool) (reason : String)
    → IsKeyed p
    → delete_story p clock db_now new_id owner id moderator reason ≡ ok q
    → (lifetime : ℕ) (os : List Op) → All (IsFresh id) os
    → (g : Social) (v : Viewer) (now : ℕ)
    → story_for_viewer g (run lifetime q os) v now id ≡ err not_found
unfolding story_for_viewer visible_to_viewer is_open
delete_story-run p q clock db_now new_id owner id moderator reason key h lifetime os fresh g v now =
    elim (Option-cases (select_story g (run lifetime q os) id (visible_to_viewer g v now))) [
      | inl e ↦ rw e refl
      | inr (si, e) ↦
          let (m, t, (au, c)) = select_story_sound g (run lifetime q os) id _ si e in
          let ended = All-Mem (IsOver id) m rest in ground arith
    ]
  where
    rest : All (IsOver id) (run lifetime q os).stories
    rest =
        run-All lifetime (IsOver id) (over lifetime id) q os
          (Creates-weaken (IsOther id) (IsOver id) os (λ s f. ground arith) fresh)
          (delete_story-IsOver p q clock db_now new_id owner id moderator reason key h)
