-- ===== src/Account/Viewer.antt =====
-- Which Stories the page of a share link shows.
use gh_stories.Prelude.{
  ℕ, ◌≡◌, ◌⊎◌, inl, inr, refl, Bool, true, false, Option, none, some, ◌&&◌, find_row, exists_row,
  List, [], ◌∷◌, Bool-cases, Option-cases, Memᴰ, find_row_sound, arith,
}
use gh_stories.Domain.{User, StoryItem, is_active}
use gh_stories.Store.Stories.{has_id}
use gh_stories.Store.Stories.Items.{
  joined, load_variants, public_story, story_for_viewer, select_story,
}
use gh_stories.Store.Visibility.{visible_to_viewer, visible_to_anyone}
use gh_stories.Api.{Db, as_viewer}
use gh_stories.Account.{Page, story, to_login, gone, shown_kind, get_external_viewer}

-- Who may see the Story at this time: everyone, or the person that is signed in.
abbrev pub may_see_story : Db → ℕ → Option User → StoryItem → Bool
may_see_story db clock none s = joined db.social (visible_to_anyone clock) s
may_see_story db clock (some u) s =
    joined db.social (visible_to_viewer db.social (as_viewer u) clock) s

-- The page of a stored Story of this id that the person may see, with its stored variants, or the
-- answer to an id of no such Story.
abbrev pub IsFor : Db → ℕ → Option User → ℕ → Bool → Page → Page → Type 0
IsFor db clock who id signed_in otherwise p =
    ((s : StoryItem) × Memᴰ s db.pipeline.stories
      × (s.id ≡ id)
      × (may_see_story db clock who s ≡ true)
      × (p
          ≡ story (s, load_variants db.pipeline id) (shown_kind (load_variants db.pipeline id))
              signed_in))
    ⊎ ((exists_row (λ s. has_id id s && may_see_story db clock who s) db.pipeline.stories ≡ false)
        × (p ≡ otherwise))

exists_row-find_row :
    (p : StoryItem → Bool) (xs : List StoryItem) → find_row p xs ≡ none → exists_row p xs ≡ false
exists_row-find_row p [] h = refl
exists_row-find_row p (x ∷ xs) h = elim (Bool-cases (p x)) [
  | inl e ↦ let h' = rw e at h in cc
  | inr e ↦ rw e (exists_row-find_row p xs (rw e at h))
]

-- The page of a share link, for a browser that is not signed in and for an active person: it shows the
-- stored Story of that id that everyone, or the person, may see now; when no stored Story of that id
-- may be seen, the browser is sent to the login, and the person is told that the Story is gone.
pub get_external_viewer-IsFor :
    (db : Db) (clock id : ℕ) (u : User)
    → is_active (some u) ≡ true
    → IsFor db clock none id false to_login (get_external_viewer db clock none (some id))
      × IsFor db clock (some u) id true gone (get_external_viewer db clock (some u) (some id))
unfolding get_external_viewer public_story story_for_viewer select_story
get_external_viewer-IsFor db clock id u a = (
  elim (Option-cases
      (find_row (λ s. has_id id s && may_see_story db clock none s) db.pipeline.stories)) [
        | inl e ↦ rw e (inr (exists_row-find_row _ db.pipeline.stories e, refl))
        | inr (s, e) ↦
            let (m, v) = find_row_sound _ db.pipeline.stories s e in
            let same : s.id ≡ id = ground arith in
            rw e (inl (s, m, same, ground arith, rw same refl))
      ],
  elim (Option-cases
      (find_row (λ s. has_id id s && may_see_story db clock (some u) s) db.pipeline.stories)) [
        | inl e ↦ rw (a, e) (inr (exists_row-find_row _ db.pipeline.stories e, refl))
        | inr (s, e) ↦
            let (m, v) = find_row_sound _ db.pipeline.stories s e in
            let same : s.id ≡ id = ground arith in
            rw (a, e) (inl (s, m, same, ground arith, rw same refl))
      ],
)
