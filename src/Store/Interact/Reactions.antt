-- ===== src/Store/Interact/Reactions.antt =====
-- A reaction set, replaced and withdrawn.
use Prim.Native.String.{String}
use gh_stories.Prelude.{
  ℕ, ◌≡◌, refl, inl, inr, Bool, true, false, List, [], ◌∷◌, some, ==_refl, exists_row, find_row,
  update_rows, delete_rows, Bool-cases, none,
}
use gh_stories.Store.Interact.{
  Inbox, Reaction, store_reaction, clear_reaction, my_reaction, is_reaction, is_reaction_of,
  set_emoji,
}

find_reaction-update :
    (story user : ℕ) (emoji : String) (rs : List Reaction)
    → exists_row (is_reaction story user) rs ≡ true
    → (r : Reaction) × (find_row
          (is_reaction story user)
          (update_rows (is_reaction story user) (set_emoji emoji) rs)
        ≡ some (set_emoji emoji r))
find_reaction-update story user emoji [] h = cc
find_reaction-update story user emoji (r ∷ rs) h = elim (Bool-cases (is_reaction story user r)) [
  | inl e ↦ (r, rw (e, e) refl)
  | inr e ↦ let (x, f) = find_reaction-update story user emoji rs (rw e at h) in (x, rw (e, e) f)
]

-- The caller's reaction is the last one that the caller set.
pub my_reaction-store_reaction :
    (s : Inbox) (db_now new_id story user author : ℕ) (emoji : String)
    → my_reaction (store_reaction s db_now new_id story user author emoji) story user ≡ emoji
unfolding my_reaction store_reaction
my_reaction-store_reaction s db_now new_id story user author emoji =
    elim (Bool-cases (exists_row (is_reaction story user) s.reactions)) [
      | inl e ↦ let (x, f) = find_reaction-update story user emoji s.reactions e in rw (e, f) refl
      | inr e ↦ rw (e, ==_refl story, ==_refl user) refl
    ]

exists-delete :
    {A : Type 0} (p : A → Bool) (xs : List A)
    → (exists_row p (delete_rows p xs) ≡ false) × (find_row p (delete_rows p xs) ≡ none)
exists-delete p [] = (refl, refl)
exists-delete p (x ∷ xs) = elim (Bool-cases (p x)) [
  | inl e ↦ rw e (exists-delete p xs)
  | inr e ↦ rw (e, e) (exists-delete p xs)
]

-- A withdrawn reaction is gone: the caller has none on the item, and no reaction event of the caller
-- about it is left in any inbox.
pub my_reaction-clear_reaction :
    (s : Inbox) (story user : ℕ)
    → (my_reaction (clear_reaction s story user) story user ≡ "")
      × (exists_row (is_reaction_of story user) (clear_reaction s story user).events ≡ false)
unfolding my_reaction clear_reaction
my_reaction-clear_reaction s story user =
    let (_, gone) = exists-delete (is_reaction story user) s.reactions in
    let (no_event, _) = exists-delete (is_reaction_of story user) s.events in
    (rw gone refl, no_event)
