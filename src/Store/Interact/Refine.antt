-- ===== src/Store/Interact/Refine.antt =====
-- The reactions as a map: what the tables promise, whatever order the operations come in.
use Prim.Native.String.{String}
use gh_stories.Prelude.{
  ℕ, ◌≡◌, refl, ◌∙◌, inl, inr, true, false, ◌&&◌, ◌==◌, List, [], ◌∷◌, arith, if◌then◌else◌,
  exists_row, find_row, update_rows, delete_rows, Bool-cases,
}
use gh_stories.Store.Interact.{
  set_reaction, is_available, Inbox, Reaction, store_reaction, clear_reaction, my_reaction,
  is_reaction, set_emoji, record_view, acknowledge_view, create_reply, mark_inbox_read,
  notify_follow,
}
use gh_stories.Store.Interact.Reactions.{my_reaction-store_reaction, my_reaction-clear_reaction}
use gh_stories.Store.Interact.Unique.{
  InboxOp, deliver, acknowledge, react, clear, reply, mark, notify, inbox_step, inbox_run,
}

-- The map from an item and a user to the reaction, "" for none.
abbrev pub ReactionMap : Type 0
ReactionMap = ℕ → ℕ → String

abbrev pub put : ReactionMap → ℕ → ℕ → String → ReactionMap
put f story user emoji a b = if story == a && user == b then emoji else f a b

abbrev pub map_step : ReactionMap → InboxOp → ReactionMap
map_step f (react has_rows db_now new_id story user author emoji) =
    if has_rows && is_available emoji then put f story user emoji else f
map_step f (clear story user) = put f story user ""
map_step f _ = f

abbrev pub map_run : ReactionMap → List InboxOp → ReactionMap
map_run f [] = f
map_run f (o ∷ os) = map_run (map_step f o) os

module _ (story user a b : ℕ) (other : (story == a && user == b) ≡ false) where
  find_reaction-update_other :
      (emoji : String) (rs : List Reaction)
      → find_row (is_reaction a b) (update_rows (is_reaction story user) (set_emoji emoji) rs)
        ≡ find_row (is_reaction a b) (rs)
  find_reaction-update_other emoji [] = refl
  find_reaction-update_other emoji (r ∷ rs) =
      let rest = find_reaction-update_other emoji rs in
      elim (Bool-cases (is_reaction story user r)) [
        | inl e ↦ let no_match : is_reaction a b r ≡ false = ground arith in rw (e, no_match) rest
        | inr e ↦ elim (Bool-cases (is_reaction a b r)) [
          | inl f ↦ rw (e, f) refl
          | inr f ↦ rw (e, f) rest
        ]
      ]

  find_reaction-delete_other :
      (rs : List Reaction)
      → find_row (is_reaction a b) (delete_rows (is_reaction story user) rs)
        ≡ find_row (is_reaction a b) rs
  find_reaction-delete_other [] = refl
  find_reaction-delete_other (r ∷ rs) =
      let rest = find_reaction-delete_other rs in
      elim (Bool-cases (is_reaction story user r)) [
        | inl e ↦ let no_match : is_reaction a b r ≡ false = ground arith in rw (e, no_match) rest
        | inr e ↦ elim (Bool-cases (is_reaction a b r)) [
          | inl f ↦ rw (e, f) refl
          | inr f ↦ rw (e, f) rest
        ]
      ]

  store_reaction-other :
      (s : Inbox) (db_now new_id author : ℕ) (emoji : String)
      → my_reaction (store_reaction s db_now new_id story user author emoji) a b ≡ my_reaction s a b
  unfolding my_reaction store_reaction
  store_reaction-other s db_now new_id author emoji =
      elim (Bool-cases (exists_row (is_reaction story user) s.reactions)) [
        | inl e ↦ rw (e, find_reaction-update_other emoji s.reactions) refl
        | inr e ↦ rw (e, other) refl
      ]

  clear_reaction-other :
      (s : Inbox) → my_reaction (clear_reaction s story user) a b ≡ my_reaction s a b
  unfolding my_reaction clear_reaction
  clear_reaction-other s = rw (find_reaction-delete_other s.reactions) refl

my_reaction-put :
    (s : Inbox) (db_now new_id story user author a b : ℕ) (emoji : String)
    → my_reaction (store_reaction s db_now new_id story user author emoji) a b
      ≡ put (my_reaction s) story user emoji a b
my_reaction-put s db_now new_id story user author a b emoji =
    elim (Bool-cases (story == a && user == b)) [
      | inr e ↦ rw e (store_reaction-other story user a b e s db_now new_id author emoji)
      | inl e ↦
          let same_story : story ≡ a = ground arith in
          let same_user : user ≡ b = ground arith in
          rw e (
            rw (← same_story, ← same_user)
              (my_reaction-store_reaction s db_now new_id story user author emoji))
    ]

my_reaction-remove :
    (s : Inbox) (story user a b : ℕ)
    → my_reaction (clear_reaction s story user) a b ≡ put (my_reaction s) story user "" a b
my_reaction-remove s story user a b = elim (Bool-cases (story == a && user == b)) [
  | inr e ↦ rw e (clear_reaction-other story user a b e s)
  | inl e ↦
      let same_story : story ≡ a = ground arith in
      let same_user : user ≡ b = ground arith in
      rw e (rw (← same_story, ← same_user) (my_reaction-clear_reaction s story user).0)
]

my_reaction-notify_follow :
    (s : Inbox) (db_now new_id followee follower a b : ℕ)
    → my_reaction (notify_follow s db_now new_id followee follower) a b ≡ my_reaction s a b
unfolding my_reaction notify_follow
my_reaction-notify_follow s db_now new_id followee follower a b =
    elim (Bool-cases (followee == follower)) [ inl e ↦ rw e refl | inr e ↦ rw e refl ]

inbox_step-map_step :
    (s : Inbox) (o : InboxOp) (a b : ℕ)
    → my_reaction (inbox_step s o) a b ≡ map_step (my_reaction s) o a b
unfolding my_reaction set_reaction record_view acknowledge_view create_reply mark_inbox_read
inbox_step-map_step s (deliver clock story viewer) a b = refl
inbox_step-map_step s (acknowledge clock story viewer) a b = refl
inbox_step-map_step s (react has_rows db_now new_id story user author emoji) a b =
    elim (Bool-cases (has_rows && is_available emoji)) [
      | inl fits ↦ rw fits (my_reaction-put s db_now new_id story user author a b emoji)
      | inr refuses ↦ rw refuses refl
    ]
inbox_step-map_step s (clear story user) a b = my_reaction-remove s story user a b
inbox_step-map_step s (reply clock db_now new_reply new_id story sender recipient body retention) a
      b =
    refl
inbox_step-map_step s (mark db_now user ids true) a b = refl
inbox_step-map_step s (mark db_now user [] false) a b = refl
inbox_step-map_step s (mark db_now user (i ∷ is) false) a b = refl
inbox_step-map_step s (notify db_now new_id followee follower) a b =
    my_reaction-notify_follow s db_now new_id followee follower a b

map_step-eq :
    (f g : ReactionMap) (o : InboxOp)
    → ((a b : ℕ) → f a b ≡ g a b)
    → (a b : ℕ) → map_step f o a b ≡ map_step g o a b
map_step-eq f g (deliver clock story viewer) h a b = h a b
map_step-eq f g (acknowledge clock story viewer) h a b = h a b
map_step-eq f g (react has_rows db_now new_id story user author emoji) h a b =
    elim (Bool-cases (has_rows && is_available emoji)) [
      | inl fits ↦ rw (fits, h a b) refl
      | inr refuses ↦ rw refuses (h a b)
    ]
map_step-eq f g (clear story user) h a b = rw (h a b) refl
map_step-eq f g (reply clock db_now new_reply new_id story sender recipient body retention) h a b =
    h a b
map_step-eq f g (mark db_now user ids all) h a b = h a b
map_step-eq f g (notify db_now new_id followee follower) h a b = h a b

map_run-eq :
    (f g : ReactionMap) (os : List InboxOp)
    → ((a b : ℕ) → f a b ≡ g a b)
    → (a b : ℕ) → map_run f os a b ≡ map_run g os a b
map_run-eq f g [] h a b = h a b
map_run-eq f g (o ∷ os) h a b =
    map_run-eq (map_step f o) (map_step g o) os (map_step-eq f g o h) a b

-- The tables implement a map from an item and a user to a reaction: after any sequence of the
-- inbox's operations `MyReaction` reads what the same sequence leaves in the map, in which setting
-- a reaction overwrites one entry, unless the constraints of the tables refuse it, withdrawing it empties that entry, and nothing else changes any.
pub my_reaction-inbox_run :
    (s : Inbox) (os : List InboxOp) (a b : ℕ)
    → my_reaction (inbox_run s os) a b ≡ map_run (my_reaction s) os a b
unfolding inbox_run
my_reaction-inbox_run s [] a b = refl
my_reaction-inbox_run s (o ∷ os) a b =
    my_reaction-inbox_run (inbox_step s o) os a b
    ∙ map_run-eq (my_reaction (inbox_step s o)) (map_step (my_reaction s) o) os
        (λ x y. inbox_step-map_step s o x y) a b
