-- ===== src/Store/Interact/Unique.antt =====
-- The unique keys of views, reactions and reaction events, over any sequence of operations.
use Prim.Native.String.{String}
use gh_stories.Prelude.{
  ℕ, ◌≤◌, ◌≡◌, refl, inl, inr, Bool, true, false, ◌&&◌, ◌==◌, List, [], ◌∷◌, arith, count_rows,
  Bool-cases,
}
use gh_stories.Store.Interact.Keys.{count-update, count-upsert, count-delete}
use gh_stories.Store.Social.{Result, ok, err}
use gh_stories.Store.Interact.{
  set_reaction, is_available, Inbox, record_view, acknowledge_view, store_reaction, clear_reaction,
  create_reply, mark_inbox_read, notify_follow, upsert, is_view, is_reaction, is_reaction_event,
  is_follow_event, acknowledge_row, set_emoji, renew_reaction, new_reaction_event, renew_event,
  read_event, is_unread, is_among, is_reaction_of,
}

pub data InboxOp : Type 0 where
  deliver : (clock story viewer : ℕ) → InboxOp
  acknowledge : (clock story viewer : ℕ) → InboxOp
  react : (has_rows : Bool) → (db_now new_id story user author : ℕ) → String → InboxOp
  clear : (story user : ℕ) → InboxOp
  reply :
      (clock db_now new_reply new_id story sender recipient : ℕ)
      → String
      → (retention : ℕ) → InboxOp
  mark : (db_now user : ℕ) → List ℕ → Bool → InboxOp
  notify : (db_now new_id followee follower : ℕ) → InboxOp

-- A refused operation leaves the tables as they are.
abbrev pub or_kept : Inbox → Result Inbox → Inbox
or_kept s (ok t) = t
or_kept s (err e) = s

abbrev pub inbox_step : Inbox → InboxOp → Inbox
inbox_step s (deliver clock story viewer) = record_view s clock story viewer
inbox_step s (acknowledge clock story viewer) = acknowledge_view s clock story viewer
inbox_step s (react has_rows db_now new_id story user author emoji) =
    or_kept s (set_reaction has_rows s db_now new_id story user author emoji)
inbox_step s (clear story user) = clear_reaction s story user
inbox_step s (reply clock db_now new_reply new_id story sender recipient body retention) =
    (create_reply s clock db_now new_reply new_id story sender recipient body retention).1
inbox_step s (mark db_now user ids all) = mark_inbox_read s db_now user ids all
inbox_step s (notify db_now new_id followee follower) =
    notify_follow s db_now new_id followee follower

unfoldable pub inbox_run : Inbox → List InboxOp → Inbox
inbox_run s [] = s
inbox_run s (o ∷ os) = inbox_run (inbox_step s o) os

-- One view per item and viewer, one reaction per item and user, and one reaction event per item,
-- reacting user and author.
abbrev pub IsUnique : Inbox → Type 0
IsUnique s =
    ((story viewer : ℕ) → count_rows (is_view story viewer) s.views ≤ 1)
    × ((story user : ℕ) → count_rows (is_reaction story user) s.reactions ≤ 1)
    × ((user story actor : ℕ) → count_rows (is_reaction_event user story actor) s.events ≤ 1)

react-reactions :
    (s : Inbox) (story user a b : ℕ) (emoji : String)
    → count_rows (is_reaction a b) s.reactions ≤ 1
    → count_rows (is_reaction a b) (
        upsert
          (is_reaction story user)
          (set_emoji emoji)
          (record { story_id = story; user_id = user; emoji = emoji })
          s.reactions)
      ≤ 1
react-reactions s story user a b emoji h =
    count-upsert (is_reaction a b) (is_reaction story user) (set_emoji emoji) _ s.reactions
      (λ x e. refl) (λ e x f. ground arith) h

react-events :
    (s : Inbox) (db_now new_id story user author a b c : ℕ) (emoji : String)
    → count_rows (is_reaction_event a b c) s.events ≤ 1
    → count_rows
        (is_reaction_event a b c)
        (store_reaction s db_now new_id story user author emoji).events
      ≤ 1
unfolding store_reaction
react-events s db_now new_id story user author a b c emoji h = elim (Bool-cases (user == author)) [
  | inl e ↦ rw e h
  | inr e ↦ rw e (
      count-upsert (is_reaction_event a b c) (is_reaction_event author story user)
        (renew_reaction db_now emoji) (new_reaction_event new_id db_now author story user emoji)
        s.events (λ x f. refl) (λ f x g. ground arith) h)
]

mark-events :
    (s : Inbox) (db_now user a b c : ℕ) (ids : List ℕ) (all : Bool)
    → count_rows (is_reaction_event a b c) s.events ≤ 1
    → count_rows (is_reaction_event a b c) (mark_inbox_read s db_now user ids all).events ≤ 1
unfolding mark_inbox_read
mark-events s db_now user a b c ids true h =
    rw
      (count-update (is_reaction_event a b c) (is_unread user) (read_event db_now) s.events
        (λ x e. refl))
      h
mark-events s db_now user a b c [] false h = h
mark-events s db_now user a b c (i ∷ is) false h =
    rw
      (count-update (is_reaction_event a b c) (λ e. is_unread user e && is_among (i ∷ is) e.id)
        (read_event db_now) s.events (λ x e. refl))
      h

notify-events :
    (s : Inbox) (db_now new_id followee follower a b c : ℕ)
    → count_rows (is_reaction_event a b c) s.events ≤ 1
    → count_rows (is_reaction_event a b c) (notify_follow s db_now new_id followee follower).events
      ≤ 1
unfolding notify_follow
notify-events s db_now new_id followee follower a b c h = elim (Bool-cases (followee == follower)) [
  | inl e ↦ rw e h
  | inr e ↦ rw e (
      count-upsert (is_reaction_event a b c) (is_follow_event followee follower)
        (renew_event db_now) _ s.events (λ x f. refl) (λ f x g. cc) h)
]

reply-events :
    (s : Inbox) (clock db_now new_reply new_id story sender recipient a b c : ℕ) (body : String)
    (retention : ℕ)
    → count_rows (is_reaction_event a b c) s.events ≤ 1
    → count_rows
        (is_reaction_event a b c)
        (create_reply s clock db_now new_reply new_id story sender recipient body
          retention).1.events
      ≤ 1
unfolding create_reply
reply-events s clock db_now new_reply new_id story sender recipient a b c body retention h =
    omega (arith, h)

mark-others :
    (s : Inbox) (db_now user : ℕ) (ids : List ℕ) (all : Bool)
    → ((mark_inbox_read s db_now user ids all).views ≡ s.views)
      × ((mark_inbox_read s db_now user ids all).reactions ≡ s.reactions)
unfolding mark_inbox_read
mark-others s db_now user ids true = (refl, refl)
mark-others s db_now user [] false = (refl, refl)
mark-others s db_now user (i ∷ is) false = (refl, refl)

notify-others :
    (s : Inbox) (db_now new_id followee follower : ℕ)
    → ((notify_follow s db_now new_id followee follower).views ≡ s.views)
      × ((notify_follow s db_now new_id followee follower).reactions ≡ s.reactions)
unfolding notify_follow
notify-others s db_now new_id followee follower = elim (Bool-cases (followee == follower)) [
  | inl e ↦ rw e (refl, refl)
  | inr e ↦ rw e (refl, refl)
]

inbox_step-IsUnique : (s : Inbox) (o : InboxOp) → IsUnique s → IsUnique (inbox_step s o)
unfolding record_view acknowledge_view set_reaction store_reaction clear_reaction create_reply
inbox_step-IsUnique s (deliver clock story viewer) (v, r, e) = (
  λ a b.
      count-upsert (is_view a b) (is_view story viewer) (λ x. x) _ s.views (λ x f. refl)
        (λ f x g. ground arith) (v a b),
  r,
  e,
)
inbox_step-IsUnique s (acknowledge clock story viewer) (v, r, e) = (
  λ a b.
      count-upsert (is_view a b) (is_view story viewer) (acknowledge_row clock) _ s.views
        (λ x f. refl) (λ f x g. ground arith) (v a b),
  r,
  e,
)
inbox_step-IsUnique s (react has_rows db_now new_id story user author emoji) (v, r, e) =
    elim (Bool-cases (has_rows && is_available emoji)) [
      | inl fits ↦ rw fits (
        v,
        λ a b. react-reactions s story user a b emoji (r a b),
        λ a b c. react-events s db_now new_id story user author a b c emoji (e a b c),
      )
      | inr refuses ↦ rw refuses (v, r, e)
    ]
inbox_step-IsUnique s (clear story user) (v, r, e) = (
  v,
  λ a b. omega (arith, count-delete (is_reaction a b) (is_reaction story user) s.reactions, r a b),
  λ a b c.
      omega (
        arith,
        count-delete (is_reaction_event a b c) (is_reaction_of story user) s.events,
        e a b c,
      ),
)
inbox_step-IsUnique s (reply clock db_now new_reply new_id story sender recipient body retention)
      (v, r, e) =
    (
      v,
      r,
      λ a b c.
          reply-events s clock db_now new_reply new_id story sender recipient a b c body retention
            (e a b c),
    )
inbox_step-IsUnique s (mark db_now user ids all) (v, r, e) =
    let (same_views, same_reactions) = mark-others s db_now user ids all in
    (
      λ a b. rw same_views (v a b),
      λ a b. rw same_reactions (r a b),
      λ a b c. mark-events s db_now user a b c ids all (e a b c),
    )
inbox_step-IsUnique s (notify db_now new_id followee follower) (v, r, e) =
    let (same_views, same_reactions) = notify-others s db_now new_id followee follower in
    (
      λ a b. rw same_views (v a b),
      λ a b. rw same_reactions (r a b),
      λ a b c. notify-events s db_now new_id followee follower a b c (e a b c),
    )

-- However often an item is delivered, acknowledged, reacted to and withdrawn, and in whatever
-- order: if at the start a viewer has at most one view of an item, a user at most one reaction to
-- it, and an inbox at most one reaction event of that user about it, so it stays.
pub inbox_run-IsUnique : (s : Inbox) (os : List InboxOp) → IsUnique s → IsUnique (inbox_run s os)
unfolding inbox_run
inbox_run-IsUnique s [] h = h
inbox_run-IsUnique s (o ∷ os) h = inbox_run-IsUnique (inbox_step s o) os (inbox_step-IsUnique s o h)
