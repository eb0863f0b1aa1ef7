-- ===== src/Store/Interact.antt =====
-- internal/store/interact.go: views, reactions, private replies and the inbox.
pub mod Keys
pub mod Unique
pub mod Reactions
pub mod Refine
use Prim.Native.String.{String}
use text.Mathlib.Text.{◌==◌ as str_eq}
use gh_stories.Prelude.{
  ℕ, ◌+◌, Bool, true, false, not, ◌&&◌, ◌||◌, Option, none, some, List, [], ◌∷◌, ◌==◌,
  if◌then◌else◌, find_row, exists_row, count_rows, update_rows, delete_rows, select_rows, map,
}
use gh_stories.Domain.{is_none, is_processing, is_published}
use gh_stories.Store.Social.{Result, ok, err, not_found, refused, equals}
use gh_stories.Store.Stories.{Pipeline, has_id}

pub record View : Type 0 where
  pub story_id : ℕ
  pub viewer_user_id : ℕ
  pub delivered_at : ℕ
  pub acknowledged_at : Option ℕ

pub record Reaction : Type 0 where
  pub story_id : ℕ
  pub user_id : ℕ
  pub emoji : String

pub data InboxKind : Type 0 where
  follow_event reaction_event reply_event : InboxKind

abbrev pub is_follow_kind : InboxKind → Bool
is_follow_kind follow_event = true
is_follow_kind _ = false

abbrev pub is_reaction_kind : InboxKind → Bool
is_reaction_kind reaction_event = true
is_reaction_kind _ = false

-- A row of `inbox_events`.
pub record Event : Type 0 where
  pub id : ℕ
  pub user_id : ℕ
  pub kind : InboxKind
  pub actor_user_id : ℕ
  pub story_item_id : Option ℕ
  pub reply_id : Option ℕ
  pub emoji : String
  pub created_at : ℕ
  pub read_at : Option ℕ

pub record Reply : Type 0 where
  pub id : ℕ
  pub story_id : ℕ
  pub sender_user_id : ℕ
  pub recipient_user_id : ℕ
  pub body : String
  pub purge_after : ℕ
  pub read_at : Option ℕ

pub record Inbox : Type 0 where
  pub views : List View
  pub reactions : List Reaction
  pub events : List Event
  pub replies : List Reply

abbrev pub is_view : ℕ → ℕ → View → Bool
is_view story viewer v = v.story_id == story && v.viewer_user_id == viewer

abbrev pub is_reaction : ℕ → ℕ → Reaction → Bool
is_reaction story user r = r.story_id == story && r.user_id == user

-- `INSERT … ON CONFLICT (p) DO UPDATE f`
abbrev pub upsert {ℓ} : {A : Type ℓ} → (A → Bool) → (A → A) → A → List A → List A
upsert p f new rows = if exists_row p rows then update_rows p f rows else new ∷ rows

abbrev pub new_view : ℕ → ℕ → ℕ → Option ℕ → View
new_view story viewer now acknowledged = record {
  story_id = story;
  viewer_user_id = viewer;
  delivered_at = now;
  acknowledged_at = acknowledged;
}

-- `RecordView`
unfoldable pub record_view : Inbox → ℕ → ℕ → ℕ → Inbox
record_view s clock story viewer = record s {
  views = upsert (is_view story viewer) (λ v. v) (new_view story viewer clock none) s.views;
}

abbrev pub or_now : Option ℕ → ℕ → Option ℕ
or_now none now = some now
or_now (some t) now = some t

abbrev pub acknowledge_row : ℕ → View → View
acknowledge_row now v = record v { acknowledged_at = or_now v.acknowledged_at now }

-- `AcknowledgeView`
unfoldable pub acknowledge_view : Inbox → ℕ → ℕ → ℕ → Inbox
acknowledge_view s clock story viewer = record s {
  views =
      upsert (is_view story viewer) (acknowledge_row clock)
        (new_view story viewer clock (some clock)) s.views;
}

-- `Seen`
unfoldable pub seen : Inbox → ℕ → ℕ → Bool
seen s story viewer = exists_row (is_view story viewer) s.views

-- `Counts`
unfoldable pub counts : Inbox → ℕ → ℕ × ℕ
counts s story = (
  count_rows (λ (v : View). v.story_id == story) s.views,
  count_rows (λ (r : Reaction). r.story_id == story) s.reactions,
)

-- The keys of the partial unique indexes on `inbox_events`.
abbrev pub is_reaction_event : ℕ → ℕ → ℕ → Event → Bool
is_reaction_event user story actor e =
    is_reaction_kind e.kind
    && e.user_id == user
    && equals e.story_item_id story
    && e.actor_user_id == actor

abbrev pub is_follow_event : ℕ → ℕ → Event → Bool
is_follow_event user actor e =
    is_follow_kind e.kind && e.user_id == user && e.actor_user_id == actor

abbrev pub set_emoji : String → Reaction → Reaction
set_emoji emoji r = record r { emoji = emoji }

abbrev pub renew_reaction : ℕ → String → Event → Event
renew_reaction now emoji e = record e { emoji = emoji; created_at = now; read_at = none }

abbrev pub new_reaction_event : ℕ → ℕ → ℕ → ℕ → ℕ → String → Event
new_reaction_event id now user story actor emoji = record {
  id = id;
  user_id = user;
  kind = reaction_event;
  actor_user_id = actor;
  story_item_id = some story;
  reply_id = none;
  emoji = emoji;
  created_at = now;
  read_at = none;
}

-- The statements of `SetReaction`, where no constraint refuses them: nobody is notified of their own
-- reaction.
unfoldable pub store_reaction : Inbox → ℕ → ℕ → ℕ → ℕ → ℕ → String → Inbox
store_reaction s db_now new_id story user author emoji = record s {
  reactions =
      upsert (is_reaction story user) (set_emoji emoji)
        (record { story_id = story; user_id = user; emoji = emoji }) s.reactions;
  events =
      if user == author
      then s.events
      else upsert (is_reaction_event author story user) (renew_reaction db_now emoji)
          (new_reaction_event new_id db_now author story user emoji) s.events;
}

-- `reactions_emoji_ck`
abbrev pub is_available : String → Bool
is_available e = exists_row (λ r. str_eq r e) ("❤\u{fe0f}" ∷ "😂" ∷ "🔥" ∷ "😭" ∷ "💀" ∷ [])

-- `SetReaction`, where `has_rows` tells whether the item, the user and the author are stored, which the
-- foreign keys ask for.
unfoldable pub set_reaction : Bool → Inbox → ℕ → ℕ → ℕ → ℕ → ℕ → String → Result Inbox
set_reaction has_rows s db_now new_id story user author emoji =
    if has_rows && is_available emoji
    then ok (store_reaction s db_now new_id story user author emoji)
    else err refused

abbrev pub is_reaction_of : ℕ → ℕ → Event → Bool
is_reaction_of story actor e =
    is_reaction_kind e.kind && equals e.story_item_id story && e.actor_user_id == actor

-- `ClearReaction`
unfoldable pub clear_reaction : Inbox → ℕ → ℕ → Inbox
clear_reaction s story user = record s {
  reactions = delete_rows (is_reaction story user) s.reactions;
  events = delete_rows (is_reaction_of story user) s.events;
}

abbrev emoji_of : Option Reaction → String
emoji_of none = ""
emoji_of (some r) = r.emoji

-- `MyReaction`
unfoldable pub my_reaction : Inbox → ℕ → ℕ → String
my_reaction s story user = emoji_of (find_row (is_reaction story user) s.reactions)

abbrev pub is_among : List ℕ → ℕ → Bool
is_among ids id = exists_row (λ i. i == id) ids

-- `MyReactions`
unfoldable pub my_reactions : Inbox → ℕ → List ℕ → List (ℕ × String)
my_reactions s user ids =
    map (λ (r : Reaction). (r.story_id, r.emoji))
      (select_rows (λ (r : Reaction). r.user_id == user && is_among ids r.story_id) s.reactions)

-- `CreateReply`
unfoldable pub create_reply : Inbox → ℕ → ℕ → ℕ → ℕ → ℕ → ℕ → ℕ → String → ℕ → ℕ × Inbox
create_reply s clock db_now new_reply new_id story sender recipient body retention = (
  new_reply,
  record s {
    replies =
        record {
          id = new_reply;
          story_id = story;
          sender_user_id = sender;
          recipient_user_id = recipient;
          body = body;
          purge_after = clock + retention;
          read_at = none;
        }
        ∷ s.replies;
    events =
        record {
          id = new_id;
          user_id = recipient;
          kind = reply_event;
          actor_user_id = sender;
          story_item_id = some story;
          reply_id = some new_reply;
          emoji = "";
          created_at = db_now;
          read_at = none;
        }
        ∷ s.events;
  },
)

abbrev pub is_unread : ℕ → Event → Bool
is_unread user e = e.user_id == user && is_none e.read_at

-- `UnreadCount`
unfoldable pub unread_count : Inbox → ℕ → ℕ
unread_count s user = count_rows (is_unread user) s.events

abbrev pub read_event : ℕ → Event → Event
read_event now e = record e { read_at = some now }

abbrev pub names_reply : List ℕ → ℕ → Event → Bool
names_reply ids reply e = is_among ids e.id && equals e.reply_id reply

-- `MarkInboxRead`: with no ids and no `all` it does nothing.
unfoldable pub mark_inbox_read : Inbox → ℕ → ℕ → List ℕ → Bool → Inbox
mark_inbox_read s db_now user ids true = record s {
  events = update_rows (is_unread user) (read_event db_now) s.events;
}
mark_inbox_read s db_now user [] false = s
mark_inbox_read s db_now user (i ∷ is) false = record s {
  events =
      update_rows (λ e. is_unread user e && is_among (i ∷ is) e.id) (read_event db_now) s.events;
  replies =
      update_rows
        (λ (r : Reply).
          r.recipient_user_id == user
          && is_none r.read_at
          && exists_row (names_reply (i ∷ is) r.id) s.events)
        (λ r. record r { read_at = some db_now }) s.replies;
}

abbrev pub renew_event : ℕ → Event → Event
renew_event now e = record e { created_at = now; read_at = none }

-- `NotifyFollow`
unfoldable pub notify_follow : Inbox → ℕ → ℕ → ℕ → ℕ → Inbox
notify_follow s db_now new_id followee follower = if followee == follower then s else record s {
  events =
      upsert (is_follow_event followee follower) (renew_event db_now)
        (record {
          id = new_id;
          user_id = followee;
          kind = follow_event;
          actor_user_id = follower;
          story_item_id = none;
          reply_id = none;
          emoji = "";
          created_at = db_now;
          read_at = none;
        })
        s.events;
}
