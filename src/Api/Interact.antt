-- ===== src/Api/Interact.antt =====
-- internal/api/handlers_stories.go: views, reactions, replies and the inbox.
--
-- `now` is `Clock.Now()`, `db_now` the database's `now()`. The ids `new_…` are those that the
-- database generates.
use Prim.Native.String.{String}
use text.Mathlib.Text.{◌==◌ as str_eq}
use gh_stories.Prelude.{
  ℕ, Bool, true, false, not, Option, none, some, List, [], ◌∷◌, ◌==◌, ◌&&◌, ltb, if◌then◌else◌,
  length, take, exists_row,
}
use gh_stories.Domain.{User, StoryItem, is_active}
use gh_stories.Store.Social.{codes, has_user}
use gh_stories.Store.Stories.{has_id}
use gh_stories.Store.Stories.Items.{story_for_viewer, public_story}
use gh_stories.Store.Interact.{
  acknowledge_view, set_reaction, clear_reaction, create_reply, mark_inbox_read,
}
use gh_stories.Store.Replays.{
  Replay, fresh, conflict, found, idempotent_replay, remember_idempotent,
}
use gh_stories.Api.{
  Db, Answer, done, fail, ◌>>=◌, forbidden, bad_request, conflicting, invalid, Response, no_content,
  reacted, replied, replayed, ReplyResponse, unless, or_internal, or_missing, path_uuid,
  must_caller, as_viewer, suspended,
}

abbrev pub acknowledge : Db → ℕ → User → ℕ → StoryItem → Db
acknowledge db now u id it =
    if it.author_user_id == u.id
    then db
    else record db { inbox = acknowledge_view db.inbox now id u.id }

abbrev pub view_by : Db → ℕ → Option User → ℕ → Answer (Db × Response)
view_by db now none id = do
  it ← or_missing (public_story db.social db.pipeline now id)
  done (db, no_content)
view_by db now (some u) id = do
  active ← unless (not (is_active (some u))) suspended
  it ← or_missing (story_for_viewer db.social db.pipeline (as_viewer u) now id)
  done (acknowledge db now u id it.0, no_content)

-- `postView`
unfoldable pub post_view : Db → ℕ → Option User → Option ℕ → Answer (Db × Response)
post_view db now caller raw = do id ← path_uuid raw; view_by db now caller id

-- `ValidReaction`
unfoldable pub valid_reaction : String → Bool
valid_reaction e = exists_row (λ r. str_eq r e) ("❤\u{fe0f}" ∷ "😂" ∷ "🔥" ∷ "😭" ∷ "💀" ∷ [])

-- `putReaction`
unfoldable pub put_reaction :
    Db → ℕ → ℕ → ℕ → Option User → Option ℕ → Answer String → Answer (Db × Response)
put_reaction db now db_now new_id caller raw body = do
  u ← must_caller caller
  id ← path_uuid raw
  emoji ← body
  valid ← unless (not (valid_reaction emoji)) (invalid "emoji" "That reaction is not available.")
  it ← or_missing (story_for_viewer db.social db.pipeline (as_viewer u) now id)
  allowed ← unless (not it.0.allow_reactions) (forbidden "Reactions are turned off for this Story.")
  let has_rows =
      exists_row (has_id id) db.pipeline.stories
      && has_user db.social.users u.id
      && has_user db.social.users it.0.author_user_id
  inbox ←
      or_internal (set_reaction has_rows db.inbox db_now new_id id u.id it.0.author_user_id emoji)
  done (record db { inbox = inbox }, reacted id emoji)

-- `deleteReaction`
unfoldable pub delete_reaction : Db → Option User → Option ℕ → Answer (Db × Response)
delete_reaction db caller raw = do
  u ← must_caller caller
  id ← path_uuid raw
  done (record db { inbox = clear_reaction db.inbox id u.id }, no_content)

-- `idempotencyKey`: at most 128 bytes.
unfoldable pub idempotency_key : List ℕ → List ℕ
idempotency_key k = if ltb 128 (length k) then take 128 k else k

-- "reply"
abbrev pub reply_scope : List ℕ
reply_scope = b'r' ∷ b'e' ∷ b'p' ∷ b'l' ∷ b'y' ∷ []

abbrev pub is_empty : String → Bool
is_empty String.[] = true
is_empty (String.◌∷◌ c cs) = false

abbrev pub reply_response : ℕ → ℕ → ℕ → ℕ → String → ℕ → ReplyResponse
reply_response id about sender recipient body now = record {
  id = id;
  story_id = about;
  sender = sender;
  recipient = recipient;
  body = body;
  created_at = now;
}

-- What `postReply` answers when nothing is stored under the key.
abbrev pub reply_anew :
    Db → ℕ → ℕ → ℕ → ℕ → ℕ → User → ℕ → List ℕ → ℕ → String → Answer (Db × Response)
reply_anew db now db_now new_reply new_id retention u id key hash body = do
  it ← or_missing (story_for_viewer db.social db.pipeline (as_viewer u) now id)
  other ← unless (it.0.author_user_id == u.id) (forbidden "You cannot reply to your own Story.")
  allowed ← unless (not it.0.allow_replies) (forbidden "Replies are turned off for this Story.")
  let made =
      create_reply db.inbox now db_now new_reply new_id id u.id it.0.author_user_id body retention
  let out = reply_response made.0 id u.id it.0.author_user_id body now
  done (
    record db {
      inbox = made.1;
      replays = remember_idempotent db.replays u.id reply_scope key hash 201 out;
    },
    replied out,
  )

abbrev pub reply_or_replay :
    Db → Replay ReplyResponse → Answer (Db × Response) → Answer (Db × Response)
reply_or_replay db fresh anew = anew
reply_or_replay db conflict anew =
    fail (conflicting "That idempotency key was used for a different request.")
reply_or_replay db (found status out) anew = done (db, replayed status out)

-- `postReply`; `trim` is `strings.TrimSpace`, `hash` is `hashRequest` of the Story and the text.
unfoldable pub post_reply :
    (String → String)
    → (ℕ → String → ℕ)
    → Db
    → ℕ
    → ℕ
    → ℕ
    → ℕ
    → ℕ
    → Option User
    → Option ℕ
    → List ℕ
    → Answer String
    → Answer (Db × Response)
unfolding idempotency_key
post_reply trim hash db now db_now new_reply new_id retention caller raw header body = do
  u ← must_caller caller
  id ← path_uuid raw
  text ← body
  let reply = trim text
  some_text ← unless (is_empty reply) (invalid "body" "Write something first.")
  short ←
      unless (ltb 500 (length (codes reply)))
        (invalid "body" "Replies are limited to 500 characters.")
  let key = idempotency_key header
  reply_or_replay db (idempotent_replay db.replays u.id reply_scope key (hash id reply))
      (reply_anew db now db_now new_reply new_id retention u id key (hash id reply) reply)

-- `postInboxRead`; an entry's id is the outcome of `uuid.Parse`.
abbrev pub entry_ids : List (Option ℕ) → Answer (List ℕ)
entry_ids [] = done []
entry_ids (none ∷ raws) = fail (bad_request "Not a valid inbox entry id.")
entry_ids (some id ∷ raws) = do ids ← entry_ids raws; done (id ∷ ids)

unfoldable pub post_inbox_read :
    Db → ℕ → Option User → Answer (List (Option ℕ) × Bool) → Answer (Db × Response)
post_inbox_read db db_now caller body = do
  u ← must_caller caller
  req ← body
  few ← unless (ltb 200 (length req.0)) (bad_request "Mark at most 200 entries at a time.")
  ids ← entry_ids req.0
  done (record db { inbox = mark_inbox_read db.inbox db_now u.id ids req.1 }, no_content)
