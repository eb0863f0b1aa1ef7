-- ===== src/Examples/Api.antt =====
-- Runs of the HTTP handlers.
use Prim.Native.String.{String}
use gh_stories.Prelude.{
  ℕ, ◌≡◌, ◌⊎◌, refl, true, false, Option, none, some, List, [], ◌∷◌, ◌==◌, arith, Memᴰ, length, ◌≤◌,
  suc,
}
use gh_stories.Domain.{User, StoryItem, MediaVariant, image, is_active}
use gh_stories.Store.Social.{codes}
use gh_stories.Store.Visibility.{
  visible_to_viewer, is_open, author_active, blocked, hidden, admits, followed_by_author,
}
use gh_stories.Store.Stories.Items.{
  joined, story_for_viewer, select_story, load_variants, delete_story,
}
use gh_stories.Store.Interact.{create_reply, unread_count}
use gh_stories.Store.Replays.{remember_idempotent, idempotent_replay}
use gh_stories.Store.Reports.{remove_story, record_moderation_action}
use gh_stories.Api.{
  Db, Answer, done, fail, missing, Response, replayed, no_content, recorded, as_viewer, path_uuid,
  must_caller, require_moderator,
}
use gh_stories.Api.Stories.{get_story, get_viewers, delete_own_story}
use gh_stories.Api.Interact.{
  post_view, put_reaction, post_reply, reply_response, is_empty, valid_reaction, idempotency_key,
}
use gh_stories.Api.Media.{get_media, note_view, serve_private_media, variant}
use gh_stories.Api.Graph.{put_follow}
use gh_stories.Api.Moderation.{ActionRequest, post_moderation_action, apply_action}
use gh_stories.Api.Hidden.{hidden-missing}
use gh_stories.Api.Gate.{get_media_sound, IsVariantOf}
use gh_stories.Api.Revoked.{delete_own_story-revokes}
use gh_stories.Api.Retries.{post_reply-retry, post_reply_sound}
use gh_stories.Api.Blocks.{put_follow-with_block, answered, with_block}
use gh_stories.Api.Resolved.{post_moderation_action-IsRemoved, IsRemoved}
use gh_stories.Examples.{alice, bob, graph, story}

abbrev pub picture : MediaVariant
picture = record {
  story_id = 7;
  kind = image;
  object_key = "media/7/image";
  mime = "image/jpeg";
  width = 1080;
  height = 1920;
  duration_ms = 0;
  byte_size = 4096;
  checksum = "abc";
  has_audio = false;
}

abbrev pub db : Db
db = record {
  social = graph;
  pipeline = record {
    uploads = [];
    jobs = [];
    stories = story ∷ [];
    variants = picture ∷ [];
    cleanup = [];
  };
  inbox = record { views = []; reactions = []; events = []; replies = [] };
  replays = [];
  reports = record { rows = []; audit = [] };
}

abbrev stranger : User
stranger = record {
  id = 3;
  github_id = 103;
  is_moderator = true;
  suspended_at = none;
  deleted_at = none;
  onboarded_at = none;
}

-- The only object in the bucket.
abbrev bucket : String → Option ℕ
bucket key = some 5

get_media_sound_example :
    (false ≡ false)
    × IsVariantOf bucket db.pipeline 7 image 5
    × ((s : StoryItem) × Memᴰ s db.pipeline.stories
        × (s.id ≡ 7)
        × (joined db.social (visible_to_viewer db.social (as_viewer bob) 12) s ≡ true)
        × (note_view db 12 bob 7 image story ≡ note_view db 12 bob 7 image s))
unfolding get_media serve_private_media path_uuid story_for_viewer select_story load_variants
    variant visible_to_viewer is_open author_active blocked hidden admits followed_by_author
    is_active
get_media_sound_example =
    get_media_sound bucket db (note_view db 12 bob 7 image story) 12 7 bob image 5 false refl refl

-- A stranger, even a moderator, does not see the item.
hidden-missing_example :
    (get_story db 12 (some stranger) (some 7) ≡ get_story db 12 (some stranger) none)
    × (get_media bucket db 12 (some stranger) (some 7) (some image) ≡ fail missing)
    × (post_view db 12 (some stranger) (some 7) ≡ post_view db 12 (some stranger) none)
    × (put_reaction db 12 13 30 (some stranger) (some 7) (done "🔥")
        ≡ put_reaction db 12 13 30 (some stranger) none (done "🔥"))
    × (get_viewers db (some stranger) (some 7) ≡ get_viewers db (some stranger) none)
    × (delete_own_story db 12 13 30 (some stranger) (some 7)
        ≡ delete_own_story db 12 13 30 (some stranger) none)
unfolding valid_reaction visible_to_viewer is_open author_active blocked hidden admits
    followed_by_author is_active
hidden-missing_example = hidden-missing db bucket 12 13 30 7 stranger image "🔥" refl refl refl refl

abbrev after_deletion : Answer (Db × Response)
after_deletion = delete_own_story db 12 13 40 (some alice) (some 7)

abbrev tables_of : Answer (Db × Response) → Db
tables_of (done r) = r.0
tables_of (fail e) = db

delete_own_story-revokes_example :
    (get_media bucket (tables_of after_deletion) 14 (some bob) (some 7) (some image) ≡ fail missing)
    × ((some bob ≡ none) ⊎ (is_active (some bob) ≡ true)
        → post_view (tables_of after_deletion) 14 (some bob) (some 7) ≡ fail missing)
unfolding delete_own_story delete_story must_caller path_uuid is_active
delete_own_story-revokes_example =
    delete_own_story-revokes bucket db (tables_of after_deletion) 12 13 40 7 14 alice no_content
      (some bob) image (λ e. refl, tt) refl

abbrev same : String → String
same s = s

abbrev hash : ℕ → String → ℕ
hash id s = id

-- The idempotency key "k".
abbrev header : List ℕ
header = b'k' ∷ []

abbrev after_reply : Answer (Db × Response)
after_reply = post_reply same hash db 12 13 50 51 100 (some bob) (some 7) header (done "Nice!")

post_reply-retry_example :
    post_reply same hash
      (tables_of after_reply)
      14
      15
      60
      61
      100
      (some bob)
      (some 7)
      header
      (done "Nice!")
    ≡ done (tables_of after_reply, replayed 201 (reply_response 50 7 2 1 "Nice!" 12))
unfolding post_reply must_caller path_uuid is_active idempotency_key idempotent_replay
    story_for_viewer select_story load_variants visible_to_viewer is_open author_active blocked
    hidden admits followed_by_author create_reply remember_idempotent
post_reply-retry_example =
    post_reply-retry same hash db (tables_of after_reply) 12 13 50 51 100 7 bob header "Nice!"
      (reply_response 50 7 2 1 "Nice!" 12) 14 15 60 61 (omega arith) refl

post_reply_sound_example :
    (s : StoryItem) × Memᴰ s db.pipeline.stories
    × (s.id ≡ 7)
    × (joined db.social (visible_to_viewer db.social (as_viewer bob) 12) s ≡ true)
    × ((s.author_user_id == 2) ≡ false)
    × (s.allow_replies ≡ true)
    × (is_empty "Nice!" ≡ false)
    × (length (codes "Nice!") ≤ 500)
    × (unread_count (tables_of after_reply).inbox s.author_user_id
        ≡ suc (unread_count db.inbox s.author_user_id))
    × ((other : ℕ)
        → (s.author_user_id == other) ≡ false
        → unread_count (tables_of after_reply).inbox other ≡ unread_count db.inbox other)
unfolding post_reply must_caller path_uuid is_active idempotency_key idempotent_replay
    story_for_viewer select_story load_variants visible_to_viewer is_open author_active blocked
    hidden admits followed_by_author create_reply remember_idempotent
post_reply_sound_example =
    post_reply_sound same hash db (tables_of after_reply) 12 13 50 51 100 7 bob header "Nice!"
      (reply_response 50 7 2 1 "Nice!" 12) refl

-- Bob blocks Alice, and she may follow him all the same.
put_follow-with_block_example :
    answered (
      put_follow
        (λ s. s)
        length
        (with_block (record { owner = 2; target = 101 }) db)
        13
        70
        (some alice)
        (98 ∷ []))
    ≡ answered (put_follow (λ s. s) length db 13 70 (some alice) (98 ∷ []))
put_follow-with_block_example =
    put_follow-with_block (λ s. s) length db 13 70 alice (98 ∷ [])
      (record { owner = 2; target = 101 }) (λ e. omega (arith, e)) (λ e. omega (arith, e))

-- The stranger, a moderator, is registered here.
abbrev moderated : Db
moderated = record db { social = record graph { users = stranger ∷ graph.users } }

abbrev removal : ActionRequest
removal = record {
  kind = some remove_story;
  report_id = none;
  story_id = some (some 7);
  login = [];
  reason = "spam";
}

abbrev after_removal : Answer (Db × Response)
after_removal = post_moderation_action (λ s. s) moderated 12 13 80 (some stranger) (done removal)

post_moderation_action-IsRemoved_example :
    ((u : User) × (some stranger ≡ some u) × (is_active (some u) ≡ true) × (u.is_moderator ≡ true))
    × IsRemoved 7 (tables_of after_removal)
unfolding post_moderation_action require_moderator must_caller is_active apply_action delete_story
    record_moderation_action
post_moderation_action-IsRemoved_example =
    post_moderation_action-IsRemoved (λ s. s) moderated (tables_of after_removal) 12 13 80 7
      (some stranger) removal recorded refl refl refl
