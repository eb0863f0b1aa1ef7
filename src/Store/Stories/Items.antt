-- ===== src/Store/Stories/Items.antt =====
-- internal/store/story.go and jobs.go: reading, editing, deleting and expiring story items.
use Prim.Native.String.{String}
use gh_stories.Prelude.{
  ℕ, suc, ◌+◌, Bool, true, false, not, ◌&&◌, ◌||◌, Option, none, some, List, [], ◌∷◌, ◌++◌, leb,
  ◌==◌, if◌then◌else◌, find_row, exists_row, update_rows, select_rows, map, take, count_rows,
}
use gh_stories.Domain.{
  User, StoryItem, StoryState, Visibility, custom_list, everyone, is_published, is_processing,
  deleted, removed, MediaVariant,
}
use gh_stories.Store.Social.{Social, Result, ok, err, not_found, has_identity, ◌>>=◌}
use gh_stories.Store.Visibility.{Viewer, is_open, visible_to_viewer, visible_to_anyone}
use gh_stories.Store.Stories.{CleanupJob, Pipeline, has_id, new_cleanup}
use gh_stories.Store.Stories.Uploads.{or_not_found}

-- The rows of `story_items si JOIN users au JOIN github_identities gi` with the id that satisfy the
-- condition on the item and its author.
abbrev pub joined : Social → (StoryItem → User → Bool) → StoryItem → Bool
joined g p si =
    exists_row
      (λ au. au.id == si.author_user_id && has_identity g.identities au.github_id && p si au)
      g.users

unfoldable pub select_story : Social → Pipeline → ℕ → (StoryItem → User → Bool) → Option StoryItem
select_story g p id q = find_row (λ si. has_id id si && joined g q si) p.stories

-- `loadVariants`
unfoldable pub load_variants : Pipeline → ℕ → List MediaVariant
load_variants p id = select_rows (λ v. v.story_id == id) p.variants

abbrev pub Loaded : Type 0
Loaded = StoryItem × List MediaVariant

abbrev pub with_variants : Pipeline → StoryItem → Loaded
with_variants p si = (si, load_variants p si.id)

-- `StoryForViewer`
unfoldable pub story_for_viewer : Social → Pipeline → Viewer → ℕ → ℕ → Result Loaded
unfolding select_story
story_for_viewer g p v clock id = do
  si ← or_not_found (select_story g p id (visible_to_viewer g v clock))
  ok (with_variants p si)

-- `PublicStory`
unfoldable pub public_story : Social → Pipeline → ℕ → ℕ → Result Loaded
unfolding select_story
public_story g p clock id = do
  si ← or_not_found (select_story g p id (visible_to_anyone clock))
  ok (with_variants p si)

abbrev pub is_ended : StoryState → Bool
is_ended deleted = true
is_ended removed = true
is_ended _ = false

-- `OwnStory`
unfoldable pub own_story : Social → Pipeline → ℕ → ℕ → Result Loaded
unfolding select_story
own_story g p owner id = do
  si ←
      or_not_found
        (select_story g p id (λ s au. s.author_user_id == owner && not (is_ended s.state)))
  ok (with_variants p si)

abbrev is_everyone : Visibility → Bool
is_everyone everyone = true
is_everyone _ = false

-- `RecordAnonymousView`
unfoldable pub record_anonymous_view : Pipeline → ℕ → ℕ → Pipeline
record_anonymous_view p clock id = record p {
  stories =
      update_rows (λ s. has_id id s && is_open s clock && is_everyone s.visibility)
        (λ s. record s { anonymous_view_count = s.anonymous_view_count + 1 }) p.stories;
}

-- `COALESCE`
abbrev or_old {ℓ} : {A : Type ℓ} → Option A → A → A
or_old none a = a
or_old (some b) a = b

-- The `CASE` of `UpdateStory` on the new visibility.
abbrev new_list : Option Visibility → Option ℕ → Option ℕ → Option ℕ
new_list none list old = old
new_list (some custom_list) list old = list
new_list (some _) list old = none

-- The arguments of `UpdateStory`; a field left out stays.
pub record Edit : Type 0 where
  pub caption : Option String
  pub alt_text : Option String
  pub visibility : Option Visibility
  pub audience_list_id : Option ℕ
  pub allow_replies : Option Bool
  pub allow_reactions : Option Bool

abbrev pub edit_row : Edit → StoryItem → StoryItem
edit_row e s = record s {
  caption = or_old e.caption s.caption;
  alt_text = or_old e.alt_text s.alt_text;
  visibility = or_old e.visibility s.visibility;
  audience_list_id = new_list e.visibility e.audience_list_id s.audience_list_id;
  allow_replies = or_old e.allow_replies s.allow_replies;
  allow_reactions = or_old e.allow_reactions s.allow_reactions;
}

abbrev pub is_own_published : ℕ → ℕ → StoryItem → Bool
is_own_published owner id s = has_id id s && s.author_user_id == owner && is_published s.state

-- `UPDATE … WHERE p`; no row is `ErrNotFound`.
abbrev pub update_some :
    (StoryItem → Bool) → (StoryItem → StoryItem) → List StoryItem → Result (List StoryItem)
update_some p f rows = if exists_row p rows then ok (update_rows p f rows) else err not_found

-- `UpdateStory`
unfoldable pub update_story : Pipeline → ℕ → ℕ → Edit → Result Pipeline
update_story p owner id e = do
  rows ← update_some (is_own_published owner id) (edit_row e) p.stories
  ok (record p { stories = rows })

abbrev pub is_deletable : StoryState → Bool
is_deletable s = is_published s || is_processing s

abbrev pub keys_of : Pipeline → ℕ → List String
keys_of p id =
    map (λ (v : MediaVariant). v.object_key) (select_rows (λ v. v.story_id == id) p.variants)

-- `DeleteStory`, with `scheduleStoryObjectCleanup`.
unfoldable pub delete_story : Pipeline → ℕ → ℕ → ℕ → ℕ → ℕ → Bool → String → Result Pipeline
delete_story p clock db_now new_id owner id true reason = do
  rows ←
      update_some (λ s. has_id id s && is_deletable s.state)
        (λ s. record s {
          state = removed;
          deleted_at = some db_now;
          removed_by = some owner;
          removal_reason = reason;
        })
        p.stories
  ok (record p { stories = rows; cleanup = new_cleanup new_id (keys_of p id) clock ∷ p.cleanup })
delete_story p clock db_now new_id owner id false reason = do
  rows ←
      update_some (λ s. has_id id s && s.author_user_id == owner && is_deletable s.state)
        (λ s. record s { state = deleted; deleted_at = some db_now }) p.stories
  ok (record p { stories = rows; cleanup = new_cleanup new_id (keys_of p id) clock ∷ p.cleanup })

-- `expires_at <= now`, which NULL fails.
abbrev pub reached : ℕ → Option ℕ → Bool
reached now none = false
reached now (some t) = leb t now

abbrev pub is_due : ℕ → StoryItem → Bool
is_due clock s = is_published s.state && reached clock s.expires_at

-- One cleanup job for each expired item; the ids count up from `new_id`.
abbrev cleanup_jobs : Pipeline → ℕ → ℕ → List StoryItem → List CleanupJob
cleanup_jobs p new_id clock [] = []
cleanup_jobs p new_id clock (s ∷ ss) =
    new_cleanup new_id (keys_of p s.id) clock ∷ cleanup_jobs p (suc new_id) clock ss

abbrev in_batch : List StoryItem → StoryItem → Bool
in_batch due s = exists_row (λ d. d.id == s.id) due

abbrev expiry_le : Option ℕ → Option ℕ → Bool
expiry_le (some a) (some b) = leb a b
expiry_le _ _ = true

abbrev insert_by_expiry : StoryItem → List StoryItem → List StoryItem
insert_by_expiry s [] = s ∷ []
insert_by_expiry s (t ∷ ts) =
    if expiry_le s.expires_at t.expires_at then s ∷ t ∷ ts else t ∷ insert_by_expiry s ts

-- `ORDER BY expires_at`
abbrev by_expiry : List StoryItem → List StoryItem
by_expiry [] = []
by_expiry (s ∷ ss) = insert_by_expiry s (by_expiry ss)

-- The statement of `ExpireStories` behind its `due`.
unfoldable pub expire_batch : Pipeline → ℕ → ℕ → List StoryItem → Pipeline
expire_batch p clock new_id due = record p {
  stories =
      update_rows (in_batch due) (λ s. record s { state = deleted; deleted_at = some clock })
        p.stories;
  cleanup = cleanup_jobs p new_id clock due ++ p.cleanup;
}

-- `ExpireStories`; the number of expired items is its other result.
unfoldable pub expire_stories : Pipeline → ℕ → ℕ → ℕ → ℕ × Pipeline
unfolding expire_batch
expire_stories p clock new_id limit =
    let due = take limit (by_expiry (select_rows (is_due clock) p.stories)) in
    (count_rows (in_batch due) p.stories, expire_batch p clock new_id due)
