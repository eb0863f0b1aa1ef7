-- ===== src/Api/Stories.antt =====
-- internal/api/handlers_stories.go: one Story, its edits and its viewers.
--
-- `now` is `Clock.Now()`, `db_now` the database's `now()`. The ids `new_…` are those that the
-- database generates.
use Prim.Native.String.{String}
use gh_stories.Prelude.{
  ℕ, ◌+◌, Bool, true, false, not, ◌&&◌, Option, none, some, List, ◌==◌, ltb, if◌then◌else◌,
  find_row, exists_row, select_rows, map,
}
use gh_stories.Domain.{User, StoryItem, is_active, Visibility, parse_visibility, custom_list}
use gh_stories.Store.Social.{AudienceList, not_found, ok, err, Result}
use gh_stories.Store.Stories.{has_id, Pipeline}
use gh_stories.Store.Stories.Items.{
  Loaded, story_for_viewer, own_story, public_story, update_story, delete_story, is_deletable,
}
use gh_stories.Store.Interact.{View, seen, my_reaction, counts}
use gh_stories.Api.{
  Db, Answer, done, fail, ◌>>=◌, invalid, Response, no_content, story, viewers, StoryView,
  ViewerEntry, unless, or_missing, path_uuid, must_caller, as_viewer,
}

abbrev pub or_own : Result Loaded → Result Loaded → Result Loaded
or_own (ok it) own = ok it
or_own (err e) own = own

-- `storyForCaller`
unfoldable pub story_for_caller : Db → ℕ → User → ℕ → Answer Loaded
story_for_caller db now u id = or_missing (
    or_own (story_for_viewer db.social db.pipeline (as_viewer u) now id)
      (own_story db.social db.pipeline u.id id))

-- `presentOpts`, for a signed-in viewer.
pub record PresentOpts : Type 0 where
  pub viewer : Option User
  pub seen : Bool
  pub my_reaction : String
  pub views : Option ℕ
  pub reactions : Option ℕ

abbrev pub is_owner_of : Option User → StoryItem → Bool
is_owner_of none it = false
is_owner_of (some u) it = u.id == it.author_user_id

abbrev pub when {ℓ} : {A : Type ℓ} → Bool → Option A → Option A
when true a = a
when false a = none

-- `presentStory`
unfoldable pub present_story : Loaded → PresentOpts → StoryView
present_story it opts =
    let owner = is_owner_of opts.viewer it.0 in
    record {
      id = it.0.id;
      author = it.0.author_user_id;
      state = it.0.state;
      caption = it.0.caption;
      alt_text = it.0.alt_text;
      visibility = it.0.visibility;
      audience_list_id = it.0.audience_list_id;
      allow_replies = it.0.allow_replies;
      allow_reactions = it.0.allow_reactions;
      published_at = it.0.published_at;
      expires_at = it.0.expires_at;
      seen = opts.seen;
      is_owner = owner;
      my_reaction = opts.my_reaction;
      failure_code = it.0.failure_code;
      failure_message = it.0.failure_message;
      audience_label = when owner (some it.0.visibility);
      viewer_count = when owner opts.views;
      reaction_count = when owner opts.reactions;
      variants = it.1;
    }

-- `AnonymousViewCount`; without a row it fails, and the caller adds nothing.
abbrev pub anonymous_views : Option StoryItem → ℕ
anonymous_views none = 0
anonymous_views (some s) = s.anonymous_view_count

unfoldable pub anonymous_view_count : Pipeline → ℕ → ℕ
anonymous_view_count p id = anonymous_views (find_row (has_id id) p.stories)

abbrev pub signed_in_opts : Db → User → ℕ → Bool → PresentOpts
signed_in_opts db u id is_owner =
    let c = counts db.inbox id in
    record {
      viewer = some u;
      seen = seen db.inbox id u.id;
      my_reaction = my_reaction db.inbox id u.id;
      views = if is_owner then some (c.0 + anonymous_view_count db.pipeline id) else none;
      reactions = if is_owner then some c.1 else none;
    }

abbrev pub anonymous_opts : PresentOpts
anonymous_opts = record {
  viewer = none;
  seen = false;
  my_reaction = "";
  views = none;
  reactions = none;
}

abbrev pub story_signed_in : Db → ℕ → User → ℕ → Answer Response
story_signed_in db now u id = do
  it ← story_for_caller db now u id
  done (story (present_story it (signed_in_opts db u id (it.0.author_user_id == u.id))))

abbrev pub story_anonymous : Db → ℕ → ℕ → Answer Response
story_anonymous db now id = do
  it ← or_missing (public_story db.social db.pipeline now id)
  done (story (present_story it anonymous_opts))

abbrev pub story_to : Db → ℕ → Option User → ℕ → Answer Response
story_to db now none id = story_anonymous db now id
story_to db now (some u) id =
    if is_active (some u) then story_signed_in db now u id else story_anonymous db now id

-- `getStory`
unfoldable pub get_story : Db → ℕ → Option User → Option ℕ → Answer Response
get_story db now caller raw = do id ← path_uuid raw; story_to db now caller id

-- `storyUpdateRequest`; a list's id is the text and the outcome of `uuid.Parse`.
pub record StoryUpdateRequest : Type 0 where
  pub caption : Option String
  pub alt_text : Option String
  pub visibility : Option String
  pub audience_list_id : Option (String × Option ℕ)
  pub allow_replies : Option Bool
  pub allow_reactions : Option Bool

abbrev pub owns_list : Db → ℕ → ℕ → Bool
owns_list db owner list =
    exists_row
      (λ (al : AudienceList). al.id == list && al.owner_user_id == owner && not al.is_deleted)
      db.social.lists

abbrev pub choose_list : Db → User → Option (String × Option ℕ) → Answer (Option ℕ)
choose_list db u none = fail (invalid "audience_list_id" "Choose a list for a custom audience.")
choose_list db u (some (String.[], id)) =
    fail (invalid "audience_list_id" "Choose a list for a custom audience.")
choose_list db u (some (String.◌∷◌ c cs, none)) =
    fail (invalid "audience_list_id" "Not a valid list.")
choose_list db u (some (String.◌∷◌ c cs, some id)) =
    if owns_list db u.id id
    then done (some id)
    else fail (invalid "audience_list_id" "Not a valid list.")

-- `resolveAudienceList`
unfoldable pub resolve_audience_list :
    Db → User → Option Visibility → Option (String × Option ℕ) → Answer (Option ℕ)
resolve_audience_list db u (some custom_list) raw = choose_list db u raw
resolve_audience_list db u _ raw = done none

-- A text longer than so many bytes; `size` is Go's `len`.
abbrev pub too_long : (String → ℕ) → Option String → Bool
too_long size none = false
too_long size (some s) = ltb 500 (size s)

abbrev pub known_visibility : Option Visibility → Answer (Option Visibility)
known_visibility none = fail (invalid "visibility" "Unknown audience.")
known_visibility (some v) = done (some v)

abbrev pub read_visibility : Option String → Answer (Option Visibility)
read_visibility none = done none
read_visibility (some s) = known_visibility (parse_visibility s)

-- `patchStory`: the tables after the edit, and what `getStory` then answers.
unfoldable pub patch_story :
    (String → ℕ)
    → Db
    → ℕ
    → Option User
    → Option ℕ
    → Answer StoryUpdateRequest
    → Answer (Db × Answer Response)
patch_story size db now caller raw body = do
  u ← must_caller caller
  id ← path_uuid raw
  req ← body
  ok1 ←
      unless (too_long size req.caption)
        (invalid "caption" "Captions are limited to 500 characters.")
  ok2 ←
      unless (too_long size req.alt_text)
        (invalid "alt_text" "Descriptions are limited to 500 characters.")
  vis ← read_visibility req.visibility
  list ← resolve_audience_list db u vis req.audience_list_id
  p ← or_missing (
      update_story db.pipeline u.id id (record {
        caption = req.caption;
        alt_text = req.alt_text;
        visibility = vis;
        audience_list_id = list;
        allow_replies = req.allow_replies;
        allow_reactions = req.allow_reactions;
      }))
  let db' = record db { pipeline = p }
  done (db', get_story db' now caller raw)

-- `deleteStory`
unfoldable pub delete_own_story : Db → ℕ → ℕ → ℕ → Option User → Option ℕ → Answer (Db × Response)
delete_own_story db now db_now new_id caller raw = do
  u ← must_caller caller
  id ← path_uuid raw
  p ← or_missing (delete_story db.pipeline now db_now new_id u.id id false "")
  done (record db { pipeline = p }, no_content)

abbrev pub viewer_entry : Db → ℕ → View → ViewerEntry
viewer_entry db id v = record {
  user = v.viewer_user_id;
  viewed_at = v.delivered_at;
  reaction = my_reaction db.inbox id v.viewer_user_id;
}

-- `Viewers`, unsorted; the accounts of its viewers exist.
abbrev pub viewers_of : Db → ℕ → ℕ → Result (List ViewerEntry)
viewers_of db owner id =
    if exists_row (λ s. has_id id s && s.author_user_id == owner && is_deletable s.state)
      db.pipeline.stories
    then ok (map (viewer_entry db id) (select_rows (λ v. v.story_id == id) db.inbox.views))
    else err not_found

-- `getViewers`
unfoldable pub get_viewers : Db → Option User → Option ℕ → Answer Response
get_viewers db caller raw = do
  u ← must_caller caller
  id ← path_uuid raw
  vs ← or_missing (viewers_of db u.id id)
  done (viewers vs)
