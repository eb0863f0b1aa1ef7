-- ===== src/Api/Feed.antt =====
-- internal/api/handlers_feed.go: the feed, the rings, one author's sequence and the caller's own.
--
-- These handlers read and change no table. An id that is not positive is 0. `lower` is the
-- database's function of that name, and `to_lower` is `strings.ToLower`.
pub mod Traces
use Prim.Native.String.{String}
use gh_stories.Prelude.{
  ℕ, ◌+◌, Bool, true, false, not, ◌&&◌, ◌||◌, Option, none, some, List, [], ◌∷◌, ◌++◌, ltb, leb,
  ◌==◌, if◌then◌else◌, select_rows, exists_row, map, length, take, sort_by, same_text,
}
use gh_stories.Domain.{User, is_none}
use gh_stories.Store.Social.{Social, Identity}
use gh_stories.Store.Accounts.{trim_at, is_listed}
use gh_stories.Store.Stories.Items.{Loaded}
use gh_stories.Store.Interact.{Inbox, counts, my_reactions}
use gh_stories.Store.Feed.{FeedGroup, feed, unrelated}
use gh_stories.Store.Feed.Lookups.{
  author_sequence, feed_version, own_sequence, ring_statuses, distinct, search_identities,
}
use gh_stories.Api.{
  Db, Answer, done, fail, ◌>>=◌, unless, bad_request, or_missing, must_caller, as_viewer, Response,
  StoryView, AuthorGroup, feed_page, group, rings, users,
}
use gh_stories.Api.Stories.{present_story}

-- `reactions[it.ID]`, the empty text where there is none.
abbrev reaction_to : List (ℕ × String) → ℕ → String
reaction_to [] id = ""
reaction_to ((i, e) ∷ rs) id = if i == id then e else reaction_to rs id

-- `if i < len(g.Seen) { seen = g.Seen[i] }`
abbrev present_items : User → List (ℕ × String) → List Loaded → List Bool → List StoryView
present_items u rs [] seen = []
present_items u rs (it ∷ its) [] =
    present_story it (record {
      viewer = some u;
      seen = false;
      my_reaction = reaction_to rs it.0.id;
      views = none;
      reactions = none;
    })
    ∷ present_items u rs its []
present_items u rs (it ∷ its) (b ∷ bs) =
    present_story it (record {
      viewer = some u;
      seen = b;
      my_reaction = reaction_to rs it.0.id;
      views = none;
      reactions = none;
    })
    ∷ present_items u rs its bs

-- `presentGroup`
unfoldable pub present_group : FeedGroup → User → List (ℕ × String) → AuthorGroup
present_group g u rs = record {
  author = g.author;
  items = present_items u rs g.items g.seen;
  has_unseen = g.has_unseen;
  muted = g.muted;
  provenance = g.provenance;
}

abbrev ids_of : FeedGroup → List ℕ
ids_of g = map (λ (it : Loaded). it.0.id) g.items

abbrev all_ids : List FeedGroup → Option FeedGroup → List ℕ
all_ids [] none = []
all_ids [] (some g) = ids_of g
all_ids (g ∷ gs) me = ids_of g ++ all_ids gs me

-- `reactionsFor`
unfoldable pub reactions_for : Inbox → User → List FeedGroup → Option FeedGroup → List (ℕ × String)
reactions_for s u groups me = my_reactions s u.id (all_ids groups me)

abbrev with_counts : Inbox → StoryView → StoryView
with_counts s it = record it {
  viewer_count = some (counts s it.id).0;
  reaction_count = some (counts s it.id).1;
}

-- `attachOwnerCounts`
unfoldable pub attach_owner_counts : Inbox → AuthorGroup → AuthorGroup
attach_owner_counts s g = record g { items = map (with_counts s) g.items }

abbrev present_me : Inbox → User → List (ℕ × String) → Option FeedGroup → Option AuthorGroup
present_me s u rs none = none
present_me s u rs (some g) = some (attach_owner_counts s (present_group g u rs))

-- `getFeed`
unfoldable pub get_feed :
    (ℕ → List ℕ) → Db → ℕ → Option User → (include_muted : Bool) → (limit : ℕ) → Answer Response
get_feed format db now caller include_muted limit = do
  u ← must_caller caller
  let r = feed db.social db.pipeline db.inbox (as_viewer u) now include_muted limit
  let rs = reactions_for db.inbox u r.0 r.1
  done (
      feed_page (record {
        me = present_me db.inbox u rs r.1;
        groups = map (λ g. present_group g u rs) r.0;
        server_time = now;
        version = feed_version format db.social db.pipeline (as_viewer u) now;
      }))

-- `IdentitiesByLogins`; its keys are the stored logins, which are unique.
unfoldable pub identities_by_logins : (List ℕ → List ℕ) → Social → List (List ℕ) → List Identity
identities_by_logins to_lower g logins =
    select_rows (λ i. exists_row (λ l. same_text i.login_lower (to_lower (trim_at l))) logins)
      g.identities

abbrev wanted : (List ℕ → List ℕ) → Social → List ℕ → List (List ℕ) → List ℕ
wanted to_lower g ids logins = distinct (
    select_rows (λ i. not (i == 0)) ids
    ++ map (λ (i : Identity). i.github_id) (identities_by_logins to_lower g logins))

abbrev rings_of : (List ℕ → List ℕ) → Db → ℕ → User → List ℕ → List (List ℕ) → Response
rings_of to_lower db now u [] [] = rings []
rings_of to_lower db now u ids logins = rings (
    ring_statuses db.social db.pipeline db.inbox (as_viewer u) now
      (wanted to_lower db.social ids logins))

-- `postStatus`
unfoldable pub post_status :
    (List ℕ → List ℕ) → Db → ℕ → Option User → List ℕ → List (List ℕ) → Answer Response
post_status to_lower db now caller ids logins = do
  u ← must_caller caller
  few ←
      unless (ltb 100 (length ids) || ltb 100 (length logins))
        (bad_request "Look up at most 100 accounts per request.")
  done (rings_of to_lower db now u ids logins)

abbrev own_counts : Inbox → User → FeedGroup → AuthorGroup → AuthorGroup
own_counts s u g out = if g.author == u.github_id then attach_owner_counts s out else out

-- `getAuthorStories`
unfoldable pub get_author_stories :
    (List ℕ → List ℕ) → Db → ℕ → Option User → List ℕ → Answer Response
get_author_stories lower db now caller login = do
  u ← must_caller caller
  g ←
      or_missing
        (author_sequence lower db.social db.pipeline db.inbox (as_viewer u) now (trim_at login))
  let rs = reactions_for db.inbox u (g ∷ []) none
  done (group (own_counts db.inbox u g (present_group g u rs)))

-- `getOwnStories`
unfoldable pub get_own_stories : Db → ℕ → Option User → Answer Response
get_own_stories db now caller = do
  u ← must_caller caller
  done (
      group (
        attach_owner_counts db.inbox (record {
          author = u.github_id;
          items = present_items u [] (own_sequence db.social db.pipeline u.id now) [];
          has_unseen = false;
          muted = false;
          provenance = unrelated;
        })))

-- `getUserLookup`; the term is measured in bytes.
unfoldable pub get_user_lookup :
    (List ℕ → List ℕ) → (List ℕ → List ℕ) → Db → Option User → List ℕ → Answer Response
get_user_lookup to_lower trim db caller q = do
  u ← must_caller caller
  short ← unless (ltb 64 (length q)) (bad_request "Search term is too long.")
  done (users (search_identities to_lower trim db.social q 10))
