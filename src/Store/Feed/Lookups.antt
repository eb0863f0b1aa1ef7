-- ===== src/Store/Feed/Lookups.antt =====
-- internal/store/feed.go: one author's sequence, the caller's own, the rings of avatars, and the
-- token by which clients see that the feed has changed.
use gh_stories.Prelude.{
  ℕ, Bool, true, false, not, ◌&&◌, ◌||◌, Option, none, some, List, [], ◌∷◌, ◌++◌, ltb, leb, ◌==◌,
  if◌then◌else◌, find_row, exists_row, select_rows, map, length, sort_by, decimal, take,
}
use gh_stories.Domain.{is_none, User, StoryItem, StoryState, published, processing, failed}
use gh_stories.Store.Social.{Social, Identity, Result, ok, err, not_found, ◌>>=◌, is_rule}
use gh_stories.Store.Accounts.{trim_at, has_login}
use gh_stories.Store.Stories.{Pipeline}
use gh_stories.Store.Stories.Uploads.{or_not_found}
use gh_stories.Store.Stories.Items.{Loaded, with_variants, joined}
use gh_stories.Store.Interact.{Inbox, seen}
use gh_stories.Store.Visibility.{Viewer, visible_to_viewer}
use gh_stories.Store.Feed.{
  Authored, FeedGroup, FeedRow, account_of, annotate, author_of, load_group, or_zero, push,
  select_authored, unrelated,
}

-- `IdentityByLogin`; `lower` is the database's function of that name.
unfoldable pub identity_by_login : (List ℕ → List ℕ) → Social → List ℕ → Result Identity
identity_by_login lower g login =
    or_not_found (find_row (has_login (lower (trim_at login))) g.identities)

abbrev pub published_le : FeedRow → FeedRow → Bool
published_le a b = leb (or_zero a.item.published_at) (or_zero b.item.published_at)

-- The loop over the rows: the last one gives the group's mute and provenance.
abbrev pub sequence_row : FeedRow → FeedGroup → FeedGroup
sequence_row r gr = record (push r gr) {
  author_user_id = r.item.author_user_id;
  muted = r.muted;
  provenance = r.provenance;
}

abbrev pub sequence_rows : List FeedRow → FeedGroup → FeedGroup
sequence_rows [] gr = gr
sequence_rows (r ∷ rs) gr = sequence_rows rs (sequence_row r gr)

abbrev pub empty_group : ℕ → FeedGroup
empty_group author = record {
  author_user_id = 0;
  author = author;
  items = [];
  seen = [];
  has_unseen = false;
  muted = false;
  provenance = unrelated;
}

-- No row is `ErrNotFound`.
abbrev pub nonempty_group : Pipeline → FeedGroup → List FeedRow → Result FeedGroup
nonempty_group p gr [] = err not_found
nonempty_group p gr (r ∷ rs) = ok (load_group p gr)

-- The `WHERE` of `AuthorSequence`.
abbrev pub is_visible_of : Social → Viewer → ℕ → ℕ → StoryItem → User → Bool
is_visible_of g v now target si au = au.github_id == target && visible_to_viewer g v now si au

unfoldable pub sequence_of : Social → Pipeline → Inbox → Viewer → ℕ → ℕ → List FeedRow
sequence_of g p s v now target =
    sort_by published_le (
      map (annotate g s v) (select_authored (author_of g) (is_visible_of g v now target) p.stories))

-- `AuthorSequence`
unfoldable pub author_sequence :
    (List ℕ → List ℕ) → Social → Pipeline → Inbox → Viewer → ℕ → List ℕ → Result FeedGroup
author_sequence lower g p s v now login = do
  id ← identity_by_login lower g login
  let rows = sequence_of g p s v now id.github_id
  nonempty_group p (sequence_rows rows (empty_group id.github_id)) rows

abbrev is_current : StoryState → Bool
is_current processing = true
is_current published = true
is_current failed = true
is_current _ = false

abbrev open_until : ℕ → Option ℕ → Bool
open_until now none = true
open_until now (some t) = ltb now t

-- `OwnSequence`, oldest first; a new item stands first in its table.
abbrev reversed {ℓ} : {A : Type ℓ} → List A → List A
reversed [] = []
reversed (x ∷ xs) = reversed xs ++ x ∷ []

unfoldable pub own_sequence : Social → Pipeline → ℕ → ℕ → List Loaded
own_sequence g p owner now = map (with_variants p) (
    reversed (
      select_rows
        (joined g (λ si au.
          si.author_user_id == owner && is_current si.state && open_until now si.expires_at))
        p.stories))

pub record RingStatus : Type 0 where
  pub github_id : ℕ
  pub has_active : Bool
  pub has_unseen : Bool
  pub muted : Bool
  pub is_self : Bool

-- The rows of the lateral join: the account's items, with those that the caller may not see.
unfoldable pub items_of : Social → ℕ → List StoryItem → List Authored
items_of g target stories = select_authored (account_of g) (λ si au. au.github_id == target) stories

abbrev pub ring_status : Social → Pipeline → Inbox → Viewer → ℕ → ℕ → RingStatus
ring_status g p s v now target =
    let rows = items_of g target p.stories in
    record {
      github_id = target;
      has_active = exists_row (λ (r : Authored). visible_to_viewer g v now r.0 r.1) rows;
      has_unseen =
          exists_row
            (λ (r : Authored). visible_to_viewer g v now r.0 r.1 && not (seen s r.0.id v.id)) rows;
      muted = exists_row (is_rule v.id target) g.mutes;
      is_self = target == v.github_id;
    }

-- `GROUP BY target`
abbrev pub distinct : List ℕ → List ℕ
distinct [] = []
distinct (i ∷ is) = i ∷ select_rows (λ j. not (j == i)) (distinct is)

-- `RingStatuses`
unfoldable pub ring_statuses : Social → Pipeline → Inbox → Viewer → ℕ → List ℕ → List RingStatus
ring_statuses g p s v now ids = map (ring_status g p s v now) (distinct ids)

abbrev later : ℕ → Option ℕ → ℕ
later t none = t
later t (some u) = if ltb t u then u else t

-- `greatest(published_at, coalesce(deleted_at, published_at))`; a visible item is published.
abbrev changed_at : StoryItem → ℕ
changed_at si = later (or_zero si.published_at) si.deleted_at

abbrev last_change : List Authored → Option ℕ
last_change [] = none
last_change (r ∷ rs) = some (later (changed_at r.0) (last_change rs))

abbrev version_text : (ℕ → List ℕ) → Option ℕ → ℕ → List ℕ
version_text format none n = b'0' ∷ b'-' ∷ b'0' ∷ []
version_text format (some t) n = format t ++ b'-' ∷ decimal n

-- `FeedVersion`; `format` is `time.Format` with RFC3339Nano.
unfoldable pub feed_version : (ℕ → List ℕ) → Social → Pipeline → Viewer → ℕ → List ℕ
feed_version format g p v now =
    let rows =
      select_authored (account_of g) (λ si au. visible_to_viewer g v now si au) p.stories in
    version_text format (last_change rows) (length rows)

abbrev is_prefix : List ℕ → List ℕ → Bool
is_prefix [] t = true
is_prefix (c ∷ s) [] = false
is_prefix (c ∷ s) (d ∷ t) = c == d && is_prefix s t

abbrev text_le : List ℕ → List ℕ → Bool
text_le [] t = true
text_le (c ∷ s) [] = false
text_le (c ∷ s) (d ∷ t) = ltb c d || c == d && text_le s t

abbrev shorter : Identity → Identity → Bool
shorter i j =
    ltb (length i.login_lower) (length j.login_lower)
    || length i.login_lower == length j.login_lower && text_le i.login_lower j.login_lower

-- `SearchIdentities`, for a term without `%` and `_`; no row for an empty one. The texts are compared
-- by their code points.
abbrev has_active_user : Social → Identity → Bool
has_active_user g i =
    exists_row (λ u. u.github_id == i.github_id && is_none u.deleted_at && is_none u.suspended_at)
      g.users

abbrev found_by : Social → ℕ → List ℕ → List Identity
found_by g limit [] = []
found_by g limit (c ∷ q) = take limit (
    sort_by shorter
      (select_rows (λ i. has_active_user g i && is_prefix (c ∷ q) i.login_lower) g.identities))

unfoldable pub search_identities :
    (List ℕ → List ℕ) → (List ℕ → List ℕ) → Social → List ℕ → ℕ → List Identity
search_identities to_lower trim g q limit =
    found_by g (if limit == 0 || ltb 25 limit then 10 else limit) (to_lower (trim_at (trim q)))
