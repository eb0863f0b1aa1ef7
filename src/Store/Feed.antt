-- ===== src/Store/Feed.antt =====
-- internal/store/feed.go: the feed query and the groups that the code makes of its rows.
--
-- A join on a key takes the first row with that key. A caption or a login that is only passed on is
-- left out of a group; an author is named by account and GitHub id. `limit` is 0 where the request's
-- number is negative, which the code treats alike.
pub mod Lookups
pub mod Traces
pub mod Sound
pub mod Mine
use gh_stories.Prelude.{
  ℕ, ◌+◌, ◌≤◌, Bool, true, false, not, ◌&&◌, ◌||◌, Option, none, some, List, [], ◌∷◌, ◌++◌, ltb,
  leb, ◌==◌, if◌then◌else◌, find_row, exists_row, select_rows, map, length, sort_by,
}
use gh_stories.Domain.{User, StoryItem, Provenance, github_import, stories_native, MediaVariant}
use gh_stories.Store.Social.{Social, has_identity, is_active_edge, is_rule}
use gh_stories.Store.Stories.{Pipeline}
use gh_stories.Store.Stories.Items.{Loaded, with_variants}
use gh_stories.Store.Interact.{Inbox, seen}
use gh_stories.Store.Visibility.{Viewer, visible_to_viewer}

-- `JOIN users au`, and the same with `JOIN github_identities gi`.
abbrev pub account_of : Social → StoryItem → Option User
account_of g si = find_row (λ au. au.id == si.author_user_id) g.users

abbrev pub author_of : Social → StoryItem → Option User
author_of g si =
    find_row (λ au. au.id == si.author_user_id && has_identity g.identities au.github_id) g.users

abbrev pub Authored : Type 0
Authored = StoryItem × User

-- The joined rows that satisfy `q`.
abbrev pub keep_authored :
    (StoryItem → User → Bool) → StoryItem → Option User → List Authored → List Authored
keep_authored q si none rest = rest
keep_authored q si (some au) rest = if q si au then (si, au) ∷ rest else rest

unfoldable pub select_authored :
    (StoryItem → Option User) → (StoryItem → User → Bool) → List StoryItem → List Authored
select_authored look q [] = []
select_authored look q (si ∷ sis) = keep_authored q si (look si) (select_authored look q sis)

-- `FeedGroup.Provenance`
pub data Standing : Type 0 where
  followed : Provenance → Standing
  self unrelated : Standing

abbrev pub standing : Option Provenance → Bool → Standing
standing (some p) own = followed p
standing none true = self
standing none false = unrelated

abbrev pub provenance_to : Social → Viewer → User → Option Provenance
provenance_to g v au = elim (find_row (is_active_edge v.id au.github_id) g.relationships) [
  | none ↦ none
  | some r ↦ some r.provenance
]

-- A row of `annotated`.
pub record FeedRow : Type 0 where
  pub item : StoryItem
  pub author_github_id : ℕ
  pub seen : Bool
  pub provenance : Standing
  pub muted : Bool

abbrev pub annotate : Social → Inbox → Viewer → Authored → FeedRow
annotate g s v r = record {
  item = r.0;
  author_github_id = r.1.github_id;
  seen = seen s r.0.id v.id;
  provenance = standing (provenance_to g v r.1) (r.0.author_user_id == v.id);
  muted = exists_row (is_rule v.id r.1.github_id) g.mutes;
}

unfoldable pub annotated : Social → Pipeline → Inbox → Viewer → ℕ → List FeedRow
annotated g p s v now =
    map (annotate g s v)
      (select_authored (author_of g) (λ si au. visible_to_viewer g v now si au) p.stories)

-- A row of `ranked`.
pub record Rank : Type 0 where
  pub has_unseen : Bool
  pub latest : ℕ
  pub author_github_id : ℕ
  pub provenance : Standing
  pub muted : Bool

abbrev pub or_zero : Option ℕ → ℕ
or_zero none = 0
or_zero (some n) = n

-- The order of the texts, for `min(provenance)`.
abbrev text_order : Standing → ℕ
text_order (followed github_import) = 0
text_order unrelated = 1
text_order self = 2
text_order (followed stories_native) = 3

abbrev first_text : Standing → Standing → Standing
first_text a b = if leb (text_order a) (text_order b) then a else b

abbrev pub by_author : ℕ → FeedRow → Bool
by_author author r = r.item.author_user_id == author

abbrev pub merge_rank : Rank → FeedRow → Rank
merge_rank k r = record {
  has_unseen = k.has_unseen || not r.seen;
  latest =
      if ltb k.latest (or_zero r.item.published_at) then or_zero r.item.published_at else k.latest;
  author_github_id =
      if ltb r.author_github_id k.author_github_id then r.author_github_id else k.author_github_id;
  provenance = first_text k.provenance r.provenance;
  muted = k.muted || r.muted;
}

abbrev pub fold_rank : Rank → List FeedRow → Rank
fold_rank k [] = k
fold_rank k (r ∷ rs) = fold_rank (merge_rank k r) rs

-- What one row says of its author.
abbrev pub rank_alone : FeedRow → Rank
rank_alone a = record {
  has_unseen = not a.seen;
  latest = or_zero a.item.published_at;
  author_github_id = a.author_github_id;
  provenance = a.provenance;
  muted = a.muted;
}

-- The aggregates over the group of the row `a`, which is one of them.
unfoldable pub rank_of : List FeedRow → FeedRow → Rank
rank_of rows a = fold_rank (rank_alone a) (select_rows (by_author a.item.author_user_id) rows)

abbrev pub Ranked : Type 0
Ranked = FeedRow × Rank

abbrev pub is_own : ℕ → Ranked → Bool
is_own viewer r = r.0.item.author_user_id == viewer

abbrev flag : Bool → ℕ
flag true = 0
flag false = 1

-- The `CASE` of the `ORDER BY`.
abbrev case_order : Standing → ℕ
case_order self = 0
case_order (followed stories_native) = 1
case_order (followed github_import) = 2
case_order unrelated = 3

-- The first pair that differs decides.
abbrev pub lex : List (ℕ × ℕ) → Bool
lex [] = true
lex ((a, b) ∷ rest) = if ltb a b then true else if ltb b a then false else lex rest

-- The `ORDER BY`; the sides of a descending key are swapped, and `true` comes first in it.
abbrev pub order_le : ℕ → Ranked → Ranked → Bool
order_le viewer x y = lex (
    (flag (is_own viewer x), flag (is_own viewer y))
    ∷ (flag x.1.has_unseen, flag y.1.has_unseen)
    ∷ (case_order x.1.provenance, case_order y.1.provenance)
    ∷ (y.1.latest, x.1.latest)
    ∷ (x.1.author_github_id, y.1.author_github_id)
    ∷ (or_zero x.0.item.published_at, or_zero y.0.item.published_at)
    ∷ [])

abbrev pub rank_rows : List FeedRow → List FeedRow → List Ranked
rank_rows all rows = map (λ a. (a, rank_of all a)) rows

abbrev pub is_listed : ℕ → Bool → Ranked → Bool
is_listed viewer include_muted r = include_muted || not r.1.muted || is_own viewer r

-- The rows of the whole query.
unfoldable pub feed_rows : Social → Pipeline → Inbox → Viewer → ℕ → Bool → List Ranked
feed_rows g p s v now include_muted =
    let rows = annotated g p s v now in
    sort_by (order_le v.id) (select_rows (is_listed v.id include_muted) (rank_rows rows rows))

pub record FeedGroup : Type 0 where
  pub author_user_id : ℕ
  pub author : ℕ
  pub items : List Loaded
  pub seen : List Bool
  pub has_unseen : Bool
  pub muted : Bool
  pub provenance : Standing

abbrev pub push : FeedRow → FeedGroup → FeedGroup
push r g = record g {
  items = g.items ++ (r.item, []) ∷ [];
  seen = g.seen ++ r.seen ∷ [];
  has_unseen = g.has_unseen || not r.seen;
}

abbrev pub new_group : FeedRow → FeedGroup
new_group r = push r (record {
  author_user_id = r.item.author_user_id;
  author = r.author_github_id;
  items = [];
  seen = [];
  has_unseen = false;
  muted = r.muted;
  provenance = r.provenance;
})

-- The loop over the rows. The map `groups` and the slice `order` are one list, in the slice's order.
abbrev pub add_row : FeedRow → List FeedGroup → List FeedGroup
add_row r [] = new_group r ∷ []
add_row r (g ∷ gs) =
    if g.author_user_id == r.item.author_user_id then push r g ∷ gs else g ∷ add_row r gs

unfoldable pub group_rows : List FeedGroup → List Ranked → List FeedGroup
group_rows gs [] = gs
group_rows gs (r ∷ rs) = group_rows (add_row r.0 gs) rs

-- `loadVariantsForGroups`
abbrev pub load_group : Pipeline → FeedGroup → FeedGroup
load_group p g = record g { items = map (λ (it : Loaded). with_variants p it.0) g.items }

-- The last loop: the caller's group apart, the others up to the limit.
unfoldable pub collect :
    ℕ → ℕ → List FeedGroup → Option FeedGroup → List FeedGroup → List FeedGroup × Option FeedGroup
collect viewer limit out me [] = (out, me)
collect viewer limit out me (g ∷ gs) =
    let mine = collect viewer limit out (some g) gs in
    let more = collect viewer limit (out ++ g ∷ []) me gs in
    if g.author_user_id == viewer then mine else if leb limit (length out) then (out, me) else more

abbrev pub page_limit : ℕ → ℕ
page_limit limit = if limit == 0 || ltb 50 limit then 25 else limit

-- `Feed`: the groups of others, and the caller's own.
unfoldable pub feed :
    Social → Pipeline → Inbox → Viewer → ℕ → Bool → ℕ → List FeedGroup × Option FeedGroup
feed g p s v now include_muted limit =
    collect v.id (page_limit limit) [] none
      (map (load_group p) (group_rows [] (feed_rows g p s v now include_muted)))
