-- ===== src/Api/Graph.antt =====
-- internal/api/handlers_graph.go: following, and the rules against other accounts.
--
-- `lower` is the database's function of that name. A login is the list of its code points, and
-- `size` its length in bytes.
use gh_stories.Prelude.{ℕ, Bool, ◌&&◌, ◌||◌, Option, none, some, List, ◌==◌, ltb, length, find_row}
use gh_stories.Domain.{User, stories_native}
use gh_stories.Store.Social.{
  Social, Result, Identity, follow, unfollow, blocked_either_way, set_mute, set_block, set_hide,
  has_identity,
}
use gh_stories.Store.Accounts.{trim_at, has_login}
use gh_stories.Store.Interact.{Inbox, notify_follow}
use gh_stories.Api.{
  Db, Answer, done, fail, ◌>>=◌, missing, forbidden, bad_request, Response, no_content, followed,
  unless, or_missing, must_caller,
}

abbrev known_login : Option Identity → Answer Identity
known_login none = fail missing
known_login (some i) = done i

-- `resolveTarget`, with `IdentityByLogin`, which trims the login again.
unfoldable pub resolve_target : (List ℕ → List ℕ) → (List ℕ → ℕ) → Social → List ℕ → Answer Identity
resolve_target lower size g raw =
    let login = trim_at raw in
    do
      proper ← unless (length login == 0 || ltb 64 (size login)) missing
      known_login (find_row (has_login (lower (trim_at login))) g.identities)

-- `UserByGitHubID`
unfoldable pub user_by_github_id : Social → ℕ → Option User
user_by_github_id g gid =
    find_row (λ u. u.github_id == gid && has_identity g.identities gid) g.users

abbrev pub notify : Inbox → ℕ → ℕ → Option User → ℕ → Inbox
notify s db_now new_id none follower = s
notify s db_now new_id (some followee) follower = notify_follow s db_now new_id followee.id follower

-- `uuid.Nil`
abbrev pub nil_uuid : ℕ
nil_uuid = 0

-- `putFollow`
unfoldable pub put_follow :
    (List ℕ → List ℕ) → (List ℕ → ℕ) → Db → ℕ → ℕ → Option User → List ℕ → Answer (Db × Response)
put_follow lower size db db_now new_id caller raw = do
  u ← must_caller caller
  target ← resolve_target lower size db.social raw
  other ← unless (target.github_id == u.github_id) (bad_request "You cannot follow yourself.")
  free ←
      unless (blocked_either_way db.social u.id u.github_id nil_uuid target.github_id)
        (forbidden "You cannot follow this account.")
  g ← or_missing (follow db.social u.id target.github_id stories_native)
  done (
    record db {
      social = g;
      inbox = notify db.inbox db_now new_id (user_by_github_id g target.github_id) u.id;
    },
    followed target.github_id,
  )

-- `deleteFollow`
unfoldable pub delete_follow :
    (List ℕ → List ℕ) → (List ℕ → ℕ) → Db → Option User → List ℕ → Answer (Db × Response)
delete_follow lower size db caller raw = do
  u ← must_caller caller
  target ← resolve_target lower size db.social raw
  done (record db { social = unfollow db.social u.id target.github_id }, no_content)

pub data Relation : Type 0 where
  mute block hide : Relation

abbrev pub set_relation : Relation → Social → ℕ → ℕ → Bool → Result Social
set_relation mute g user target on = set_mute g user target on
set_relation block g user target on = set_block g user target on
set_relation hide g user target on = set_hide g user target on

-- `toggleRelation`
unfoldable pub toggle_relation :
    (List ℕ → List ℕ)
    → (List ℕ → ℕ)
    → Relation
    → Bool
    → Db
    → Option User
    → List ℕ
    → Answer (Db × Response)
toggle_relation lower size kind on db caller raw = do
  u ← must_caller caller
  target ← resolve_target lower size db.social raw
  other ← unless (target.github_id == u.github_id) (bad_request "You cannot do that to yourself.")
  g ← or_missing (set_relation kind db.social u.id target.github_id on)
  done (record db { social = g }, no_content)
