-- ===== src/Store/Visibility.antt =====
-- internal/store/visibility.go: the one SQL fragment that says who may see a Story item.
pub mod Rules
pub mod Changes
use gh_stories.Prelude.{
  ℕ, Bool, true, false, not, ◌&&◌, ◌||◌, Option, none, some, ltb, ◌==◌, exists_row,
}
use gh_stories.Domain.{
  User, StoryItem, Visibility, followers_of_author, author_follows, mutuals, custom_list, everyone,
  is_none, is_published,
}
use gh_stories.Store.Social.{Social, is_active_edge, is_rule, equals}

pub record Viewer : Type 0 where
  pub id : ℕ
  pub github_id : ℕ

abbrev pub before : ℕ → Option ℕ → Bool
before now none = false
before now (some t) = ltb now t

-- The first four conjuncts of the fragment.
unfoldable pub is_open : StoryItem → ℕ → Bool
is_open si now = is_published si.state && not (is_none si.published_at) && before now si.expires_at

-- The conjuncts on the author's account.
unfoldable pub author_active : User → Bool
author_active au = is_none au.suspended_at && is_none au.deleted_at

unfoldable pub blocked : Social → Viewer → StoryItem → User → Bool
blocked g v si au =
    exists_row (λ b. is_rule v.id au.github_id b || is_rule si.author_user_id v.github_id b)
      g.blocks

unfoldable pub hidden : Social → Viewer → StoryItem → Bool
hidden g v si = exists_row (is_rule si.author_user_id v.github_id) g.hide_rules

-- The signed-in user that the author follows, and the one who follows the author.
unfoldable pub followed_by_author : Social → Viewer → StoryItem → Bool
followed_by_author g v si =
    exists_row (is_active_edge si.author_user_id v.github_id) g.relationships

unfoldable pub follows_author : Social → Viewer → User → Bool
follows_author g v au = exists_row (is_active_edge v.id au.github_id) g.relationships

unfoldable pub on_list : Social → Viewer → StoryItem → Bool
on_list g v si =
    exists_row
      (λ m.
        equals si.audience_list_id m.list_id
        && m.github_id == v.github_id
        && exists_row
            (λ al. al.id == m.list_id && al.owner_user_id == si.author_user_id && not al.is_deleted)
            g.lists)
      g.members

-- The `CASE` on the visibility.
unfoldable pub admits : Social → Viewer → StoryItem → User → Visibility → Bool
admits g v si au followers_of_author = followed_by_author g v si
admits g v si au author_follows = follows_author g v au
admits g v si au mutuals = followed_by_author g v si && follows_author g v au
admits g v si au custom_list = on_list g v si
admits g v si au everyone = true

-- `visibleToViewer`
unfoldable pub visible_to_viewer : Social → Viewer → ℕ → StoryItem → User → Bool
visible_to_viewer g v now si au =
    is_open si now
    && author_active au
    && (si.author_user_id == v.id
        || not (blocked g v si au) && not (hidden g v si) && admits g v si au si.visibility)

-- The `WHERE` of `PublicStory`, which needs no viewer.
unfoldable pub visible_to_anyone : ℕ → StoryItem → User → Bool
visible_to_anyone now si au = is_open si now && author_active au && is_everyone si.visibility
  where
    is_everyone : Visibility → Bool
    is_everyone everyone = true
    is_everyone _ = false
