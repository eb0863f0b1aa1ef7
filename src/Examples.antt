-- ===== src/Examples.antt =====
-- Concrete runs: each general theorem applied where its conditions hold. This module declares the
-- data that the runs share.
mod Terminal
mod Limits
mod Graph
mod Pipeline
mod Logins
mod Accounts
mod Interact
mod Api
mod Account
mod Feed
mod Worker
mod Posting
mod Tui
mod Media
use gh_stories.Prelude.{ℕ, none, some, List, [], ◌∷◌, false, true}
use gh_stories.Domain.{
  User, Relationship, active, stories_native, StoryItem, followers_of_author, published,
}
use gh_stories.Store.Social.{Social, Identity}
use gh_stories.Store.Visibility.{Viewer}

abbrev alice : User
alice = record {
  id = 1;
  github_id = 101;
  is_moderator = false;
  suspended_at = none;
  deleted_at = none;
  onboarded_at = none;
}

abbrev bob : User
bob = record {
  id = 2;
  github_id = 102;
  is_moderator = false;
  suspended_at = none;
  deleted_at = none;
  onboarded_at = none;
}

abbrev alice_identity : Identity
alice_identity = record { github_id = 101; login_lower = 97 ∷ [] }

abbrev bob_identity : Identity
bob_identity = record { github_id = 102; login_lower = 98 ∷ [] }

-- Alice follows Bob.
abbrev graph : Social
graph = record {
  users = alice ∷ bob ∷ [];
  identities = alice_identity ∷ bob_identity ∷ [];
  relationships =
      record {
        follower_user_id = 1;
        followee_github_id = 102;
        state = active;
        provenance = stories_native;
      }
      ∷ [];
  mutes = [];
  blocks = [];
  hide_rules = [];
  lists = [];
  members = [];
}

abbrev bob_viewer : Viewer
bob_viewer = record { id = 2; github_id = 102 }

-- An item of Alice's for the people she follows, with a window from 10 to 20.
abbrev story : StoryItem
story = record {
  id = 7;
  author_user_id = 1;
  media_job_id = 5;
  state = published;
  caption = "";
  alt_text = "";
  visibility = followers_of_author;
  audience_list_id = none;
  allow_replies = true;
  allow_reactions = true;
  published_at = some 10;
  expires_at = some 20;
  deleted_at = none;
  removed_by = none;
  removal_reason = "";
  failure_code = "";
  failure_message = "";
  anonymous_view_count = 0;
}
