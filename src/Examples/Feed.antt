-- ===== src/Examples/Feed.antt =====
-- Runs of the feed: Bob sees Alice's item, and Alice her own.
use gh_stories.Prelude.{◌≡◌, ◌≢◌, ◌≤◌, refl, true, false, some, [], ◌∷◌, length, All, Memᴰ}
use gh_stories.Store.Visibility.{Viewer, visible_to_viewer, is_open, author_active}
use gh_stories.Store.Stories.Items.{with_variants}
use gh_stories.Store.Feed.{feed, FeedGroup}
use gh_stories.Store.Feed.Sound.{feed-IsSound, IsSound}
use gh_stories.Store.Feed.Mine.{feed-own}
use gh_stories.Api.Feed.{get_feed, get_author_stories, post_status}
use gh_stories.Api.Feed.Traces.{handlers-without_hidden, without_hidden}
use gh_stories.Examples.{alice, bob, bob_viewer, graph, story}
use gh_stories.Examples.Api.{db}

abbrev alice_viewer : Viewer
alice_viewer = record { id = 1; github_id = 101 }

handlers-without_hidden_example :
    (get_feed (λ t. t ∷ []) (without_hidden db 25 bob) 25 (some bob) true 10
      ≡ get_feed (λ t. t ∷ []) db 25 (some bob) true 10)
    × (get_author_stories (λ l. l) (without_hidden db 25 bob) 25 (some bob) (97 ∷ [])
        ≡ get_author_stories (λ l. l) db 25 (some bob) (97 ∷ []))
    × (post_status (λ l. l) (without_hidden db 25 bob) 25 (some bob) (101 ∷ []) []
        ≡ post_status (λ l. l) db 25 (some bob) (101 ∷ []) [])
handlers-without_hidden_example =
    handlers-without_hidden db 25 bob (λ t. t ∷ []) (λ l. l) true 10 (97 ∷ []) (101 ∷ []) []

feed-IsSound_example :
    (length (feed graph db.pipeline db.inbox bob_viewer 15 false 0).0 ≤ 50)
    × All
        (λ gr. IsSound graph db.pipeline db.inbox bob_viewer 15 false gr × (gr.author_user_id ≢ 2))
        (feed graph db.pipeline db.inbox bob_viewer 15 false 0).0
    × ((gr : FeedGroup)
        → (feed graph db.pipeline db.inbox bob_viewer 15 false 0).1 ≡ some gr
        → IsSound graph db.pipeline db.inbox bob_viewer 15 false gr × (gr.author_user_id ≡ 2))
feed-IsSound_example = feed-IsSound graph db.pipeline db.inbox bob_viewer 15 false 0

alice_sees : visible_to_viewer graph alice_viewer 15 story alice ≡ true
unfolding visible_to_viewer is_open author_active
alice_sees = refl

feed-own_example :
    (gr : FeedGroup) × ((feed graph db.pipeline db.inbox alice_viewer 15 false 1).1 ≡ some gr)
    × Memᴰ (with_variants db.pipeline story) gr.items
feed-own_example =
    feed-own graph db.pipeline db.inbox alice_viewer 15 false 1 story alice (Memᴰ.head refl) refl
      refl alice_sees
