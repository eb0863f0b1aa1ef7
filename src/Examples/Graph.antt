-- ===== src/Examples/Graph.antt =====
-- Runs on the social graph and the visibility rules.
use gh_stories.Prelude.{
  some, ◌≤◌, length, ℕ, ◌≡◌, ◌↔◌, ◌⊎◌, refl, inl, true, false, List, [], ◌∷◌, ◌++◌, All, arith,
}
use gh_stories.Domain.{Relationship}
use gh_stories.Store.Social.{
  Social, Action, added, ok, follow, set_block, user_of, github_of, import_follows, Result,
  upsert_follow, import_loop, decide_import, import_blocked, upsert_identity, insert_identity, err,
  refused,
}
use gh_stories.Store.Social.Imports.{import_follows-Extends, IsImported}
use gh_stories.Api.Callback.{ImportSummary, run_import, no_summary}
use gh_stories.Api.Callback.Counts.{counted, run_import-counted}
use gh_stories.Store.Social.Preview.{import_follows-preview, Conflicts}
use gh_stories.Store.Visibility.{visible_to_viewer}
use gh_stories.Store.Visibility.Rules.{visible_to_viewer_iff, MaySee}
use gh_stories.Store.Visibility.Changes.{visible_to_viewer-set_block}
use gh_stories.Examples.{alice, graph, bob_viewer, story, alice_identity}

visible_to_viewer_iff_example :
    (visible_to_viewer graph bob_viewer 15 story alice ≡ true)
    ↔ MaySee graph bob_viewer 15 story alice
visible_to_viewer_iff_example = visible_to_viewer_iff graph bob_viewer 15 story alice

-- The value of a call that succeeds.
abbrev value : Social → Result Social → Social
value g (ok h) = h
value g _ = g

abbrev blocked_graph : Social
blocked_graph = value graph (set_block graph 2 101 true)

visible_to_viewer-set_block_example :
    visible_to_viewer blocked_graph bob_viewer 15 story alice ≡ false
unfolding set_block
visible_to_viewer-set_block_example =
    visible_to_viewer-set_block graph blocked_graph bob_viewer 15 story alice (inl refl)
      (λ e. omega (arith, e))

-- Bob imports a follow of Alice.
abbrev imported : Result (Social × List (ℕ × Action))
imported = import_follows graph 2 (alice_identity ∷ []) false 3

abbrev graph_of : Result (Social × List (ℕ × Action)) → Social
graph_of (ok r) = r.0
graph_of _ = graph

import_follows-Extends_example :
    (rows : List Relationship) × ((graph_of imported).relationships ≡ graph.relationships ++ rows)
    × All (IsImported 2) rows
unfolding import_follows import_loop follow upsert_follow decide_import import_blocked
    upsert_identity insert_identity user_of github_of
import_follows-Extends_example =
    import_follows-Extends graph (graph_of imported) 2 3 (alice_identity ∷ []) ((101, added) ∷ [])
      refl

import_follows-preview_example :
    ((h : Social) × (changes : List (ℕ × Action)) × (import_follows graph 2
          (alice_identity ∷ [])
          true
          3
        ≡ ok (graph, changes))
      × (import_follows graph 2 (alice_identity ∷ []) false 3 ≡ ok (h, changes)))
    ⊎ ((import_follows graph 2 (alice_identity ∷ []) true 3 ≡ err refused)
        × (import_follows graph 2 (alice_identity ∷ []) false 3 ≡ err refused)
        × Conflicts graph.identities (alice_identity ∷ []))
import_follows-preview_example =
    import_follows-preview graph 2 3 (alice_identity ∷ []) (tt, tt) refl

run_import-counted_example :
    ((h : Social) × (m : ImportSummary) × (run_import graph 2
          (some (alice_identity ∷ []))
          true
          false
          3
        ≡ some (ok (h, m)))
      × (counted m ≡ 1)
      × (m.github_following_count ≡ 1)
      × (length m.sample ≤ 5))
    × (run_import graph 2 (some (alice_identity ∷ [])) false false 3
        ≡ some (ok (graph, no_summary 0)))
run_import-counted_example =
    run_import-counted graph 2 3 (alice_identity ∷ []) false refl (tt, tt) (refl, tt)
