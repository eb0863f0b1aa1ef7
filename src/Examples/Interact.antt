-- ===== src/Examples/Interact.antt =====
-- Runs of reactions and the inbox.
use gh_stories.Prelude.{◌≡◌, true, List, [], ◌∷◌, arith}
use gh_stories.Store.Interact.{Inbox, my_reaction}
use gh_stories.Store.Interact.Unique.{
  InboxOp, deliver, acknowledge, react, notify, inbox_run, IsUnique, inbox_run-IsUnique,
}
use gh_stories.Store.Interact.Refine.{my_reaction-inbox_run, map_run}

abbrev nothing : Inbox
nothing = record { views = []; reactions = []; events = []; replies = [] }

-- Bob sees Alice's item twice, reacts twice, and follows her.
abbrev visit : List InboxOp
visit =
    deliver 1 7 2
    ∷ acknowledge 2 7 2
    ∷ react true 3 20 7 2 1 "🔥"
    ∷ react true 4 21 7 2 1 "💀"
    ∷ deliver 5 7 2
    ∷ notify 6 22 1 2
    ∷ []

inbox_run-IsUnique_example : IsUnique (inbox_run nothing visit)
inbox_run-IsUnique_example =
    inbox_run-IsUnique nothing visit (λ a b. omega arith, λ a b. omega arith, λ a b c. omega arith)

my_reaction-inbox_run_example :
    my_reaction (inbox_run nothing visit) 7 2 ≡ map_run (my_reaction nothing) visit 7 2
my_reaction-inbox_run_example = my_reaction-inbox_run nothing visit 7 2
