-- ===== src/Examples/Accounts.antt =====
-- Runs of suspensions, the moderator sync and audience lists.
use gh_stories.Prelude.{ℕ, List, [], ◌∷◌}

-- "@b" and an unknown login
abbrev logins : List (List ℕ)
logins = (64 ∷ 98 ∷ []) ∷ (120 ∷ []) ∷ []
