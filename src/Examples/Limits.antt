-- ===== src/Examples/Limits.antt =====
-- Runs of the rate limiter.
use gh_stories.Prelude.{◌+◌, ◌-◌, ◌*◌, ◌≤◌, refl, none, some, List, [], ◌∷◌, arith}
use gh_stories.RateLimit.{Limiter, granted, rule_reply, Request}
use gh_stories.RateLimit.Bounds.{available, granted-le}

abbrev fresh : Limiter
fresh = record { buckets = λ k. none; last_gc = 0 }

-- Three replies of one account.
abbrev replies : List Request
replies = ("a", rule_reply, 1) ∷ ("a", rule_reply, 2) ∷ ("b", rule_reply, 3) ∷ []

granted-le_example :
    granted "a" fresh replies * rule_reply.per
    ≤ available fresh "a" rule_reply 0 + (5 - 0) * rule_reply.burst
granted-le_example =
    granted-le fresh "a" rule_reply 0 5 replies (omega arith) (omega arith) (omega arith) tt
      (omega arith, λ e. refl, (omega arith, λ e. refl, (omega arith, λ e. cc, omega arith)))

-- All twenty uploads were spent sixteen minutes ago.
abbrev spent : Limiter
spent = record { buckets = λ k. some (record { tokens = 0; last = 0 }); last_gc = 0 }
