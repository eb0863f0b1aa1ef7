-- ===== src/Api/Limits.antt =====
-- internal/api/middleware.go: the rate limit in front of a handler.
--
-- The key is the scope of the route and the client's account or address.
use Prim.Native.String.{String}
use gh_stories.Prelude.{ℕ, ◌+◌, ◌/◌, if◌then◌else◌}
use gh_stories.RateLimit.{Rule, Limiter, allow, second}
use gh_stories.Api.{Answer, fail, rate_limited}

-- `limit`: the limiter after the request, and the answer, with the seconds of Retry-After.
unfoldable pub limit {ℓ} :
    {A : Type ℓ} → Limiter → Rule → String → ℕ → Answer A → Limiter × Answer A
limit l rule key now next =
    let r = allow l key rule now in
    (r.1, if r.0.0 then next else fail (rate_limited (r.0.1 / second + 1)))
