-- ===== src/RateLimit.antt =====
-- internal/ratelimit/ratelimit.go: the keyed token buckets that protect the API.
--
-- Times are nanoseconds. The code keeps a bucket's tokens in a float64; here they are exact: one
-- token is `per` units, so that the refill of `burst` tokens in `per` is `burst` units for each
-- nanosecond. Every key is used with one rule, since the API puts the route's scope in the key
-- (`limit`, internal/api/middleware.go). The Go ints are positive in every rule, and 0 stands for
-- the values that `Allow` takes as "no limit".
pub mod Bounds
use text.Mathlib.Text.{◌==◌ as str_eq}
use Prim.Native.String.{String}
use gh_stories.Prelude.{
  ℕ, ◌+◌, ◌-◌, ◌*◌, ◌/◌, Bool, true, false, ◌||◌, ◌&&◌, Option, none, some, List, [], ◌∷◌, ltb, leb,
  ◌==◌, if◌then◌else◌, min,
}

pub record Rule : Type 0 where
  pub burst : ℕ
  pub per : ℕ

pub record Bucket : Type 0 where
  pub tokens : ℕ
  pub last : ℕ

abbrev pub Buckets : Type 0
Buckets = String → Option Bucket

pub record Limiter : Type 0 where
  pub buckets : Buckets
  pub last_gc : ℕ

abbrev pub second : ℕ
second = 1_000_000_000

abbrev pub minute : ℕ
minute = 60 * second

abbrev pub hour : ℕ
hour = 60 * minute

abbrev pub gc_period : ℕ
gc_period = 5 * minute

abbrev pub gc_idle : ℕ
gc_idle = 15 * minute

-- `New`
unfoldable pub new : ℕ → Limiter
new now = record { buckets = λ k. none; last_gc = now }

abbrev pub drop_idle : ℕ → Option Bucket → Option Bucket
drop_idle now none = none
drop_idle now (some b) = if ltb gc_idle (now - b.last) then none else some b

-- `gcLocked`
unfoldable pub gc_locked : Limiter → ℕ → Limiter
gc_locked l now =
    if ltb (now - l.last_gc) gc_period
    then l
    else record { buckets = λ k. drop_idle now (l.buckets k); last_gc = now }

abbrev pub put : String → Bucket → Buckets → Buckets
put k b m j = if str_eq k j then some b else m j

-- The bucket found, or a full one.
abbrev pub or_full : Rule → ℕ → Option Bucket → Bucket
or_full rule now none = record { tokens = rule.burst * rule.per; last = now }
or_full rule now (some b) = b

-- The refill, capped at the burst.
abbrev pub refill : Rule → ℕ → Bucket → ℕ
refill rule now b =
    let grown = b.tokens + (now - b.last) * rule.burst in
    if ltb (rule.burst * rule.per) grown then rule.burst * rule.per else grown

-- `Allow` behind the collection: whether the request may proceed, how long to wait if not.
unfoldable pub take_token : Limiter → String → Rule → ℕ → (Bool × ℕ) × Limiter
take_token l key rule now =
    let tokens = refill rule now (or_full rule now (l.buckets key)) in
    if leb rule.per tokens
    then (
      (true, 0),
      record l { buckets = put key (record { tokens = tokens - rule.per; last = now }) l.buckets },
    )
    else (
      (false, (rule.per - tokens) / rule.burst),
      record l { buckets = put key (record { tokens = tokens; last = now }) l.buckets },
    )

-- `Allow`
unfoldable pub allow : Limiter → String → Rule → ℕ → (Bool × ℕ) × Limiter
allow l key rule now =
    if rule.burst == 0 || rule.per == 0
    then ((true, 0), l)
    else take_token (gc_locked l now) key rule now

abbrev pub rule_upload : Rule
rule_upload = record { burst = 20; per = hour }

abbrev pub rule_reply : Rule
rule_reply = record { burst = 60; per = 10 * minute }

-- One request: the key, its rule and the time.
abbrev pub Request : Type 0
Request = String × Rule × ℕ

-- A sequence of requests to the limiter: how many of a key it lets through.
unfoldable pub granted : String → Limiter → List Request → ℕ
granted key l [] = 0
granted key l ((k, rule, now) ∷ rest) =
    let ((ok, wait), l') = allow l k rule now in
    (if ok && str_eq k key then 1 else 0) + granted key l' rest
