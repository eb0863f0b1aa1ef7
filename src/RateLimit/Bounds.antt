-- ===== src/RateLimit/Bounds.antt =====
-- How many requests the limiter lets through.
use text.Mathlib.Text.{◌==◌ as str_eq}
use text.Mathlib.TextPositions.{eq_refl}
use text.Mathlib.TextEquality.{eq_iff}
use Prim.Native.String.{String}
use native.Mathlib.Nat.{mul-le-mul_right, add-mul}
use gh_stories.Prelude.{
  ℕ, ◌+◌, ◌-◌, ◌*◌, ◌≤◌, ◌<◌, ◌≡◌, refl, Bool, true, false, Option, none, some, List, [], ◌∷◌,
  if◌then◌else◌, arith, inl, inr, ◌==◌, ◌||◌, ◌&&◌, Bool-cases, ap, ◌∙◌,
}
use gh_stories.RateLimit.{
  Rule, Bucket, Limiter, gc_idle, gc_locked, drop_idle, or_full, refill, take_token, allow, granted,
  Request,
}

-- The units that a request for the key finds, when no bucket is collected.
abbrev pub available_in : Rule → ℕ → Option Bucket → ℕ
available_in rule now o = refill rule now (or_full rule now o)

pub available : Limiter → String → Rule → ℕ → ℕ
available l key rule now = available_in rule now (l.buckets key)

-- An idle time longer than the window refills the bucket.
full_after_idle :
    (rule : Rule) (now : ℕ) (b : Bucket)
    → rule.per ≤ gc_idle
    → gc_idle < now - b.last
    → rule.burst * rule.per ≤ b.tokens + (now - b.last) * rule.burst
full_after_idle rule now b h idle =
    let longer : rule.per ≤ now - b.last = omega arith in
    grind (arith, mul-le-mul_right rule.burst longer)

available_in-drop_idle :
    (rule : Rule) (now : ℕ) (o : Option Bucket)
    → rule.per ≤ gc_idle
    → available_in rule now (drop_idle now o) ≡ available_in rule now o
available_in-drop_idle rule now none h = refl
available_in-drop_idle rule now (some b) h = ground (arith, full_after_idle rule now b h)

-- Where a rule's window is at most the fifteen minutes after which an idle bucket is dropped, the
-- collection changes no key's available units.
pub available-gc_locked :
    (l : Limiter) (key : String) (rule : Rule) (now : ℕ)
    → rule.per ≤ gc_idle
    → available (gc_locked l now) key rule now ≡ available l key rule now
unfolding available gc_locked
available-gc_locked l key rule now h =
    ground (arith, available_in-drop_idle rule now (l.buckets key) h)

-- A key's bucket was last used before now.
abbrev pub IsPast : Option Bucket → ℕ → Type 0
IsPast none now = Unit {0}
IsPast (some b) now = b.last ≤ now

available_in_mono :
    (rule : Rule) (now later : ℕ) (o : Option Bucket)
    → IsPast o now
    → now ≤ later
    → available_in rule later o ≤ available_in rule now o + (later - now) * rule.burst
available_in_mono rule now later none p h = ground arith
available_in_mono rule now later (some b) p h =
    let split : (later - b.last) * rule.burst
        ≡ (now - b.last) * rule.burst + (later - now) * rule.burst =
      ap (λ (t : ℕ). t * rule.burst)
        (let gap : later - b.last ≡ (now - b.last) + (later - now) = omega arith in gap)
      ∙ add-mul (now - b.last) (later - now) rule.burst in
    ground arith

take_token-IsPast :
    (l : Limiter) (key other : String) (rule : Rule) (now : ℕ)
    → IsPast (l.buckets key) now
    → IsPast ((take_token l other rule now).1.buckets key) now
unfolding take_token
take_token-IsPast l key other rule now p = elim (Bool-cases (str_eq other key)) [
  | inl e ↦ ground arith
  | inr e ↦ ground arith
]

-- A request of the key takes one token if it may proceed, and nothing if not.
available-take_token :
    (l : Limiter) (key : String) (rule : Rule) (now : ℕ)
    → available (take_token l key rule now).1 key rule now
        + (if (take_token l key rule now).0.0 then rule.per else 0)
      ≡ available l key rule now
unfolding take_token available
available-take_token l key rule now = let same = eq_refl key in ground arith

-- A request of another key changes nothing for this one.
available-take_token_ne :
    (l : Limiter) (key other : String) (rule rule' : Rule) (now : ℕ)
    → str_eq other key ≡ false
    → available (take_token l other rule' now).1 key rule now ≡ available l key rule now
unfolding take_token available
available-take_token_ne l key other rule rule' now ne = ground arith

gc_locked-IsPast :
    (l : Limiter) (key : String) (now : ℕ)
    → IsPast (l.buckets key) now
    → IsPast ((gc_locked l now).buckets key) now
unfolding gc_locked
gc_locked-IsPast l key now p = ground arith

allow-IsPast :
    (l : Limiter) (key other : String) (rule : Rule) (now : ℕ)
    → IsPast (l.buckets key) now
    → IsPast ((allow l other rule now).1.buckets key) now
unfolding allow
allow-IsPast l key other rule now p = elim (Bool-cases (rule.burst == 0 || rule.per == 0)) [
  | inl e ↦ rw e p
  | inr e ↦
      rw e (take_token-IsPast (gc_locked l now) key other rule now (gc_locked-IsPast l key now p))
]

-- The units that a request spends of the key.
abbrev spent : Limiter → String → String → Rule → Rule → ℕ → ℕ
spent l key k rule r now = if (allow l k r now).0.0 && str_eq k key then rule.per else 0

allow-limited :
    (l : Limiter) (key : String) (rule : Rule) (now : ℕ)
    → 0 < rule.burst
    → 0 < rule.per
    → allow l key rule now ≡ take_token (gc_locked l now) key rule now
unfolding allow
allow-limited l key rule now hb hp = ground arith

spent-limited :
    (l : Limiter) (key : String) (rule : Rule) (now : ℕ)
    → rule.per ≤ gc_idle
    → 0 < rule.burst
    → 0 < rule.per
    → available (allow l key rule now).1 key rule now + spent l key key rule rule now
      ≡ available l key rule now
spent-limited l key rule now h hb hp = rw (allow-limited l key rule now hb hp) (
    ground (
      arith,
      eq_refl key,
      available-take_token (gc_locked l now) key rule now,
      available-gc_locked l key rule now h,
    ))

spent_ne :
    (l : Limiter) (key k : String) (rule r : Rule) (now : ℕ)
    → rule.per ≤ gc_idle
    → str_eq k key ≡ false
    → available (allow l k r now).1 key rule now ≡ available l key rule now
unfolding allow
spent_ne l key k rule r now h ne = elim (Bool-cases (r.burst == 0 || r.per == 0)) [
  | inl e ↦ rw e
  | inr e ↦ rw e (
      available-take_token_ne (gc_locked l now) key k rule r now ne
      ∙ available-gc_locked l key rule now h)
]

-- The request at hand spends what it takes of the key's units, and no other request does.
available-allow :
    (l : Limiter) (key k : String) (rule r : Rule) (now : ℕ)
    → rule.per ≤ gc_idle
    → 0 < rule.burst
    → 0 < rule.per
    → (str_eq k key ≡ true → r ≡ rule)
    → available (allow l k r now).1 key rule now + spent l key k rule r now
      ≡ available l key rule now
available-allow l key k rule r now h hb hp uses = elim (Bool-cases (str_eq k key)) [
  | inl e ↦
      let same : k ≡ key = (eq_iff k key).0 e in
      rw (uses e, same) (spent-limited l key rule now h hb hp)
  | inr e ↦ ground (arith, spent_ne l key k rule r now h e)
]

-- Requests in order of time, from `now` to `end`, of which those for the key use the rule.
abbrev pub Ordered : String → Rule → ℕ → ℕ → List Request → Type 0
Ordered key rule now end [] = now ≤ end
Ordered key rule now end ((k, r, t) ∷ rest) =
    (now ≤ t) × (str_eq k key ≡ true → r ≡ rule) × Ordered key rule t end rest

available_mono :
    (l : Limiter) (key : String) (rule : Rule) (now later : ℕ)
    → IsPast (l.buckets key) now
    → now ≤ later
    → available l key rule later ≤ available l key rule now + (later - now) * rule.burst
unfolding available
available_mono l key rule now later p h = available_in_mono rule now later (l.buckets key) p h

Ordered-le :
    (key : String) (rule : Rule) (now end : ℕ) (reqs : List Request)
    → Ordered key rule now end reqs
    → now ≤ end
Ordered-le key rule now end [] h = h
Ordered-le key rule now end ((k, r, t) ∷ rest) h = omega (arith, Ordered-le key rule t end rest h.2)

IsPast-mono : (o : Option Bucket) (now later : ℕ) → IsPast o now → now ≤ later → IsPast o later
IsPast-mono none now later p h = tt
IsPast-mono (some b) now later p h = omega arith

charge :
    (b : Bool) (n per : ℕ) → ((if b then 1 else 0) + n) * per ≡ (if b then per else 0) + n * per
charge true n per = omega arith
charge false n per = omega arith

-- Over requests of all keys in order of time, those of one key that the limiter lets through cost at
-- most the units the key had at the start and what the elapsed time refills, for every rule whose
-- window is at most fifteen minutes.
pub granted-le :
    (l : Limiter) (key : String) (rule : Rule) (now end : ℕ) (reqs : List Request)
    → rule.per ≤ gc_idle
    → 0 < rule.burst
    → 0 < rule.per
    → IsPast (l.buckets key) now
    → Ordered key rule now end reqs
    → granted key l reqs * rule.per ≤ available l key rule now + (end - now) * rule.burst
unfolding granted
granted-le l key rule now end [] h hb hp p o = omega arith
granted-le l key rule now end ((k, r, t) ∷ rest) h hb hp p (later, uses, o) =
    let step = available-allow l key k rule r t h hb hp uses in
    let grow = available_mono l key rule now t p later in
    let past = IsPast-mono (l.buckets key) now t p later in
    let ih =
      granted-le (allow l k r t).1 key rule t end rest h hb hp (allow-IsPast l key k r t past) o in
    let split : (end - now) * rule.burst ≡ (t - now) * rule.burst + (end - t) * rule.burst =
      ap (λ (x : ℕ). x * rule.burst) (gaps now t end later (Ordered-le key rule t end rest o))
      ∙ add-mul (t - now) (end - t) rule.burst in
    let price =
      charge ((allow l k r t).0.0 && str_eq k key) (granted key (allow l k r t).1 rest) rule.per in
    omega arith
  where
    gaps : (a b c : ℕ) → a ≤ b → b ≤ c → c - a ≡ (b - a) + (c - b)
    gaps a b c x y = omega arith
