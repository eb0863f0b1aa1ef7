-- ===== src/Api/Inversion.antt =====
-- What a successful answer says of the calls that it is made of.
use gh_stories.Prelude.{◌≡◌, refl, Bool, true, false, Option, none, some, inl, inr, Bool-cases}
use gh_stories.Domain.{User, is_active}
use gh_stories.Store.Social.{Result, ok, err, not_found, refused}
use gh_stories.Api.{Answer, done, fail, ◌>>=◌, Failure, unless, or_missing, must_caller}

pub >>=-done {ℓ κ} :
    {A : Type ℓ} {B : Type κ} {out : B} (call : Answer A) (then_do : A → Answer B)
    → (call >>= then_do) ≡ done out
    → (x : A) × (call ≡ done x) × (then_do x ≡ done out)
>>=-done (fail e) k h = cc
>>=-done (done x) k h = (x, refl, h)

pub unless-done : (b : Bool) (e : Failure) (x : Unit) → unless b e ≡ done x → b ≡ false
unless-done true e x h = cc
unless-done false e x h = refl

pub or_missing-done {ℓ} : {A : Type ℓ} (r : Result A) (x : A) → or_missing r ≡ done x → r ≡ ok x
or_missing-done (err not_found) x h = cc
or_missing-done (err refused) x h = cc
or_missing-done (ok y) x h = cc

pub must_caller-done :
    (caller : Option User) (u : User)
    → must_caller caller ≡ done u
    → (caller ≡ some u) × (is_active (some u) ≡ true)
unfolding must_caller
must_caller-done none u h = cc
must_caller-done (some v) u h = elim (Bool-cases (is_active (some v))) [
  | inl e ↦ let same = some_of (rw e at h) in (same, rw (← same) e)
  | inr e ↦ let h' = rw e at h in cc
]
  where
    some_of : done v ≡ done u → some v ≡ some u
    some_of g = cc
