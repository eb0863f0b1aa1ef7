-- ===== src/Store/Stories/Claims.antt =====
-- Leases: a claimed media job, and who may claim it again.
use Prim.Native.String.{String}
use gh_stories.Prelude.{
  ℕ, ◌+◌, ◌≤◌, ◌≡◌, ◌≢◌, ◌⊎◌, leb, refl, sym, inl, inr, Bool, true, false, some, some-injective,
  List, [], ◌∷◌, Memᴰ, arith, if◌then◌else◌, All, All-Mem, All-update_rows_of, Bool-cases,
  Option-cases,
}
use gh_stories.Store.Social.{ok, ok-elim}
use gh_stories.Store.Stories.{Pipeline, MediaJob, is_job}
use gh_stories.Store.Stories.Jobs.{
  is_claimable, is_leased, oldest, older, claim_media_job, lease_media,
}

older-either : (j k : MediaJob) → (older j (some k) ≡ j) ⊎ (older j (some k) ≡ k)
older-either j k = elim (Bool-cases (leb j.created_at k.created_at)) [
  | inl e ↦ inl (rw e refl)
  | inr e ↦ inr (rw e refl)
]

-- The job that a claim takes is stored and claimable.
pub oldest_sound :
    (p : MediaJob → Bool) (js : List MediaJob) (j : MediaJob)
    → oldest p js ≡ some j
    → Memᴰ j js × (p j ≡ true)
unfolding oldest
oldest_sound p [] j h = cc
oldest_sound p (i ∷ js) j h = elim (Bool-cases (p i)) [
  | inr e ↦ let (m, pj) = oldest_sound p js j (rw e at h) in (Memᴰ.tail m, pj)
  | inl e ↦ elim (Option-cases (oldest p js)) [
    | inl none_left ↦ here i (rw (e, none_left) at h) e
    | inr (k, f) ↦ elim (older-either i k) [
      | inl first ↦ here i (rw (e, f, first) at h) e
      | inr later ↦
          let (m, pk) = oldest_sound p js k f in
          let same : k ≡ j = some-injective _ _ (rw (e, f, later) at h) in
          (Memᴰ.tail (rw (← same) m), rw (← same) pk)
    ]
  ]
]
  where
    here : (x : MediaJob) → some x ≡ some j → p x ≡ true → Memᴰ j (x ∷ js) × (p j ≡ true)
    here x f e = let same = some-injective _ _ f in (Memᴰ.head (sym same), rw (← same) e)

-- The row of this id, if there is one, is leased until then.
IsHeld : ℕ → ℕ → MediaJob → Type 0
IsHeld id until j =
    (is_job id j ≡ false) ⊎ ((is_leased j.state ≡ true) × (j.lease_expires_at ≡ some until))

leased_row :
    (owner : String) (until id : ℕ) (x : MediaJob)
    → IsHeld id until (if is_job id x then lease_media owner until x else x)
unfolding IsHeld
leased_row owner until id x = elim (Bool-cases (is_job id x)) [
  | inl e ↦ rw e (inr (refl, refl))
  | inr e ↦ rw e (inl e)
]

-- What a successful claim takes, and what it leaves.
claim_media_job-ok :
    (p q : Pipeline) (clock lease : ℕ) (owner : String) (j : MediaJob)
    → claim_media_job p clock owner lease ≡ ok (j, q)
    → ((i : MediaJob) × Memᴰ i p.jobs × (is_claimable clock i ≡ true) × (j.id ≡ i.id))
      × All (IsHeld j.id (clock + lease)) q.jobs
unfolding claim_media_job
claim_media_job-ok p q clock lease owner j h =
    elim (Option-cases (oldest (is_claimable clock) p.jobs)) [
      | inl e ↦ let f = rw e at h in cc
      | inr (i, e) ↦
          let (m, c) = oldest_sound _ p.jobs i e in
          ok-elim
            (λ r.
              ((x : MediaJob) × Memᴰ x p.jobs × (is_claimable clock x ≡ true) × (r.0.id ≡ x.id))
              × All (IsHeld r.0.id (clock + lease)) r.1.jobs)
            (rw e at h)
            (
              (i, m, c, refl),
              All-update_rows_of (IsHeld i.id (clock + lease)) (is_job i.id)
                  (lease_media owner (clock + lease)) p.jobs
                  (λ x n. leased_row owner (clock + lease) i.id x),
            )
    ]

-- While a lease runs, its job is not handed to a second worker: a successful claim that comes
-- right after a successful claim, at the latest when the first lease ends, takes another job.
pub claim_media_job-again :
    (p q r : Pipeline) (clock lease clock_b lease_b : ℕ) (owner owner_b : String) (j k : MediaJob)
    → claim_media_job p clock owner lease ≡ ok (j, q)
    → claim_media_job q clock_b owner_b lease_b ≡ ok (k, r)
    → clock_b ≤ clock + lease
    → k.id ≢ j.id
unfolding IsHeld
claim_media_job-again p q r clock lease clock_b lease_b owner owner_b j k h i within same =
    let (_, held) = claim_media_job-ok p q clock lease owner j h in
    let ((x, m, c, e), _) = claim_media_job-ok q r clock_b lease_b owner_b k i in
    let kept = All-Mem (IsHeld j.id (clock + lease)) m held in ground arith
