-- ===== src/Worker/Dropped.antt =====
-- What becomes of a job whose Story was deleted while it ran.
use Prim.Native.String.{String}
use gh_stories.Prelude.{
  ℕ, ◌+◌, ◌≡◌, ◌<◌, ◌≤◌, refl, true, false, ◌&&◌, Option, none, List, [], ◌∷◌, ==_refl, Bool-cases,
  Option-cases, inl, inr, exists_row, update_rows, Memᴰ, arith,
}
use gh_stories.Domain.{VariantKind}
use gh_stories.Store.Social.{ok, ok-elim}
use gh_stories.Store.Stories.{Pipeline, MediaJob, is_job}
use gh_stories.Store.Stories.Jobs.{
  claim_media_job, publish_story, is_processing_item, is_claimable, lease_media, oldest,
}
use gh_stories.Store.Stories.Claims.{oldest_sound}
use gh_stories.Worker.{
  World, Outside, Produced, made, fetched, Uploaded, rows, stopped, upload_variants,
  handle_media_job, download_original, add_row, after_upload,
}

-- All variants were uploaded.
abbrev Succeeded : List String × Uploaded → Type 0
Succeeded (os, rows vs) = Unit
Succeeded (os, stopped e) = ⊥

add_row-Succeeded : (r : _) (x : List String × Uploaded) → Succeeded x → Succeeded (add_row r x)
add_row-Succeeded r (os, rows vs) h = tt
add_row-Succeeded r (os, stopped e) h = h

upload_variants-Succeeded :
    (show : ℕ → String) (upload : VariantKind → Option String) (story : ℕ) (vs : List Produced)
    (os : List String)
    → ((k : VariantKind) → upload k ≡ none)
    → Succeeded (upload_variants show upload story vs os)
unfolding upload_variants
upload_variants-Succeeded show upload story [] os h = tt
upload_variants-Succeeded show upload story (v ∷ vs) os h =
    rw (h v.kind, upload_variants)
      (add_row-Succeeded _ _ (upload_variants-Succeeded show upload story vs _ h))

-- A refused publication leaves the tables.
after_upload-refused :
    (w : World) (lifetime clock new_id : ℕ) (job : MediaJob) (x : List String × Uploaded)
    → Succeeded x
    → exists_row (is_processing_item job.input.story_item_id) w.pipeline.stories ≡ false
    → (after_upload w lifetime clock new_id job x).pipeline ≡ w.pipeline
unfolding publish_story
after_upload-refused w lifetime clock new_id job (os, stopped e) h gone = absurd h
after_upload-refused w lifetime clock new_id job (os, rows vs) h gone = rw gone refl

-- The lease of a row that was due runs out.
leased_due :
    (i : MediaJob) (js : List MediaJob) (owner : String) (now until later : ℕ)
    → Memᴰ i js
    → is_claimable now i ≡ true
    → now ≤ until
    → until < later
    → exists_row
        (λ k. is_job i.id k && is_claimable later k)
        (update_rows (is_job i.id) (lease_media owner until) js)
      ≡ true
leased_due i [] owner now until later m due le lt = elim m [ ]
leased_due i (x ∷ js) owner now until later (Memᴰ.head e) due le lt =
    let own : is_job i.id x ≡ true = rw (← e) (==_refl i.id) in
    let due_x : is_claimable now x ≡ true = rw (← e) due in rw own (ground arith)
leased_due i (x ∷ js) owner now until later (Memᴰ.tail m) due le lt =
    let rest = leased_due i js owner now until later m due le lt in
    elim (Bool-cases (is_job i.id x)) [
      | inl own ↦ rw own (ground arith)
      | inr other ↦ rw other (ground arith)
    ]

abbrev pub world_of : Pipeline → List String → World
world_of q objects = record { pipeline = q; objects = objects }

-- A job whose Story is no longer being processed when it is to be published is never finished: though
-- nothing fails, the tables stay as its claim left them, and as soon as its lease has run out it may
-- be claimed again, however often that was done before.
pub handle_media_job-dropped :
    (show : ℕ → String) (p q : Pipeline) (objects : List String)
    (clock lease limit lifetime ended : ℕ) (new_id later : ℕ) (owner : String) (j : MediaJob)
    (o : Outside) (vs : List Produced)
    → claim_media_job p clock owner lease ≡ ok (j, q)
    → o.temp_dir ≡ none
    → download_original limit o.original ≡ fetched
    → o.processed ≡ made vs
    → ((k : VariantKind) → o.upload k ≡ none)
    → exists_row (is_processing_item j.input.story_item_id) q.stories ≡ false
    → clock + lease < later
    → ((handle_media_job show (world_of q objects) limit lifetime ended new_id j o).pipeline ≡ q)
      × (exists_row (λ k. is_job j.id k && is_claimable later k) q.jobs ≡ true)
unfolding handle_media_job claim_media_job
handle_media_job-dropped show p q objects clock lease limit lifetime ended new_id later owner j o vs
      h dir got made_vs up gone lt =
    (
      rw (dir, got, made_vs, handle_media_job)
          (after_upload-refused (world_of q objects) lifetime ended new_id j
            (upload_variants show o.upload j.input.story_item_id vs objects)
            (upload_variants-Succeeded show o.upload j.input.story_item_id vs objects up) gone),
      elim (Option-cases (oldest (is_claimable clock) p.jobs)) [
        | inl e ↦ let f = rw e at h in absurd (cc)
        | inr (i, e) ↦
            let (m, due) = oldest_sound _ p.jobs i e in
            ok-elim
              (λ (r : MediaJob × Pipeline).
                exists_row (λ k. is_job r.0.id k && is_claimable later k) r.1.jobs ≡ true)
              (rw e at h)
              (leased_due i p.jobs owner clock (clock + lease) later m due (omega arith) lt)
      ],
    )
