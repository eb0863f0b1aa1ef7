-- ===== src/Worker/Stored.antt =====
-- No variant of a Story is on record before its object is stored.
use Prim.Native.String.{String}
use text.Mathlib.TextPositions.{eq_refl}
use gh_stories.Prelude.{
  ℕ, ◌≡◌, refl, Bool, true, ◌&&◌, Option, List, [], ◌∷◌, ◌==◌, ltb, Bool-cases, Option-cases, inl,
  inr, exists_row, find_row, map, All, All-map, arith,
}
use gh_stories.Domain.{MediaVariant, VariantKind, same_kind}
use gh_stories.Store.Stories.{MediaJob, is_job}
use gh_stories.Store.Stories.Jobs.{
  publish_story, fail_media_job, upsert_variant, upsert_variants, for_story, is_processing_item,
}
use gh_stories.Objects.{variant_key}
use gh_stories.Worker.{
  World, Outside, Processed, made, refused, failing, panicked, Fetched, fetched, too_large,
  no_object, unread, Produced, Uploaded, rows, stopped, put_object, has_object, row_of,
  ext_for_mime, upload_variants, record_failure, after_upload, after_process, after_download,
  handle_media_job, add_row, download_original,
}

abbrev Stored : List String → MediaVariant → Type 0
Stored os v = has_object v.object_key os ≡ true

-- Every variant on record has its object.
abbrev pub IsStored : World → Type 0
IsStored w = All (Stored w.objects) w.pipeline.variants

-- All the keys of one set are in the other.
abbrev Grows : List String → List String → Type 0
Grows os qs = (k : String) → has_object k os ≡ true → has_object k qs ≡ true

put_object-Grows : (key : String) (os : List String) → Grows os (put_object key os)
put_object-Grows key os k h = elim (Bool-cases (has_object key os)) [
  | inl e ↦ rw e h
  | inr e ↦ rw e (ground arith)
]

has_object-put_object :
    (key : String) (os : List String) → has_object key (put_object key os) ≡ true
has_object-put_object key os = elim (Bool-cases (has_object key os)) [
  | inl e ↦ rw e e
  | inr e ↦ rw (e, eq_refl key) refl
]

All-Grows :
    (os qs : List String) (vs : List MediaVariant)
    → Grows os qs
    → All (Stored os) vs
    → All (Stored qs) vs
All-Grows os qs vs g h = All-map (Stored os) (Stored qs) vs (λ v s. g v.object_key s) h

module _ (os : List String) where
  upsert_variant-All :
      (v : MediaVariant) (ws : List MediaVariant)
      → Stored os v
      → All (Stored os) ws
      → All (Stored os) (upsert_variant v ws)
  upsert_variant-All v [] h hs = (h, tt)
  upsert_variant-All v (w ∷ ws) h hs =
      elim (Bool-cases (w.story_id == v.story_id && same_kind w.kind v.kind)) [
        | inl e ↦ rw e (h, hs.1)
        | inr e ↦ rw e (hs.0, upsert_variant-All v ws h hs.1)
      ]

  upsert_variants-All :
      (story : ℕ) (vs ws : List MediaVariant)
      → All (Stored os) vs
      → All (Stored os) ws
      → All (Stored os) (upsert_variants (map (for_story story) vs) ws)
  upsert_variants-All story [] ws h hs = hs
  upsert_variants-All story (v ∷ vs) ws h hs =
      upsert_variants-All story vs (upsert_variant (for_story story v) ws) h.1
        (upsert_variant-All (for_story story v) ws h.0 hs)

-- What the uploads leave: more objects, among them those of the rows.
abbrev RowsStored : List String × Uploaded → Type 0
RowsStored (qs, rows vs) = All (Stored qs) vs
RowsStored (qs, stopped e) = Unit

record_failure-variants :
    (w : World) (clock new_id : ℕ) (job : MediaJob) (code message : String) (retryable : Bool)
    → (record_failure w clock new_id job code message retryable).objects ≡ w.objects
      × ((record_failure w clock new_id job code message retryable).pipeline.variants
          ≡ w.pipeline.variants)
unfolding record_failure fail_media_job
record_failure-variants w clock new_id job code message retryable =
    elim (Option-cases (find_row (is_job job.id) w.pipeline.jobs)) [
      | inl e ↦ rw (e, record_failure, fail_media_job) (refl, refl)
      | inr (j, e) ↦ elim (Bool-cases (retryable && ltb j.attempts j.max_attempts)) [
        | inl again ↦ rw (e, again, record_failure, fail_media_job) (refl, refl)
        | inr spent ↦ rw (e, spent, record_failure, fail_media_job) (refl, refl)
      ]
    ]

add_row-Grows :
    (r : MediaVariant) (os : List String) (x : List String × Uploaded)
    → Grows os x.0
    → Stored os r
    → RowsStored x
    → Grows os (add_row r x).0 × RowsStored (add_row r x)
add_row-Grows r os (qs, rows vs) g s h = (g, (g r.object_key s, h))
add_row-Grows r os (qs, stopped e) g s h = (g, tt)

module _ (show : ℕ → String) (upload : VariantKind → Option String) (story : ℕ) where
  upload_variants-Grows :
      (vs : List Produced) (os : List String)
      → Grows os (upload_variants show upload story vs os).0
        × RowsStored (upload_variants show upload story vs os)
  unfolding upload_variants
  upload_variants-Grows [] os = ((λ k h. h), tt)
  upload_variants-Grows (v ∷ vs) os =
      let key = variant_key (show story) v.kind (ext_for_mime v.mime) in
      let (more, kept) = upload_variants-Grows vs (put_object key os) in
      elim (Option-cases (upload v.kind)) [
        | inr (e, failed) ↦ rw (failed, upload_variants) ((λ k h. h), tt)
        | inl done ↦
            let (g, h) =
              add_row-Grows (row_of story key v) (put_object key os)
                (upload_variants show upload story vs (put_object key os)) more
                (has_object-put_object key os) kept in
            rw (done, upload_variants) ((λ k m. g k (put_object-Grows key os k m)), h)
      ]

record_failure-IsStored :
    (w : World) (clock new_id : ℕ) (job : MediaJob) (code message : String) (retryable : Bool)
    → IsStored w
    → IsStored (record_failure w clock new_id job code message retryable)
record_failure-IsStored w clock new_id job code message retryable h =
    let (os, vs) = record_failure-variants w clock new_id job code message retryable in
    rw (os, vs) h

module _ (w : World) (lifetime clock new_id : ℕ) (job : MediaJob) (h : IsStored w) where
  after_upload-IsStored :
      (x : List String × Uploaded)
      → Grows w.objects x.0
      → RowsStored x
      → IsStored (after_upload w lifetime clock new_id job x)
  unfolding publish_story
  after_upload-IsStored (os, stopped e) g s =
      record_failure-IsStored (record w { objects = os }) clock new_id job "internal" e true
        (All-Grows w.objects os w.pipeline.variants g h)
  after_upload-IsStored (os, rows vs) g s =
      elim (Bool-cases
        (exists_row (is_processing_item job.input.story_item_id) w.pipeline.stories)) [
          | inl e ↦ rw e (
              upsert_variants-All os job.input.story_item_id vs w.pipeline.variants s
                (All-Grows w.objects os w.pipeline.variants g h))
          | inr e ↦ rw e (All-Grows w.objects os w.pipeline.variants g h)
        ]

  module _ (show : ℕ → String) (o : Outside) where
    after_process-IsStored :
        (r : Processed) → IsStored (after_process show w lifetime clock new_id job o r)
    after_process-IsStored (made vs) =
        let (g, s) = upload_variants-Grows show o.upload job.input.story_item_id vs w.objects in
        after_upload-IsStored _ g s
    after_process-IsStored (refused code message retryable) =
        record_failure-IsStored w clock new_id job code message retryable h
    after_process-IsStored (failing e) = record_failure-IsStored w clock new_id job _ _ _ h
    after_process-IsStored (panicked e) = record_failure-IsStored w clock new_id job _ _ _ h

    after_download-IsStored :
        (f : Fetched) → IsStored (after_download show w lifetime clock new_id job o f)
    after_download-IsStored fetched = after_process-IsStored o.processed
    after_download-IsStored too_large = record_failure-IsStored w clock new_id job _ _ _ h
    after_download-IsStored no_object = record_failure-IsStored w clock new_id job _ _ _ h
    after_download-IsStored (unread e) = record_failure-IsStored w clock new_id job _ _ _ h

-- However a media job ends, whatever is downloaded, produced or fails to be uploaded: if every variant
-- on record had its object in the store before, every one has after it.
pub handle_media_job-IsStored :
    (show : ℕ → String) (w : World) (limit lifetime clock new_id : ℕ) (job : MediaJob) (o : Outside)
    → IsStored w
    → IsStored (handle_media_job show w limit lifetime clock new_id job o)
unfolding handle_media_job
handle_media_job-IsStored show w limit lifetime clock new_id job o h =
    elim (Option-cases o.temp_dir) [
      | inl e ↦ rw e (
          after_download-IsStored w lifetime clock new_id job h show o
            (download_original limit o.original))
      | inr (m, e) ↦ rw e (record_failure-IsStored w clock new_id job _ _ _ h)
    ]
