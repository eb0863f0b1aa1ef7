-- ===== src/Store/Stories/Abandoned.antt =====
-- internal/store/jobs.go: `GCAbandonedUploads`.
use gh_stories.Prelude.{
  ℕ, Bool, true, false, ◌&&◌, List, [], ◌∷◌, leb, ◌==◌, if◌then◌else◌, exists_row, count_rows,
  select_rows, update_rows, take, map,
}
use gh_stories.Domain.{UploadState}
use gh_stories.Store.Stories.{UploadIntent, CleanupJob, Pipeline, new_cleanup}

abbrev is_issued : UploadState → Bool
is_issued UploadState.issued = true
is_issued _ = false

abbrev pub is_abandoned : ℕ → UploadIntent → Bool
is_abandoned clock u = is_issued u.state && leb u.expires_at clock

abbrev insert_upload : UploadIntent → List UploadIntent → List UploadIntent
insert_upload u [] = u ∷ []
insert_upload u (w ∷ ws) =
    if leb u.expires_at w.expires_at then u ∷ w ∷ ws else w ∷ insert_upload u ws

-- `ORDER BY expires_at`
abbrev sort_uploads : List UploadIntent → List UploadIntent
sort_uploads [] = []
sort_uploads (u ∷ us) = insert_upload u (sort_uploads us)

abbrev is_due_upload : List UploadIntent → UploadIntent → Bool
is_due_upload due u = exists_row (λ (d : UploadIntent). d.id == u.id) due

-- One job for all of them, and none where nothing is due.
abbrev schedule_uploads : List UploadIntent → ℕ → ℕ → List CleanupJob → List CleanupJob
schedule_uploads [] new_id clock jobs = jobs
schedule_uploads (u ∷ us) new_id clock jobs =
    new_cleanup new_id (map (λ (w : UploadIntent). w.object_key) (u ∷ us)) clock ∷ jobs

abbrev expire_upload : UploadIntent → UploadIntent
expire_upload u = record u { state = UploadState.expired }

-- `GCAbandonedUploads`; the number of expired intents is its other result.
unfoldable pub gc_abandoned_uploads : Pipeline → ℕ → ℕ → ℕ → ℕ × Pipeline
gc_abandoned_uploads p clock new_id limit =
    let due = take limit (sort_uploads (select_rows (is_abandoned clock) p.uploads)) in
    (
      count_rows (is_due_upload due) p.uploads,
      record p {
        uploads = update_rows (is_due_upload due) expire_upload p.uploads;
        cleanup = schedule_uploads due new_id clock p.cleanup;
      },
    )
