-- ===== src/Store/Stories/Rows.antt =====
-- What every operation of the pipeline does to one row of `story_items`.
use Prim.Native.String.{String}
use gh_stories.Prelude.{
  ℕ, ◌+◌, ◌≡◌, Bool, true, false, ◌&&◌, ◌==◌, Option, none, some, List, [], ◌∷◌, All,
  All-update_rows, arith, exists_row, ltb, Bool-cases, Option-cases, leb, inl, inr, find_row,
}
use gh_stories.Domain.{
  StoryItem, is_processing, is_published, deleted, removed, UploadState, MediaVariant,
}
use gh_stories.Store.Stories.{Pipeline, UploadIntent, has_id, is_job, is_upload}
use gh_stories.Store.Stories.Cleanup
use gh_stories.Store.Stories.Uploads.{
  Finalize, Finalized, new_story_item, create_upload_intent, stash_draft, upload_intent,
  finalize_upload, finalize_in, item_of,
}
use gh_stories.Store.Stories.Jobs.{
  publish_row, fail_story_row, is_processing_item, oldest, is_claimable, claim_media_job,
  publish_story, fail_media_job, reap_expired_leases,
}
use gh_stories.Store.Stories.Items.{
  Edit, edit_row, is_deletable, is_own_published, record_anonymous_view, update_story, delete_story,
  expire_stories,
}
use gh_stories.Store.Stories.Abandoned.{gc_abandoned_uploads}
use gh_stories.Store.Stories.Run.{gc_uploads}
use gh_stories.Store.Stories.Cleanup.{
  claim_cleanup_job, complete_cleanup_job, fail_cleanup_job, first_due,
}
use gh_stories.Store.Stories.Run.{
  Op, create, stash, finalize, claim, publish, fail, reap, view, edit, delete, expire,
  claim_cleanup, complete_cleanup, fail_cleanup, step, run, committed,
}

-- A property of rows that every statement keeps, for items that live for `lifetime`.
pub record Keeps (lifetime : ℕ) (P : StoryItem → Type 0) : Type 0 where
  pub on_publish :
      (s : StoryItem) (now : ℕ)
      → is_processing s.state ≡ true
      → P s
      → P (publish_row now (now + lifetime) s)
  pub on_fail :
      (s : StoryItem) (code message : String)
      → is_processing s.state ≡ true
      → P s
      → P (fail_story_row code message s)
  pub on_edit : (s : StoryItem) (e : Edit) → is_published s.state ≡ true → P s → P (edit_row e s)
  pub on_remove :
      (s : StoryItem) (now owner : ℕ) (reason : String)
      → P s
      → P (record s {
        state = removed;
        deleted_at = some now;
        removed_by = some owner;
        removal_reason = reason;
      })
  pub on_delete :
      (s : StoryItem) (now : ℕ) → P s → P (record s { state = deleted; deleted_at = some now })
  pub on_view :
      (s : StoryItem) → P s → P (record s { anonymous_view_count = s.anonymous_view_count + 1 })

-- The row that an operation may create.
abbrev pub created : Op → Option Finalize
created (finalize clock a) = some a
created _ = none

abbrev pub OnSome : (Finalize → Type 0) → Option Finalize → Type 0
OnSome P none = Unit
OnSome P (some a) = P a

abbrev pub Creates : (StoryItem → Type 0) → Op → Type 0
Creates P o = OnSome (λ a. P (new_story_item a)) (created o)

on_some :
    (P Q : Finalize → Type 0) (o : Option Finalize)
    → ((a : Finalize) → P a → Q a)
    → OnSome P o
    → OnSome Q o
on_some P Q none f h = tt
on_some P Q (some a) f h = f a h

-- What holds of the rows that may be created, and what holds of all of them.
pub Creates-weaken :
    (P Q : StoryItem → Type 0) (os : List Op)
    → ((s : StoryItem) → P s → Q s)
    → All (Creates P) os
    → All (Creates Q) os
Creates-weaken P Q [] f h = tt
Creates-weaken P Q (o ∷ os) f h =
    (on_some _ _ (created o) (λ a x. f (new_story_item a) x) h.0, Creates-weaken P Q os f h.1)

module _ (lifetime : ℕ) (P : StoryItem → Type 0) (k : Keeps lifetime P) where
  finalize_in-All :
      (state : UploadState) (p : Pipeline) (clock : ℕ) (a : Finalize) (u : UploadIntent)
      → P (new_story_item a)
      → All P p.stories
      → All P (committed (λ (r : Finalized). r.1) p (finalize_in state p clock a u)).stories
  finalize_in-All UploadState.finalized p clock a u new h =
      elim (Option-cases (item_of p a.upload)) [ inl e ↦ rw e h | inr (si, e) ↦ rw e h ]
  finalize_in-All UploadState.issued p clock a u new h =
      elim (Bool-cases (ltb u.expires_at clock)) [ inl e ↦ rw e h | inr e ↦ rw e (new, h) ]
  finalize_in-All UploadState.aborted p clock a u new h = h
  finalize_in-All UploadState.expired p clock a u new h = h

  finalize-All :
      (p : Pipeline) (clock : ℕ) (a : Finalize)
      → P (new_story_item a)
      → All P p.stories
      → All P (committed (λ (r : Finalized). r.1) p (finalize_upload p clock a)).stories
  unfolding finalize_upload upload_intent
  finalize-All p clock a new h = elim (Option-cases (find_row (is_upload a.upload) p.uploads)) [
    | inl e ↦ rw e h
    | inr (u, e) ↦ elim (Bool-cases (u.user_id == a.user)) [
      | inl own ↦ rw (e, own) (finalize_in-All u.state p clock a u new h)
      | inr other ↦ rw (e, other) h
    ]
  ]

  claim-All :
      (p : Pipeline) (clock lease : ℕ) (owner : String)
      → All P p.stories
      → All P (committed (λ r. r.1) p (claim_media_job p clock owner lease)).stories
  unfolding claim_media_job
  claim-All p clock lease owner h = elim (Option-cases (oldest (is_claimable clock) p.jobs)) [
    | inl e ↦ rw e h
    | inr (j, e) ↦ rw e h
  ]

  publish-All :
      (p : Pipeline) (clock new_id job story : ℕ) (vs : List MediaVariant)
      → All P p.stories
      → All P (committed (λ r. r.1) p (publish_story p clock new_id job story vs lifetime)).stories
  unfolding publish_story
  publish-All p clock new_id job story vs h =
      elim (Bool-cases (exists_row (is_processing_item story) p.stories)) [
        | inl e ↦
            rw e
              (All-update_rows P _ _ p.stories (λ s t x. k.on_publish s clock (ground arith) x) h)
        | inr e ↦ rw e h
      ]

  fail-All :
      (p : Pipeline) (clock new_id job story : ℕ) (code message : String) (retryable : Bool)
      → All P p.stories
      → All P
          (committed
            (λ r. r)
            p
            (fail_media_job p clock new_id job story code message retryable)).stories
  unfolding fail_media_job
  fail-All p clock new_id job story code message retryable h =
      elim (Option-cases (find_row (is_job job) p.jobs)) [
        | inl e ↦ rw e h
        | inr (j, e) ↦ elim (Bool-cases (retryable && ltb j.attempts j.max_attempts)) [
          | inl again ↦ rw (e, again) h
          | inr over ↦
              rw (e, over)
                (All-update_rows P _ _ p.stories
                  (λ s t x. k.on_fail s code message (ground arith) x) h)
        ]
      ]

  edit-All :
      (p : Pipeline) (owner id : ℕ) (e : Edit)
      → All P p.stories
      → All P (committed (λ r. r) p (update_story p owner id e)).stories
  unfolding update_story
  edit-All p owner id e h = elim (Bool-cases (exists_row (is_own_published owner id) p.stories)) [
    | inl f ↦ rw f (All-update_rows P _ _ p.stories (λ s t x. k.on_edit s e (ground arith) x) h)
    | inr f ↦ rw f h
  ]

  delete-All :
      (p : Pipeline) (clock db_now new_id owner id : ℕ) (moderator : Bool) (reason : String)
      → All P p.stories
      → All P
          (committed
            (λ r. r)
            p
            (delete_story p clock db_now new_id owner id moderator reason)).stories
  unfolding delete_story
  delete-All p clock db_now new_id owner id true reason h =
      elim (Bool-cases (exists_row (λ s. has_id id s && is_deletable s.state) p.stories)) [
        | inl f ↦
            rw f (All-update_rows P _ _ p.stories (λ s t x. k.on_remove s db_now owner reason x) h)
        | inr f ↦ rw f h
      ]
  delete-All p clock db_now new_id owner id false reason h =
      elim (Bool-cases (
        exists_row (λ s. has_id id s && s.author_user_id == owner && is_deletable s.state)
          p.stories)) [
            | inl f ↦ rw f (All-update_rows P _ _ p.stories (λ s t x. k.on_delete s db_now x) h)
            | inr f ↦ rw f h
          ]

  claim_cleanup-All :
      (p : Pipeline) (clock lease : ℕ) (owner : String)
      → All P p.stories
      → All P (committed (λ r. r.1) p (claim_cleanup_job p clock owner lease)).stories
  unfolding claim_cleanup_job
  claim_cleanup-All p clock lease owner h =
      elim (Option-cases (first_due (Cleanup.is_claimable clock) p.cleanup)) [
        | inl e ↦ rw e h
        | inr (j, e) ↦ rw e h
      ]

  fail_cleanup-All :
      (p : Pipeline) (clock id attempts max : ℕ) (message : String)
      → All P p.stories
      → All P (fail_cleanup_job p clock id attempts max message).stories
  unfolding fail_cleanup_job
  fail_cleanup-All p clock id attempts max message h = elim (Bool-cases (leb max attempts)) [
    | inl e ↦ rw e h
    | inr e ↦ rw e h
  ]

  step-All :
      (p : Pipeline) (o : Op) → Creates P o → All P p.stories → All P (step lifetime p o).stories
  unfolding step
  step-All p (create clock id user key mime size ttl) c h = unfold create_upload_intent in h
  step-All p (stash id d filename) c h = unfold stash_draft in h
  step-All p (finalize clock a) c h = finalize-All p clock a c h
  step-All p (claim clock owner lease) c h = claim-All p clock lease owner h
  step-All p (publish clock new_id job story vs) c h = publish-All p clock new_id job story vs h
  step-All p (fail clock new_id job story code message retryable) c h =
      fail-All p clock new_id job story code message retryable h
  step-All p (reap clock) c h = unfold reap_expired_leases in h
  step-All p (view clock id) c h =
      unfold record_anonymous_view in All-update_rows P _ _ p.stories (λ s e x. k.on_view s x) h
  step-All p (edit owner id e) c h = edit-All p owner id e h
  step-All p (delete clock db_now new_id owner id moderator reason) c h =
      delete-All p clock db_now new_id owner id moderator reason h
  step-All p (expire clock new_id limit) c h =
      unfold expire_stories in All-update_rows P _ _ p.stories (λ s e x. k.on_delete s clock x) h
  step-All p (gc_uploads clock new_id limit) c h = unfold gc_abandoned_uploads in h
  step-All p (claim_cleanup clock owner lease) c h = claim_cleanup-All p clock lease owner h
  step-All p (complete_cleanup id) c h = unfold complete_cleanup_job in h
  step-All p (fail_cleanup clock id attempts max message) c h =
      fail_cleanup-All p clock id attempts max message h

  -- Over a run whose new items have the property, every item has it.
  pub run-All :
      (p : Pipeline) (os : List Op)
      → All (Creates P) os
      → All P p.stories
      → All P (run lifetime p os).stories
  unfolding run
  run-All p [] c h = h
  run-All p (o ∷ os) c h = run-All (step lifetime p o) os c.1 (step-All p o c.0 h)
