-- ===== src/Store/Stories/Finalizing.antt =====
-- Retried calls on an upload: `FinalizeUpload` and the stashed draft.
use Prim.Native.String.{String}
use gh_stories.Prelude.{
  ltb, ==_refl, ℕ, ◌≡◌, refl, inl, inr, true, false, ◌==◌, some, List, [], ◌∷◌, find_row,
  update_rows, Bool-cases, Option-cases,
}
use gh_stories.Store.Social.{ok, ok-elim}
use gh_stories.Store.Stories.{Pipeline, UploadIntent, is_upload}
use gh_stories.Domain.{
  Visibility, followers_of_author, author_follows, mutuals, custom_list, everyone, parse_visibility,
  visibility_text, UploadState,
}
use gh_stories.Store.Stories.Uploads.{
  StoryDraft, stash_draft, stash_row, load_draft, upload_intent, Finalize, finalize_upload,
  finalize_in, item_of, Finalized, create_item, new_story_item, mark_finalized,
}

-- An update of the row of an id, found again by that id.
find_row-update_rows :
    (id : ℕ) (f : UploadIntent → UploadIntent) (us : List UploadIntent) (u : UploadIntent)
    → ((x : UploadIntent) → (f x).id ≡ x.id)
    → find_row (is_upload id) us ≡ some u
    → find_row (is_upload id) (update_rows (is_upload id) f us) ≡ some (f u)
find_row-update_rows id f [] u keeps h = cc
find_row-update_rows id f (x ∷ us) u keeps h = elim (Bool-cases (is_upload id x)) [
  | inl e ↦
      let at_id : is_upload id (f x) ≡ true = rw (keeps x) e in
      let same = rw e at h in rw (e, at_id) cc
  | inr e ↦ rw (e, e) (find_row-update_rows id f us u keeps (rw e at h))
]

parse_visibility-visibility_text : (v : Visibility) → parse_visibility (visibility_text v) ≡ some v
unfolding parse_visibility visibility_text
parse_visibility-visibility_text followers_of_author = refl
parse_visibility-visibility_text author_follows = refl
parse_visibility-visibility_text mutuals = refl
parse_visibility-visibility_text custom_list = refl
parse_visibility-visibility_text everyone = refl

-- What `StashDraft` writes for an upload that exists, `LoadDraft` reads back: every field, for
-- each of the five audiences.
pub load_draft-stash_draft :
    (p : Pipeline) (id : ℕ) (d : StoryDraft) (filename : String) (u : UploadIntent)
    → upload_intent p id ≡ ok u
    → load_draft (stash_draft p id d filename) id ≡ ok (d, filename)
unfolding load_draft stash_draft upload_intent
load_draft-stash_draft p id d filename u h =
    elim (Option-cases (find_row (is_upload id) p.uploads)) [
      | inl e ↦ let f = rw e at h in cc
      | inr (x, e) ↦
          rw (find_row-update_rows id (stash_row d filename) p.uploads x (λ y. refl) e)
            (rw (parse_visibility-visibility_text d.visibility) refl)
    ]

-- A call that creates an item: the upload was issued to its caller.
Created : Pipeline → ℕ → Finalize → Finalized → UploadIntent → Type 0
Created p clock a r u =
    (find_row (is_upload a.upload) p.uploads ≡ some u)
    × ((u.user_id == a.user) ≡ true)
    × (r.0.0 ≡ a.new_story)
    × (r.1 ≡ create_item p clock a u)

finalize_in-created :
    (state : UploadState) (p q : Pipeline) (clock : ℕ) (a : Finalize) (u : UploadIntent) (item : ℕ)
    → finalize_in state p clock a u ≡ ok ((item, true), q)
    → (item ≡ a.new_story) × (q ≡ create_item p clock a u)
finalize_in-created UploadState.issued p q clock a u item h =
    elim (Bool-cases (ltb u.expires_at clock)) [
      | inl e ↦ let f = rw e at h in cc
      | inr e ↦
          ok-elim (λ (r : Finalized). (r.0.0 ≡ a.new_story) × (r.1 ≡ create_item p clock a u))
            (rw e at h) (refl, refl)
    ]
finalize_in-created UploadState.finalized p q clock a u item h =
    elim (Option-cases (item_of p a.upload)) [
      | inl e ↦ let f = rw e at h in cc
      | inr (si, e) ↦ let f = rw e at h in cc
    ]
finalize_in-created UploadState.aborted p q clock a u item h = cc
finalize_in-created UploadState.expired p q clock a u item h = cc

finalize_upload-Created :
    (p q : Pipeline) (clock : ℕ) (a : Finalize) (item : ℕ)
    → finalize_upload p clock a ≡ ok ((item, true), q)
    → (u : UploadIntent) × Created p clock a ((item, true), q) u
unfolding finalize_upload upload_intent Created
finalize_upload-Created p q clock a item h =
    elim (Option-cases (find_row (is_upload a.upload) p.uploads)) [
      | inl e ↦ let f = rw e at h in cc
      | inr (u, e) ↦ elim (Bool-cases (u.user_id == a.user)) [
        | inl own ↦
            let (i, s) = finalize_in-created u.state p q clock a u item (rw (e, own) at h) in
            (u, (e, own, i, s))
        | inr other ↦ let f = rw (e, other) at h in cc
      ]
    ]

item_of-create_item :
    (p : Pipeline) (clock : ℕ) (a : Finalize) (u : UploadIntent)
    → item_of (create_item p clock a u) a.upload ≡ some (new_story_item a)
item_of-create_item p clock a u = rw (==_refl a.new_job, ==_refl a.upload) refl

-- A `FinalizeUpload` that the same user sends again for the same upload, right after one that
-- created an item and whatever it says of the file and the time, answers that item and changes
-- nothing.
pub finalize_upload-again :
    (p q : Pipeline) (clock clock_b : ℕ) (a b : Finalize) (item : ℕ)
    → finalize_upload p clock a ≡ ok ((item, true), q)
    → b.user ≡ a.user
    → b.upload ≡ a.upload
    → finalize_upload q clock_b b ≡ ok ((item, false), q)
unfolding finalize_upload upload_intent Created
finalize_upload-again p q clock clock_b a b item h same_user same_upload =
    let (u, (e, own, i, s)) = finalize_upload-Created p q clock a item h in
    let found = find_row-update_rows a.upload (mark_finalized a) p.uploads u (λ x. refl) e in
    rw (s, same_upload, same_user, found, own, item_of-create_item p clock a u, i) refl
