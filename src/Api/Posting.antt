-- ===== src/Api/Posting.antt =====
-- From an authorized upload to an item that is being processed.
use Prim.Native.String.{String}
use gh_stories.Prelude.{
  ℕ, ◌+◌, ◌≤◌, ◌≡◌, refl, ap, sym, ◌∙◌, inl, inr, Bool, true, false, not, ◌&&◌, ◌||◌, Option, none,
  some, List, ◌==◌, ==_refl, ltb, arith, length, Bool-cases, exists_row, exists_row_sound,
  exists_row_complete,
}
use gh_stories.Domain.{User, Visibility, processing, UploadState, is_active, is_none}
use gh_stories.Store.Social.{Social, codes, has_identity, ok}
use gh_stories.Store.Stories.{UploadIntent}
use gh_stories.Store.Stories.Uploads.{
  StoryDraft, create_upload_intent, stash_draft, stash_row, create_item, new_story_item, load_draft,
  finalize_upload, upload_intent, Finalize,
}
use gh_stories.Store.Stories.Finalizing.{load_draft-stash_draft}
use gh_stories.Store.Stories.Items.{own_story, select_story, load_variants}
use gh_stories.Api.{
  Db, Answer, done, fail, Response, accepted, StoryView, must_caller, path_uuid, unless,
}
use gh_stories.Api.Stories.{present_story, read_visibility}
use gh_stories.Api.Uploads.{
  post_upload, post_finalize, accepted_input, Defaults, UploadRequest, FinalizeRequest, chosen,
  is_custom, choose_audience, draft_of, sanitize_filename, is_checksum, finalize_of, owner_opts,
}
use gh_stories.Api.Inversion.{>>=-done, unless-done}

-- The account is in the tables, with its identity.
abbrev pub is_registered : Social → ℕ → Bool
is_registered g user =
    exists_row (λ u. u.id == user && has_identity g.identities u.github_id) g.users

registered_joined :
    (g : Social) (user : ℕ)
    → is_registered g user ≡ true
    → exists_row
        (λ au. au.id == user && has_identity g.identities au.github_id && (user == user && true))
        g.users
      ≡ true
registered_joined g user h =
    let (u, m, p) =
      exists_row_sound (λ u. u.id == user && has_identity g.identities u.github_id) g.users h in
    let same = ==_refl user in
    exists_row_complete
      (λ au. au.id == user && has_identity g.identities au.github_id && (user == user && true)) m
      (ground arith)

module _ (db : Db) (now new_id ttl : ℕ) (u : User) (key mime name : String) (size : ℕ)
    (d : StoryDraft) where
  -- The tables after `postUpload`.
  abbrev pub uploaded : Db
  uploaded = record db {
    pipeline =
        stash_draft (create_upload_intent db.pipeline now new_id u.id key mime size ttl) new_id d
          name;
  }

  abbrev issued_row : UploadIntent
  issued_row = record {
    id = new_id;
    user_id = u.id;
    object_key = key;
    declared_mime = mime;
    declared_size = size;
    state = UploadState.issued;
    actual_size = none;
    checksum = none;
    expires_at = now + ttl;
    draft = none;
    filename = "";
  }

  upload_intent-issued :
      upload_intent (create_upload_intent db.pipeline now new_id u.id key mime size ttl) new_id
      ≡ ok issued_row
  unfolding create_upload_intent upload_intent
  upload_intent-issued = let same = ==_refl new_id in rw same refl

  upload_intent-uploaded : upload_intent uploaded.pipeline new_id ≡ ok (stash_row d name issued_row)
  unfolding create_upload_intent upload_intent stash_draft
  upload_intent-uploaded = let same = ==_refl new_id in rw (same, same) refl

  load_draft-uploaded : load_draft uploaded.pipeline new_id ≡ ok (d, name)
  load_draft-uploaded =
      load_draft-stash_draft (create_upload_intent db.pipeline now new_id u.id key mime size ttl)
        new_id d name issued_row upload_intent-issued

  -- The arguments of the finalizing call.
  module _ (later new_job new_story : ℕ) (req : FinalizeRequest) (checksum : String) where
    abbrev pub finalizing : Finalize
    finalizing = finalize_of u.id new_id req checksum (d, name) new_job new_story

    abbrev pub finalized : Db
    finalized = record uploaded {
      pipeline = create_item uploaded.pipeline later finalizing (stash_row d name issued_row);
    }

    finalize_upload-uploaded :
        later ≤ now + ttl
        → finalize_upload uploaded.pipeline later finalizing
          ≡ ok ((new_story, true), finalized.pipeline)
    unfolding finalize_upload
    finalize_upload-uploaded h =
        let same = ==_refl u.id in
        let in_time : ltb (now + ttl) later ≡ false = ground arith in
        rw (upload_intent-uploaded, same, in_time) refl

    own_story-finalized :
        is_registered db.social u.id ≡ true
        → own_story finalized.social finalized.pipeline u.id new_story
          ≡ ok (new_story_item finalizing, load_variants finalized.pipeline new_story)
    unfolding own_story select_story
    own_story-finalized h =
        let same = ==_refl new_story in
        let there = registered_joined db.social u.id h in rw (same, there) refl

    post_finalize-uploaded :
        (lower : String → String) (max : ℕ)
        → lower req.checksum ≡ checksum
        → is_active (some u) ≡ true
        → is_checksum checksum ≡ true
        → (req.byte_size == 0 || ltb max req.byte_size) ≡ false
        → later ≤ now + ttl
        → is_registered db.social u.id ≡ true
        → post_finalize lower uploaded later new_job new_story max (some u) (some new_id) (done req)
          ≡ done (
            finalized,
            done (
                accepted (
                  present_story
                    (new_story_item finalizing, load_variants finalized.pipeline new_story)
                    (owner_opts u))),
          )
    unfolding post_finalize must_caller path_uuid
    post_finalize-uploaded lower max hl ha hc hs ht hr =
        rw
          (hl, ha, hc, hs, load_draft-uploaded, finalize_upload-uploaded ht, own_story-finalized hr)
          refl

authorized :
    (lower trim : String → String) (text : List ℕ → String) (presign : String → Option String)
    (db db1 : Db) (now new_id max ttl : ℕ) (u : User) (defaults : Defaults) (key : String)
    (req : UploadRequest) (a : Answer Response)
    → post_upload lower trim text presign db now new_id max ttl (some u) defaults key (done req)
      ≡ done (db1, a)
    → (is_active (some u) ≡ true)
      × ((audience : Visibility × Option ℕ) × ((is_custom audience.0 && is_none audience.1) ≡ false)
          × (db1
              ≡ uploaded db now new_id ttl u key
                  (lower (trim req.mime))
                  (text (sanitize_filename (codes (trim req.filename))))
                  req.byte_size
                  (draft_of req defaults audience)))
unfolding post_upload must_caller
authorized lower trim text presign db db1 now new_id max ttl u defaults key req a h =
    elim (Bool-cases (is_active (some u))) [
      | inr e ↦ let h' = rw e at h in cc
      | inl e ↦
          let g = rw e at h in
          let (t1, h1, g1) =
            >>=-done (unless (not (accepted_input (lower (trim req.mime)))) _) _ g in
          let (t2, h2, g2) = >>=-done (unless (req.byte_size == 0) _) _ g1 in
          let (t3, h3, g3) = >>=-done (unless (ltb max req.byte_size) _) _ g2 in
          let (t4, h4, g4) = >>=-done (unless (ltb 500 (length (codes req.caption))) _) _ g3 in
          let (t5, h5, g5) = >>=-done (unless (ltb 500 (length (codes req.alt_text))) _) _ g4 in
          let (vis, h6, g6) = >>=-done (read_visibility req.visibility) _ g5 in
          let (audience, h7, g7) =
            >>=-done (choose_audience db u defaults vis req.audience_list_id) _ g6 in
          let (t8, h8, g8) =
            >>=-done (unless (is_custom audience.0 && is_none audience.1) _) _ g7 in
          let listed = unless-done (is_custom audience.0 && is_none audience.1) _ t8 h8 in
          (e, (audience, listed, sym (ap db_of g8)))
    ]
  where
    db_of : Answer (Db × Answer Response) → Db
    db_of (done r) = r.0
    db_of (fail x) = db

-- Once `postUpload` has authorized an upload, `postFinalize` of it by the same account, in time and
-- with an acceptable checksum and size, answers with the new item: it is being processed, it has the
-- requested caption, description and permissions, and a custom audience always comes with a list.
-- The account must be in the tables, with its identity.
pub post_upload-post_finalize :
    (lower trim : String → String) (text : List ℕ → String) (presign : String → Option String)
    (db db1 : Db) (now new_id max ttl : ℕ) (u : User) (defaults : Defaults) (key : String)
    (req : UploadRequest) (a : Answer Response) (later new_job new_story : ℕ)
    (fin : FinalizeRequest)
    → post_upload lower trim text presign db now new_id max ttl (some u) defaults key (done req)
      ≡ done (db1, a)
    → is_checksum (lower fin.checksum) ≡ true
    → (fin.byte_size == 0 || ltb max fin.byte_size) ≡ false
    → later ≤ now + ttl
    → is_registered db.social u.id ≡ true
    → (db2 : Db) × (view : StoryView) × (post_finalize lower db1 later new_job new_story max
          (some u)
          (some new_id)
          (done fin)
        ≡ done (db2, done (accepted view)))
      × (view.id ≡ new_story)
      × (view.state ≡ processing)
      × (view.caption ≡ req.caption)
      × (view.alt_text ≡ req.alt_text)
      × (view.allow_replies ≡ chosen req.allow_replies defaults.allow_replies)
      × (view.allow_reactions ≡ chosen req.allow_reactions defaults.allow_reactions)
      × ((is_custom view.visibility && is_none view.audience_list_id) ≡ false)
unfolding present_story
post_upload-post_finalize lower trim text presign db db1 now new_id max ttl u defaults key req a
      later new_job new_story fin h hc hs ht hr =
    let (active, (audience, listed, same)) =
      authorized lower trim text presign db db1 now new_id max ttl u defaults key req a h in
    let mime = lower (trim req.mime) in
    let name = text (sanitize_filename (codes (trim req.filename))) in
    let d = draft_of req defaults audience in
    let answer =
      post_finalize-uploaded db now new_id ttl u key mime name req.byte_size d later new_job
        new_story fin (lower fin.checksum) lower max refl active hc hs ht hr in
    let args =
      finalizing db now new_id ttl u key mime name req.byte_size d later new_job new_story fin
        (lower fin.checksum) in
    let after =
      finalized db now new_id ttl u key mime name req.byte_size d later new_job new_story fin
        (lower fin.checksum) in
    let view =
      present_story (new_story_item args, load_variants after.pipeline new_story) (owner_opts u) in
    (
      after,
      view,
      ap
            (λ (x : Db).
              post_finalize lower x later new_job new_story max (some u) (some new_id) (done fin))
            same
          ∙ answer,
      refl,
      refl,
      refl,
      refl,
      refl,
      refl,
      listed,
    )
