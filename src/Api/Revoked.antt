-- ===== src/Api/Revoked.antt =====
-- A deletion takes effect at once, for everybody.
use Prim.Native.String.{String}
use gh_stories.Prelude.{
  ℕ, ◌≡◌, refl, ap, sym, ◌∙◌, ◌⊎◌, Bool, true, false, ◌&&◌, Option, none, some, List, ◌==◌, arith,
  inl, inr, find_row, find_row-update_rows-none, All, All-map, Bool-cases, if◌then◌else◌,
  exists_row, exists_row_sound, update_rows,
}
use gh_stories.Domain.{User, StoryItem, VariantKind, is_active, is_published, deleted}
use gh_stories.Store.Social.{Social, has_identity}
use gh_stories.Store.Visibility.{Viewer, visible_to_viewer, visible_to_anyone, is_open}
use gh_stories.Store.Stories.{has_id}
use gh_stories.Store.Stories.Items.{
  joined, select_story, story_for_viewer, public_story, delete_story, is_deletable,
}
use gh_stories.Api.{Db, Answer, done, fail, missing, Response, as_viewer, path_uuid, must_caller}
use gh_stories.Api.Media.{get_media, serve_private_media, serve_public_media}
use gh_stories.Api.Stories.{delete_own_story}
use gh_stories.Api.Interact.{post_view}

module _ (g : Social) (now : ℕ) (s : StoryItem) (closed : is_published s.state ≡ false) where
  closed-viewer : (v : Viewer) → joined g (visible_to_viewer g v now) s ≡ false
  unfolding visible_to_viewer is_open
  closed-viewer v = elim (Bool-cases (joined g (visible_to_viewer g v now) s)) [
    | inr e ↦ e
    | inl e ↦
        let (au, m, h) =
          exists_row_sound
            (λ au.
              au.id == s.author_user_id
              && has_identity g.identities au.github_id
              && visible_to_viewer g v now s au)
            g.users e in
        ground arith
  ]

  closed-anyone : joined g (visible_to_anyone now) s ≡ false
  unfolding visible_to_anyone is_open
  closed-anyone = elim (Bool-cases (joined g (visible_to_anyone now) s)) [
    | inr e ↦ e
    | inl e ↦
        let (au, m, h) =
          exists_row_sound
            (λ au.
              au.id == s.author_user_id
              && has_identity g.identities au.github_id
              && visible_to_anyone now s au)
            g.users e in
        ground arith
  ]

abbrev own_deletable : ℕ → ℕ → StoryItem → Bool
own_deletable owner id s = has_id id s && s.author_user_id == owner && is_deletable s.state

abbrev mark_deleted : ℕ → StoryItem → StoryItem
mark_deleted db_now s = record s { state = deleted; deleted_at = some db_now }

-- Every row with the id is the author's: the id is the primary key.
abbrev pub IsOwnersAlone : ℕ → ℕ → List StoryItem → Type 0
IsOwnersAlone owner id = All (λ s. has_id id s ≡ true → (s.author_user_id == owner) ≡ true)

-- After the update no row with the id is published, so nothing that wants one finds one.
nothing_left :
    (db_now owner id : ℕ) (visible : StoryItem → Bool) (rows : List StoryItem)
    → ((s : StoryItem) → is_published s.state ≡ false → visible s ≡ false)
    → IsOwnersAlone owner id rows
    → find_row
        (λ s. has_id id s && visible s)
        (update_rows (own_deletable owner id) (mark_deleted db_now) rows)
      ≡ none
nothing_left db_now owner id visible rows closed alone =
    find_row-update_rows-none (λ s. has_id id s && visible s) (own_deletable owner id)
      (mark_deleted db_now) rows
      (All-map (λ s. has_id id s ≡ true → (s.author_user_id == owner) ≡ true)
        (λ s.
          (has_id id (if own_deletable owner id s then mark_deleted db_now s else s)
            && visible (if own_deletable owner id s then mark_deleted db_now s else s))
          ≡ false)
        rows row_closed alone)
  where
    row_closed :
        (s : StoryItem)
        → (has_id id s ≡ true → (s.author_user_id == owner) ≡ true)
        → (has_id id (if own_deletable owner id s then mark_deleted db_now s else s)
            && visible (if own_deletable owner id s then mark_deleted db_now s else s))
          ≡ false
    row_closed s h = elim (Bool-cases (has_id id s)) [
      | inr e ↦ elim (Bool-cases (own_deletable owner id s)) [ inl f ↦ cc | inr f ↦ rw (f, e) refl ]
      | inl e ↦
          let a = h e in
          elim (Bool-cases (is_deletable s.state)) [
            | inl f ↦
                let gone = closed (mark_deleted db_now s) refl in
                rw (e, a, f) (rw gone (ground arith))
            | inr f ↦
                let hidden = closed s (ground arith) in rw (e, a, f) (rw hidden (ground arith))
          ]
    ]

deleted_tables :
    (db db' : Db) (now db_now new_id id : ℕ) (u : User) (r : Response)
    → delete_own_story db now db_now new_id (some u) (some id) ≡ done (db', r)
    → (db'.social ≡ db.social)
      × (db'.pipeline.stories
          ≡ update_rows (own_deletable u.id id) (mark_deleted db_now) db.pipeline.stories)
unfolding delete_own_story path_uuid must_caller delete_story
deleted_tables db db' now db_now new_id id u r h = elim (Bool-cases (is_active (some u))) [
  | inr e ↦ let h' = rw e at h in cc
  | inl e ↦ elim (Bool-cases (exists_row (own_deletable u.id id) db.pipeline.stories)) [
    | inr f ↦ let h' = rw (e, f) at h in cc
    | inl f ↦
        let h' = rw (e, f) at h in (ap (λ a. (db_of a).social) (sym h'), ap stories_of (sym h'))
  ]
]
  where
    db_of : Answer (Db × Response) → Db
    db_of (done x) = x.0
    db_of (fail x) = db

    stories_of : Answer (Db × Response) → List StoryItem
    stories_of a = (db_of a).pipeline.stories

-- Once `deleteStory` has answered the author, nobody gets the Story any more: at any time, with or
-- without an account, the media gateway answers 404 for every kind of variant, and so does
-- `postView` to any active or anonymous caller. The Story's id must be its author's alone.
pub delete_own_story-revokes :
    (get : String → Option ℕ) (db db' : Db) (now db_now new_id id later : ℕ) (u : User)
    (r : Response) (caller : Option User) (kind : VariantKind)
    → IsOwnersAlone u.id id db.pipeline.stories
    → delete_own_story db now db_now new_id (some u) (some id) ≡ done (db', r)
    → (get_media get db' later caller (some id) (some kind) ≡ fail missing)
      × ((caller ≡ none) ⊎ (is_active caller ≡ true)
          → post_view db' later caller (some id) ≡ fail missing)
unfolding get_media post_view path_uuid serve_private_media serve_public_media story_for_viewer
    public_story select_story
delete_own_story-revokes get db db' now db_now new_id id later u r caller kind alone h =
    let (same, rows) = deleted_tables db db' now db_now new_id id u r h in
    let hidden = λ (v : User).
      ap
        (find_row (λ s.
          has_id id s && joined db'.social (visible_to_viewer db'.social (as_viewer v) later) s))
        rows
      ∙ nothing_left db_now u.id id
          (joined db'.social (visible_to_viewer db'.social (as_viewer v) later)) db.pipeline.stories
          (λ s c. closed-viewer db'.social later s c (as_viewer v)) alone in
    let closed =
      ap (find_row (λ s. has_id id s && joined db'.social (visible_to_anyone later) s)) rows
      ∙ nothing_left db_now u.id id (joined db'.social (visible_to_anyone later))
          db.pipeline.stories (λ s c. closed-anyone db'.social later s c) alone in
    answers caller hidden closed
  where
    answers :
        (c : Option User)
        → ((v : User)
            → find_row
                (λ s.
                  has_id id s
                  && joined db'.social (visible_to_viewer db'.social (as_viewer v) later) s)
                db'.pipeline.stories
              ≡ none)
        → find_row
            (λ s. has_id id s && joined db'.social (visible_to_anyone later) s)
            db'.pipeline.stories
          ≡ none
        → (get_media get db' later c (some id) (some kind) ≡ fail missing)
          × ((c ≡ none) ⊎ (is_active c ≡ true) → post_view db' later c (some id) ≡ fail missing)
    answers none hidden closed = (rw closed refl, λ who. rw closed refl)
    answers (some v) hidden closed =
        let gone = hidden v in
        (
          elim (Bool-cases (is_active (some v))) [
            | inl e ↦ rw e (rw gone refl)
            | inr e ↦ rw e (rw closed refl)
          ],
          λ who. let e = active who in rw e (rw gone refl),
        )
      where
        active : (some v ≡ none) ⊎ (is_active (some v) ≡ true) → is_active (some v) ≡ true
        active (inl e) = cc
        active (inr e) = e
