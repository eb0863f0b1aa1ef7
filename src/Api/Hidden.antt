-- ===== src/Api/Hidden.antt =====
-- A Story that a signed-in caller may neither see nor wrote does not exist for that caller.
use Prim.Native.String.{String}
use gh_stories.Prelude.{
  ℕ, ◌≡◌, refl, Bool, true, false, not, ◌&&◌, Option, none, some, ◌==◌, arith, inl, inr, exists_row,
  exists_row_sound, find_row, find_row_sound, Memᴰ, Option-cases, ap, exists_row-false_of,
  find_row-none_of,
}
use gh_stories.Domain.{User, StoryItem, VariantKind, is_active}
use gh_stories.Store.Social.{Social, has_identity, err, ok, ok-elim, not_found}
use gh_stories.Store.Visibility.{visible_to_viewer}
use gh_stories.Store.Stories.{has_id}
use gh_stories.Store.Stories.Items.{
  joined, select_story, Loaded, load_variants, story_for_viewer, own_story, delete_story,
  is_deletable, is_ended,
}
use gh_stories.Api.{Db, done, fail, missing, as_viewer, must_caller, path_uuid}
use gh_stories.Api.Stories.{story_for_caller, get_story, get_viewers, delete_own_story}
use gh_stories.Api.Interact.{post_view, put_reaction, valid_reaction}
use gh_stories.Api.Media.{get_media, serve_private_media}

-- Some row with the id is visible to the user; some row with the id is the user's.
abbrev pub may_see : Db → ℕ → User → ℕ → Bool
may_see db now u id =
    exists_row
      (λ s. has_id id s && joined db.social (visible_to_viewer db.social (as_viewer u) now) s)
      db.pipeline.stories

abbrev pub wrote : Db → User → ℕ → Bool
wrote db u id = exists_row (λ s. has_id id s && s.author_user_id == u.id) db.pipeline.stories

not_visible :
    (db : Db) (now : ℕ) (u : User) (id : ℕ)
    → may_see db now u id ≡ false
    → story_for_viewer db.social db.pipeline (as_viewer u) now id ≡ err not_found
unfolding story_for_viewer select_story
not_visible db now u id h =
    let p = λ (s : StoryItem).
      has_id id s && joined db.social (visible_to_viewer db.social (as_viewer u) now) s in
    rw (find_row-none_of p p db.pipeline.stories (λ s e. e) h) refl

own_author :
    (g : Social) (owner id : ℕ) (s : StoryItem) (q : Bool)
    → (has_id id s && joined g (λ t au. t.author_user_id == owner && q) s) ≡ true
    → (has_id id s && s.author_user_id == owner) ≡ true
own_author g owner id s q h =
    let (au, m, f) =
      exists_row_sound
        (λ au.
          au.id == s.author_user_id
          && has_identity g.identities au.github_id
          && (s.author_user_id == owner && q))
        g.users (ground arith) in
    ground arith

not_own :
    (db : Db) (u : User) (id : ℕ)
    → wrote db u id ≡ false
    → own_story db.social db.pipeline u.id id ≡ err not_found
unfolding own_story select_story
not_own db u id h =
    rw
      (find_row-none_of
        (λ s.
          has_id id s
          && joined db.social (λ t au. t.author_user_id == u.id && not (is_ended t.state)) s)
        (λ s. has_id id s && s.author_user_id == u.id) db.pipeline.stories
        (λ s e. own_author db.social u.id id s (not (is_ended s.state)) e) h)
      refl

not_deletable :
    (db : Db) (u : User) (id : ℕ)
    → wrote db u id ≡ false
    → exists_row
        (λ s. has_id id s && s.author_user_id == u.id && is_deletable s.state)
        db.pipeline.stories
      ≡ false
not_deletable db u id h =
    exists_row-false_of (λ s. has_id id s && s.author_user_id == u.id && is_deletable s.state)
      (λ s. has_id id s && s.author_user_id == u.id) db.pipeline.stories (λ s e. ground arith) h

-- The row that `StoryForViewer` reads is one that the caller may see.
pub story_for_viewer-visible :
    (db : Db) (now : ℕ) (u : User) (id : ℕ) (it : Loaded)
    → story_for_viewer db.social db.pipeline (as_viewer u) now id ≡ ok it
    → Memᴰ it.0 db.pipeline.stories
      × (it.0.id ≡ id)
      × (joined db.social (visible_to_viewer db.social (as_viewer u) now) it.0 ≡ true)
      × (it.1 ≡ load_variants db.pipeline id)
unfolding story_for_viewer select_story
story_for_viewer-visible db now u id it h =
    elim (Option-cases (find_row visible db.pipeline.stories)) [
      | inl e ↦ let h' = rw e at h in cc
      | inr (s, e) ↦
          let (m, v) = find_row_sound visible db.pipeline.stories s e in
          let same_id : s.id ≡ id = ground arith in
          ok-elim
            (λ (l : Loaded).
              Memᴰ l.0 db.pipeline.stories
              × (l.0.id ≡ id)
              × (joined db.social (visible_to_viewer db.social (as_viewer u) now) l.0 ≡ true)
              × (l.1 ≡ load_variants db.pipeline id))
            (rw e at h) (m, same_id, ground arith, ap (load_variants db.pipeline) same_id)
    ]
  where
    visible : StoryItem → Bool
    visible s = has_id id s && joined db.social (visible_to_viewer db.social (as_viewer u) now) s

-- An active caller who can neither see a Story nor wrote one with its id gets 404, the answer to a
-- malformed id, from `getStory`, from the media gateway for every kind, from `postView`, from
-- `putReaction` with an available emoji, from `getViewers` and from `deleteStory`.
pub hidden-missing :
    (db : Db) (get : String → Option ℕ) (now db_now new_id id : ℕ) (u : User) (kind : VariantKind)
    (emoji : String)
    → is_active (some u) ≡ true
    → valid_reaction emoji ≡ true
    → may_see db now u id ≡ false
    → wrote db u id ≡ false
    → (get_story db now (some u) (some id) ≡ get_story db now (some u) none)
      × (get_media get db now (some u) (some id) (some kind) ≡ fail missing)
      × (post_view db now (some u) (some id) ≡ post_view db now (some u) none)
      × (put_reaction db now db_now new_id (some u) (some id) (done emoji)
          ≡ put_reaction db now db_now new_id (some u) none (done emoji))
      × (get_viewers db (some u) (some id) ≡ get_viewers db (some u) none)
      × (delete_own_story db now db_now new_id (some u) (some id)
          ≡ delete_own_story db now db_now new_id (some u) none)
unfolding get_story get_media post_view put_reaction get_viewers delete_own_story delete_story
    story_for_caller serve_private_media must_caller path_uuid
hidden-missing db get now db_now new_id id u kind emoji ha hv hs hw =
    let ns = not_visible db now u id hs in
    let no = not_own db u id hw in
    let nd = not_deletable db u id hw in
    (
      rw (ha, ns, no) refl,
      rw (ha, ns) refl,
      rw (ha, ns) refl,
      rw (ha, hv, ns) refl,
      rw (ha, nd) refl,
      rw (ha, nd) refl,
    )
