-- ===== src/Api/Resolved.antt =====
-- Moderators' actions: who may take one, and what removing a Story leaves.
use Prim.Native.String.{String}
use gh_stories.Prelude.{
  ℕ, ◌≡◌, refl, sym, ap, Bool, true, false, ◌&&◌, Option, none, some, List, arith, inl, inr, ltb,
  length, All, All-update_rows_of, Bool-cases, if◌then◌else◌, exists_row, update_rows,
}
use gh_stories.Domain.{User, StoryItem, is_active, is_published, removed}
use gh_stories.Store.Social.{equals, codes}
use gh_stories.Store.Stories.{has_id}
use gh_stories.Store.Stories.Items.{delete_story, is_deletable}
use gh_stories.Store.Reports.{
  Report, Reports, is_recordable, ActionKind, remove_story, record_moderation_action, is_open_state,
  is_addressed, resolve, settle, actioned,
}
use gh_stories.Api.{
  Db, Answer, done, fail, Response, recorded, must_caller, require_moderator, unless, ◌>>=◌,
  or_internal,
}
use gh_stories.Api.Moderation.{
  post_moderation_action, ActionRequest, apply_action, optional_id, optional_user, need,
}
use gh_stories.Api.Inversion.{>>=-done, must_caller-done}

-- Only an active moderator ever gets an action done.
require_moderator-done {ℓ} :
    {A : Type ℓ} (caller : Option User) (next : Answer A) (x : A)
    → require_moderator caller next ≡ done x
    → ((u : User) × (caller ≡ some u) × (is_active (some u) ≡ true) × (u.is_moderator ≡ true))
      × (next ≡ done x)
unfolding require_moderator
require_moderator-done caller next x h =
    let (u, hu, g) = >>=-done (must_caller caller) _ h in
    let (same, active) = must_caller-done caller u hu in
    elim (Bool-cases u.is_moderator) [
      | inl e ↦ ((u, same, active, e), rw e at g)
      | inr e ↦ let g' = rw e at g in cc
    ]

abbrev about_story : ℕ → StoryItem → Bool
about_story id s = has_id id s && is_deletable s.state

abbrev mark_removed : ℕ → ℕ → String → StoryItem → StoryItem
mark_removed owner db_now reason s = record s {
  state = removed;
  deleted_at = some db_now;
  removed_by = some owner;
  removal_reason = reason;
}

-- No Story with the id is published; no unresolved report is about it.
abbrev pub IsRemoved : ℕ → Db → Type 0
IsRemoved id db =
    All (λ s. has_id id s ≡ true → is_published s.state ≡ false) db.pipeline.stories
    × All (λ (r : Report). equals r.story_item_id id ≡ true → is_open_state r.state ≡ false)
        db.reports.rows

settle-closes :
    (stories : List StoryItem) (now moderator id : ℕ) (report target : Option ℕ)
    (rows : List Report)
    → All
        (λ (r : Report). equals r.story_item_id id ≡ true → is_open_state r.state ≡ false)
        (settle stories now moderator remove_story report (some id) target rows)
settle-closes stories now moderator id report target rows =
    All-update_rows_of
      (λ (r : Report). equals r.story_item_id id ≡ true → is_open_state r.state ≡ false)
      (is_addressed stories report (some id) target) (resolve actioned now moderator) rows
      (λ r m. closes r (is_addressed stories report (some id) target r) refl)
  where
    closes :
        (r : Report) (b : Bool)
        → is_addressed stories report (some id) target r ≡ b
        → equals (if b then resolve actioned now moderator r else r).story_item_id id ≡ true
        → is_open_state (if b then resolve actioned now moderator r else r).state ≡ false
    closes r true e h = refl
    closes r false e h = ground arith

removed_stories :
    (owner db_now id : ℕ) (reason : String) (rows : List StoryItem)
    → All
        (λ s. has_id id s ≡ true → is_published s.state ≡ false)
        (update_rows (about_story id) (mark_removed owner db_now reason) rows)
removed_stories owner db_now id reason rows =
    All-update_rows_of (λ s. has_id id s ≡ true → is_published s.state ≡ false) (about_story id)
      (mark_removed owner db_now reason) rows (λ s m. unpublished s (about_story id s) refl)
  where
    unpublished :
        (s : StoryItem) (b : Bool)
        → about_story id s ≡ b
        → has_id id (if b then mark_removed owner db_now reason s else s) ≡ true
        → is_published (if b then mark_removed owner db_now reason s else s).state ≡ false
    unpublished s true e h = refl
    unpublished s false e h = ground arith

delete_story-removed :
    (db : Db) (now db_now new_id moderator id : ℕ) (reason : String) (db' : Db)
    (report target : Option ℕ)
    → apply_action db now db_now new_id moderator remove_story report (some id) target reason
      ≡ done db'
    → All (λ s. has_id id s ≡ true → is_published s.state ≡ false) db'.pipeline.stories
unfolding apply_action delete_story
delete_story-removed db now db_now new_id moderator id reason db' report target h =
    elim (Bool-cases (exists_row (about_story id) db.pipeline.stories)) [
      | inr e ↦ let h' = rw e at h in cc
      | inl e ↦
          let h' = ap stories_of (rw e at h) in
          rw (← h') (removed_stories moderator db_now id reason db.pipeline.stories)
    ]
  where
    stories_of : Answer Db → List StoryItem
    stories_of (done d) = d.pipeline.stories
    stories_of (fail e) = db.pipeline.stories

abbrev record_then :
    ℕ → ℕ → ActionKind → Option ℕ → Option ℕ → Option ℕ → String → Db → Answer (Db × Response)
record_then db_now moderator kind report about target reason applied = do
  reports ← or_internal (
      record_moderation_action applied.reports applied.social.users applied.pipeline.stories db_now
        moderator kind report about target reason)
  done (record applied { reports = reports }, recorded)

recorded_rows :
    (db : Db) (db_now moderator : ℕ) (kind : ActionKind) (report about target : Option ℕ)
    (reason : String) (reports : Reports)
    → or_internal (
        record_moderation_action db.reports db.social.users db.pipeline.stories db_now moderator
          kind report about target reason)
      ≡ done reports
    → reports.rows
      ≡ settle db.pipeline.stories db_now moderator kind report about target db.reports.rows
unfolding record_moderation_action
recorded_rows db db_now moderator kind report about target reason reports h =
    elim (Bool-cases (
      is_recordable db.reports db.social.users db.pipeline.stories moderator report about target)) [
        | inl fits ↦ sym (ap rows_of (rw fits at h))
        | inr refuses ↦ let h' = rw refuses at h in cc
      ]
  where
    rows_of : Answer Reports → List Report
    rows_of (done r) = r.rows
    rows_of (fail e) = reports.rows

recorded_removal :
    (db db' : Db) (now db_now new_id moderator id : ℕ) (report target : Option ℕ) (reason : String)
    (r : Response)
    → (apply_action db now db_now new_id moderator remove_story report (some id) target reason
        >>= record_then db_now moderator remove_story report (some id) target reason)
      ≡ done (db', r)
    → IsRemoved id db'
recorded_removal db db' now db_now new_id moderator id report target reason r h =
    let (applied, ha, g) =
      >>=-done
        (apply_action db now db_now new_id moderator remove_story report (some id) target reason) _
        h in
    let (reports', hr, g') =
      >>=-done
        (or_internal (
          record_moderation_action applied.reports applied.social.users applied.pipeline.stories
            db_now moderator remove_story report (some id) target reason))
        _ g in
    let same = ap (db_of applied) g' in
    let settled =
      recorded_rows applied db_now moderator remove_story report (some id) target reason reports'
        hr in
    let stories =
      delete_story-removed db now db_now new_id moderator id reason applied report target ha in
    let reports =
      settle-closes applied.pipeline.stories db_now moderator id report target
        applied.reports.rows in
    rw (← same) (stories, rw settled reports)
  where
    db_of : Db → Answer (Db × Response) → Db
    db_of d (done x) = x.0
    db_of d (fail e) = d

recorded_action :
    (db db' : Db) (now db_now new_id moderator id : ℕ) (kind : ActionKind)
    (report about target : Option ℕ) (reason : String) (r : Response)
    → kind ≡ remove_story
    → about ≡ some id
    → (apply_action db now db_now new_id moderator kind report about target reason
        >>= record_then db_now moderator kind report about target reason)
      ≡ done (db', r)
    → IsRemoved id db'
recorded_action db db' now db_now new_id moderator id kind report about target reason r hk ha h =
    recorded_removal db db' now db_now new_id moderator id report target reason r (rw (hk, ha) at h)

-- When a moderator's `remove_story` is done, the caller is an active moderator, no Story with the id
-- is published any more and no report about it is left unresolved, whichever report was cited.
pub post_moderation_action-IsRemoved :
    (lower : List ℕ → List ℕ) (db db' : Db) (now db_now new_id id : ℕ) (caller : Option User)
    (req : ActionRequest) (r : Response)
    → req.kind ≡ some remove_story
    → req.story_id ≡ some (some id)
    → post_moderation_action lower db now db_now new_id caller (done req) ≡ done (db', r)
    → ((u : User) × (caller ≡ some u) × (is_active (some u) ≡ true) × (u.is_moderator ≡ true))
      × IsRemoved id db'
unfolding post_moderation_action
post_moderation_action-IsRemoved lower db db' now db_now new_id id caller req r hk hs h =
    let (who, g) = require_moderator-done caller _ _ h in
    let (u, hu, g1) = >>=-done (must_caller caller) _ g in
    let (t1, h1, g2) = >>=-done (unless (ltb 500 (length (codes req.reason))) _) _ g1 in
    let (report, h2, g3) = >>=-done (optional_id "report_id" req.report_id) _ g2 in
    let (about, h3, g4) = >>=-done (optional_id "story_id" req.story_id) _ g3 in
    let (target, h4, g5) = >>=-done (optional_user lower db.social req.login) _ g4 in
    let (kind, h5, g6) = >>=-done (need req.kind "kind" "Unknown moderation action.") _ g5 in
    let same_kind = needed req.kind remove_story kind hk h5 in
    let same_about = parsed req.story_id id about hs h3 in
    (
      who,
      recorded_action db db' now db_now new_id u.id id kind report about target req.reason r
          same_kind same_about g6,
    )
  where
    needed :
        (o : Option ActionKind) (k kind : ActionKind)
        → o ≡ some k
        → need o "kind" "Unknown moderation action." ≡ done kind
        → kind ≡ k
    needed none k kind e f = cc
    needed (some j) k kind e f = cc

    parsed :
        (o : Option (Option ℕ)) (i : ℕ) (about : Option ℕ)
        → o ≡ some (some i)
        → optional_id "story_id" o ≡ done about
        → about ≡ some i
    parsed none i about e f = cc
    parsed (some none) i about e f = cc
    parsed (some (some j)) i about e f = cc
