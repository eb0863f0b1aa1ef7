-- ===== src/Api/Moderation.antt =====
-- internal/api/handlers_moderation.go: reports and the moderators' actions.
--
-- `lower` is the database's function of that name; a text of a report comes with the number of its
-- runes where a handler bounds it.
use Prim.Native.String.{String}
use gh_stories.Prelude.{
  ℕ, Bool, true, not, ◌&&◌, Option, none, some, List, [], ◌∷◌, ◌==◌, ltb, length, find_row,
  exists_row,
}
use text.Mathlib.Text.{◌==◌ as str_eq}
use gh_stories.Domain.{User}
use gh_stories.Store.Social.{Social, Identity, codes}
use gh_stories.Store.Accounts.{trim_at, has_login, suspend_user, unsuspend_user}
use gh_stories.Store.Stories.Items.{story_for_viewer, delete_story}
use gh_stories.Store.Reports.{
  ActionKind, remove_story, suspend, unsuspend, dismiss_report, create_report,
  record_moderation_action,
}
use gh_stories.Api.{
  Db, Answer, done, fail, ◌>>=◌, missing, invalid, Response, reported, recorded, unless, or_missing,
  or_internal, must_caller, require_moderator, as_viewer,
}

abbrev with_github_login : List Identity → List ℕ → User → Bool
with_github_login is login u =
    exists_row (λ (i : Identity). i.github_id == u.github_id && has_login login i) is

-- `UserByLogin`
unfoldable pub user_by_login : (List ℕ → List ℕ) → Social → List ℕ → Option User
user_by_login lower g login =
    find_row (with_github_login g.identities (lower (trim_at login))) g.users

abbrev pub user_named : Option User → Answer ℕ
user_named none = fail missing
user_named (some u) = done u.id

-- What a report is about: a Story, with the outcome of `uuid.Parse`, an account, or neither.
pub data Subject : Type 0 where
  about_story : Option ℕ → Subject
  about_user : (login : List ℕ) → Subject
  about_other : Subject

abbrev pub Resolved : Type 0
Resolved = Option ℕ × Option ℕ

unfoldable pub resolve_subject : (List ℕ → List ℕ) → Db → ℕ → User → Subject → Answer Resolved
resolve_subject lower db now u (about_story none) = fail (invalid "story_id" "Not a valid Story.")
resolve_subject lower db now u (about_story (some id)) = do
  it ← or_missing (story_for_viewer db.social db.pipeline (as_viewer u) now id)
  done (some id, none)
resolve_subject lower db now u (about_user login) = do
  target ← user_named (user_by_login lower db.social (trim_at login))
  done (none, some target)
resolve_subject lower db now u about_other =
    fail (invalid "subject_kind" "Report a Story or a person.")

-- `reportReasons`
abbrev pub is_reason : String → Bool
is_reason r =
    exists_row (λ known. str_eq known r)
      ("spam" ∷ "harassment" ∷ "nudity" ∷ "violence" ∷ "self_harm" ∷ "illegal" ∷ "other" ∷ [])

pub record ReportRequest : Type 0 where
  pub subject : Subject
  pub reason : String
  pub details : String

-- `postReport`
unfoldable pub post_report :
    (List ℕ → List ℕ) → Db → ℕ → ℕ → Option User → Answer ReportRequest → Answer (Db × Response)
post_report lower db now new_id caller body = do
  u ← must_caller caller
  req ← body
  reason ← unless (not (is_reason req.reason)) (invalid "reason" "Choose a reason.")
  short ←
      unless (ltb 1000 (length (codes req.details)))
        (invalid "details" "Details are limited to 1000 characters.")
  about ← resolve_subject lower db now u req.subject
  done (
    record db {
      reports = create_report db.reports new_id u.id about.0 about.1 req.reason req.details;
    },
    reported new_id,
  )

-- An id that a request may leave empty: the outcome of `uuid.Parse` if it does not.
abbrev pub optional_id : String → Option (Option ℕ) → Answer (Option ℕ)
optional_id field none = done none
optional_id field (some none) = fail (invalid field "Not valid.")
optional_id field (some (some id)) = done (some id)

abbrev pub optional_user : (List ℕ → List ℕ) → Social → List ℕ → Answer (Option ℕ)
optional_user lower g [] = done none
optional_user lower g (c ∷ cs) = do
  id ← user_named (user_by_login lower g (trim_at (c ∷ cs)))
  done (some id)

pub record ActionRequest : Type 0 where
  pub kind : Option ActionKind
  pub report_id : Option (Option ℕ)
  pub story_id : Option (Option ℕ)
  pub login : List ℕ
  pub reason : String

abbrev pub need {ℓ} : {A : Type ℓ} → Option A → String → String → Answer A
need none field text = fail (invalid field text)
need (some a) field text = done a

-- The `switch` on the kind of an action.
unfoldable pub apply_action :
    Db → ℕ → ℕ → ℕ → ℕ → ActionKind → Option ℕ → Option ℕ → Option ℕ → String → Answer Db
apply_action db now db_now new_id moderator remove_story report target_story target reason = do
  id ← need target_story "story_id" "Which Story?"
  p ← or_missing (delete_story db.pipeline now db_now new_id moderator id true reason)
  done (record db { pipeline = p })
apply_action db now db_now new_id moderator suspend report target_story target reason = do
  id ← need target "login" "Which account?"
  done (record db { social = suspend_user db.social db_now id })
apply_action db now db_now new_id moderator unsuspend report target_story target reason = do
  id ← need target "login" "Which account?"
  done (record db { social = unsuspend_user db.social id })
apply_action db now db_now new_id moderator dismiss_report report target_story target reason = do
  id ← need report "report_id" "Which report?"
  done db

-- The action and its record are two transactions: where the record is refused, a failure here, the
-- action stays done in the tables.
--
-- `postModerationAction`, behind the route's `requireModerator`.
unfoldable pub post_moderation_action :
    (List ℕ → List ℕ) → Db → ℕ → ℕ → ℕ → Option User → Answer ActionRequest → Answer (Db × Response)
post_moderation_action lower db now db_now new_id caller body = require_moderator caller (do
  u ← must_caller caller
  req ← body
  short ←
      unless (ltb 500 (length (codes req.reason)))
        (invalid "reason" "Reason is limited to 500 characters.")
  report ← optional_id "report_id" req.report_id
  about ← optional_id "story_id" req.story_id
  target ← optional_user lower db.social req.login
  kind ← need req.kind "kind" "Unknown moderation action."
  applied ← apply_action db now db_now new_id u.id kind report about target req.reason
  reports ← or_internal (
      record_moderation_action applied.reports applied.social.users applied.pipeline.stories db_now
        u.id kind report about target req.reason)
  done (record applied { reports = reports }, recorded))
