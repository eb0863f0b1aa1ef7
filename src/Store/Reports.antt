-- ===== src/Store/Reports.antt =====
-- internal/store/moderation.go: reports, and the audit log of moderators' actions.
use Prim.Native.String.{String}
use gh_stories.Prelude.{
  ℕ, Bool, true, false, ◌&&◌, ◌||◌, Option, none, some, List, ◌∷◌, ◌==◌, if◌then◌else◌, exists_row,
  update_rows,
}
use gh_stories.Domain.{User, StoryItem}
use gh_stories.Store.Social.{equals, has_user, Result, ok, err, refused}

pub data ReportState : Type 0 where
  unresolved actioned dismissed : ReportState

abbrev pub is_open_state : ReportState → Bool
is_open_state unresolved = true
is_open_state _ = false

pub record Report : Type 0 where
  pub id : ℕ
  pub reporter_user_id : ℕ
  pub story_item_id : Option ℕ
  pub subject_user_id : Option ℕ
  pub reason : String
  pub details : String
  pub state : ReportState
  pub resolved_at : Option ℕ
  pub resolved_by_user_id : Option ℕ

pub data ActionKind : Type 0 where
  remove_story suspend unsuspend dismiss_report : ActionKind

-- A row of `moderation_actions`.
pub record AuditRow : Type 0 where
  pub moderator_user_id : ℕ
  pub kind : ActionKind
  pub report_id : Option ℕ
  pub story_item_id : Option ℕ
  pub target_user_id : Option ℕ
  pub reason : String

pub record Reports : Type 0 where
  pub rows : List Report
  pub audit : List AuditRow

-- `CreateReport`
unfoldable pub create_report : Reports → ℕ → ℕ → Option ℕ → Option ℕ → String → String → Reports
create_report s new_id reporter story subject reason details = record s {
  rows =
      record {
        id = new_id;
        reporter_user_id = reporter;
        story_item_id = story;
        subject_user_id = subject;
        reason = reason;
        details = details;
        state = unresolved;
        resolved_at = none;
        resolved_by_user_id = none;
      }
      ∷ s.rows;
}

abbrev pub resolve : ReportState → ℕ → ℕ → Report → Report
resolve state now moderator r = record r {
  state = state;
  resolved_at = some now;
  resolved_by_user_id = some moderator;
}

-- `a IS NOT NULL AND b = a`
abbrev pub both_equal : Option ℕ → Option ℕ → Bool
both_equal none b = false
both_equal (some a) b = equals b a

abbrev authored : List StoryItem → ℕ → ℕ → Bool
authored stories author id = exists_row (λ s. s.id == id && s.author_user_id == author) stories

abbrev pub story_of_target : List StoryItem → Option ℕ → Option ℕ → Bool
story_of_target stories none story = false
story_of_target stories (some t) none = false
story_of_target stories (some t) (some id) = authored stories t id

-- The open reports that an action addresses.
abbrev pub is_addressed : List StoryItem → Option ℕ → Option ℕ → Option ℕ → Report → Bool
is_addressed stories report story target r =
    is_open_state r.state
    && (equals report r.id
        || both_equal story r.story_item_id
        || both_equal target r.subject_user_id
        || story_of_target stories target r.story_item_id)

abbrev pub settle :
    List StoryItem → ℕ → ℕ → ActionKind → Option ℕ → Option ℕ → Option ℕ → List Report → List Report
settle stories now moderator dismiss_report none story target rows = rows
settle stories now moderator dismiss_report (some id) story target rows =
    update_rows (λ r. r.id == id && is_open_state r.state) (resolve dismissed now moderator) rows
settle stories now moderator _ report story target rows =
    update_rows (is_addressed stories report story target) (resolve actioned now moderator) rows

-- A reference that is null or to a stored row.
abbrev pub refers : (ℕ → Bool) → Option ℕ → Bool
refers stored none = true
refers stored (some id) = stored id

-- The foreign keys of `moderation_actions`.
abbrev pub is_recordable :
    Reports → List User → List StoryItem → ℕ → Option ℕ → Option ℕ → Option ℕ → Bool
is_recordable s users stories moderator report story target =
    has_user users moderator
    && refers (λ id. exists_row (λ (r : Report). r.id == id) s.rows) report
    && refers (λ id. exists_row (λ (t : StoryItem). t.id == id) stories) story
    && refers (has_user users) target

-- `RecordModerationAction`, whose two statements are no transaction: a refused insertion comes first.
unfoldable pub record_moderation_action :
    Reports
    → List User
    → List StoryItem
    → ℕ
    → ℕ
    → ActionKind
    → Option ℕ
    → Option ℕ
    → Option ℕ
    → String
    → Result Reports
record_moderation_action s users stories db_now moderator kind report story target reason =
    if is_recordable s users stories moderator report story target
    then ok (record s {
      rows = settle stories db_now moderator kind report story target s.rows;
      audit =
          record {
            moderator_user_id = moderator;
            kind = kind;
            report_id = report;
            story_item_id = story;
            target_user_id = target;
            reason = reason;
          }
          ∷ s.audit;
    })
    else err refused
