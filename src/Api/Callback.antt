-- ===== src/Api/Callback.antt =====
-- internal/api/handlers_auth.go and internal/auth/import.go: where GitHub's answer leads a browser, and
-- the summary of an import that it starts.
--
-- Package auth is configured. `url.Parse` is a parameter, and the exchange of the code with GitHub and
-- the accounts that a person follows there are arguments.
pub mod Counts
use gh_stories.Prelude.{
  ℕ, ◌+◌, Bool, true, false, not, ◌&&◌, ◌||◌, Option, none, some, List, [], ◌∷◌, ◌++◌, ◌==◌, ltb,
  leb, length, if◌then◌else◌, exists_row, map,
}
use gh_stories.Domain.{User, is_none}
use gh_stories.Store.Social.{
  Social, Result, ok, err, Identity, Action, added, already_following, skipped_unfollowed,
  skipped_blocked, import_follows, mark_onboarded,
}
use gh_stories.Account.Samples.{sample_logins}

-- A parsed URL, as far as `safeReturnTo` reads it.
pub record Url : Type 0 where
  pub is_abs : Bool
  pub host : List ℕ
  pub path : List ℕ
  pub text : List ℕ

abbrev starts_with : List ℕ → List ℕ → Bool
starts_with [] s = true
starts_with (c ∷ cs) [] = false
starts_with (c ∷ cs) (d ∷ ds) = c == d && starts_with cs ds

abbrev returned : Option Url → List ℕ
returned none = []
returned (some u) =
    if u.is_abs || not (length u.host == 0) || not (starts_with (b'/' ∷ []) u.path)
    then []
    else u.text

-- `safeReturnTo`
unfoldable pub safe_return_to : (List ℕ → Option Url) → List ℕ → List ℕ
safe_return_to parse raw =
    if length raw == 0 || starts_with (b'/' ∷ b'/' ∷ []) raw || exists_row (λ c. c == b':') raw
    then []
    else returned (parse raw)

-- `ImportSummary`; the sample is the ids of accounts.
pub record ImportSummary : Type 0 where
  pub github_following_count : ℕ
  pub added_count : ℕ
  pub already_count : ℕ
  pub unfollowed_count : ℕ
  pub blocked_count : ℕ
  pub sample : List ℕ

abbrev pub no_summary : ℕ → ImportSummary
no_summary n = record {
  github_following_count = n;
  added_count = 0;
  already_count = 0;
  unfollowed_count = 0;
  blocked_count = 0;
  sample = [];
}

-- One round of the loop of `ImportFollows`.
abbrev tally : ImportSummary → ℕ × Action → ImportSummary
tally m (id, added) = record m {
  added_count = m.added_count + 1;
  sample = if ltb (length m.sample) 5 then m.sample ++ id ∷ [] else m.sample;
}
tally m (id, already_following) = record m { already_count = m.already_count + 1 }
tally m (id, skipped_unfollowed) = record m { unfollowed_count = m.unfollowed_count + 1 }
tally m (id, skipped_blocked) = record m { blocked_count = m.blocked_count + 1 }

unfoldable pub summarize : ImportSummary → List (ℕ × Action) → ImportSummary
summarize m [] = m
summarize m (c ∷ cs) = summarize (tally m c) cs

abbrev imported : Social → ℕ → Result (Social × List (ℕ × Action)) → Result (Social × ImportSummary)
imported g n (ok r) = ok (r.0, summarize (no_summary n) r.1)
imported g n (err e) = err e

-- `ImportFollows` of package auth; `following` is none when GitHub's answer is an error.
unfoldable pub run_import :
    Social
    → ℕ
    → Option (List Identity)
    → (enabled preview : Bool) → ℕ
    → Option (Result (Social × ImportSummary))
run_import g user following false preview now = some (ok (g, no_summary 0))
run_import g user none true preview now = none
run_import g user (some is) true preview now =
    some (imported g (length is) (import_follows g user is preview now))

-- `OAuthFlow.Purpose`
pub data Purpose : Type 0 where
  web_login cli_approval import_purpose : Purpose

-- What `CompleteAuthorization` answers, with the flow that was started.
pub record Authorization : Type 0 where
  pub user : User
  pub is_new_account : Bool
  pub purpose : Purpose
  pub pending_login_id : Option ℕ
  pub return_to : List ℕ

pub data Destination : Type 0 where
  to_account : Destination
  to_import_failed : Destination
  to_import_done : ImportSummary → Destination
  to_pending : ℕ → Destination
  to_path : List ℕ → Destination
  to_onboarding : Destination

abbrev ordinary : Authorization → Destination
ordinary a =
    if not (length a.return_to == 0)
    then to_path a.return_to
    else if a.is_new_account || is_none a.user.onboarded_at
    then to_onboarding
    else to_account

abbrev after_import :
    Social → ℕ → ℕ → Option (Result (Social × ImportSummary)) → Destination × Social
after_import g user now (some (ok (h, m))) =
    (to_import_done m, record h { users = mark_onboarded user now h.users })
after_import g user now _ = (to_import_failed, g)

abbrev approval_or : Authorization → Option ℕ → Destination
approval_or a (some id) = to_pending id
approval_or a none = ordinary a

abbrev by_purpose :
    Social → ℕ → Option (List Identity) → Authorization → Purpose → Destination × Social
by_purpose g now following a import_purpose =
    after_import g a.user.id now (run_import g a.user.id following true false now)
by_purpose g now following a cli_approval = (approval_or a a.pending_login_id, g)
by_purpose g now following a web_login = (ordinary a, g)

-- The `switch` of `getAuthCallback`: where the browser goes, and the graph. The sample of logins in the
-- address is Account/Samples.antt's.
unfoldable pub callback : Social → ℕ → Option (List Identity) → Authorization → Destination × Social
callback g now following a = by_purpose g now following a a.purpose
