-- ===== src/Examples/Account.antt =====
-- Runs of the account pages.
use gh_stories.Prelude.{
  ℕ, ◌+◌, ◌≡◌, refl, true, false, none, some, List, [], ◌∷◌, take, select_rows,
}
use gh_stories.Domain.{is_active}
use gh_stories.Examples.{bob}
use gh_stories.Examples.Api.{db}
use gh_stories.Examples.Logins.{login}
use gh_stories.Account.{
  AccountState, to_login, gone, authorized, get_external_viewer, post_authorize, get_authorize,
}
use gh_stories.Store.Logins.Listings.{pending_login}
use gh_stories.Account.Viewer.{IsFor, get_external_viewer-IsFor}
use gh_stories.Account.Approvals.{post_authorize-get_authorize}
use gh_stories.Account.Samples.{is_github_login, sample_logins, import_sample}
use gh_stories.Account.Samples.Carried.{import_sample-sample_logins}

-- Bob may see the Story 7, which is not public.
get_external_viewer-IsFor_example :
    IsFor db 12 none 7 false to_login (get_external_viewer db 12 none (some 7))
    × IsFor db 12 (some bob) 7 true gone (get_external_viewer db 12 (some bob) (some 7))
unfolding is_active
get_external_viewer-IsFor_example = get_external_viewer-IsFor db 12 7 bob refl

abbrev state : AccountState
state = record { db = db; sessions = []; logins = login ∷ [] }

abbrev twice : ℕ → ℕ
twice n = n + n

abbrev unchanged : List ℕ → List ℕ
unchanged c = c

-- Bob opens a link to the login 4, and presses the button.
post_authorize-get_authorize_example :
    (post_authorize twice unchanged unchanged 1000 state 10 3 77
      (some bob)
      (some 4)
      false
      (65 ∷ [])).0
    ≡ authorized true
unfolding get_authorize pending_login
post_authorize-get_authorize_example =
    post_authorize-get_authorize twice unchanged unchanged 1000 state 10 3 77 4 bob login refl refl
      refl

-- The second of three logins has two hyphens in a row.
abbrev three : List (List ℕ)
three = (b'm' ∷ b'-' ∷ b'a' ∷ []) ∷ (b'm' ∷ b'-' ∷ b'-' ∷ b'a' ∷ []) ∷ (b'j' ∷ []) ∷ []

import_sample-sample_logins_example :
    import_sample (sample_logins three) ≡ take 5 (select_rows is_github_login three)
import_sample-sample_logins_example = import_sample-sample_logins three
