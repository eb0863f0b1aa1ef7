-- ===== src/Store/Logins/Listings.antt =====
-- internal/store/session.go: reads of sessions and pending logins.
use gh_stories.Prelude.{ℕ, Bool, not, ◌&&◌, List, ltb, ◌==◌, find_row, select_rows, same_text}
use gh_stories.Domain.{Session, is_none}
use gh_stories.Store.Social.{Result}
use gh_stories.Store.Stories.Uploads.{or_not_found}
use gh_stories.Store.Logins.{PendingLogin, is_login, is_pending}

abbrev is_listed_session : ℕ → ℕ → Session → Bool
is_listed_session clock user se =
    se.user_id == user && is_none se.revoked_at && ltb clock se.expires_at

-- `ListSessions`, without its order by the time of the last use.
unfoldable pub list_sessions : List Session → ℕ → ℕ → List Session
list_sessions rows clock user = select_rows (is_listed_session clock user) rows

-- `PendingLogin`
unfoldable pub pending_login : List PendingLogin → ℕ → Result PendingLogin
pending_login rows id = or_not_found (find_row (is_login id) rows)

-- `replace(code, '-', '')`
abbrev without_dashes : List ℕ → List ℕ
without_dashes code = select_rows (λ c. not (c == b'-')) code

-- `PendingLoginByCode`; `upper` is the database's function of that name.
unfoldable pub pending_login_by_code :
    (List ℕ → List ℕ) → List PendingLogin → ℕ → List ℕ → Result PendingLogin
pending_login_by_code upper rows clock code = or_not_found (
    find_row
      (λ (r : PendingLogin).
        same_text (upper (without_dashes r.user_code)) (upper (without_dashes code))
        && is_pending r.state
        && ltb clock r.expires_at)
      rows)
