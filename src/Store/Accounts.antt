-- ===== src/Store/Accounts.antt =====
-- internal/store/identity.go and graph.go: suspensions, moderators and audience lists.
use gh_stories.Prelude.{
  ℕ, Bool, true, false, not, ◌&&◌, Option, none, some, List, [], ◌∷◌, ◌==◌, if◌then◌else◌,
  count_rows, delete_rows, exists_row, find_row, same_text, update_rows,
}
use gh_stories.Domain.{User}
use gh_stories.Store.Social.{Social, AudienceList, Member, Identity}

-- `SuspendUser`
abbrev pub suspend_row : ℕ → User → User
suspend_row db_now u = record u { suspended_at = some db_now }

unfoldable pub suspend_user : Social → ℕ → ℕ → Social
suspend_user g db_now user = record g {
  users = update_rows (λ u. u.id == user) (suspend_row db_now) g.users;
}

-- `UnsuspendUser`
abbrev pub unsuspend_row : User → User
unsuspend_row u = record u { suspended_at = none }

unfoldable pub unsuspend_user : Social → ℕ → Social
unsuspend_user g user = record g { users = update_rows (λ u. u.id == user) unsuspend_row g.users }

abbrev pub is_listed : List ℕ → ℕ → Bool
is_listed ids id = exists_row (λ i. i == id) ids

abbrev pub to_grant : List ℕ → User → Bool
to_grant ids u = is_listed ids u.github_id && not u.is_moderator

abbrev pub to_revoke : List ℕ → User → Bool
to_revoke ids u = u.is_moderator && not (is_listed ids u.github_id)

abbrev pub set_moderator : Bool → User → User
set_moderator b u = record u { is_moderator = b }

-- `SyncModerators`: how many it granted and revoked, and the accounts.
unfoldable pub sync_moderators : Social → List ℕ → (ℕ × ℕ) × Social
sync_moderators g ids =
    let granted = update_rows (to_grant ids) (set_moderator true) g.users in
    (
      (count_rows (to_grant ids) g.users, count_rows (to_revoke ids) granted),
      record g { users = update_rows (to_revoke ids) (set_moderator false) granted },
    )

abbrev pub is_own_list : ℕ → ℕ → AudienceList → Bool
is_own_list user list al = al.id == list && al.owner_user_id == user

abbrev pub drop_list : AudienceList → AudienceList
drop_list al = record al { is_deleted = true }

-- `DeleteAudienceList`
unfoldable pub delete_audience_list : Social → ℕ → ℕ → Social
delete_audience_list g user list = record g {
  lists = update_rows (is_own_list user list) drop_list g.lists;
}

-- `strings.TrimPrefix(l, "@")`
abbrev pub trim_at : List ℕ → List ℕ
trim_at [] = []
trim_at (c ∷ cs) = if c == 64 then cs else c ∷ cs

abbrev pub is_member : ℕ → ℕ → Member → Bool
is_member list gid m = m.list_id == list && m.github_id == gid

abbrev pub add_member : ℕ → Option Identity → List Member → List Member
add_member list none ms = ms
add_member list (some i) ms =
    if exists_row (is_member list i.github_id) ms
    then ms
    else record { list_id = list; github_id = i.github_id } ∷ ms

abbrev pub has_login : List ℕ → Identity → Bool
has_login login i = same_text i.login_lower login

-- The loop of `replaceMembers`; `lower` is the database's function of that name.
abbrev pub add_members :
    (List ℕ → List ℕ) → List Identity → ℕ → List (List ℕ) → List Member → List Member
add_members lower is list [] ms = ms
add_members lower is list (l ∷ ls) ms =
    add_members lower is list ls (add_member list (find_row (has_login (lower (trim_at l))) is) ms)

abbrev pub on_this_list : ℕ → Member → Bool
on_this_list list m = m.list_id == list

-- `replaceMembers`
unfoldable pub replace_members : (List ℕ → List ℕ) → Social → ℕ → List (List ℕ) → Social
replace_members lower g list logins = record g {
  members = add_members lower g.identities list logins (delete_rows (on_this_list list) g.members);
}
