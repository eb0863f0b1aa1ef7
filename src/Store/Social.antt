-- ===== src/Store/Social.antt =====
-- internal/store/graph.go: follows, tombstones, mutes, blocks, hide rules and audience lists.
pub mod Imports
pub mod Preview
use Prim.Native.Char.{code}
use Prim.Native.String.{String}
use gh_stories.Prelude.{
  not, ℕ, ◌≡◌, refl, Bool, true, false, ◌&&◌, ◌||◌, Option, none, some, List, [], ◌∷◌, ◌==◌,
  if◌then◌else◌, find_row, same_text, decimal, ◌++◌, exists_row, update_rows, delete_rows,
}
use gh_stories.Domain.{
  User, Relationship, active, unfollowed, is_following, Provenance, github_import, stories_native,
}

-- The code points of a text.
abbrev pub codes : String → List ℕ
codes String.[] = []
codes (String.◌∷◌ c s) = code c ∷ codes s

-- A row of `mutes`, `blocks` or `hide_rules`: the account that sets the rule and its target.
pub record Rule : Type 0 where
  pub owner : ℕ
  pub target : ℕ

pub record Identity : Type 0 where
  pub github_id : ℕ
  pub login_lower : List ℕ

pub record AudienceList : Type 0 where
  pub id : ℕ
  pub owner_user_id : ℕ
  pub name : String
  pub is_deleted : Bool

pub record Member : Type 0 where
  pub list_id : ℕ
  pub github_id : ℕ

-- The tables of accounts and of the social graph.
pub record Social : Type 0 where
  pub users : List User
  pub identities : List Identity
  pub relationships : List Relationship
  pub mutes : List Rule
  pub blocks : List Rule
  pub hide_rules : List Rule
  pub lists : List AudienceList
  pub members : List Member

-- `ErrNotFound`, and any other error: a statement that the tables' constraints refuse, or one that
-- finds no row where the code takes it to be there.
pub data Error : Type 0 where
  not_found refused : Error

pub data Result {ℓ} (A : Type ℓ) : Type ℓ where
  ok : A → Result A
  err : Error → Result A

abbrev pub has_user : List User → ℕ → Bool
has_user us id = exists_row (λ u. u.id == id) us

abbrev pub has_identity : List Identity → ℕ → Bool
has_identity is gid = exists_row (λ i. i.github_id == gid) is

abbrev pub is_edge : ℕ → ℕ → Relationship → Bool
is_edge follower followee r = r.follower_user_id == follower && r.followee_github_id == followee

abbrev pub is_active_edge : ℕ → ℕ → Relationship → Bool
is_active_edge follower followee r = is_edge follower followee r && is_following r.state

abbrev pub is_rule : ℕ → ℕ → Rule → Bool
is_rule owner target r = r.owner == owner && r.target == target

-- The `DO UPDATE` of `Follow`: a native follow always wins, an import never downgrades one.
abbrev pub upgrade : Provenance → Provenance → Provenance
upgrade stories_native old = stories_native
upgrade github_import old = old

abbrev pub follow_row : ℕ → ℕ → Provenance → Relationship
follow_row follower followee prov = record {
  follower_user_id = follower;
  followee_github_id = followee;
  state = active;
  provenance = prov;
}

-- `INSERT INTO relationships … ON CONFLICT … DO UPDATE`
unfoldable pub upsert_follow : ℕ → ℕ → Provenance → List Relationship → List Relationship
upsert_follow follower followee prov [] = follow_row follower followee prov ∷ []
upsert_follow follower followee prov (r ∷ rs) =
    if is_edge follower followee r
    then record r { state = active; provenance = upgrade prov r.provenance } ∷ rs
    else r ∷ upsert_follow follower followee prov rs

-- `Follow`. The foreign keys are those of `relationships`.
unfoldable pub follow : Social → ℕ → ℕ → Provenance → Result Social
follow g follower followee prov =
    if has_user g.users follower && has_identity g.identities followee
    then ok (record g { relationships = upsert_follow follower followee prov g.relationships })
    else err not_found

abbrev pub tombstone : Relationship → Relationship
tombstone r = record r { state = unfollowed }

-- `Unfollow`
unfoldable pub unfollow : Social → ℕ → ℕ → Social
unfollow g follower followee = record g {
  relationships = update_rows (is_active_edge follower followee) tombstone g.relationships;
}

-- `Follows`
unfoldable pub follows : Social → ℕ → ℕ → Bool
follows g follower followee = exists_row (is_active_edge follower followee) g.relationships

-- `RelationshipProvenance`
unfoldable pub relationship_provenance : Social → ℕ → ℕ → Option Provenance
relationship_provenance g follower followee =
    elim (find_row (is_active_edge follower followee) g.relationships) [
      | none ↦ none
      | some r ↦ some r.provenance
    ]

-- `toggle`, on one of its three tables: the insert, `ON CONFLICT DO NOTHING`, and the delete.
unfoldable pub insert_rule : ℕ → ℕ → List Rule → List Rule
insert_rule owner target rs =
    if exists_row (is_rule owner target) rs
    then rs
    else record { owner = owner; target = target } ∷ rs

unfoldable pub toggle : Social → List Rule → ℕ → ℕ → Bool → Result (List Rule)
toggle g rs owner target true =
    if has_user g.users owner && has_identity g.identities target
    then ok (insert_rule owner target rs)
    else err not_found
toggle g rs owner target false = ok (delete_rows (is_rule owner target) rs)

infixl 5 ◌>>=◌
abbrev pub ◌>>=◌ {ℓ κ} : {A : Type ℓ} {B : Type κ} → Result A → (A → Result B) → Result B
err e >>= k = err e
ok x >>= k = k x

-- Inversion of a successful bind.
pub >>=-eq-ok {ℓ κ} :
    {A : Type ℓ} {B : Type κ} {out : B} (call : Result A) (then_do : A → Result B)
    → (call >>= then_do) ≡ ok out
    → (x : A) × (call ≡ ok x) × (then_do x ≡ ok out)
>>=-eq-ok (err e) k h = cc
>>=-eq-ok (ok x) k h = (x, refl, h)

-- What holds of the result of a call holds of the one it is known to be.
pub ok-elim {ℓ κ} : {A : Type ℓ} (Q : A → Type κ) {a b : A} → ok a ≡ ok b → Q a → Q b
ok-elim Q {a = a} {b = b} h q = rw (← ok_injective h) q
  where
    ok_injective : ok a ≡ ok b → a ≡ b
    ok_injective h = cc

abbrev pub on_ok {ℓ κ} : {A : Type ℓ} {B : Type κ} → (A → B) → Result A → Result B
on_ok f (ok a) = ok (f a)
on_ok f (err e) = err e

-- `SetMute` and `SetHide`
unfoldable pub set_mute : Social → ℕ → ℕ → Bool → Result Social
set_mute g user target on = on_ok (λ rs. record g { mutes = rs }) (toggle g g.mutes user target on)

unfoldable pub set_hide : Social → ℕ → ℕ → Bool → Result Social
set_hide g user target on =
    on_ok (λ rs. record g { hide_rules = rs }) (toggle g g.hide_rules user target on)

-- `(SELECT github_user_id FROM users WHERE id = $1)` and the other way round; NULL is `none`.
unfoldable pub github_of : List User → ℕ → Option ℕ
github_of us id = elim (find_row (λ u. u.id == id) us) [ none ↦ none | some u ↦ some u.github_id ]

unfoldable pub user_of : List User → ℕ → Option ℕ
user_of us gid = elim (find_row (λ u. u.github_id == gid) us) [ none ↦ none | some u ↦ some u.id ]

-- `=` against a scalar subquery: a NULL makes the comparison fail.
abbrev pub equals : Option ℕ → ℕ → Bool
equals none n = false
equals (some m) n = m == n

-- The follows in either direction between a user and a GitHub account.
abbrev pub is_between : Social → ℕ → ℕ → Relationship → Bool
is_between g user target r =
    is_following r.state
    && (is_edge user target r
        || equals (github_of g.users user) r.followee_github_id
          && equals (user_of g.users target) r.follower_user_id)

-- `SetBlock`: blocking also ends the follows in both directions.
unfoldable pub set_block : Social → ℕ → ℕ → Bool → Result Social
set_block g user target false =
    on_ok (λ rs. record g { blocks = rs }) (toggle g g.blocks user target false)
set_block g user target true =
    if has_user g.users user && has_identity g.identities target
    then ok (record g {
      blocks = insert_rule user target g.blocks;
      relationships = update_rows (is_between g user target) tombstone g.relationships;
    })
    else err not_found

-- `BlockedEitherWay`
unfoldable pub blocked_either_way : Social → ℕ → ℕ → ℕ → ℕ → Bool
blocked_either_way g a a_github b b_github =
    exists_row (is_rule a b_github) g.blocks || exists_row (is_rule b a_github) g.blocks

-- `Muted`
unfoldable pub muted : Social → ℕ → ℕ → Bool
muted g user target = exists_row (is_rule user target) g.mutes

pub data Action : Type 0 where
  added already_following skipped_unfollowed skipped_blocked : Action

-- The block check of `ImportFollows`.
unfoldable pub import_blocked : Social → ℕ → ℕ → Bool
import_blocked g user gid =
    exists_row
      (λ b.
        is_rule user gid b
        || equals (github_of g.users user) b.target && equals (user_of g.users gid) b.owner)
      g.blocks

abbrev pub import_action : Bool → Option Relationship → Action
import_action true r = skipped_blocked
import_action false none = added
import_action false (some r) =
    if is_following r.state then already_following else skipped_unfollowed

-- What `ImportFollows` decides for one account.
unfoldable pub decide_import : Social → ℕ → ℕ → Action
decide_import g user gid =
    import_action (import_blocked g user gid) (find_row (is_edge user gid) g.relationships)

-- `INSERT … ON CONFLICT (github_user_id) DO UPDATE`
unfoldable pub insert_identity : Identity → List Identity → List Identity
insert_identity i [] = i ∷ []
insert_identity i (j ∷ js) = if j.github_id == i.github_id then i ∷ js else j ∷ insert_identity i js

-- The rows that `github_identities_login_lower_uq` sets against the identity.
abbrev pub holds_login : Identity → Identity → Bool
holds_login i k = not (k.github_id == i.github_id) && same_text k.login_lower i.login_lower

-- `UpsertIdentity` inside a transaction. A unique violation aborts the transaction, so the statement
-- that would release the login fails as well, and its error is returned.
unfoldable pub upsert_identity : Identity → List Identity → Result (List Identity)
upsert_identity i is =
    if exists_row (holds_login i) is then err refused else ok (insert_identity i is)

abbrev pub follow_added : Social → ℕ → ℕ → Action → Bool → Result Social
follow_added g user gid added false = follow g user gid github_import
follow_added g user gid _ _ = ok g

-- The loop of `ImportFollows`: the graph after it, and the changes.
unfoldable pub import_loop : Social → ℕ → List Identity → Bool → Result (Social × List (ℕ × Action))
import_loop g user [] preview = ok (g, [])
import_loop g user (i ∷ is) preview = do
  identities ← upsert_identity i g.identities
  let g' = record g { identities = identities }
  let action = decide_import g' user i.github_id
  h ← follow_added g' user i.github_id action preview
  (k, changes) ← import_loop h user is preview
  ok (k, (i.github_id, action) ∷ changes)

abbrev pub mark_onboarded : ℕ → ℕ → List User → List User
mark_onboarded user now =
    update_rows (λ u. u.id == user) (λ u. record u { onboarded_at = some now })

-- `ImportFollows`. A preview rolls the transaction back.
unfoldable pub import_follows :
    Social → ℕ → List Identity → Bool → ℕ → Result (Social × List (ℕ × Action))
import_follows g user is preview now =
    on_ok
      (λ (r : Social × List (ℕ × Action)).
        if preview
        then (g, r.1)
        else (record r.0 { users = mark_onboarded user now r.0.users }, r.1))
      (import_loop g user is preview)
