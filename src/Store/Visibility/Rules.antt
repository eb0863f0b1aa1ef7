-- ===== src/Store/Visibility/Rules.antt =====
-- The fragment against the rules in words: who may see an item.
use gh_stories.Prelude.{
  ℕ, ◌<◌, ◌≡◌, ◌⊎◌, inl, inr, ◌↔◌, refl, true, false, not, ◌&&◌, ◌||◌, none, some, List, Memᴰ, ◌==◌,
  arith, exists_row, exists_row_sound, exists_row_complete, Bool-cases,
}
use gh_stories.Domain.{
  User, StoryItem, Visibility, followers_of_author, author_follows, mutuals, custom_list, everyone,
  published, Relationship, active,
}
use gh_stories.Store.Social.{Social, Rule, Member, AudienceList, is_active_edge, is_rule}
use gh_stories.Store.Visibility.{
  Viewer, is_open, author_active, blocked, hidden, followed_by_author, follows_author, on_list,
  admits, visible_to_viewer,
}

abbrev pub InWindow : StoryItem → ℕ → Type 0
InWindow si now =
    (si.state ≡ published)
    × ((t : ℕ) × (si.published_at ≡ some t))
    × ((e : ℕ) × (si.expires_at ≡ some e) × (now < e))

abbrev pub InGoodStanding : User → Type 0
InGoodStanding au = (au.suspended_at ≡ none) × (au.deleted_at ≡ none)

-- A rule of the table that the owner sets against the target.
abbrev pub HasRule : List Rule → ℕ → ℕ → Type 0
HasRule rs owner target = (r : Rule) × Memᴰ r rs × (r.owner ≡ owner) × (r.target ≡ target)

-- An active follow.
abbrev pub Follows : Social → ℕ → ℕ → Type 0
Follows g follower followee =
    (r : Relationship) × Memᴰ r g.relationships
    × (r.follower_user_id ≡ follower)
    × (r.followee_github_id ≡ followee)
    × (r.state ≡ active)

-- The viewer is a member of the item's list, which the author owns and has not deleted.
abbrev pub OnList : Social → Viewer → StoryItem → Type 0
OnList g v si =
    (m : Member) × Memᴰ m g.members
    × (al : AudienceList) × Memᴰ al g.lists
    × (si.audience_list_id ≡ some m.list_id)
    × (m.github_id ≡ v.github_id)
    × (al.id ≡ m.list_id)
    × (al.owner_user_id ≡ si.author_user_id)
    × (al.is_deleted ≡ false)

abbrev pub Admits : Social → Viewer → StoryItem → User → Visibility → Type 0
Admits g v si au followers_of_author = Follows g si.author_user_id v.github_id
Admits g v si au author_follows = Follows g v.id au.github_id
Admits g v si au mutuals = Follows g si.author_user_id v.github_id × Follows g v.id au.github_id
Admits g v si au custom_list = OnList g v si
Admits g v si au everyone = Unit {0}

abbrev pub MaySee : Social → Viewer → ℕ → StoryItem → User → Type 0
MaySee g v now si au =
    InWindow si now
    × InGoodStanding au
    × ((si.author_user_id ≡ v.id)
        ⊎ ((¬ HasRule g.blocks v.id au.github_id)
            × (¬ HasRule g.blocks si.author_user_id v.github_id)
            × (¬ HasRule g.hide_rules si.author_user_id v.github_id)
            × Admits g v si au si.visibility))

is_open_iff : (si : StoryItem) (now : ℕ) → (is_open si now ≡ true) ↔ InWindow si now
unfolding is_open
is_open_iff si now = (λ h. ground arith, λ h. ground arith)

author_active_iff : (au : User) → (author_active au ≡ true) ↔ InGoodStanding au
unfolding author_active
author_active_iff au = (λ h. ground arith, λ h. ground arith)

blocked_iff :
    (g : Social) (v : Viewer) (si : StoryItem) (au : User)
    → (blocked g v si au ≡ true)
      ↔ (HasRule g.blocks v.id au.github_id ⊎ HasRule g.blocks si.author_user_id v.github_id)
unfolding blocked
blocked_iff g v si au = (to, from)
  where
    split :
        (r : Rule)
        → Memᴰ r g.blocks
        → (is_rule v.id au.github_id r || is_rule si.author_user_id v.github_id r) ≡ true
        → HasRule g.blocks v.id au.github_id ⊎ HasRule g.blocks si.author_user_id v.github_id
    split r m e = elim (Bool-cases (is_rule v.id au.github_id r)) [
      | inl own ↦ inl (r, m, ground arith, ground arith)
      | inr other ↦ inr (r, m, ground arith, ground arith)
    ]

    to :
        exists_row
            (λ b. is_rule v.id au.github_id b || is_rule si.author_user_id v.github_id b)
            g.blocks
          ≡ true
        → HasRule g.blocks v.id au.github_id ⊎ HasRule g.blocks si.author_user_id v.github_id
    to h = let (r, m, e) = exists_row_sound _ g.blocks h in split r m e

    from :
        HasRule g.blocks v.id au.github_id ⊎ HasRule g.blocks si.author_user_id v.github_id
        → exists_row
            (λ b. is_rule v.id au.github_id b || is_rule si.author_user_id v.github_id b)
            g.blocks
          ≡ true
    from (inl (r, m, a, b)) = exists_row_complete _ m (ground arith)
    from (inr (r, m, a, b)) = exists_row_complete _ m (ground arith)

hidden_iff :
    (g : Social) (v : Viewer) (si : StoryItem)
    → (hidden g v si ≡ true) ↔ HasRule g.hide_rules si.author_user_id v.github_id
unfolding hidden
hidden_iff g v si = (
  λ h. let (r, m, e) = exists_row_sound _ g.hide_rules h in (r, m, ground arith, ground arith),
  λ (r, m, a, b). exists_row_complete _ m (ground arith),
)

pub Follows-iff :
    (g : Social) (a b : ℕ)
    → (exists_row (is_active_edge a b) g.relationships ≡ true) ↔ Follows g a b
Follows-iff g a b = (
  λ h.
      let (r, m, e) = exists_row_sound _ g.relationships h in
      (r, m, ground arith, ground arith, ground arith),
  λ (r, m, x, y, z). exists_row_complete _ m (ground arith),
)

on_list_iff : (g : Social) (v : Viewer) (si : StoryItem) → (on_list g v si ≡ true) ↔ OnList g v si
unfolding on_list
on_list_iff g v si = (
  λ h.
      let (m, mem, e) = exists_row_sound _ g.members h in
      let (al, mem', f) =
        exists_row_sound
          (λ (al : AudienceList).
            al.id == m.list_id && al.owner_user_id == si.author_user_id && not al.is_deleted)
          g.lists (ground arith) in
      (m, mem, al, mem', ground arith, ground arith, ground arith, ground arith, ground arith),
  λ (m, mem, al, mem', a, b, c, d, e).
      let inner =
        exists_row_complete
          (λ (al : AudienceList).
            al.id == m.list_id && al.owner_user_id == si.author_user_id && not al.is_deleted)
          mem' (ground arith) in
      exists_row_complete _ mem (ground arith),
)

admits_iff :
    (g : Social) (v : Viewer) (si : StoryItem) (au : User) (vis : Visibility)
    → (admits g v si au vis ≡ true) ↔ Admits g v si au vis
unfolding admits followed_by_author follows_author
admits_iff g v si au followers_of_author = Follows-iff g si.author_user_id v.github_id
admits_iff g v si au author_follows = Follows-iff g v.id au.github_id
admits_iff g v si au mutuals =
    let (to, from) = Follows-iff g si.author_user_id v.github_id in
    let (to', from') = Follows-iff g v.id au.github_id in
    (
      λ h. (to (ground arith), to' (ground arith)),
      λ (a, b). (let x = from a in let y = from' b in ground arith),
    )
admits_iff g v si au custom_list = on_list_iff g v si
admits_iff g v si au everyone = (λ h. tt, λ h. refl)

-- The fragment lets a caller see an item exactly when the rules in words do: the item is published
-- and inside its window, its author is in good standing, and the caller is the author, or there is
-- no block in either direction and no hide rule and the audience admits the caller.
pub visible_to_viewer_iff :
    (g : Social) (v : Viewer) (now : ℕ) (si : StoryItem) (au : User)
    → (visible_to_viewer g v now si au ≡ true) ↔ MaySee g v now si au
unfolding visible_to_viewer
visible_to_viewer_iff g v now si au = (to, from)
  where
    open_iff : (is_open si now ≡ true) ↔ InWindow si now
    open_iff = is_open_iff si now

    standing_iff : (author_active au ≡ true) ↔ InGoodStanding au
    standing_iff = author_active_iff au

    to : visible_to_viewer g v now si au ≡ true → MaySee g v now si au
    to h = (
      open_iff.0 (ground arith),
      standing_iff.0 (ground arith),
      elim (Bool-cases (si.author_user_id == v.id)) [
        | inl own ↦ inl (ground arith)
        | inr other ↦ inr (
          λ r. let e = (blocked_iff g v si au).1 (inl r) in ground arith,
          λ r. let e = (blocked_iff g v si au).1 (inr r) in ground arith,
          λ r. let e = (hidden_iff g v si).1 r in ground arith,
          (admits_iff g v si au si.visibility).0 (ground arith),
        )
      ],
    )

    unblocked :
        (¬ HasRule g.blocks v.id au.github_id)
        → (¬ HasRule g.blocks si.author_user_id v.github_id)
        → blocked g v si au ≡ false
    unblocked a b = elim (Bool-cases (blocked g v si au)) [
      | inl e ↦ elim ((blocked_iff g v si au).0 e) [ inl r ↦ absurd (a r) | inr r ↦ absurd (b r) ]
      | inr e ↦ e
    ]

    unhidden : (¬ HasRule g.hide_rules si.author_user_id v.github_id) → hidden g v si ≡ false
    unhidden a = elim (Bool-cases (hidden g v si)) [
      | inl e ↦ absurd (a ((hidden_iff g v si).0 e))
      | inr e ↦ e
    ]

    from : MaySee g v now si au → visible_to_viewer g v now si au ≡ true
    from (w, s, inl own) = let e = open_iff.1 w in let f = standing_iff.1 s in ground arith
    from (w, s, inr (a, b, c, d)) =
        let e = open_iff.1 w in
        let f = standing_iff.1 s in
        let x = unblocked a b in
        let y = unhidden c in let z = (admits_iff g v si au si.visibility).1 d in ground arith
