-- ===== src/Store/Visibility/Changes.antt =====
-- How a block acts on who may see an item, and public items.
use gh_stories.Prelude.{
  ℕ, ◌≡◌, ◌≢◌, ◌⊎◌, inl, inr, Bool, true, false, List, arith, exists_row, exists_row_sound,
  exists_row_complete,
}
use gh_stories.Domain.{User, StoryItem}
use gh_stories.Store.Social.{Social, Rule, ok, is_rule, insert_rule, set_block}
use gh_stories.Store.Visibility.{Viewer, blocked, visible_to_viewer}

-- A rule that is set is there.
exists-insert_rule :
    (owner target : ℕ) (rs : List Rule)
    → exists_row (is_rule owner target) (insert_rule owner target rs) ≡ true
unfolding insert_rule
exists-insert_rule owner target rs = ground arith

weaken :
    (p q : Rule → Bool) (rs : List Rule)
    → ((r : Rule) → p r ≡ true → q r ≡ true)
    → exists_row p rs ≡ true
    → exists_row q rs ≡ true
weaken p q rs h e = let (r, m, pr) = exists_row_sound p rs e in exists_row_complete q m (h r pr)

block_inserted :
    (g h : Social) (a t : ℕ)
    → set_block g a t true ≡ ok h
    → exists_row (is_rule a t) h.blocks ≡ true
unfolding set_block
block_inserted g h a t e = ground (arith, exists-insert_rule a t g.blocks)

blocked_by :
    (h : Social) (v : Viewer) (si : StoryItem) (au : User)
    → (exists_row (is_rule v.id au.github_id) h.blocks ≡ true)
      ⊎ (exists_row (is_rule si.author_user_id v.github_id) h.blocks ≡ true)
    → blocked h v si au ≡ true
unfolding blocked
blocked_by h v si au (inl e) = weaken _ _ h.blocks (λ r k. ground arith) e
blocked_by h v si au (inr e) = weaken _ _ h.blocks (λ r k. ground arith) e

-- Once a block of the author by the viewer or of the viewer by the author is stored, the viewer
-- sees none of the author's items, unless the viewer is the author.
pub visible_to_viewer-set_block :
    (g h : Social) (v : Viewer) (now : ℕ) (si : StoryItem) (au : User)
    → (set_block g v.id au.github_id true ≡ ok h)
      ⊎ (set_block g si.author_user_id v.github_id true ≡ ok h)
    → si.author_user_id ≢ v.id
    → visible_to_viewer h v now si au ≡ false
unfolding visible_to_viewer
visible_to_viewer-set_block g h v now si au (inl e) other =
    let b = blocked_by h v si au (inl (block_inserted g h v.id au.github_id e)) in ground arith
visible_to_viewer-set_block g h v now si au (inr e) other =
    let b = blocked_by h v si au (inr (block_inserted g h si.author_user_id v.github_id e)) in
    ground arith
