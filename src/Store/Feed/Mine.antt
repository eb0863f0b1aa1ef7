-- ===== src/Store/Feed/Mine.antt =====
-- The caller's own items are all in the feed's own group.
use mathlib.Core.Path.{subst}
use gh_stories.Prelude.{
  ℕ, ◌≡◌, ◌≢◌, refl, sym, ap, ◌∙◌, length, Bool, true, false, Option, none, some, List, [], ◌∷◌,
  ◌++◌, ◌==◌, ==_iff, leb, Bool-cases, inl, inr, select_rows, map, Memᴰ, All, arith, First,
  First-sort_by, sort_by-Mem, All-Mem,
}
use gh_stories.Domain.{User, StoryItem}
use gh_stories.Store.Social.{Social}
use gh_stories.Store.Stories.{Pipeline}
use gh_stories.Store.Stories.Items.{Loaded, with_variants}
use gh_stories.Store.Interact.{Inbox}
use gh_stories.Store.Visibility.{Viewer, visible_to_viewer}
use gh_stories.Store.Feed.{
  add_row, annotate, annotated, author_of, Authored, collect, feed, feed_rows, FeedGroup, FeedRow,
  group_rows, is_listed, is_own, load_group, order_le, page_limit, rank_of, rank_rows, Ranked,
  select_authored, keep_authored,
}

-- The groups have different authors.
abbrev Distinct : List FeedGroup → Type 0
Distinct [] = Unit
Distinct (gr ∷ gs) = All (λ h. h.author_user_id ≢ gr.author_user_id) gs × Distinct gs

add_row-other :
    (r : FeedRow) (a : ℕ) (gs : List FeedGroup)
    → r.item.author_user_id ≢ a
    → All (λ h. h.author_user_id ≢ a) gs
    → All (λ h. h.author_user_id ≢ a) (add_row r gs)
add_row-other r a [] ne h = (ne, tt)
add_row-other r a (gr ∷ gs) ne h = elim (Bool-cases (gr.author_user_id == r.item.author_user_id)) [
  | inl e ↦ rw e h
  | inr e ↦ rw e (h.0, add_row-other r a gs ne h.1)
]

add_row-Distinct : (r : FeedRow) (gs : List FeedGroup) → Distinct gs → Distinct (add_row r gs)
add_row-Distinct r [] d = (tt, tt)
add_row-Distinct r (gr ∷ gs) d = elim (Bool-cases (gr.author_user_id == r.item.author_user_id)) [
  | inl e ↦ rw e d
  | inr e ↦
      rw e
        (add_row-other r gr.author_user_id gs (λ same. ground arith) d.0, add_row-Distinct r gs d.1)
]

-- The first group is the viewer's, or there is none.
abbrev OwnHead : ℕ → List FeedGroup → Type 0
OwnHead viewer [] = Unit
OwnHead viewer (gr ∷ gs) = gr.author_user_id ≡ viewer

abbrev HasItem : ℕ → StoryItem → List FeedGroup → Type 0
HasItem viewer si [] = ⊥
HasItem viewer si (gr ∷ gs) = (gr.author_user_id ≡ viewer) × Memᴰ (si, []) gr.items

Mem-append_left {ℓ} :
    {A : Type ℓ} {x : A} {xs : List A} (ys : List A) → Memᴰ x xs → Memᴰ x (xs ++ ys)
Mem-append_left ys (Memᴰ.head e) = Memᴰ.head e
Mem-append_left ys (Memᴰ.tail m) = Memᴰ.tail (Mem-append_left ys m)

Mem-append_last {ℓ} : {A : Type ℓ} (x : A) (xs : List A) → Memᴰ x (xs ++ x ∷ [])
Mem-append_last x [] = Memᴰ.head refl
Mem-append_last x (y ∷ ys) = Memᴰ.tail (Mem-append_last x ys)

module _ (viewer : ℕ) (si : StoryItem) where
  add_row-keeps :
      (r : FeedRow) (gs : List FeedGroup) → HasItem viewer si gs → HasItem viewer si (add_row r gs)
  add_row-keeps r [] h = absurd h
  add_row-keeps r (gr ∷ gs) h = elim (Bool-cases (gr.author_user_id == r.item.author_user_id)) [
    | inl e ↦ rw e (h.0, Mem-append_left _ h.1)
    | inr e ↦ rw e h
  ]

  group_rows-keeps :
      (rs : List Ranked) (gs : List FeedGroup)
      → HasItem viewer si gs
      → HasItem viewer si (group_rows gs rs)
  unfolding group_rows
  group_rows-keeps [] gs h = h
  group_rows-keeps (r ∷ rs) gs h = group_rows-keeps rs (add_row r.0 gs) (add_row-keeps r.0 gs h)

  add_row-own :
      (r : FeedRow) (gs : List FeedGroup)
      → r.item.author_user_id ≡ viewer
      → OwnHead viewer gs
      → OwnHead viewer (add_row r gs) × (r.item ≡ si → HasItem viewer si (add_row r gs))
  add_row-own r [] own h = (own, λ e. (own, rw e (Memᴰ.head refl)))
  add_row-own r (gr ∷ gs) own h =
      let same : (gr.author_user_id == r.item.author_user_id) ≡ true = ground arith in
      rw same (h, λ e. (h, rw (← e) (Mem-append_last (r.item, []) gr.items)))

  group_rows-own :
      (rs : List Ranked) (gs : List FeedGroup) (x : Ranked)
      → First (order_le viewer) (is_own viewer) rs
      → Memᴰ x rs
      → is_own viewer x ≡ true
      → x.0.item ≡ si
      → OwnHead viewer gs
      → HasItem viewer si (group_rows gs rs)
  unfolding group_rows
  group_rows-own [] gs x f m own e h = elim m [ ]
  group_rows-own (y ∷ ys) gs x f (Memᴰ.head same) own e h =
      let mine : y.0.item.author_user_id ≡ viewer = rw (sym same) ((==_iff _ _).0 own) in
      group_rows-keeps ys (add_row y.0 gs)
        ((add_row-own y.0 gs mine h).1 (ap (λ (r : Ranked). r.0.item) (sym same) ∙ e))
  group_rows-own (y ∷ ys) gs x f (Memᴰ.tail m) own e h = elim (Bool-cases (is_own viewer y)) [
    | inl mine ↦
        group_rows-own ys (add_row y.0 gs) x f.1 m own e
          (add_row-own y.0 gs ((==_iff _ _).0 mine) h).0
    | inr other ↦ let foreign = All-Mem (λ r. is_own viewer r ≡ false) m (f.0 other) in absurd (cc)
  ]

  -- Without another group of the viewer's, the one that was found stays.
  collect-me :
      (limit : ℕ) (out : List FeedGroup) (me : Option FeedGroup) (gs : List FeedGroup)
      → All (λ h. h.author_user_id ≢ viewer) gs
      → (collect viewer limit out me gs).1 ≡ me
  unfolding collect
  collect-me limit out me [] h = refl
  collect-me limit out me (gr ∷ gs) h =
      let other : (gr.author_user_id == viewer) ≡ false = let ne = h.0 in ground arith in
      elim (Bool-cases (leb limit (length out))) [
        | inl full ↦ rw (other, full)
        | inr room ↦ rw (other, room) (collect-me limit (out ++ gr ∷ []) me gs h.1)
      ]

  map_load-other :
      (p : Pipeline) (gs : List FeedGroup) (a : ℕ)
      → All (λ h. h.author_user_id ≢ a) gs
      → All (λ h. h.author_user_id ≢ a) (map (load_group p) gs)
  map_load-other p [] a h = tt
  map_load-other p (gr ∷ gs) a h = (h.0, map_load-other p gs a h.1)

  load_group-Mem :
      (p : Pipeline) (xs : List Loaded)
      → Memᴰ (si, []) xs
      → Memᴰ (with_variants p si) (map (λ (it : Loaded). with_variants p it.0) xs)
  load_group-Mem p (x ∷ xs) (Memᴰ.head e) = Memᴰ.head (ap (λ (it : Loaded). with_variants p it.0) e)
  load_group-Mem p (x ∷ xs) (Memᴰ.tail m) = Memᴰ.tail (load_group-Mem p xs m)
  load_group-Mem p [] m = elim m [ ]

  collect-own :
      (p : Pipeline) (limit : ℕ) (gs : List FeedGroup)
      → Distinct gs
      → HasItem viewer si gs
      → (gr : FeedGroup) × ((collect viewer limit [] none (map (load_group p) gs)).1 ≡ some gr)
        × Memᴰ (with_variants p si) gr.items
  unfolding collect
  collect-own p limit [] d h = absurd h
  collect-own p limit (gr ∷ gs) d h =
      let own : (gr.author_user_id == viewer) ≡ true = (==_iff _ _).1 h.0 in
      let others : All (λ k. k.author_user_id ≢ viewer) gs =
        subst (λ a. All (λ k. k.author_user_id ≢ a) gs) h.0 d.0 in
      (
        load_group p gr,
        rw own (
            collect-me limit [] (some (load_group p gr)) (map (load_group p) gs)
              (map_load-other p gs viewer others)),
        load_group-Mem p gr.items h.1,
      )

group_rows-Distinct :
    (rs : List Ranked) (gs : List FeedGroup) → Distinct gs → Distinct (group_rows gs rs)
unfolding group_rows
group_rows-Distinct [] gs d = d
group_rows-Distinct (r ∷ rs) gs d =
    group_rows-Distinct rs (add_row r.0 gs) (add_row-Distinct r.0 gs d)

order_le-own :
    (viewer : ℕ) (x y : Ranked)
    → is_own viewer x ≡ true
    → is_own viewer y ≡ false
    → order_le viewer x y ≡ true
order_le-own viewer x y a b = rw (a, b)

order_le-other :
    (viewer : ℕ) (x y : Ranked)
    → is_own viewer x ≡ false
    → is_own viewer y ≡ true
    → order_le viewer x y ≡ false
order_le-other viewer x y a b = rw (a, b)

keep_authored-Mem :
    (q : StoryItem → User → Bool) (si : StoryItem) (o : Option User) (rest : List Authored)
    {x : Authored}
    → Memᴰ x rest
    → Memᴰ x (keep_authored q si o rest)
keep_authored-Mem q si none rest m = m
keep_authored-Mem q si (some au) rest m = elim (Bool-cases (q si au)) [
  | inl e ↦ rw e (Memᴰ.tail m)
  | inr e ↦ rw e m
]

select_authored-Mem :
    (look : StoryItem → Option User) (q : StoryItem → User → Bool) (si : StoryItem) (au : User)
    (xs : List StoryItem)
    → look si ≡ some au
    → q si au ≡ true
    → Memᴰ si xs
    → Memᴰ (si, au) (select_authored look q xs)
unfolding select_authored
select_authored-Mem look q si au [] l h m = elim m [ ]
select_authored-Mem look q si au (x ∷ xs) l h (Memᴰ.head {x = y} e) =
    rw (← e, l, h) (Memᴰ.head refl)
select_authored-Mem look q si au (x ∷ xs) l h (Memᴰ.tail m) =
    keep_authored-Mem q x (look x) _ (select_authored-Mem look q si au xs l h m)

map-Mem {ℓ κ} :
    {A : Type ℓ} {B : Type κ} (f : A → B) {x : A} {xs : List A} → Memᴰ x xs → Memᴰ (f x) (map f xs)
map-Mem f (Memᴰ.head e) = Memᴰ.head (ap f e)
map-Mem f (Memᴰ.tail m) = Memᴰ.tail (map-Mem f m)

select_rows-Mem {ℓ} :
    {A : Type ℓ} (p : A → Bool) (x : A) (xs : List A)
    → p x ≡ true
    → Memᴰ x xs
    → Memᴰ x (select_rows p xs)
select_rows-Mem p x [] h m = elim m [ ]
select_rows-Mem p x (y ∷ xs) h (Memᴰ.head {x = z} e) = rw (← e, h) (Memᴰ.head refl)
select_rows-Mem p x (y ∷ xs) h (Memᴰ.tail m) =
    let rest = select_rows-Mem p x xs h m in
    elim (Bool-cases (p y)) [ inl t ↦ rw t (Memᴰ.tail rest) | inr t ↦ rw t rest ]

-- Every stored item of the caller's own that the caller may see is in the caller's group of the feed,
-- with its variants, whatever the limit and however many other authors there are.
pub feed-own :
    (g : Social) (p : Pipeline) (s : Inbox) (v : Viewer) (now : ℕ) (include_muted : Bool)
    (limit : ℕ) (si : StoryItem) (au : User)
    → Memᴰ si p.stories
    → si.author_user_id ≡ v.id
    → author_of g si ≡ some au
    → visible_to_viewer g v now si au ≡ true
    → (gr : FeedGroup) × ((feed g p s v now include_muted limit).1 ≡ some gr)
      × Memᴰ (with_variants p si) gr.items
unfolding feed feed_rows annotated
feed-own g p s v now include_muted limit si au m own l h =
    let rows = annotated g p s v now in
    let row = annotate g s v (si, au) in
    let mine : is_own v.id (row, rank_of rows row) ≡ true = (==_iff _ _).1 own in
    collect-own v.id si p (page_limit limit) _ (group_rows-Distinct _ [] tt) (
      group_rows-own v.id si (feed_rows g p s v now include_muted) [] (row, rank_of rows row)
        (First-sort_by (order_le v.id) (is_own v.id) (order_le-own v.id) (order_le-other v.id)
          (select_rows (is_listed v.id include_muted) (rank_rows rows rows)))
        (sort_by-Mem (order_le v.id) _ _ (
          select_rows-Mem (is_listed v.id include_muted) _ _ (ground arith) (
            map-Mem (λ a. (a, rank_of rows a))
              (map-Mem (annotate g s v) (
                select_authored-Mem (author_of g) (visible_to_viewer g v now) si au p.stories l h
                  m)))))
        mine refl tt)
