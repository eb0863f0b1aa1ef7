-- ===== src/Store/Feed/Sound.antt =====
-- What every group of the feed holds.
use gh_stories.Prelude.{
  ℕ, ◌+◌, ◌≡◌, ◌≢◌, ◌<◌, ◌≤◌, ◌⊎◌, refl, sym, ap, ◌∙◌, Bool, true, false, not, ◌&&◌, ◌||◌, Option,
  none, some, some-injective, length-map, All-map_of, List, [], ◌∷◌, ◌++◌, ◌==◌, ==_iff, leb,
  Bool-cases, inl, inr, find_row_sound, exists_row, exists_row_complete, select_rows, map, length,
  length-append, Memᴰ, All, All-append, All-select_rows, All-sort_by, All-intro, arith,
}
use gh_stories.Domain.{User, StoryItem}
use gh_stories.Store.Social.{Social, is_rule}
use gh_stories.Store.Stories.{Pipeline}
use gh_stories.Store.Stories.Items.{Loaded, with_variants}
use gh_stories.Store.Interact.{Inbox, seen}
use gh_stories.Store.Visibility.{Viewer, visible_to_viewer}
use gh_stories.Store.Feed.Traces.{can_see}
use gh_stories.Store.Feed.{
  add_row, annotate, annotated, author_of, Authored, collect, feed, feed_rows, FeedGroup, FeedRow,
  by_author, merge_rank, rank_alone, fold_rank, group_rows, is_listed, keep_authored, load_group,
  new_group, order_le, page_limit, push, Rank, rank_of, provenance_to, rank_rows, Ranked,
  select_authored, Standing, standing,
}

exists_row-append :
    (xs ys : List Bool) → exists_row not (xs ++ ys) ≡ (exists_row not xs || exists_row not ys)
exists_row-append [] ys = refl
exists_row-append (x ∷ xs) ys = ground (arith, exists_row-append xs ys)

room_left : (n limit : ℕ) {m : ℕ} → m ≡ n + 1 → leb limit n ≡ false → m ≤ limit
room_left n limit e h = ground arith

map_snoc {ℓ κ} :
    {A : Type ℓ} {B : Type κ} (f : A → B) (xs : List A) (y : A)
    → map f (xs ++ y ∷ []) ≡ map f xs ++ f y ∷ []
map_snoc f [] y = refl
map_snoc f (x ∷ xs) y = ap (λ zs. f x ∷ zs) (map_snoc f xs y)

-- Loading the variants keeps what is read of the items.
map_loaded :
    (p : Pipeline) (f : StoryItem → Bool) (its : List Loaded)
    → map (λ (it : Loaded). f it.0) (map (λ (it : Loaded). with_variants p it.0) its)
      ≡ map (λ (it : Loaded). f it.0) its
map_loaded p f [] = refl
map_loaded p f (it ∷ its) = ap (λ zs. f it.0 ∷ zs) (map_loaded p f its)

module _ (g : Social) (p : Pipeline) (s : Inbox) (v : Viewer) (now : ℕ) (include_muted : Bool) where
  abbrev IsItem : ℕ → StoryItem → Type 0
  IsItem author si = (si.author_user_id ≡ author) × (can_see g v now si ≡ true) × Memᴰ si p.stories

  -- Whether the caller has seen an item, and whether the caller mutes a GitHub account.
  abbrev is_seen : StoryItem → Bool
  is_seen si = seen s si.id v.id

  abbrev is_muted : ℕ → Bool
  is_muted github_id = exists_row (is_rule v.id github_id) g.mutes

  -- The stored account of an author, with its GitHub id and what the caller is to it.
  abbrev IsAuthor : ℕ → ℕ → Standing → Type 0
  IsAuthor author github_id st =
      (au : User) × Memᴰ au g.users
      × (au.id ≡ author)
      × (au.github_id ≡ github_id)
      × (st ≡ standing (provenance_to g v au) (author == v.id))

  -- A group names a stored account and says whether the caller mutes or follows it. It shows items
  -- of this author that the caller may see, at least one, each marked with whether the caller has
  -- seen it; it says whether one is unseen, and its author is muted only where that is asked for.
  pub record IsSound (gr : FeedGroup) : Type 0 where
    pub nonempty : 0 < length gr.items
    pub stands : IsAuthor gr.author_user_id gr.author gr.provenance
    pub marks : gr.seen ≡ map (λ (it : Loaded). is_seen it.0) gr.items
    pub mute : gr.muted ≡ is_muted gr.author
    pub unseen : gr.has_unseen ≡ exists_row not gr.seen
    pub visible : All (λ (it : Loaded). IsItem gr.author_user_id it.0) gr.items
    pub wanted : gr.muted ≡ true → (include_muted ≡ true) ⊎ (gr.author_user_id ≡ v.id)

  -- A row tells the truth about its author and its item.
  abbrev IsNoted : FeedRow → Type 0
  IsNoted r =
      IsAuthor r.item.author_user_id r.author_github_id r.provenance
      × (r.seen ≡ is_seen r.item)
      × (r.muted ≡ is_muted r.author_github_id)

  abbrev IsRow : FeedRow → Type 0
  IsRow r =
      (can_see g v now r.item ≡ true)
      × Memᴰ r.item p.stories
      × IsNoted r
      × (r.muted ≡ true → (include_muted ≡ true) ⊎ (r.item.author_user_id ≡ v.id))

  push-IsSound :
      (r : FeedRow) (gr : FeedGroup)
      → IsRow r
      → r.item.author_user_id ≡ gr.author_user_id
      → IsSound gr
      → IsSound (push r gr)
  push-IsSound r gr h e k = record {
    nonempty = omega (arith, length-append gr.items ((r.item, []) ∷ []));
    stands = k.stands;
    marks =
        rw (map_snoc (λ (it : Loaded). is_seen it.0) gr.items (r.item, []), k.marks, h.2.1) refl;
    mute = k.mute;
    unseen = rw (exists_row-append gr.seen (r.seen ∷ []), k.unseen) (ground arith);
    visible = All-append _ gr.items ((r.item, []) ∷ []) k.visible ((e, h.0, h.1), tt);
    wanted = k.wanted;
  }

  new_group-IsSound : (r : FeedRow) → IsRow r → IsSound (new_group r)
  new_group-IsSound r h = record {
    nonempty = omega arith;
    stands = h.2.0;
    marks = rw h.2.1 refl;
    mute = h.2.2;
    unseen = ground arith;
    visible = ((refl, h.0, h.1), tt);
    wanted = h.3;
  }

  add_row-IsSound :
      (r : FeedRow) (gs : List FeedGroup) → IsRow r → All IsSound gs → All IsSound (add_row r gs)
  add_row-IsSound r [] h k = (new_group-IsSound r h, tt)
  add_row-IsSound r (gr ∷ gs) h k = elim (Bool-cases (gr.author_user_id == r.item.author_user_id)) [
    | inl e ↦ rw e (push-IsSound r gr h (ground arith) k.0, k.1)
    | inr e ↦ rw e (k.0, add_row-IsSound r gs h k.1)
  ]

  group_rows-IsSound :
      (rs : List Ranked) (gs : List FeedGroup)
      → All (λ (r : Ranked). IsRow r.0) rs
      → All IsSound gs
      → All IsSound (group_rows gs rs)
  unfolding group_rows
  group_rows-IsSound [] gs h k = k
  group_rows-IsSound (r ∷ rs) gs h k =
      group_rows-IsSound rs (add_row r.0 gs) h.1 (add_row-IsSound r.0 gs h.0 k)

  abbrev IsSeen : Authored → Type 0
  IsSeen r =
      (can_see g v now r.0 ≡ true)
      × Memᴰ r.0 p.stories
      × Memᴰ r.1 g.users
      × (r.1.id ≡ r.0.author_user_id)

  keep_authored-IsSeen :
      (si : StoryItem) (o : Option User) (rest : List Authored)
      → author_of g si ≡ o
      → Memᴰ si p.stories
      → All IsSeen rest
      → All IsSeen (keep_authored (visible_to_viewer g v now) si o rest)
  keep_authored-IsSeen si none rest e m h = h
  keep_authored-IsSeen si (some au) rest e m h =
      elim (Bool-cases (visible_to_viewer g v now si au)) [
        | inr unseen ↦ rw unseen h
        | inl can ↦
            let (mu, own) = find_row_sound _ g.users au e in
            rw can (
              (
                exists_row_complete
                    (λ au. au.id == si.author_user_id && visible_to_viewer g v now si au) mu
                    (ground arith),
                m,
                mu,
                ground arith,
              ),
              h,
            )
      ]

  select_authored-IsSeen :
      (xs : List StoryItem)
      → All (λ si. Memᴰ si p.stories) xs
      → All IsSeen (select_authored (author_of g) (visible_to_viewer g v now) xs)
  unfolding select_authored
  select_authored-IsSeen [] m = tt
  select_authored-IsSeen (si ∷ xs) m =
      keep_authored-IsSeen si (author_of g si) _ refl m.0 (select_authored-IsSeen xs m.1)

  fold_rank-muted : (k : Rank) (rs : List FeedRow) → k.muted ≡ true → (fold_rank k rs).muted ≡ true
  fold_rank-muted k [] h = h
  fold_rank-muted k (r ∷ rs) h = fold_rank-muted (merge_rank k r) rs (ground arith)

  rank_of-muted :
      (rows : List FeedRow) (a : FeedRow) → a.muted ≡ true → (rank_of rows a).muted ≡ true
  unfolding rank_of
  rank_of-muted rows a h =
      fold_rank-muted (rank_alone a) (select_rows (by_author a.item.author_user_id) rows) h

  rank_rows-IsSeen :
      (all : List FeedRow) (xs : List Authored)
      → All IsSeen xs
      → All
          (λ (r : Ranked).
            (can_see g v now r.0.item ≡ true)
            × Memᴰ r.0.item p.stories
            × IsNoted r.0
            × (r.0.muted ≡ true → r.1.muted ≡ true))
          (rank_rows all (map (annotate g s v) xs))
  rank_rows-IsSeen all [] h = tt
  rank_rows-IsSeen all (x ∷ xs) h = (
    (
      h.0.0,
      h.0.1,
      ((x.1, h.0.2, h.0.3, refl, refl), refl, refl),
      rank_of-muted all (annotate g s v x),
    ),
    rank_rows-IsSeen all xs h.1,
  )

  feed_rows-IsRow : All (λ (r : Ranked). IsRow r.0) (feed_rows g p s v now include_muted)
  unfolding feed_rows annotated
  feed_rows-IsRow =
      let rows = annotated g p s v now in
      All-sort_by (order_le v.id) _ _ (
        All-select_rows _ _ (is_listed v.id include_muted) _
          (λ (r : Ranked) listed h. (h.0, h.1, h.2, λ m. let mr = h.3 m in ground arith))
          (rank_rows-IsSeen rows _
            (select_authored-IsSeen p.stories (All-intro _ p.stories (λ x m. m)))))

  load_group-IsSound : (gr : FeedGroup) → IsSound gr → IsSound (load_group p gr)
  load_group-IsSound gr k = record {
    nonempty =
        omega (arith, length-map (λ (it : Loaded). with_variants p it.0) gr.items, k.nonempty);
    stands = k.stands;
    marks = k.marks ∙ sym (map_loaded p is_seen gr.items);
    mute = k.mute;
    unseen = k.unseen;
    visible = All-map_of _ (λ (it : Loaded). with_variants p it.0) gr.items k.visible;
    wanted = k.wanted;
  }

  collect-IsSound :
      (limit : ℕ) (out : List FeedGroup) (me : Option FeedGroup) (gs : List FeedGroup)
      → All IsSound gs
      → length out ≤ limit
      → All (λ gr. IsSound gr × (gr.author_user_id ≢ v.id)) out
      → ((gr : FeedGroup) → me ≡ some gr → IsSound gr × (gr.author_user_id ≡ v.id))
      → (length (collect v.id limit out me gs).0 ≤ limit)
        × All (λ gr. IsSound gr × (gr.author_user_id ≢ v.id)) (collect v.id limit out me gs).0
        × ((gr : FeedGroup)
            → (collect v.id limit out me gs).1 ≡ some gr
            → IsSound gr × (gr.author_user_id ≡ v.id))
  unfolding collect
  collect-IsSound limit out me [] k l o m = (l, o, m)
  collect-IsSound limit out me (gr ∷ gs) k l o m = elim (Bool-cases (gr.author_user_id == v.id)) [
    | inl own ↦ rw own (
        collect-IsSound limit out (some gr) gs k.1 l o
          (λ h e. let same = some-injective _ _ e in rw (← same) (k.0, (==_iff _ _).0 own)))
    | inr other ↦ elim (Bool-cases (leb limit (length out))) [
      | inl full ↦ rw (other, full) (l, o, m)
      | inr room ↦
          rw (other, room)
            (collect-IsSound limit (out ++ gr ∷ []) me gs k.1
              (room_left (length out) limit (length-append out (gr ∷ [])) room)
              (All-append _ out (gr ∷ []) o
                ((k.0, λ e. let same = (==_iff _ _).1 e in absurd (cc)), tt))
              m)
    ]
  ]

page_limit-le : (limit : ℕ) → page_limit limit ≤ 50
page_limit-le limit = ground arith

map_load-IsSound :
    (g : Social) (p : Pipeline) (s : Inbox) (v : Viewer) (now : ℕ) (include_muted : Bool)
    (gs : List FeedGroup)
    → All (IsSound g p s v now include_muted) gs
    → All (IsSound g p s v now include_muted) (map (load_group p) gs)
map_load-IsSound g p s v now include_muted [] h = tt
map_load-IsSound g p s v now include_muted (gr ∷ gs) h = (
  load_group-IsSound g p s v now include_muted gr h.0,
  map_load-IsSound g p s v now include_muted gs h.1,
)

-- Whatever limit is asked for, `Feed` returns at most fifty groups, none of them the caller's, and
-- perhaps the caller's own apart. Each group names a stored account and says whether the caller mutes
-- it, and what the caller is to it. It has at least one item, only stored items of its author that the
-- caller may see now, each marked with whether the caller has seen it, and says whether one is unseen;
-- a muted author is among the others only if muted ones are asked for.
pub feed-IsSound :
    (g : Social) (p : Pipeline) (s : Inbox) (v : Viewer) (now : ℕ) (include_muted : Bool)
    (limit : ℕ)
    → (length (feed g p s v now include_muted limit).0 ≤ 50)
      × All
          (λ gr. IsSound g p s v now include_muted gr × (gr.author_user_id ≢ v.id))
          (feed g p s v now include_muted limit).0
      × ((gr : FeedGroup)
          → (feed g p s v now include_muted limit).1 ≡ some gr
          → IsSound g p s v now include_muted gr × (gr.author_user_id ≡ v.id))
unfolding feed
feed-IsSound g p s v now include_muted limit =
    let groups = map_load-IsSound g p s v now include_muted _ (
      group_rows-IsSound g p s v now include_muted (feed_rows g p s v now include_muted) []
        (feed_rows-IsRow g p s v now include_muted) tt) in
    let (short, others, mine) =
      collect-IsSound g p s v now include_muted (page_limit limit) [] none _ groups (omega arith) tt
        (λ gr e. absurd (cc)) in
    (omega (arith, page_limit-le limit, short), others, mine)
