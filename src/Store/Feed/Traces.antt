-- ===== src/Store/Feed/Traces.antt =====
-- What a caller may not see leaves no trace in the feed, the sequences and the rings.
use mathlib.Core.Path.{fun_ext}
use gh_stories.Prelude.{
  ℕ, ◌≡◌, refl, ap, Bool, true, false, not, map, ◌&&◌, Option, none, some, List, [], ◌∷◌, ◌==◌,
  Bool-cases, inl, inr, ◌⊎◌, find_row, exists_row, select_rows, find_row_sound, exists_row_complete,
  arith,
}
use gh_stories.Domain.{User, StoryItem}
use gh_stories.Store.Social.{Social, ◌>>=◌, Result, ok, err, Error}
use gh_stories.Store.Stories.{Pipeline}
use gh_stories.Store.Stories.Items.{load_variants}
use gh_stories.Store.Interact.{Inbox, seen}
use gh_stories.Store.Visibility.{Viewer, visible_to_viewer}
use gh_stories.Store.Feed.{
  account_of, annotated, author_of, Authored, feed, feed_rows, keep_authored, select_authored,
}
use gh_stories.Store.Feed.Lookups.{
  author_sequence, identity_by_login, feed_version, items_of, ring_statuses, ring_status,
  RingStatus, distinct, sequence_of, is_visible_of,
}

-- Whether the fragment lets the caller see the item, with some account that is its author's.
abbrev pub can_see : Social → Viewer → ℕ → StoryItem → Bool
can_see g v now si =
    exists_row (λ au. au.id == si.author_user_id && visible_to_viewer g v now si au) g.users

-- The tables without the items that the caller may not see.
abbrev pub only_seen : Social → Viewer → ℕ → Pipeline → Pipeline
only_seen g v now p = record p { stories = select_rows (can_see g v now) p.stories }

module _ (c : StoryItem → Bool) (look : StoryItem → Option User) where
  keep_authored-none :
      (q : StoryItem → User → Bool) (si : StoryItem) (o : Option User) (rest : List Authored)
      → ((au : User) → o ≡ some au → q si au ≡ false)
      → keep_authored q si o rest ≡ rest
  keep_authored-none q si none rest h = refl
  keep_authored-none q si (some au) rest h = rw (h au refl)

  -- A selection is the same without rows that it does not select.
  pub select_authored-select_rows :
      (q : StoryItem → User → Bool)
      → ((si : StoryItem) (au : User) → look si ≡ some au → c si ≡ false → q si au ≡ false)
      → (xs : List StoryItem)
      → select_authored look q (select_rows c xs) ≡ select_authored look q xs
  unfolding select_authored
  select_authored-select_rows q h [] = refl
  select_authored-select_rows q h (si ∷ xs) =
      let ih = select_authored-select_rows q h xs in
      elim (Bool-cases (c si)) [
        | inl e ↦ rw e (ap (keep_authored q si (look si)) ih)
        | inr e ↦ rw (e, keep_authored-none q si (look si) _ (λ au l. h si au l e)) ih
      ]

  module _ (q f : StoryItem → User → Bool) (si : StoryItem) where
    exists_row-keep_none :
        (o : Option User) (rest : List Authored)
        → ((au : User) → o ≡ some au → f si au ≡ false)
        → exists_row (λ (r : Authored). f r.0 r.1) (keep_authored q si o rest)
          ≡ exists_row (λ (r : Authored). f r.0 r.1) rest
    exists_row-keep_none none rest h = refl
    exists_row-keep_none (some au) rest h = let no = h au refl in ground arith

    exists_row-keep_authored :
        (o : Option User) (xs ys : List Authored)
        → exists_row (λ (r : Authored). f r.0 r.1) xs ≡ exists_row (λ (r : Authored). f r.0 r.1) ys
        → exists_row (λ (r : Authored). f r.0 r.1) (keep_authored q si o xs)
          ≡ exists_row (λ (r : Authored). f r.0 r.1) (keep_authored q si o ys)
    exists_row-keep_authored none xs ys h = h
    exists_row-keep_authored (some au) xs ys h = ground arith

  -- So is a test of whether some selected row satisfies `f`.
  pub exists_row-select_authored :
      (q f : StoryItem → User → Bool)
      → ((si : StoryItem) (au : User) → look si ≡ some au → c si ≡ false → f si au ≡ false)
      → (xs : List StoryItem)
      → exists_row (λ (r : Authored). f r.0 r.1) (select_authored look q (select_rows c xs))
        ≡ exists_row (λ (r : Authored). f r.0 r.1) (select_authored look q xs)
  unfolding select_authored
  exists_row-select_authored q f h [] = refl
  exists_row-select_authored q f h (si ∷ xs) =
      let ih = exists_row-select_authored q f h xs in
      elim (Bool-cases (c si)) [
        | inl e ↦ rw e (exists_row-keep_authored q f si (look si) _ _ ih)
        | inr e ↦
            rw
              (
                e,
                exists_row-keep_none q f si (look si) (select_authored look q xs)
                    (λ au l. h si au l e),
              )
              ih
      ]

Result-cases {ℓ} :
    {A : Type ℓ} (r : Result A) → ((a : A) × (r ≡ ok a)) ⊎ ((e : Error) × (r ≡ err e))
Result-cases (ok a) = inl (a, refl)
Result-cases (err e) = inr (e, refl)

module _ (g : Social) (v : Viewer) (now : ℕ) where
  hidden_account :
      (p : User → Bool) (si : StoryItem) (au : User)
      → find_row p g.users ≡ some au
      → (p au ≡ true → (au.id == si.author_user_id) ≡ true)
      → can_see g v now si ≡ false
      → visible_to_viewer g v now si au ≡ false
  hidden_account p si au l own h =
      let (m, pa) = find_row_sound p g.users au l in
      elim (Bool-cases (visible_to_viewer g v now si au)) [
        | inr e ↦ e
        | inl e ↦
            let seen_by =
              exists_row_complete
                (λ au. au.id == si.author_user_id && visible_to_viewer g v now si au) m
                (rw (own pa, e)) in
            absurd (cc)
      ]

  visible-can_see :
      (si : StoryItem) (au : User)
      → account_of g si ≡ some au
      → can_see g v now si ≡ false
      → visible_to_viewer g v now si au ≡ false
  visible-can_see si au l h = hidden_account _ si au l (λ e. e) h

  visible-can_see_author :
      (si : StoryItem) (au : User)
      → author_of g si ≡ some au
      → can_see g v now si ≡ false
      → visible_to_viewer g v now si au ≡ false
  visible-can_see_author si au l h = hidden_account _ si au l (λ e. ground arith) h

  annotated-only_seen :
      (p : Pipeline) (s : Inbox) → annotated g (only_seen g v now p) s v now ≡ annotated g p s v now
  unfolding annotated
  annotated-only_seen p s = rw (
      select_authored-select_rows (can_see g v now) (author_of g) _ visible-can_see_author
        p.stories)

  pub feed-only_seen :
      (p : Pipeline) (s : Inbox) (include_muted : Bool) (limit : ℕ)
      → feed g (only_seen g v now p) s v now include_muted limit
        ≡ feed g p s v now include_muted limit
  unfolding feed feed_rows load_variants
  feed-only_seen p s include_muted limit = rw (annotated-only_seen p s)

  sequence_of-only_seen :
      (p : Pipeline) (s : Inbox) (target : ℕ)
      → sequence_of g (only_seen g v now p) s v now target ≡ sequence_of g p s v now target
  unfolding sequence_of
  sequence_of-only_seen p s target = rw (
      select_authored-select_rows (can_see g v now) (author_of g) (is_visible_of g v now target)
        (λ si au l h. let no = visible-can_see_author si au l h in ground arith) p.stories)

  ring_status-only_seen :
      (p : Pipeline) (s : Inbox) (target : ℕ)
      → ring_status g (only_seen g v now p) s v now target ≡ ring_status g p s v now target
  unfolding items_of
  ring_status-only_seen p s target = rw (
    exists_row-select_authored (can_see g v now) (account_of g) (λ si au. au.github_id == target)
        (visible_to_viewer g v now) visible-can_see p.stories,
    exists_row-select_authored (can_see g v now) (account_of g) (λ si au. au.github_id == target)
        (λ si au. visible_to_viewer g v now si au && not (seen s si.id v.id))
        (λ si au l h. let no = visible-can_see si au l h in ground arith) p.stories,
  )

  pub ring_statuses-only_seen :
      (p : Pipeline) (s : Inbox) (ids : List ℕ)
      → ring_statuses g (only_seen g v now p) s v now ids ≡ ring_statuses g p s v now ids
  unfolding ring_statuses
  ring_statuses-only_seen p s ids =
      ap (λ (f : ℕ → RingStatus). map f (distinct ids)) (fun_ext (ring_status-only_seen p s))

  pub feed_version-only_seen :
      (format : ℕ → List ℕ) (p : Pipeline)
      → feed_version format g (only_seen g v now p) v now ≡ feed_version format g p v now
  unfolding feed_version
  feed_version-only_seen format p =
      rw (select_authored-select_rows (can_see g v now) (account_of g) _ visible-can_see p.stories)

  pub author_sequence-only_seen :
      (lower : List ℕ → List ℕ) (p : Pipeline) (s : Inbox) (login : List ℕ)
      → author_sequence lower g (only_seen g v now p) s v now login
        ≡ author_sequence lower g p s v now login
  unfolding author_sequence load_variants
  author_sequence-only_seen lower p s login =
      elim (Result-cases (identity_by_login lower g login)) [
        | inl (i, e) ↦ rw (e, ◌>>=◌) (rw (sequence_of-only_seen p s i.github_id))
        | inr (x, e) ↦ rw (e, ◌>>=◌)
      ]
