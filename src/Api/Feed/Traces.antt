-- ===== src/Api/Feed/Traces.antt =====
-- What a caller may not see leaves no trace in the answers of the handlers of the feed.
use gh_stories.Prelude.{
  ap, length, ltb, ◌||◌, ℕ, ◌≡◌, refl, Bool, some, List, [], ◌∷◌, Bool-cases, inl, inr,
}
use gh_stories.Domain.{User, is_active}
use gh_stories.Store.Accounts.{trim_at}
use gh_stories.Store.Feed.Traces.{
  only_seen, feed-only_seen, ring_statuses-only_seen, feed_version-only_seen,
  author_sequence-only_seen,
}
use gh_stories.Api.{done, Db, must_caller, as_viewer}
use gh_stories.Api.Feed.{get_feed, get_author_stories, post_status, rings_of, wanted}

-- The tables without the items that the account may not see.
abbrev pub without_hidden : Db → ℕ → User → Db
without_hidden db now u = record db { pipeline = only_seen db.social (as_viewer u) now db.pipeline }

module _ (db : Db) (now : ℕ) (u : User) where
  get_feed-without_hidden :
      (format : ℕ → List ℕ) (include_muted : Bool) (limit : ℕ)
      → get_feed format (without_hidden db now u) now (some u) include_muted limit
        ≡ get_feed format db now (some u) include_muted limit
  unfolding get_feed must_caller
  get_feed-without_hidden format include_muted limit = elim (Bool-cases (is_active (some u))) [
    | inl e ↦ rw (
      e,
      feed-only_seen db.social (as_viewer u) now db.pipeline db.inbox include_muted limit,
      feed_version-only_seen db.social (as_viewer u) now format db.pipeline,
    )
    | inr e ↦ rw e
  ]

  get_author_stories-without_hidden :
      (lower : List ℕ → List ℕ) (login : List ℕ)
      → get_author_stories lower (without_hidden db now u) now (some u) login
        ≡ get_author_stories lower db now (some u) login
  unfolding get_author_stories must_caller
  get_author_stories-without_hidden lower login = elim (Bool-cases (is_active (some u))) [
    | inl e ↦ rw (
      e,
      author_sequence-only_seen db.social (as_viewer u) now lower db.pipeline db.inbox
          (trim_at login),
    )
    | inr e ↦ rw e
  ]

  rings_of-without_hidden :
      (to_lower : List ℕ → List ℕ) (ids : List ℕ) (logins : List (List ℕ))
      → rings_of to_lower (without_hidden db now u) now u ids logins
        ≡ rings_of to_lower db now u ids logins
  rings_of-without_hidden to_lower [] [] = refl
  rings_of-without_hidden to_lower [] (l ∷ ls) = rw (
      ring_statuses-only_seen db.social (as_viewer u) now db.pipeline db.inbox
        (wanted to_lower db.social [] (l ∷ ls)))
  rings_of-without_hidden to_lower (i ∷ is) logins = rw (
      ring_statuses-only_seen db.social (as_viewer u) now db.pipeline db.inbox
        (wanted to_lower db.social (i ∷ is) logins))

  post_status-without_hidden :
      (to_lower : List ℕ → List ℕ) (ids : List ℕ) (logins : List (List ℕ))
      → post_status to_lower (without_hidden db now u) now (some u) ids logins
        ≡ post_status to_lower db now (some u) ids logins
  unfolding post_status must_caller
  post_status-without_hidden to_lower ids logins = elim (Bool-cases (is_active (some u))) [
    | inl e ↦ elim (Bool-cases (ltb 100 (length ids) || ltb 100 (length logins))) [
      | inl big ↦ rw (e, big)
      | inr few ↦ rw (e, few) (ap done (rings_of-without_hidden to_lower ids logins))
    ]
    | inr e ↦ rw e
  ]

-- The feed with its version, an author's Stories and the rings, as an account gets them, are the same
-- when every item that it may not see is taken out of the tables: the answers reveal neither such an
-- item nor that there is one.
pub handlers-without_hidden :
    (db : Db) (now : ℕ) (u : User) (format : ℕ → List ℕ) (lower : List ℕ → List ℕ)
    (include_muted : Bool) (limit : ℕ) (login : List ℕ) (ids : List ℕ) (logins : List (List ℕ))
    → (get_feed format (without_hidden db now u) now (some u) include_muted limit
        ≡ get_feed format db now (some u) include_muted limit)
      × (get_author_stories lower (without_hidden db now u) now (some u) login
          ≡ get_author_stories lower db now (some u) login)
      × (post_status lower (without_hidden db now u) now (some u) ids logins
          ≡ post_status lower db now (some u) ids logins)
handlers-without_hidden db now u format lower include_muted limit login ids logins = (
  get_feed-without_hidden db now u format include_muted limit,
  get_author_stories-without_hidden db now u lower login,
  post_status-without_hidden db now u lower ids logins,
)
