-- ===== src/Api/Gate.antt =====
-- The media gateway delivers nothing but the media of a Story that the caller may see.
use Prim.Native.String.{String}
use gh_stories.Prelude.{
  ℕ, ◌≡◌, ap, sym, ◌∙◌, Bool, true, false, Option, none, some, List, find_row_sound, Memᴰ,
}
use gh_stories.Domain.{User, StoryItem, MediaVariant, VariantKind, same_kind, is_active}
use gh_stories.Store.Visibility.{visible_to_viewer}
use gh_stories.Store.Stories.{Pipeline}
use gh_stories.Store.Stories.Items.{joined, load_variants, story_for_viewer}
use gh_stories.Api.{Db, Answer, done, fail, Response, bytes, as_viewer, or_missing, path_uuid}
use gh_stories.Api.Media.{get_media, serve_private_media, variant, present, note_view}
use gh_stories.Api.Hidden.{story_for_viewer-visible}
use gh_stories.Api.Inversion.{>>=-done, or_missing-done}

present-done {ℓ} : {A : Type ℓ} (o : Option A) (a : A) → present o ≡ done a → o ≡ some a
present-done none a h = cc
present-done (some b) a h = cc

-- The object is that of a variant of the Story, of the requested kind.
abbrev pub IsVariantOf : (String → Option ℕ) → Pipeline → ℕ → VariantKind → ℕ → Type 0
IsVariantOf get p id kind object =
    (v : MediaVariant) × Memᴰ v (load_variants p id)
    × (same_kind v.kind kind ≡ true)
    × (get v.object_key ≡ some object)

found_variant :
    (get : String → Option ℕ) (p : Pipeline) (id : ℕ) (kind : VariantKind) (vs : List MediaVariant)
    (v : MediaVariant) (object : ℕ)
    → vs ≡ load_variants p id
    → variant vs kind ≡ some v
    → get v.object_key ≡ some object
    → IsVariantOf get p id kind object
unfolding variant
found_variant get p id kind vs v object h e g =
    let (m, k) = find_row_sound (λ w. same_kind w.kind kind) vs v e in (v, rw (← h) m, k, g)

abbrev bytes_answer : Db → ℕ → Bool → Answer (Db × Response)
bytes_answer d object public = done (d, bytes object public)

bytes_is :
    (d e : Db) (a b : ℕ) (p q : Bool)
    → bytes_answer d a p ≡ bytes_answer e b q
    → (d ≡ e) × (a ≡ b) × (p ≡ q)
bytes_is d e a b p q h = (ap db_of h, ap object_of h, ap public_of h)
  where
    db_of : Answer (Db × Response) → Db
    db_of (done r) = r.0
    db_of (fail x) = d

    object_in : Response → ℕ
    object_in (bytes x y) = x
    object_in _ = a

    public_in : Response → Bool
    public_in (bytes x y) = y
    public_in _ = p

    object_of : Answer (Db × Response) → ℕ
    object_of (done r) = object_in r.1
    object_of (fail x) = a

    public_of : Answer (Db × Response) → Bool
    public_of (done r) = public_in r.1
    public_of (fail x) = p

-- When the gateway delivers bytes to an active caller, they are private, and they are the object of
-- a variant, of the requested kind, of a Story with the requested id that the caller may see at that
-- very time. The tables are then those with the view noted, if the kind bears content and the Story
-- is another account's, and the same tables otherwise.
pub get_media_sound :
    (get : String → Option ℕ) (db db' : Db) (now id : ℕ) (u : User) (kind : VariantKind)
    (object : ℕ) (public : Bool)
    → is_active (some u) ≡ true
    → get_media get db now (some u) (some id) (some kind) ≡ done (db', bytes object public)
    → (public ≡ false)
      × IsVariantOf get db.pipeline id kind object
      × ((s : StoryItem) × Memᴰ s db.pipeline.stories
          × (s.id ≡ id)
          × (joined db.social (visible_to_viewer db.social (as_viewer u) now) s ≡ true)
          × (db' ≡ note_view db now u id kind s))
unfolding get_media serve_private_media path_uuid
get_media_sound get db db' now id u kind object public ha h = from_private (rw ha at h)
  where
    from_private :
        serve_private_media get db now u id kind ≡ done (db', bytes object public)
        → (public ≡ false)
          × IsVariantOf get db.pipeline id kind object
          × ((s : StoryItem) × Memᴰ s db.pipeline.stories
              × (s.id ≡ id)
              × (joined db.social (visible_to_viewer db.social (as_viewer u) now) s ≡ true)
              × (db' ≡ note_view db now u id kind s))
    from_private g =
        let (it, hi, g1) =
          >>=-done (or_missing (story_for_viewer db.social db.pipeline (as_viewer u) now id)) _ g in
        let (v, hv, g2) = >>=-done (present (variant it.1 kind)) _ g1 in
        let (o, ho, g3) = >>=-done (present (get v.object_key)) _ g2 in
        let (same_db, same_object, private) =
          bytes_is (note_view db now u id kind it.0) db' o object false public g3 in
        let (m, same_id, vis, vs) =
          story_for_viewer-visible db now u id it (or_missing-done _ it hi) in
        (
          sym private,
          found_variant get db.pipeline id kind it.1 v object vs (present-done _ v hv)
              (present-done _ o ho ∙ ap some same_object),
          (it.0, m, same_id, vis, sym same_db),
        )
