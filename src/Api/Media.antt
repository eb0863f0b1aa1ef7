-- ===== src/Api/Media.antt =====
-- internal/api/handlers_media.go: the gateway that serves a Story's media.
--
-- `get` is `Objects.Get` of a key under the request's range: the handle of the object, `none` when
-- it fails. Headers are reduced to whether shared caches may keep the bytes.
use Prim.Native.String.{String}
use gh_stories.Prelude.{
  ℕ, true, false, not, ◌&&◌, Option, none, some, List, ◌==◌, if◌then◌else◌, find_row,
}
use gh_stories.Domain.{
  User, StoryItem, MediaVariant, VariantKind, same_kind, content_bearing, is_active,
}
use gh_stories.Store.Stories.Items.{story_for_viewer, public_story, record_anonymous_view}
use gh_stories.Store.Interact.{record_view}
use gh_stories.Api.{
  Db, Answer, done, fail, ◌>>=◌, missing, Response, bytes, or_missing, path_uuid, as_viewer,
}

-- `StoryItem.Variant`
unfoldable pub variant : List MediaVariant → VariantKind → Option MediaVariant
variant vs kind = find_row (λ v. same_kind v.kind kind) vs

abbrev pub present {ℓ} : {A : Type ℓ} → Option A → Answer A
present none = fail missing
present (some a) = done a

abbrev pub note_view : Db → ℕ → User → ℕ → VariantKind → StoryItem → Db
note_view db now u id kind it =
    if content_bearing kind && not (it.author_user_id == u.id)
    then record db { inbox = record_view db.inbox now id u.id }
    else db

-- `servePrivateMedia`
unfoldable pub serve_private_media :
    (String → Option ℕ) → Db → ℕ → User → ℕ → VariantKind → Answer (Db × Response)
serve_private_media get db now u id kind = do
  it ← or_missing (story_for_viewer db.social db.pipeline (as_viewer u) now id)
  v ← present (variant it.1 kind)
  object ← present (get v.object_key)
  done (note_view db now u id kind it.0, bytes object false)

abbrev pub note_anonymous_view : Db → ℕ → ℕ → VariantKind → Db
note_anonymous_view db now id kind =
    if content_bearing kind
    then record db { pipeline = record_anonymous_view db.pipeline now id }
    else db

-- `servePublicMedia`
unfoldable pub serve_public_media :
    (String → Option ℕ) → Db → ℕ → ℕ → VariantKind → Answer (Db × Response)
serve_public_media get db now id kind = do
  it ← or_missing (public_story db.social db.pipeline now id)
  v ← present (variant it.1 kind)
  object ← present (get v.object_key)
  done (note_anonymous_view db now id kind, bytes object true)

abbrev pub media_to :
    (String → Option ℕ) → Db → ℕ → Option User → ℕ → VariantKind → Answer (Db × Response)
media_to get db now none id kind = serve_public_media get db now id kind
media_to get db now (some u) id kind =
    if is_active (some u)
    then serve_private_media get db now u id kind
    else serve_public_media get db now id kind

-- `getMedia`; `none` is a variant of no known kind.
unfoldable pub get_media :
    (String → Option ℕ)
    → Db
    → ℕ
    → Option User
    → Option ℕ
    → Option VariantKind
    → Answer (Db × Response)
get_media get db now caller raw kind = do
  id ← path_uuid raw
  k ← present kind
  media_to get db now caller id k
