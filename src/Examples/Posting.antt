-- ===== src/Examples/Posting.antt =====
-- Runs of an upload.
use Prim.Native.String.{String}
use gh_stories.Prelude.{◌≡◌, refl, true, false, ◌&&◌, none, some, arith}
use gh_stories.Domain.{mutuals, processing, is_active, parse_visibility, is_none}
use gh_stories.Api.{Db, Answer, done, fail, Response, accepted, StoryView, must_caller}
use gh_stories.Api.Stories.{resolve_audience_list}
use gh_stories.Api.Uploads.{
  Defaults, UploadRequest, FinalizeRequest, post_upload, post_finalize, is_custom, accepted_input,
  is_checksum,
}
use gh_stories.Api.Posting.{post_upload-post_finalize}
use gh_stories.Examples.{alice}
use gh_stories.Examples.Api.{db}

abbrev same : String → String
same s = s

abbrev settings : Defaults
settings = record {
  visibility = mutuals;
  audience_list_id = none;
  allow_replies = true;
  allow_reactions = true;
}

abbrev upload : UploadRequest
upload = record {
  mime = "image/png";
  byte_size = 2048;
  filename = "a.png";
  caption = "Hello";
  alt_text = "A picture";
  visibility = some "public";
  audience_list_id = none;
  allow_replies = some false;
  allow_reactions = none;
}

abbrev sums : FinalizeRequest
sums = record {
  byte_size = 2048;
  checksum = "aaaaaaaaaaaaaaaaaaaaaaaaaaaaaaaaaaaaaaaaaaaaaaaaaaaaaaaaaaaaaaaa";
}

abbrev after_upload : Answer (Db × Answer Response)
after_upload =
    post_upload same same (λ runes. "a.png") (λ key. some "https://bucket") db 12 90 100000 600
      (some alice) settings "u/1/90" (done upload)

abbrev tables : Answer (Db × Answer Response) → Db
tables (done r) = r.0
tables (fail e) = db

abbrev told : Answer (Db × Answer Response) → Answer Response
told (done r) = r.1
told (fail e) = fail e

post_upload-post_finalize_example :
    (db2 : Db) × (view : StoryView) × (post_finalize same
        (tables after_upload)
        13
        91
        92
        100000
        (some alice)
        (some 90)
        (done sums)
      ≡ done (db2, done (accepted view)))
    × (view.id ≡ 92)
    × (view.state ≡ processing)
    × (view.caption ≡ "Hello")
    × (view.alt_text ≡ "A picture")
    × (view.allow_replies ≡ false)
    × (view.allow_reactions ≡ true)
    × ((is_custom view.visibility && is_none view.audience_list_id) ≡ false)
unfolding post_upload must_caller is_active accepted_input parse_visibility resolve_audience_list
    is_checksum
post_upload-post_finalize_example =
    post_upload-post_finalize same same (λ runes. "a.png") (λ key. some "https://bucket") db
      (tables after_upload) 12 90 100000 600 alice settings "u/1/90" upload (told after_upload) 13
      91 92 sums refl refl refl (omega arith) refl
