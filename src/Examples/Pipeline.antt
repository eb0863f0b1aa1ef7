-- ===== src/Examples/Pipeline.antt =====
-- Runs of the publication pipeline: an upload of Alice's becomes an item, is published and deleted.
use gh_stories.Prelude.{
  ℕ, ◌+◌, ◌<◌, ◌≡◌, ◌≢◌, refl, true, false, none, some, List, [], ◌∷◌, Memᴰ, arith,
}
use gh_stories.Domain.{mutuals, processing, deleted, UploadState, JobState, StoryItem}
use gh_stories.Store.Social.{ok, err, not_found}
use gh_stories.Store.Stories.{Pipeline, UploadIntent, MediaJob, new_cleanup}
use gh_stories.Store.Stories.Uploads.{
  StoryDraft, Finalize, finalize_upload, create_item, upload_intent,
}
use gh_stories.Store.Stories.Jobs.{
  claim_media_job, lease_media, publish_story, publish_row, oldest, reap_expired_leases,
}
use gh_stories.Store.Stories.Items.{
  delete_story, story_for_viewer, select_story, load_variants, expire_stories, expire_batch,
}
use gh_stories.Store.Stories.Run.{run, step, view, reap, expire, publish}
use gh_stories.Store.Stories.Lifecycle.{IsKeyed, delete_story-run}
use gh_stories.Store.Stories.Window.{publish_story-run}
use gh_stories.Store.Stories.Claims.{claim_media_job-again}
use gh_stories.Store.Stories.Finalizing.{finalize_upload-again}
use gh_stories.Store.Visibility.{
  visible_to_viewer, is_open, author_active, blocked, hidden, admits, followed_by_author,
}
use gh_stories.Examples.{graph, bob_viewer, story}

abbrev upload : UploadIntent
upload = record {
  id = 3;
  user_id = 1;
  object_key = "k";
  declared_mime = "image/png";
  declared_size = 10;
  state = UploadState.issued;
  actual_size = none;
  checksum = none;
  expires_at = 100;
  draft = none;
  filename = "";
}

abbrev draft : StoryDraft
draft = record {
  caption = "hello";
  alt_text = "";
  visibility = mutuals;
  audience_list_id = none;
  allow_replies = true;
  allow_reactions = false;
}

abbrev call : Finalize
call = record {
  user = 1;
  upload = 3;
  size = 10;
  checksum = "c";
  draft = draft;
  filename = "f";
  new_job = 5;
  new_story = 7;
}

abbrev uploaded : Pipeline
uploaded = record { uploads = upload ∷ []; jobs = []; stories = []; variants = []; cleanup = [] }

abbrev created : Pipeline
created = create_item uploaded 2 call upload

finalize_upload-again_example : finalize_upload created 4 call ≡ ok ((7, false), created)
unfolding finalize_upload upload_intent
finalize_upload-again_example =
    finalize_upload-again uploaded created 2 4 call call 7 refl refl refl

abbrev job : MediaJob
job = record {
  id = 5;
  upload_intent_id = 3;
  user_id = 1;
  state = JobState.queued;
  input = record {
    object_key = "k";
    declared_mime = "image/png";
    byte_size = 10;
    checksum = "c";
    story_item_id = 7;
    filename = "f";
  };
  attempts = 0;
  max_attempts = 3;
  lease_owner = none;
  lease_expires_at = none;
  run_after = 2;
  created_at = 2;
  error_code = "";
  error_message = "";
}

abbrev later_job : MediaJob
later_job = record job { id = 6; created_at = 3 }

abbrev queue : List MediaJob → Pipeline
queue js = record created { jobs = js }

claim_media_job-again_example : (lease_media "b" 9 later_job).id ≢ (lease_media "a" 9 job).id
unfolding claim_media_job oldest
claim_media_job-again_example =
    claim_media_job-again (queue (job ∷ later_job ∷ []))
      (queue (lease_media "a" 9 job ∷ later_job ∷ []))
      (queue (lease_media "a" 9 job ∷ lease_media "b" 9 later_job ∷ [])) 4 5 5 4 "a" "b"
      (lease_media "a" 9 job) (lease_media "b" 9 later_job) refl refl (omega arith)

-- Tables whose only item is this one.
abbrev one : StoryItem → Pipeline
one s = record { uploads = []; jobs = []; stories = s ∷ []; variants = []; cleanup = [] }

one-IsKeyed : (s : StoryItem) → IsKeyed (one s)
one-IsKeyed s x y (Memᴰ.head e) (Memᴰ.head f) same = cc
one-IsKeyed s x y (Memᴰ.tail m) n same = elim m [ ]
one-IsKeyed s x y m (Memᴰ.tail n) same = elim n [ ]

abbrev gone : Pipeline
gone = record (one (record story { state = deleted; deleted_at = some 12 })) {
  cleanup = new_cleanup 9 [] 12 ∷ [];
}

delete_story-run_example :
    story_for_viewer graph
      (run 50 gone (publish 13 2 5 7 [] ∷ view 14 7 ∷ reap 15 ∷ []))
      bob_viewer
      15
      7
    ≡ err not_found
unfolding delete_story
delete_story-run_example =
    delete_story-run (one story) gone 12 12 9 1 7 false "" (one-IsKeyed story) refl 50
      (publish 13 2 5 7 [] ∷ view 14 7 ∷ reap 15 ∷ []) (tt, (tt, (tt, tt))) graph bob_viewer 15

abbrev waiting : StoryItem
waiting = record story { state = processing; published_at = none; expires_at = none }

abbrev shown : Pipeline
shown = one (publish_row 10 60 waiting)

publish_story-run_example :
    (◌≡◌ {A = ℕ} 10 10)
    × (◌≡◌ {A = ℕ} 60 (10 + 50))
    × ((publish_row 10 60 waiting).published_at ≡ some 10)
    × ((publish_row 10 60 waiting).expires_at ≡ some 60)
    × (15 < 60)
unfolding publish_story story_for_viewer select_story load_variants run step reap_expired_leases
    expire_stories expire_batch visible_to_viewer is_open author_active blocked hidden admits
    followed_by_author
publish_story-run_example =
    publish_story-run (one waiting) shown 10 9 5 7 [] 50 10 60 (one-IsKeyed waiting) refl
      (reap 11 ∷ expire 12 30 4 ∷ []) (tt, (tt, tt)) graph bob_viewer 15 (publish_row 10 60 waiting)
      [] refl
