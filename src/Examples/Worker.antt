-- ===== src/Examples/Worker.antt =====
-- Runs of the worker and of the object store.
use gh_stories.Prelude.{
  ℕ, ◌≡◌, ◌≤◌, ◌+◌, ◌-◌, ◌++◌, refl, true, false, ◌&&◌, none, some, List, [], ◌∷◌, arith,
  exists_row, min, take, drop, decimal, length,
}
use gh_stories.Domain.{JobState, deleted, image}
use gh_stories.Store.Social.{ok}
use gh_stories.Store.Stories.{MediaJob, Pipeline, is_job, new_cleanup}
use gh_stories.Store.Stories.Jobs.{claim_media_job, oldest, is_claimable, reap_expired_leases}
use gh_stories.Store.Stories.Items.{expire_stories, expire_batch}
use gh_stories.Store.Stories.Abandoned.{gc_abandoned_uploads}
use gh_stories.Worker.{Outside, Produced, made, bytes, fetched, download_original, handle_media_job}
use gh_stories.Worker.Loops.{Config, Tables, MediaTurn, CleanupTurn, Ended, both, run_once, sweep}
use gh_stories.Worker.Drains.{IsKeyed, total}
use gh_stories.Worker.Runs.{run_once-Ends}
use gh_stories.Worker.Stored.{handle_media_job-IsStored, IsStored}
use gh_stories.Worker.Dropped.{handle_media_job-dropped, world_of}
use gh_stories.Objects.Memory.{Object, put, get, Outcome}
use gh_stories.Objects.Ranges.{prefix}
use gh_stories.Objects.Reads.{get-put}
use gh_stories.Examples.{story}
use gh_stories.Examples.Api.{db, picture}

-- A job for Alice's item, which she has deleted meanwhile.
abbrev job : MediaJob
job = record {
  id = 5;
  upload_intent_id = 4;
  user_id = 1;
  state = JobState.queued;
  input = record {
    object_key = "u/1/4";
    declared_mime = "image/png";
    byte_size = 64;
    checksum = "abc";
    story_item_id = 7;
    filename = "a.png";
  };
  attempts = 3;
  max_attempts = 3;
  lease_owner = none;
  lease_expires_at = none;
  run_after = 0;
  created_at = 0;
  error_code = "";
  error_message = "";
}

abbrev tables : Pipeline
tables = record {
  uploads = [];
  jobs = job ∷ [];
  stories = record story { state = deleted } ∷ [];
  variants = picture ∷ [];
  cleanup = [];
}

abbrev leased : MediaJob
leased = record job {
  state = JobState.leased;
  lease_owner = some "w";
  lease_expires_at = some 11;
  attempts = 4;
}

abbrev claimed : Pipeline
claimed = record tables { jobs = leased ∷ [] }

abbrev output : Produced
output = record {
  kind = image;
  mime = "image/jpeg";
  width = 10;
  height = 10;
  duration_ms = 0;
  byte_size = 9;
  checksum = "def";
  has_audio = false;
}

abbrev smooth : Outside
smooth = record {
  temp_dir = none;
  original = bytes 64;
  processed = made (output ∷ []);
  upload = λ k. none;
}

was_claimed : claim_media_job tables 1 "w" 10 ≡ ok (leased, claimed)
unfolding claim_media_job oldest
was_claimed = refl

was_fetched : download_original 100 smooth.original ≡ fetched
unfolding download_original
was_fetched = refl

handle_media_job-dropped_example :
    ((handle_media_job (λ n. "7") (world_of claimed []) 100 50 2 9 leased smooth).pipeline
      ≡ claimed)
    × (exists_row (λ k. is_job 5 k && is_claimable 12 k) claimed.jobs ≡ true)
handle_media_job-dropped_example =
    handle_media_job-dropped (λ n. "7") tables claimed [] 1 10 100 50 2 9 12 "w" leased smooth
      (output ∷ []) was_claimed refl was_fetched refl (λ k. refl) refl (omega arith)

handle_media_job-IsStored_example : IsStored (
    handle_media_job
      (λ n. "7")
      (record { pipeline = claimed; objects = "media/7/image" ∷ [] })
      100
      50
      2
      9
      leased
      smooth)
handle_media_job-IsStored_example =
    handle_media_job-IsStored (λ n. "7")
      (record { pipeline = claimed; objects = "media/7/image" ∷ [] }) 100 50 2 9 leased smooth
      (refl, tt)

abbrev config : Config
config = record {
  role = both;
  worker_id = "w";
  media_lease = 10;
  media_limit = 100;
  cleanup_lease = 10;
  batch_size = 0;
  story_lifetime = 50;
  view_retention = 100;
  max_jobs = 1;
  max_duration = none;
}

abbrev all_tables : Tables
all_tables = record {
  world = record {
    pipeline = record tables {
      cleanup = record (new_cleanup 6 ("k" ∷ []) 0) { attempts = 7 } ∷ [];
    };
    objects = "k" ∷ [];
  };
  inbox = db.inbox;
  pending = record { flows = []; logins = []; devices = [] };
}

abbrev look : CleanupTurn
look = record { cancelled = false; claimed_at = 1; ended_at = 1; deletion = none; removed = [] }

abbrev turn : MediaTurn
turn = record {
  cancelled = false;
  wall = 1;
  claimed_at = 1;
  ended_at = 2;
  new_id = 9;
  outside = smooth;
}

swept-IsKeyed : IsKeyed (sweep config all_tables 1 20 30).world.pipeline.cleanup
unfolding sweep reap_expired_leases expire_stories expire_batch gc_abandoned_uploads
swept-IsKeyed = (tt, tt)

swept_total : total (sweep config all_tables 1 20 30).world.pipeline.cleanup ≡ 2
unfolding sweep reap_expired_leases expire_stories expire_batch gc_abandoned_uploads
swept_total = refl

run_once-Ends_example :
    (e : Ended) × (run_once
        (λ n. "7")
        config
        all_tables
        0
        1
        20
        30
        false
        (look ∷ look ∷ look ∷ [])
        (turn ∷ [])
      ≡ some e)
    × (e.processed ≤ 1)
run_once-Ends_example =
    run_once-Ends (λ n. "7") config all_tables 0 1 20 30 false (look ∷ look ∷ look ∷ []) (turn ∷ [])
      (omega arith) swept-IsKeyed (omega (arith, swept_total)) (omega arith)

abbrev abc : List ℕ
abc = 97 ∷ 98 ∷ 99 ∷ []

get-put_example :
    (o : Object) × (get
        (record { key = "k"; content = abc; content_type = "text/plain"; etag = abc } ∷ [])
        "k"
        (prefix ++ decimal 1 ++ b'-' ∷ decimal 9)
      ≡ Outcome.ok o)
    × (o.status ≡ 206)
    × (o.body ≡ take (min (length abc) (9 + 1) - 1) (drop 1 abc))
unfolding put
get-put_example =
    get-put (λ b. b) [] _ "k" "text/plain" abc none 1 9 refl (omega arith) (omega arith)
      (omega arith)
