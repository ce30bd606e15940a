-- ===== src/Examples/Searches.antt =====
-- A concrete directory of films that is requested, and a film that was reviewed.
use transcoderd.Prelude.{◌≢◌, refl, true, false, none, some, List, [], ◌∷◌, ℕ}
use transcoderd.Server.Repository.Store.{Store}
use transcoderd.Server.Repository.Invariant.{IsConsistent}
use transcoderd.Server.Scheduler.Intake.{JobRequest, Outside}
use transcoderd.Server.Scheduler.Search.{
  JobRequestResult, SearchConfig, Entry, file, directory, nothing, entry, path_ext, target_path,
  search_root, schedule_results,
}
use transcoderd.Server.Scheduler.Media.{ReviewedFile, Disk, Retries, queue_media_file}
use transcoderd.Server.Scheduler.Media.Queued.{Guarded, queue_media_file-Guarded}
use transcoderd.Server.Scheduler.Search.Targets.{target_path-differs}
use transcoderd.Server.Scheduler.Search.Walked.{visible_root, Search, search_root-Search}
use transcoderd.Server.Scheduler.Search.Scheduled.{Accounted, schedule_results-Accounted}

abbrev submission : JobRequest
submission = record {
  source_probe = none;
  source_path = "./films/";
  force_completed = false;
  force_failed = true;
  force_canceled = true;
  force_assigned = false;
  source_size = 0;
  target_path = "";
}

abbrev films : Entry
films =
    directory "films"
      (entry (file "a.mkv" 7) (entry (directory "old" (entry (file "b.txt" 9) nothing)) nothing))

abbrev searched : SearchConfig
searched = record { source_path = "media" ∷ []; min_file_size = 5 }

search_root-Search_example :
    Search searched submission
      (visible_root ("media" ∷ []) "./films/" films)
      (search_root searched submission films)
search_root-Search_example = search_root-Search searched submission films

target_path-differs_example : target_path "films/a.mkv" ≢ "films/a.mkv"
unfolding path_ext
target_path-differs_example = target_path-differs "films/a.mkv" refl

abbrev outside : ℕ → Outside
outside n = record { now = 100; new_id = n; probe = none }

abbrev empty_store : Store
empty_store = record { jobs = []; job_events = []; job_status = []; job_progress = [] }

empty_store-IsConsistent : IsConsistent empty_store
empty_store-IsConsistent = record {
  known = tt;
  numbered = λ j. tt;
  rows_known = tt;
  rows_keyed = tt;
  current = λ j. refl;
}

abbrev one_film : List JobRequestResult
one_film = record { job_request = submission; errors = [] } ∷ []

schedule_results-Accounted_example :
    let (t, result) = schedule_results outside 0 one_film empty_store in Accounted one_film t result
schedule_results-Accounted_example =
    schedule_results-Accounted outside 0 one_film empty_store empty_store-IsConsistent

abbrev reviewed_film : ReviewedFile
reviewed_film = record {
  root = "source";
  path = "films/a.mkv";
  size = 7;
  modified_ns = 3;
  probe = some "{}";
}

abbrev one_disk : Disk
one_disk = record {
  fs_valid = λ p. true;
  root_opens = true;
  lstat = λ p. some false;
  stat = some record { is_regular = true; size = 7; modified_ns = 3 };
}

abbrev no_retries : Retries
no_retries = record { retry_failed = false; retry_canceled = false }

queue_media_file-Guarded_example :
    let (t, q) =
      queue_media_file one_disk 5 (outside 0) false reviewed_film no_retries empty_store in
    Guarded one_disk 5 reviewed_film no_retries empty_store t q
queue_media_file-Guarded_example =
    queue_media_file-Guarded one_disk 5 (outside 0) false reviewed_film no_retries empty_store
