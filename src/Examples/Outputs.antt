-- ===== src/Examples/Outputs.antt =====
-- Concrete outputs: an uploaded file beside its source, and the completed event of its job.
use transcoderd.Prelude.{◌≡◌, ◌≢◌, refl, true, false, none, some, List, [], ◌∷◌}
use transcoderd.Prelude.Decimal.{decimal}
use transcoderd.Model.Events.{job, completed, TaskEvent, is_completed}
use transcoderd.Server.Files.Paths.{FilePath, path_eq}
use transcoderd.Server.Files.Names.{split_ext}
use transcoderd.Server.Files.Disk.{Disk, lookup, stat, link}
use transcoderd.Server.Repository.Store.{JobRow, Store}
use transcoderd.Server.Scheduler.Publishing.{
  Access, published, link_output_without_overwrite, publish, candidate, try_candidate,
}
use transcoderd.Server.Scheduler.Publishing.Tries.{Kept}
use transcoderd.Server.Scheduler.Publishing.Loop.{
  First, link_output_without_overwrite-ends, link_output_without_overwrite-Kept,
}
use transcoderd.Server.Scheduler.Completion.{Host, World, complete_job}
use transcoderd.Server.Scheduler.Reports.{and_then, remove_source, process_notification}
use transcoderd.Server.Scheduler.Reports.Recorded.{is_recorded}
use transcoderd.Server.Scheduler.Reports.Redelivered.{SameEvents, process_notification-again}

abbrev open_access : Access
open_access = record { stat_denied = λ p. false; link_denied = λ p. false }

abbrev upload : FilePath
upload = "1.upload" ∷ ".transcoderd-upload" ∷ "films" ∷ "media" ∷ []

abbrev source : FilePath
source = "a.mkv" ∷ "films" ∷ "media" ∷ []

abbrev desired : FilePath
desired = "a.x265.mkv" ∷ "films" ∷ "media" ∷ []

abbrev second : FilePath
second = "a.x265_encoded.mkv" ∷ "films" ∷ "media" ∷ []

abbrev files : Disk
files =
    (upload, record { inode = 2; content = 20 })
    ∷ (source, record { inode = 1; content = 10 })
    ∷ (desired, record { inode = 3; content = 30 })
    ∷ []

abbrev files_published : Disk
files_published = (second, record { inode = 2; content = 20 }) ∷ files

second_name :
    link_output_without_overwrite open_access upload desired source files
    ≡ some (published second files_published)
unfolding link_output_without_overwrite publish try_candidate link lookup path_eq candidate stat
    split_ext
second_name = refl

link_output_without_overwrite-ends_example :
    link_output_without_overwrite open_access upload desired source files ≢ none
link_output_without_overwrite-ends_example =
    link_output_without_overwrite-ends open_access upload desired source files

link_output_without_overwrite-Kept_example :
    Kept upload second files files_published × First desired source files 0 second
link_output_without_overwrite-Kept_example =
    link_output_without_overwrite-Kept open_access upload desired source second files
      files_published second_name

abbrev film : JobRow
film = record {
  id = 1;
  source_path = "films/a.mkv";
  target_path = "films/a_encoded.mkv";
  source_size = 1000;
  target_size = 0;
  source_probe = none;
  target_probe = none;
}

abbrev completion : TaskEvent
completion = record {
  job_id = 1;
  event_id = 0;
  worker_name = "w";
  event_time = 5;
  notification_type = job;
  status = completed;
  message = "";
}

abbrev tables : List TaskEvent → Store
tables events = record {
  jobs = film ∷ [];
  job_events = events;
  job_status = events;
  job_progress = [];
}

abbrev host : Host
host = record {
  source_root = "media" ∷ [];
  delete_source_on_complete = true;
  id_text = decimal;
  access = open_access;
  probe = λ c. some (record {
    streams = record { codec_type = "video"; codec_name = "hevc" } ∷ [];
    media = "{}";
  });
  size = λ c. 100;
  new_inode = 9;
  copy_denied = false;
  chmod_denied = λ p. false;
  remove_denied = λ p. false;
  update_denied = false;
}

abbrev uploaded : List TaskEvent → World
uploaded events = record { store = tables events; disk = files }

already : is_recorded completion (tables (completion ∷ [])) ≡ true
unfolding is_recorded is_completed
already = refl

is_a_completion : is_completed completion ≡ true
unfolding is_completed
is_a_completion = refl

process_notification-again_example :
    let r = process_notification host 6 completion (uploaded (completion ∷ [])) in
    (r
      ≡ and_then (complete_job host 1 (uploaded (completion ∷ []))) (remove_source host completion))
    × SameEvents (tables (completion ∷ [])) r.0.store
process_notification-again_example =
    process_notification-again host 6 completion (uploaded (completion ∷ [])) is_a_completion
      already
