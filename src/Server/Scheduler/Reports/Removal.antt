-- ===== src/Server/Scheduler/Reports/Removal.antt =====
-- server/scheduler/scheduler.go: which files `processEvent` may make disappear, and when.

use transcoderd.Prelude.{◌≡◌, ◌≢◌, Bool, true, Option, none, some}
use transcoderd.Model.Events.{TaskEvent, Job}
use transcoderd.Server.Files.Paths.{FilePath, join}
use transcoderd.Server.Files.Disk.{File, lookup}
use transcoderd.Server.Repository.Store.{Store}
use transcoderd.Server.Scheduler.Completion.{Host, World, Answer, done, failed}
use transcoderd.Server.Scheduler.Reports.Recorded.{is_recorded}

-- Nothing happens to the files and the rows of the jobs, and the event is in the table unless there
-- is an error.
data Recorded (e : TaskEvent) (w : World) : World × Answer → Type 0 where
  recorded :
      (s : Store)
      → is_recorded e s ≡ true
      → s.jobs ≡ w.store.jobs
      → Recorded e w (record { store = s; disk = w.disk }, done)
  unrecorded :
      (s : Store) (why : _) → Recorded e w (record { store = s; disk = w.disk }, failed why)

-- Why a file is gone: it is the source of a job whose completion is in the table, or it was at the
-- path of an output that was withdrawn, and is still where this was probed.
pub data Removed (h : Host) (e : TaskEvent) (v : Job) (q : FilePath) (f : File) (w : World)
    : Type 0 where
  source_removed :
      is_recorded e w.store ≡ true
      → h.delete_source_on_complete ≡ true
      → q ≡ join h.source_root v.source_path
      → Removed h e v q f w
  output_withdrawn :
      (probed : FilePath) (g : File)
      → h.update_denied ≡ true
      → q ≢ probed
      → lookup probed w.disk ≡ some g
      → g.inode ≡ f.inode
      → Removed h e v q f w

-- What holds if the file is gone.
abbrev Gone : Host → TaskEvent → Job → FilePath → File → World → Type 0
Gone h e v q f w = lookup q w.disk ≡ none → Removed h e v q f w
