-- ===== src/Server/Scheduler/Completion.antt =====
-- server/scheduler/scheduler.go and outputNaming.go: `completeJob` publishes the upload of a job, and
-- `processEvent` takes in what workers report. Times, what ffprobe says of a file's bytes, and which
-- system calls are refused come from outside.
pub mod Outcome
use Prim.Native.String.{◌++◌}
use transcoderd.Prelude.{
  ℕ, ◌+◌, ◌≡◌, refl, Bool, true, false, not, ◌&&◌, ◌||◌, Option, none, some, List, [], ◌∷◌, String,
  str_eq, ◌==◌, if◌then◌else◌, any,
}
use transcoderd.Model.Events.{TaskEvent, Job, is_completed}
use transcoderd.Server.Files.Paths.{FilePath, dir, path_eq, join, is_local, relative}
use transcoderd.Server.Files.Disk.{
  File, Disk, lookup, remove, Stat, found, missing, unreadable, stat,
}
use transcoderd.Server.Repository.Store.{Store, Error, Result, ok, err}
use transcoderd.Server.Repository.Queries.{get_job}
use transcoderd.Server.Repository.Commands.{add_new_task_event, update_job}
use transcoderd.Server.Scheduler.Naming.{output_name_for_codec}
use transcoderd.Server.Scheduler.Publishing.{
  Access, Published, published, not_published, link_output_without_overwrite,
}

pub record Stream : Type 0 where
  pub codec_type : String
  pub codec_name : String

-- `media` is the JSON text of the probe that the job keeps.
pub record Probe : Type 0 where
  pub streams : List Stream
  pub media : String

-- `update_denied` is whether the database fails to run the statement of `UpdateJob`.
pub record Host : Type 0 where
  pub source_root : FilePath
  pub delete_source_on_complete : Bool
  pub id_text : ℕ → String
  pub access : Access
  pub probe : ℕ → Option Probe
  pub size : ℕ → ℕ
  pub new_inode : ℕ
  pub copy_denied : Bool
  pub chmod_denied : FilePath → Bool
  pub remove_denied : FilePath → Bool
  pub update_denied : Bool

pub record World : Type 0 where
  pub store : Store
  pub disk : Disk

pub data Failure : Type 0 where
  of_repository : Error → Failure
  non_local_path : Failure
  can_not_stat : Failure
  can_not_migrate : Failure
  can_not_probe : Failure
  no_video_stream : Failure
  can_not_publish : Failure
  endless_loop : Failure
  can_not_chmod : Failure
  can_not_remove_source : Failure
  can_not_update : Failure

pub data Answer : Type 0 where
  done : Answer
  failed : Failure → Answer

unfoldable pub upload_staging_name : Host → ℕ → String
upload_staging_name h j = h.id_text j ++ ".upload"

-- Of a local path, which `complete_found` has tested.
unfoldable pub upload_staging_path : Host → Job → FilePath
unfolding upload_staging_name
upload_staging_path h v =
    upload_staging_name h v.id ∷ ".transcoderd-upload" ∷ dir (join h.source_root v.source_path)

unfoldable pub legacy_staging_path : Host → Job → FilePath
unfolding upload_staging_name
legacy_staging_path h v = upload_staging_name h v.id ∷ ".transcoderd-upload" ∷ h.source_root

abbrev pub copied : Host → FilePath → Disk → Option File → Option Disk
copied h destination d none = none
copied h destination d (some file) =
    if h.copy_denied
    then none
    else some ((destination, record { inode = h.new_inode; content = file.content }) ∷ d)

abbrev pub copied_to : Host → FilePath → FilePath → Disk → Stat → Option Disk
copied_to h source destination d (found file) = some d
copied_to h source destination d missing = copied h destination d (lookup source d)
copied_to h source destination d unreadable = none

-- `copyUploadToDestinationFilesystem`; the temporary file, which is gone at the end, is left out.
unfoldable pub copy_upload : Host → FilePath → FilePath → Disk → Option Disk
copy_upload h source destination d =
    copied_to h source destination d (stat h.access.stat_denied destination d)

-- Where the upload is found: beside the source, in the root's directory of older versions, from
-- which it is copied, or published already.
pub data Staged : Type 0 where
  staged : FilePath → Disk → Staged
  not_staged : Failure → Staged

abbrev pub migrated : FilePath → Option Disk → Staged
migrated path none = not_staged can_not_migrate
migrated path (some d) = staged path d

abbrev pub staged_legacy : Host → FilePath → FilePath → FilePath → Disk → Stat → Staged
staged_legacy h staging legacy target d (found file) =
    migrated staging (copy_upload h legacy staging d)
staged_legacy h staging legacy target d missing = staged target d
staged_legacy h staging legacy target d unreadable = not_staged can_not_stat

abbrev pub staged_beside : Host → FilePath → FilePath → FilePath → Disk → Stat → Staged
staged_beside h staging legacy target d (found file) = staged staging d
staged_beside h staging legacy target d missing =
    staged_legacy h staging legacy target d (stat h.access.stat_denied legacy d)
staged_beside h staging legacy target d unreadable = not_staged can_not_stat

unfoldable pub staged_upload : Host → FilePath → FilePath → FilePath → Disk → Staged
unfolding copy_upload
staged_upload h staging legacy target d =
    staged_beside h staging legacy target d (stat h.access.stat_denied staging d)

abbrev pub is_video : Stream → Bool
is_video s = str_eq s.codec_type "video" && not (str_eq s.codec_name "")

-- The first video stream that has a codec name.
unfoldable pub video_codec : List Stream → String
video_codec [] = ""
video_codec (s ∷ streams) =
    let rest = video_codec streams in if is_video s then s.codec_name else rest

abbrev pub with_video : Option Probe → Option Probe
with_video none = none
with_video (some p) = if any is_video p.streams then some p else none

-- `probeOutput`.
unfoldable pub probe_output : Host → FilePath → Disk → Option Probe
probe_output h path d = elim (lookup path d) [
  | none ↦ none
  | some file ↦ with_video (h.probe file.content)
]

-- The loop at the end, for one of the two staging files; an error is only logged. Their directories,
-- removed when they are empty, have no entries.
unfoldable pub remove_upload_staging_file : Host → FilePath → FilePath → Disk → Disk
remove_upload_staging_file h final path d =
    if path_eq path final || h.remove_denied path then d else remove path d

-- The output is withdrawn from its path unless it is the file that was probed.
abbrev pub withdrawn : Host → FilePath → FilePath → Disk → Disk
withdrawn h probed final d =
    if path_eq final probed || h.remove_denied final then d else remove final d

-- `UpdateJob` and what follows it.
abbrev pub target_saved : Host → Job → Job → FilePath → FilePath → Disk → Store → World × Answer
target_saved h v updated probed final d s =
    if h.update_denied
    then (record { store = s; disk = withdrawn h probed final d }, failed can_not_update)
    else (
      record {
        store = (update_job updated s).0;
        disk =
            remove_upload_staging_file h final (legacy_staging_path h v)
              (remove_upload_staging_file h final (upload_staging_path h v) d);
      },
      done,
    )

unfoldable pub targeted : Host → Job → Probe → FilePath → File → Job
targeted h v p final file = record v {
  target_path = relative h.source_root final;
  target_size = h.size file.content;
  target_probe = some p.media;
}

abbrev pub target_seen :
    Host → Job → Probe → FilePath → FilePath → Disk → Store → Stat → World × Answer
target_seen h v p probed final d s (found file) =
    target_saved h v (targeted h v p final file) probed final d s
target_seen h v p probed final d s _ = (record { store = s; disk = d }, failed can_not_stat)

-- What follows the publication.
unfoldable pub after_publication :
    Host → Job → Probe → FilePath → Store → Option Published → World → World × Answer
unfolding remove_upload_staging_file targeted legacy_staging_path upload_staging_path update_job
after_publication h v p probed s none w = (w, failed endless_loop)
after_publication h v p probed s (some not_published) w = (w, failed can_not_publish)
after_publication h v p probed s (some (published final d)) w =
    if h.chmod_denied final
    then (record { store = s; disk = d }, failed can_not_chmod)
    else target_seen h v p probed final d s (stat h.access.stat_denied final d)

-- `linkOutputWithoutOverwrite`, with the paths that it is called with.
unfoldable pub publish_output : Host → Job → FilePath → Disk → Probe → Option Published
unfolding video_codec
publish_output h v probed d p =
    link_output_without_overwrite h.access probed
      (join h.source_root (output_name_for_codec v.source_path (video_codec p.streams)))
      (join h.source_root v.source_path) d

unfoldable pub publish_probed : Host → Job → FilePath → Disk → Store → Probe → World × Answer
unfolding video_codec publish_output after_publication
publish_probed h v probed d s p =
    if str_eq (video_codec p.streams) ""
    then (record { store = s; disk = d }, failed no_video_stream)
    else after_publication h v p probed s (publish_output h v probed d p)
        (record { store = s; disk = d })

abbrev pub probed_upload : Host → Job → FilePath → Disk → Store → Option Probe → World × Answer
probed_upload h v path d s none = (record { store = s; disk = d }, failed can_not_probe)
probed_upload h v path d s (some p) = publish_probed h v path d s p

abbrev pub verified : Host → Job → World → Staged → World × Answer
verified h v w (not_staged why) = (w, failed why)
verified h v w (staged path d) = probed_upload h v path d w.store (probe_output h path d)

unfoldable pub complete_found : Host → Job → World → World × Answer
unfolding staged_upload publish_probed probe_output upload_staging_path legacy_staging_path
complete_found h v w =
    if not (is_local v.source_path) || not (is_local v.target_path)
    then (w, failed non_local_path)
    else verified h v w (
        staged_upload h (upload_staging_path h v) (legacy_staging_path h v)
          (join h.source_root v.target_path) w.disk)

abbrev pub completed_job : Host → World → Result Job → World × Answer
completed_job h w (err e) = (w, failed (of_repository e))
completed_job h w (ok v) = complete_found h v w

unfoldable pub complete_job : Host → ℕ → World → World × Answer
unfolding complete_found
complete_job h j w = completed_job h w (get_job j w.store)
