-- ===== src/Server/Scheduler/Completion/Outcome.antt =====
-- server/scheduler/scheduler.go: what `completeJob` leaves, on each of its branches.
use mathlib.Core.Bool.{true≢false}
use transcoderd.Prelude.{
  ℕ, ◌≡◌, ◌≢◌, refl, ap, sym, ◌∙◌, Bool, true, false, not, ◌||◌, Option, none, some, ◌∷◌, str_eq,
  if◌then◌else◌, Bool-cases, Option-cases, inl, inr, ◌⊎◌,
}
use transcoderd.Model.Events.{Job}
use transcoderd.Server.Files.Paths.{FilePath, path_eq, path_eq_refl, join, is_local}
use transcoderd.Server.Files.Disk.{
  File, Disk, lookup, lookup-remove, lookup-fresh, Extends, stat_cases, is_found, is_missing,
  is_unreadable,
}
use transcoderd.Server.Repository.Store.{ok}
use transcoderd.Server.Repository.Queries.{get_job}
use transcoderd.Server.Repository.Commands.{update_job}
use transcoderd.Server.Scheduler.Naming.{output_name_for_codec}
use transcoderd.Server.Scheduler.Publishing.{
  Published, published, not_published, link_output_without_overwrite,
}
use transcoderd.Server.Scheduler.Publishing.Tries.{Kept}
use transcoderd.Server.Scheduler.Publishing.Loop.{
  link_output_without_overwrite-ends, link_output_without_overwrite-Kept,
}
use transcoderd.Server.Scheduler.Completion.{
  Host, Probe, World, Failure, Answer, done, failed, endless_loop, non_local_path, can_not_stat,
  can_not_migrate, can_not_probe, no_video_stream, can_not_publish, can_not_chmod, can_not_update,
  withdrawn, upload_staging_path, legacy_staging_path, Staged, staged, not_staged, copy_upload,
  copied, migrated, staged_upload, probe_output, remove_upload_staging_file, targeted,
  after_publication, publish_output, publish_probed, video_codec, verified, complete_found,
  complete_job, target_saved,
}

-- Every file but the uploads of the job stays what it is.
abbrev pub KeepsFiles : Host → Job → Disk → Disk → Type 0
KeepsFiles h v d d' =
    (q : FilePath) (f : File)
    → q ≢ upload_staging_path h v
    → q ≢ legacy_staging_path h v
    → lookup q d ≡ some f
    → lookup q d' ≡ some f

-- Where the output is withdrawn again, every file stays, but that the path of the output may be gone:
-- a file that it had before is then still at the path that was probed, by its inode.
pub record Withdrawn (final probed : FilePath) (before d : Disk) : Type 0 where
  pub others :
      (q : FilePath) (f : File) → q ≢ final → lookup q before ≡ some f → lookup q d ≡ some f
  pub still_there :
      (f : File)
      → lookup final before ≡ some f
      → (lookup final d ≡ some f)
        ⊎ ((final ≢ probed) × (g : File) × (lookup probed d ≡ some g) × (g.inode ≡ f.inode))

-- The job's row gets a target that is a file, or `completeJob` fails and the tables stay.
pub data Completed (h : Host) (v : Job) (w : World) : World × Answer → Type 0 where
  saved :
      (p : Probe) (final : FilePath) (file : File) (d : Disk)
      → lookup final d ≡ some file
      → KeepsFiles h v w.disk d
      → Completed h v w
          (record { store = (update_job (targeted h v p final file) w.store).0; disk = d }, done)
  unsaved :
      (why : Failure) (d : Disk)
      → why ≢ endless_loop
      → KeepsFiles h v w.disk d
      → Completed h v w (record { store = w.store; disk = d }, failed why)
  unwritten :
      (final probed : FilePath) (d : Disk)
      → h.update_denied ≡ true
      → Withdrawn final probed w.disk d
      → Completed h v w (record { store = w.store; disk = d }, failed can_not_update)

-- The failures that are none of the loop.
abbrev is_endless : Failure → Bool
is_endless endless_loop = true
is_endless _ = false

ne-endless : (why : Failure) → is_endless why ≡ false → why ≢ endless_loop
ne-endless why h e = absurd (true≢false (sym (ap is_endless e) ∙ h))

keeps_all : (h : Host) (v : Job) (d d' : Disk) → Extends d d' → KeepsFiles h v d d'
keeps_all h v d d' k q f a b e = k q f e

-- Where the upload is found no file has changed.
data IsStaged (d : Disk) : Staged → Type 0 where
  is_staged : (path : FilePath) (d' : Disk) → Extends d d' → IsStaged d (staged path d')
  is_not_staged : (why : Failure) → why ≢ endless_loop → IsStaged d (not_staged why)

copied-IsStaged :
    (h : Host) (staging : FilePath) (d : Disk) (file : File)
    → lookup staging d ≡ none
    → IsStaged d (migrated staging (copied h staging d (some file)))
copied-IsStaged h staging d file free = elim (Bool-cases h.copy_denied) [
  | inl e ↦ rw e (is_not_staged can_not_migrate (ne-endless can_not_migrate refl))
  | inr e ↦ rw e (
      is_staged staging ((staging, record { inode = h.new_inode; content = file.content }) ∷ d)
        (λ q f k.
          lookup-fresh staging q (record { inode = h.new_inode; content = file.content }) f d free
            k))
]

staged_upload-IsStaged :
    (h : Host) (staging legacy target : FilePath) (d : Disk)
    → IsStaged d (staged_upload h staging legacy target d)
unfolding staged_upload copy_upload
staged_upload-IsStaged h staging legacy target d =
    elim (stat_cases h.access.stat_denied staging d) [
      | is_found f e k ↦ rw e (is_staged staging d (λ q g l. l))
      | is_unreadable e ↦ rw e (is_not_staged can_not_stat (ne-endless can_not_stat refl))
      | is_missing e free ↦ elim (stat_cases h.access.stat_denied legacy d) [
        | is_found f e' k ↦ rw (e, e', e, k) (copied-IsStaged h staging d f free)
        | is_missing e' k ↦ rw (e, e') (is_staged target d (λ q g l. l))
        | is_unreadable e' ↦ rw (e, e') (is_not_staged can_not_stat (ne-endless can_not_stat refl))
      ]
    ]

cleaned-other :
    (h : Host) (final path q : FilePath) (d : Disk)
    → q ≢ path
    → lookup q (remove_upload_staging_file h final path d) ≡ lookup q d
unfolding remove_upload_staging_file
cleaned-other h final path q d other =
    elim (Bool-cases (path_eq path final || h.remove_denied path)) [
      | inl e ↦ rw e refl
      | inr e ↦ rw e (lookup-remove path q d (λ k. other (sym k)))
    ]

cleaned-final :
    (h : Host) (final path : FilePath) (d : Disk)
    → lookup final (remove_upload_staging_file h final path d) ≡ lookup final d
unfolding remove_upload_staging_file
cleaned-final h final path d = elim (Bool-cases (path_eq path final)) [
  | inl e ↦ rw e refl
  | inr e ↦
      cleaned-other h final path final d
        (λ k. true≢false (sym (path_eq_refl path) ∙ ap (path_eq path) (sym k) ∙ e))
]

inode_of : Option File → ℕ
inode_of none = 0
inode_of (some f) = f.inode

withdrawn-Withdrawn :
    (h : Host) (probed final : FilePath) (before d d' : Disk)
    → Extends before d'
    → Kept probed final d d'
    → Withdrawn final probed before (withdrawn h probed final d')
unfolding inode_of
withdrawn-Withdrawn h probed final before d d' kept k = elim (Bool-cases (path_eq final probed)) [
  | inl same ↦ rw same all_stay
  | inr other ↦ elim (Bool-cases (h.remove_denied final)) [
    | inl denied ↦ rw (other, denied) all_stay
    | inr gone ↦
        rw (other, gone)
          (record {
            others = λ q f ne e. lookup-remove final q d' (λ same. ne (sym same)) ∙ kept q f e;
            still_there = λ f e. inr (
              differs other,
              k.staged,
              lookup-remove final probed d' (differs other) ∙ k.files probed k.staged k.staged_file,
              sym k.same_inode ∙ ap inode_of (sym k.target_file ∙ kept final f e),
            );
          })
  ]
]
  where
    all_stay : Withdrawn final probed before d'
    all_stay = record { others = λ q f ne e. kept q f e; still_there = λ f e. inl (kept final f e) }

    differs : path_eq final probed ≡ false → final ≢ probed
    differs other e = true≢false (sym (path_eq_refl final) ∙ ap (path_eq final) e ∙ other)

seen-Completed :
    (h : Host) (v : Job) (p : Probe) (probed final : FilePath) (w : World) (d d' : Disk)
    (file : File)
    → Extends w.disk d'
    → Kept probed final d d'
    → lookup final d' ≡ some file
    → Completed h v w (target_saved h v (targeted h v p final file) probed final d' w.store)
seen-Completed h v p probed final w d d' file kept k there = by_update h.update_denied refl
  where
    written : Completed h v w (
      record {
        store = (update_job (targeted h v p final file) w.store).0;
        disk =
            remove_upload_staging_file h final
              (legacy_staging_path h v)
              (remove_upload_staging_file h final (upload_staging_path h v) d');
      },
      done,
    )
    written =
        saved p final file
          (remove_upload_staging_file h final (legacy_staging_path h v)
            (remove_upload_staging_file h final (upload_staging_path h v) d'))
          (cleaned-final h final (legacy_staging_path h v) _
            ∙ cleaned-final h final (upload_staging_path h v) d'
            ∙ there)
          (λ q f a b e.
            cleaned-other h final (legacy_staging_path h v) q _ b
            ∙ cleaned-other h final (upload_staging_path h v) q d' a
            ∙ kept q f e)

    by_update :
        (denied : Bool)
        → h.update_denied ≡ denied
        → Completed h v w (
            if denied
            then (
              record { store = w.store; disk = withdrawn h probed final d' },
              failed can_not_update,
            )
            else (
              record {
                store = (update_job (targeted h v p final file) w.store).0;
                disk =
                    remove_upload_staging_file h final
                      (legacy_staging_path h v)
                      (remove_upload_staging_file h final (upload_staging_path h v) d');
              },
              done,
            ))
    by_update true e =
        unwritten final probed (withdrawn h probed final d') e
          (withdrawn-Withdrawn h probed final w.disk d d' kept k)
    by_update false e = written

after-Completed :
    (h : Host) (v : Job) (p : Probe) (probed : FilePath) (w : World) (d : Disk)
    (r : Option Published)
    → Extends w.disk d
    → r ≢ none
    → ((path : FilePath) (d' : Disk) → r ≡ some (published path d') → Kept probed path d d')
    → Completed h v w
        (after_publication h v p probed w.store r (record { store = w.store; disk = d }))
unfolding after_publication
after-Completed h v p probed w d none kept ends files = absurd (ends refl)
after-Completed h v p probed w d (some not_published) kept ends files =
    unsaved can_not_publish d (ne-endless can_not_publish refl) (λ q f a b e. kept q f e)
after-Completed h v p probed w d (some (published final d')) kept ends files =
    let k = files final d' refl in
    let kept' : Extends w.disk d' = λ q f e. k.files q f (kept q f e) in
    elim (Bool-cases (h.chmod_denied final)) [
      | inl e ↦
          rw e (unsaved can_not_chmod d' (ne-endless can_not_chmod refl) (λ q f a b l. kept' q f l))
      | inr e ↦ elim (stat_cases h.access.stat_denied final d') [
        | is_found file e' there ↦
            rw (e, e') (seen-Completed h v p probed final w d d' file kept' k there)
        | is_missing e' l ↦
            rw (e, e')
              (unsaved can_not_stat d' (ne-endless can_not_stat refl) (λ q f a b l. kept' q f l))
        | is_unreadable e' ↦
            rw (e, e')
              (unsaved can_not_stat d' (ne-endless can_not_stat refl) (λ q f a b l. kept' q f l))
      ]
    ]

probed-Completed :
    (h : Host) (v : Job) (path : FilePath) (w : World) (d : Disk) (p : Probe)
    → Extends w.disk d
    → Completed h v w (publish_probed h v path d w.store p)
unfolding publish_probed publish_output
probed-Completed h v path w d p kept = elim (Bool-cases (str_eq (video_codec p.streams) "")) [
  | inl e ↦
      rw e (unsaved no_video_stream d (ne-endless no_video_stream refl) (λ q f a b k. kept q f k))
  | inr e ↦
      let desired =
        join h.source_root (output_name_for_codec v.source_path (video_codec p.streams)) in
      let source = join h.source_root v.source_path in
      rw e (
        after-Completed h v p path w d
          (link_output_without_overwrite h.access path desired source d) kept
          (link_output_without_overwrite-ends h.access path desired source d)
          (λ final d' k.
            (link_output_without_overwrite-Kept h.access path desired source final d d' k).0))
]

verified-Completed :
    (h : Host) (v : Job) (w : World) (s : Staged)
    → IsStaged w.disk s
    → Completed h v w (verified h v w s)
verified-Completed h v w s (is_not_staged why k) = unsaved why w.disk k (λ q f a b e. e)
verified-Completed h v w s (is_staged path d kept) = elim (Option-cases (probe_output h path d)) [
  | inl e ↦ rw e (unsaved can_not_probe d (ne-endless can_not_probe refl) (λ q f a b k. kept q f k))
  | inr (p, e) ↦ rw e (probed-Completed h v path w d p kept)
]

pub complete_job-Completed :
    (h : Host) (j : ℕ) (v : Job) (w : World)
    → get_job j w.store ≡ ok v
    → Completed h v w (complete_job h j w)
unfolding complete_job complete_found
complete_job-Completed h j v w known =
    rw known (elim (Bool-cases (not (is_local v.source_path) || not (is_local v.target_path))) [
      | inl e ↦
          rw e (unsaved non_local_path w.disk (ne-endless non_local_path refl) (λ q f a b k. k))
      | inr e ↦ rw e (
          verified-Completed h v w
            (staged_upload h (upload_staging_path h v) (legacy_staging_path h v)
              (join h.source_root v.target_path) w.disk)
            (staged_upload-IsStaged h (upload_staging_path h v) (legacy_staging_path h v)
              (join h.source_root v.target_path) w.disk))
    ])
