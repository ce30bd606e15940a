-- ===== src/Server/Scheduler/Publishing.antt =====
-- server/scheduler/outputNaming.go: the names of outputs, and the hard link that publishes an
-- uploaded file under the first of them that is free.
pub mod Candidates
pub mod Tries
pub mod Loop
use Prim.Native.String.{◌++◌}
use transcoderd.Prelude.{
  ℕ, zero, suc, ◌+◌, ◌≡◌, refl, Bool, true, false, ◌&&◌, ◌||◌, Option, none, some, List, [], ◌∷◌,
  String, str_eq, ◌==◌, if◌then◌else◌, length,
}
use transcoderd.Prelude.Decimal.{decimal}
use transcoderd.Server.Files.Paths.{FilePath, dir, base, path_eq}
use transcoderd.Server.Files.Names.{split_ext}
use transcoderd.Server.Files.Disk.{
  File, Disk, Stat, found, missing, unreadable, stat, Linked, linked, exists, refused, link,
}

-- What follows the name before its extension, from the first collision on.
unfoldable pub suffix : ℕ → String
suffix zero = ""
suffix (suc zero) = "_encoded"
suffix (suc (suc n)) = "_encoded-" ++ decimal (suc (suc n))

-- The name that is tried at an index.
unfoldable pub candidate : FilePath → ℕ → FilePath
unfolding suffix
candidate desired zero = desired
candidate desired (suc n) =
    let (before, ext) = split_ext (base desired) in
    (before ++ (suffix (suc n) ++ ext)) ∷ dir desired

-- `os.SameFile` of two files that can be inspected.
abbrev pub same_file : Stat → Stat → Bool
same_file (found f) (found g) = f.inode == g.inode
same_file s t = false

-- How the loop ends: with a path and the files as they are then, or with an error of `Link`.
pub data Published : Type 0 where
  published : FilePath → Disk → Published
  not_published : Published

-- What is outside: the paths that cannot be inspected, and those that cannot be linked to.
pub record Access : Type 0 where
  pub stat_denied : FilePath → Bool
  pub link_denied : FilePath → Bool

abbrev pub tried : FilePath → Disk → Linked → Bool → Option Published → Option Published
tried path d (linked d') same rest = some (published path d')
tried path d refused same rest = some not_published
tried path d exists same rest = if same then some (published path d) else rest

-- One candidate that is not the source, before the rest of the loop.
unfoldable pub try_candidate :
    Access → FilePath → FilePath → Disk → Option Published → Option Published
try_candidate a staging path d rest =
    tried path d (link a.link_denied staging path d)
      (same_file (stat a.stat_denied staging d) (stat a.stat_denied path d)) rest

-- The loop from an index on; none where the fuel does not reach its end.
unfoldable pub publish : Access → FilePath → FilePath → FilePath → Disk → ℕ → ℕ → Option Published
unfolding candidate try_candidate
publish a staging desired source d zero index = none
publish a staging desired source d (suc fuel) index =
    let rest = publish a staging desired source d fuel (suc index) in
    let path = candidate desired index in
    if path_eq path source then rest else try_candidate a staging path d rest

-- More steps than there are paths that can be taken: those of the files, and the source's.
unfoldable pub link_output_without_overwrite :
    Access → FilePath → FilePath → FilePath → Disk → Option Published
unfolding publish
link_output_without_overwrite a staging desired source d =
    publish a staging desired source d (length d + 2) 0
