-- ===== src/Update/Manifest/Accepted.antt =====
-- update/managed/manifest.go: the files of an accepted manifest.

use Prim.Native.String.{◌++◌ as ◌⧺◌}
use mathlib.Core.Bool.{false≢true}
use transcoderd.Prelude.{
  ◌*◌, ◌^◌, ◌≡◌, refl, Bool, true, false, not, Option, some, List, [], ◌∷◌, String, All,
}
use transcoderd.Server.Files.Paths.{FilePath, components}
use transcoderd.Server.Scheduler.Naming.{to_lower}
use transcoderd.Update.Manifest.Windows.{windows_join, placed}
use transcoderd.Update.Manifest.{
  File, Manifest, Candidate, Reply, reply, refusal, size_within, valid_digest, is_seen, Keys,
}

not-true : (a : Bool) → not a ≡ true → a ≡ false
not-true true e = absurd (false≢true e)
not-true false e = refl

-- No name is there twice.
abbrev pub IsDistinct : List String → Type 0
IsDistinct [] = Unit
IsDistinct (x ∷ xs) = (is_seen x xs ≡ false) × IsDistinct xs

abbrev pub lower_names : List File → List String
lower_names [] = []
lower_names (f ∷ files) = to_lower f.name ∷ lower_names files

pub record IsInstallable (f : File) : Type 0 where
  pub placed_below :
      (root : FilePath) → windows_join root f.name ≡ some (placed (components f.name) root)
  pub sized : size_within (8 * 2 ^ 30) f.size ≡ true
  pub digest : valid_digest f.sha256 ≡ true

-- What `scan_files` makes sure of, with the names that it has seen before.
record Scanned (seen : List String) (files : List File) : Type 0 where
  installable : All IsInstallable files
  distinct : IsDistinct (lower_names files)
  fresh : All (λ name. is_seen name seen ≡ false) (lower_names files)

pub record IsAccepted (k : Keys) (c : Candidate) (m : Manifest) : Type 0 where
  pub signed : k.is_signed c.content c.signature ≡ true
  pub release : k.is_release m.version ≡ true
  pub installable : All IsInstallable m.files
  pub distinct : IsDistinct (lower_names m.files)

abbrev is_reply : Reply Manifest → Bool
is_reply (reply m) = true
is_reply (refusal error) = false

abbrev manifest_of : Manifest → Reply Manifest → Manifest
manifest_of m (reply n) = n
manifest_of m (refusal error) = m
