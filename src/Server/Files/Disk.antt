-- ===== src/Server/Files/Disk.antt =====
-- os: files by their paths. A hard link is one more path of the same file; `SameFile` compares the
-- inode. The bytes of a file are carried as a number that stands for them. Directories, which are
-- made where they are missing, have no entry.
use mathlib.Core.Option.{none-ne-some}
use transcoderd.Prelude.{
  ℕ, ◌≡◌, ◌≢◌, refl, ap, sym, ◌∙◌, Bool, false, Option, none, some, List, [], ◌∷◌, if◌then◌else◌,
  Bool-cases, Option-cases, inl, inr,
}
use transcoderd.Server.Files.Paths.{FilePath, path_eq, path_eq_sound, path_eq_refl}

pub record File : Type 0 where
  pub inode : ℕ
  pub content : ℕ

abbrev pub Disk : Type 0
Disk = List (FilePath × File)

unfoldable pub lookup : FilePath → Disk → Option File
lookup p [] = none
lookup p (entry ∷ d) = let rest = lookup p d in if path_eq entry.0 p then some entry.1 else rest

unfoldable pub remove : FilePath → Disk → Disk
remove p [] = []
remove p (entry ∷ d) = let rest = remove p d in if path_eq entry.0 p then rest else entry ∷ rest

pub data Stat : Type 0 where
  found : File → Stat
  missing : Stat
  unreadable : Stat

abbrev pub stat_of : Option File → Stat
stat_of none = missing
stat_of (some file) = found file

-- `os.Stat`, which fails for a reason of its own on some paths.
unfoldable pub stat : (FilePath → Bool) → FilePath → Disk → Stat
unfolding lookup
stat denied p d = if denied p then unreadable else stat_of (lookup p d)

pub data Linked : Type 0 where
  linked : Disk → Linked
  exists : Linked
  refused : Linked

abbrev pub link_file : Bool → FilePath → Disk → Option File → Option File → Linked
link_file denied new d none other = refused
link_file denied new d (some file) (some other) = exists
link_file denied new d (some file) none = if denied then refused else linked ((new, file) ∷ d)

-- `os.Link`.
unfoldable pub link : (FilePath → Bool) → FilePath → FilePath → Disk → Linked
unfolding lookup
link denied old new d = link_file (denied new) new d (lookup old d) (lookup new d)

pub lookup-entry : (p : FilePath) (f : File) (d : Disk) → lookup p ((p, f) ∷ d) ≡ some f
unfolding lookup
lookup-entry p f d = rw (path_eq_refl p) refl

path_eq-false : (p q : FilePath) → p ≢ q → path_eq p q ≡ false
path_eq-false p q h = elim (Bool-cases (path_eq p q)) [
  | inl e ↦ absurd (h (path_eq_sound p q e))
  | inr e ↦ e
]

pub lookup-other :
    (p q : FilePath) (f : File) (d : Disk) → p ≢ q → lookup q ((p, f) ∷ d) ≡ lookup q d
unfolding lookup
lookup-other p q f d h = rw (path_eq-false p q h) refl

pub lookup-remove : (p q : FilePath) (d : Disk) → p ≢ q → lookup q (remove p d) ≡ lookup q d
unfolding lookup remove
lookup-remove p q [] h = refl
lookup-remove p q (entry ∷ d) h = elim (Bool-cases (path_eq entry.0 p)) [
  | inl e ↦
      rw (e, path_eq-false entry.0 q (λ k. h (sym (path_eq_sound entry.0 p e) ∙ k)))
        (lookup-remove p q d h)
  | inr e ↦ rw (e, lookup-remove p q d h) refl
]

-- What a call of `stat` tells of the files.
pub data StatCase (denied : FilePath → Bool) (p : FilePath) (d : Disk) : Type 0 where
  is_found : (f : File) → stat denied p d ≡ found f → lookup p d ≡ some f → StatCase denied p d
  is_missing : stat denied p d ≡ missing → lookup p d ≡ none → StatCase denied p d
  is_unreadable : stat denied p d ≡ unreadable → StatCase denied p d

pub stat_cases : (denied : FilePath → Bool) (p : FilePath) (d : Disk) → StatCase denied p d
unfolding stat
stat_cases denied p d = elim (Bool-cases (denied p)) [
  | inl e ↦ is_unreadable (rw e refl)
  | inr e ↦ elim (Option-cases (lookup p d)) [
    | inl k ↦ is_missing (rw (e, k) refl) k
    | inr (f, k) ↦ is_found f (rw (e, k) refl) k
  ]
]

-- Every file stays what it is.
abbrev pub Extends : Disk → Disk → Type 0
Extends d d' = (q : FilePath) (f : File) → lookup q d ≡ some f → lookup q d' ≡ some f

pub lookup-fresh :
    (p q : FilePath) (f g : File) (d : Disk)
    → lookup p d ≡ none
    → lookup q d ≡ some g
    → lookup q ((p, f) ∷ d) ≡ some g
unfolding lookup
lookup-fresh p q f g d free h = elim (Bool-cases (path_eq p q)) [
  | inl e ↦ absurd (none-ne-some g (sym free ∙ ap (λ r. lookup r d) (path_eq_sound p q e) ∙ h))
  | inr e ↦ rw e h
]
