-- ===== src/Server/Scheduler/Media/Passed.antt =====
-- Which reviewed files server/scheduler/media.go makes requests for.

use text.Mathlib.TextLemmas.{append_cancel_left}
use transcoderd.Prelude.{
  ℕ, ◌≤◌, ◌≡◌, ◌≢◌, refl, sym, ap, ◌∙◌, Bool, true, false, not, ◌||◌, Option, none, some, List, [],
  ◌∷◌, String, str_eq, eq_iff, ltb, ◌==◌, any, Bool-cases, inl, inr, arith,
}
use transcoderd.Server.Files.Names.{split_ext}
use transcoderd.Server.Library.Paths.{
  MediaError, split_slash, contains_special, is_hidden, valid_path, is_video_path, join, on_lstat,
  check_parts, check_path,
}
use transcoderd.Server.Scheduler.Naming.{split_path, to_lower}
use transcoderd.Server.Scheduler.Search.{path_ext, trim_ext, format_target_name}
use transcoderd.Server.Scheduler.Search.Targets.{
  Dotted, head_code, path_ext-Dotted, path_ext-joined,
}
use transcoderd.Server.Scheduler.Media.{
  ReviewedFile, FileInfo, Disk, media_target, refused_info, or_else, media_refusal,
}

-- A video's path has an extension.
is_video_path-ext : (path : String) → is_video_path path ≡ true → str_eq (path_ext path) "" ≡ false
unfolding is_video_path to_lower
is_video_path-ext path h = elim (Bool-cases (str_eq (path_ext path) "")) [
  | inr named ↦ named
  | inl empty ↦
      let e : path_ext path ≡ "" = (eq_iff (path_ext path) "").0 empty in
      absurd (ground (arith, rw e at h))
]

not_encoded : (ext : String) → Dotted ext → str_eq ext "" ≡ false → "_encoded.mkv" ≢ ext
unfolding Dotted head_code
not_encoded String.[] d n e = absurd (ground (arith, n))
not_encoded (String.◌∷◌ c s) d n e = let first = ap head_code e in absurd (omega (arith, first, d))

pub media_target-differs : (path : String) → is_video_path path ≡ true → media_target path ≢ path
unfolding media_target trim_ext
media_target-differs path h = elim (Bool-cases (str_eq (format_target_name path) path)) [
  | inr other ↦
      rw other (λ e. absurd (ground (arith, other, (eq_iff (format_target_name path) path).1 e)))
  | inl same ↦ rw same (λ e.
      not_encoded (path_ext path) (path_ext-Dotted path) (is_video_path-ext path h) (
        append_cancel_left (trim_ext path) "_encoded.mkv" (path_ext path)
          (e ∙ sym (path_ext-joined path))))
]

-- No name on the way is a symbolic link.
abbrev pub NoLinks : (String → Option Bool) → String → List String → Type 0
NoLinks lstat current [] = Unit
NoLinks lstat current (part ∷ parts) =
    (lstat (join current part) ≡ some false) × NoLinks lstat (join current part) parts

on_lstat-NoLinks :
    (lstat : String → Option Bool) (at : String) (rest : Option MediaError) (P : Type 0)
    (o : Option Bool)
    → (rest ≡ none → P)
    → lstat at ≡ o
    → on_lstat o rest ≡ none
    → (lstat at ≡ some false) × P
on_lstat-NoLinks lstat at rest P none p e k = absurd (ground (arith, k))
on_lstat-NoLinks lstat at rest P (some true) p e k = absurd (ground (arith, k))
on_lstat-NoLinks lstat at rest P (some false) p e k = (e, p k)

check_parts-NoLinks :
    (lstat : String → Option Bool) (current : String) (parts : List String)
    → check_parts lstat current parts ≡ none
    → NoLinks lstat current parts
unfolding check_parts
check_parts-NoLinks lstat current [] h = tt
check_parts-NoLinks lstat current (part ∷ parts) h =
    on_lstat-NoLinks lstat (join current part) (check_parts lstat (join current part) parts)
      (NoLinks lstat (join current part) parts) (lstat (join current part))
      (λ k. check_parts-NoLinks lstat (join current part) parts k) refl h

-- The file on disk is the one that was reviewed.
pub record IsReviewed (min_size : ℕ) (file : ReviewedFile) (o : Option FileInfo) : Type 0 where
  pub info : FileInfo
  pub found : o ≡ some info
  pub regular : info.is_regular ≡ true
  pub size : info.size ≡ file.size
  pub modified : info.modified_ns ≡ file.modified_ns
  pub least : min_size ≤ file.size

refused_info-IsReviewed :
    (min_size : ℕ) (file : ReviewedFile) (o : Option FileInfo)
    → refused_info min_size file o ≡ none
    → IsReviewed min_size file o
refused_info-IsReviewed min_size file none = λ h. absurd (ground (arith, h))
refused_info-IsReviewed min_size file (some info) =
    elim (Bool-cases (
      not info.is_regular
      || not (info.size == file.size)
      || not (info.modified_ns == file.modified_ns))) [
        | inl changed ↦ rw changed (λ h. absurd (ground (arith, h)))
        | inr same ↦ elim (Bool-cases (ltb info.size min_size)) [
          | inl small ↦ rw (same, small) (λ h. absurd (ground (arith, h)))
          | inr large ↦ λ h. record {
            info = info;
            found = refl;
            regular = ground (arith, same);
            size = ground (arith, same);
            modified = ground (arith, same);
            least = ground (arith, same, large);
          }
        ]
      ]

-- What holds of a file for which a request is made.
pub record Passes (d : Disk) (min_size : ℕ) (file : ReviewedFile) : Type 0 where
  pub source : file.root ≡ "source"
  pub valid : d.fs_valid file.path ≡ true
  pub plain : contains_special file.path ≡ false
  pub visible : any is_hidden (split_slash file.path) ≡ false
  pub video : is_video_path file.path ≡ true
  pub no_links : NoLinks d.lstat "" (split_slash file.path)
  pub reviewed : IsReviewed min_size file d.stat

top_is_no_video : (p : String) → str_eq p "" || str_eq p "." ≡ true → is_video_path p ≡ false
unfolding is_video_path to_lower path_ext split_path split_ext
top_is_no_video p h = elim (Bool-cases (str_eq p "")) [
  | inl empty ↦ let e : p ≡ "" = (eq_iff p "").0 empty in rw e refl
  | inr other ↦ let e : p ≡ "." = (eq_iff p ".").0 (ground (arith, h, other)) in rw e refl
]

check_path-NoLinks :
    (fs_valid : String → Bool) (lstat : String → Option Bool) (p : String)
    → is_video_path p ≡ true
    → check_path fs_valid lstat p false ≡ none
    → NoLinks lstat "" (split_slash p)
unfolding check_path
check_path-NoLinks fs_valid lstat p v = elim (Bool-cases (valid_path fs_valid p false)) [
  | inr bad ↦ rw bad (λ h. absurd (ground (arith, h)))
  | inl good ↦ elim (Bool-cases (str_eq p "" || str_eq p ".")) [
    | inl top ↦ λ h. absurd (ground (arith, v, top_is_no_video p top))
    | inr below ↦ rw (good, below) (λ h. check_parts-NoLinks lstat "" (split_slash p) h)
  ]
]

or_else-none : (o next : Option MediaError) → or_else o next ≡ none → (o ≡ none) × (next ≡ none)
or_else-none none next h = (refl, h)
or_else-none (some e) next h = absurd (ground (arith, h))

valid_path-parts :
    (fs_valid : String → Bool) (p : String)
    → valid_path fs_valid p false ≡ true
    → (fs_valid p ≡ true) × (contains_special p ≡ false) × (any is_hidden (split_slash p) ≡ false)
unfolding valid_path
valid_path-parts fs_valid p h = (ground (arith, h), ground (arith, h), ground (arith, h))

pub media_refusal-Passes :
    (d : Disk) (min_size : ℕ) (file : ReviewedFile)
    → media_refusal d min_size file ≡ none
    → Passes d min_size file
unfolding media_refusal
media_refusal-Passes d min_size file =
    elim (Bool-cases (
      not (str_eq file.root "source")
      || not (valid_path d.fs_valid file.path false)
      || not (is_video_path file.path))) [
        | inl bad ↦ rw bad (λ h. absurd (ground (arith, h)))
        | inr good ↦ elim (Bool-cases (not d.root_opens)) [
          | inl closed ↦ rw (good, closed) (λ h. absurd (ground (arith, h)))
          | inr opens ↦
              rw (good, opens)
                (λ h.
                  let (path, info) =
                    or_else-none (check_path d.fs_valid d.lstat file.path false)
                      (refused_info min_size file d.stat) h in
                  let (valid, plain, visible) =
                    valid_path-parts d.fs_valid file.path (ground (arith, good)) in
                  let video : is_video_path file.path ≡ true = ground (arith, good) in
                  record {
                    source = (eq_iff file.root "source").0 (ground (arith, good));
                    valid = valid;
                    plain = plain;
                    visible = visible;
                    video = video;
                    no_links = check_path-NoLinks d.fs_valid d.lstat file.path video path;
                    reviewed = refused_info-IsReviewed min_size file d.stat info;
                  })
        ]
      ]
