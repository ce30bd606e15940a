-- ===== src/Update/Manifest.antt =====
-- update/managed/manifest.go: which manifests of a release are accepted. Signatures, the decoding of
-- JSON and the parsing of versions come from outside. `ToUpper` and `ToLower` are ASCII.
pub mod Windows
pub mod Accepted
use Prim.Native.Char.{Char, code}
use Prim.Native.String.{◌++◌, len, count}
use transcoderd.Prelude.{
  ℕ, ◌+◌, ◌*◌, ◌^◌, Bool, true, false, not, ◌&&◌, ◌||◌, Option, none, some, List, [], ◌∷◌, String,
  str_eq, ltb, leb, ◌==◌, if◌then◌else◌, length, any,
}
use transcoderd.Prelude.Int.{ℤ, pos, negsuc}
use transcoderd.Server.Files.Paths.{components, is_absolute}
use transcoderd.Server.Scheduler.Naming.{to_lower}

pub record File : Type 0 where
  pub name : String
  pub size : ℤ
  pub sha256 : String

pub record Manifest : Type 0 where
  pub schema : ℕ
  pub version : String
  pub architecture : String
  pub installer : File
  pub files : List File

-- `Data` and `Signature`, which are compared as bytes, and `URL`.
pub record Candidate : Type 0 where
  pub content : String
  pub signature : String
  pub url : String

pub data Reply (A : Type 0) : Type 0 where
  reply : A → Reply A
  refusal : String → Reply A

-- The characters that no name has: those of `ContainsAny`, and control characters.
abbrev pub is_forbidden : Char → Bool
is_forbidden c =
    let k = code c in
    ltb k 32
    || (k == 92)
    || (k == 58)
    || (k == 60)
    || (k == 62)
    || (k == 34)
    || (k == 124)
    || (k == 63)
    || (k == 42)

unfoldable pub has_forbidden : String → Bool
has_forbidden String.[] = false
has_forbidden (String.◌∷◌ c s) = is_forbidden c || has_forbidden s

-- `HasSuffix` of a dot or a space.
abbrev pub ends_badly : String → Bool
ends_badly String.[] = false
ends_badly (String.◌∷◌ c String.[]) = (code c == 46) || (code c == 32)
ends_badly (String.◌∷◌ c (String.◌∷◌ d s)) = ends_badly (String.◌∷◌ d s)

-- `SplitN(part, ".", 2)[0]`.
unfoldable pub before_dot : String → String
before_dot String.[] = ""
before_dot (String.◌∷◌ c s) =
    let rest = before_dot s in if code c == 46 then "" else String.◌∷◌ c rest

-- A port of Windows: three letters and a digit.
abbrev pub is_port : String → Bool
is_port (String.◌∷◌ a (String.◌∷◌ b (String.◌∷◌ c (String.◌∷◌ d String.[])))) =
    let word = String.◌∷◌ a (String.◌∷◌ b (String.◌∷◌ c "")) in
    (str_eq word "com" || str_eq word "lpt") && leb b'0' (code d) && leb (code d) b'9'
is_port s = false

abbrev pub is_device : String → Bool
is_device base =
    str_eq base "con" || str_eq base "nul" || str_eq base "prn" || str_eq base "aux" || is_port base

unfoldable pub is_unsafe_part : String → Bool
unfolding before_dot to_lower
is_unsafe_part part =
    str_eq part ""
    || str_eq part "."
    || str_eq part ".."
    || ends_badly part
    || is_device (to_lower (before_dot part))

unfoldable pub safe_name : String → Bool
unfolding has_forbidden is_unsafe_part components
safe_name name =
    not (str_eq name "")
    && not (has_forbidden name)
    && not (is_absolute name)
    && not (any is_unsafe_part (components name))

abbrev pub is_hex : Char → Bool
is_hex c =
    let k = code c in
    (leb b'0' k && leb k b'9') || (leb b'a' k && leb k b'f') || (leb b'A' k && leb k b'F')

abbrev pub all_hex : String → Bool
all_hex String.[] = true
all_hex (String.◌∷◌ c s) = is_hex c && all_hex s

-- 32 bytes in hexadecimal digits.
unfoldable pub valid_digest : String → Bool
valid_digest value = (count value == 64) && all_hex value

abbrev pub size_within : ℕ → ℤ → Bool
size_within bound (pos n) = leb n bound
size_within bound (negsuc n) = false

abbrev pub is_positive : ℤ → Bool
is_positive (pos n) = ltb 0 n
is_positive (negsuc n) = false

abbrev pub is_seen : String → List String → Bool
is_seen name seen = any (str_eq name) seen

unfoldable pub is_invalid_file : List String → File → Bool
unfolding safe_name valid_digest to_lower
is_invalid_file seen f =
    not (safe_name f.name)
    || is_seen (to_lower f.name) seen
    || not (size_within (8 * 2 ^ 30) f.size)
    || not (valid_digest f.sha256)

-- The loop over the files: the names in lower case that it has seen, none at an invalid file.
unfoldable pub scan_files : List String → List File → Option (List String)
unfolding is_invalid_file
scan_files seen [] = some seen
scan_files seen (f ∷ files) =
    let rest = scan_files (to_lower f.name ∷ seen) files in
    if is_invalid_file seen f then none else rest

abbrev pub required_names : List String
required_names =
    "transcoderd-worker.exe" ∷ "transcoderd-desktop-service.exe" ∷ "transcoderd-updater.exe"
    ∷ "transcoderd-tray.exe" ∷ "wwwroot/index.html" ∷ "bin/ffmpeg.exe" ∷ "bin/ffprobe.exe"
    ∷ "bin/mkvextract.exe" ∷ "pgs/pgstosrt.exe" ∷ "pgs/pgstosrt.dll" ∷ "tessdata/eng.traineddata"
    ∷ []

abbrev pub lacks : List String → List String → Bool
lacks seen names = any (λ name. not (is_seen name seen)) names

abbrev pub has_required : Option (List String) → Bool
has_required none = false
has_required (some seen) = not (lacks seen required_names)

-- `is_release` is whether a version can be parsed and is no prerelease.
unfoldable pub validate : (String → Bool) → Manifest → Bool
unfolding scan_files valid_digest
validate is_release m =
    is_release m.version
    && (m.schema == 1)
    && str_eq m.architecture "amd64"
    && str_eq m.installer.name ("transcoderd-worker-" ++ (m.version ++ "-windows-amd64-setup.exe"))
    && is_positive m.installer.size
    && size_within (4 * 2 ^ 30) m.installer.size
    && valid_digest m.installer.sha256
    && ltb 0 (length m.files)
    && leb (length m.files) 20000
    && has_required (scan_files [] m.files)

pub record Keys : Type 0 where
  pub is_key : Bool
  pub is_signed : String → String → Bool
  pub decode : String → Option Manifest
  pub is_release : String → Bool

abbrev pub decoded : Keys → Option Manifest → Reply Manifest
decoded k none = refusal "read Windows update manifest"
decoded k (some m) = if validate k.is_release m then reply m else refusal "invalid manifest"

unfoldable pub verify : Keys → Candidate → Reply Manifest
unfolding validate
verify k c =
    if ltb (4 * 2 ^ 20) (len c.content) || not k.is_key || not (k.is_signed c.content c.signature)
    then refusal "windows update signature verification failed"
    else decoded k (k.decode c.content)
