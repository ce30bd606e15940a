-- ===== src/Server/Library/Paths.antt =====
-- server/library/library.go: which paths of media files are accepted. `fs.ValidPath` is an argument,
-- and so is what `Lstat` says of a path: none where it fails, and else whether it is a symbolic link.
use Prim.Native.Char.{Char, code}
use Prim.Native.String.{◌++◌}
use transcoderd.Prelude.{
  Bool, true, false, not, ◌&&◌, ◌||◌, Option, none, some, List, [], ◌∷◌, String, str_eq, ◌==◌,
  if◌then◌else◌, any,
}
use transcoderd.Server.Scheduler.Naming.{to_lower}
use transcoderd.Server.Scheduler.Search.{path_ext}

pub data MediaError : Type 0 where
  invalid_path : MediaError
  source_changed : MediaError
  os_fails : MediaError
  below_minimum : MediaError
  not_reviewed : MediaError
  stopped : MediaError

-- `strings.Split` at the slashes.
abbrev pub put_first : Char → List String → List String
put_first c [] = String.◌∷◌ c "" ∷ []
put_first c (part ∷ parts) = String.◌∷◌ c part ∷ parts

unfoldable pub split_slash : String → List String
split_slash String.[] = "" ∷ []
split_slash (String.◌∷◌ c s) =
    let parts = split_slash s in if code c == b'/' then "" ∷ parts else put_first c parts

-- `strings.ContainsAny` of a backslash and NUL.
unfoldable pub contains_special : String → Bool
contains_special String.[] = false
contains_special (String.◌∷◌ c s) = code c == b'\\' || code c == 0 || contains_special s

abbrev pub is_hidden : String → Bool
is_hidden String.[] = false
is_hidden (String.◌∷◌ c s) = code c == b'.'

unfoldable pub valid_path : (String → Bool) → String → Bool → Bool
unfolding split_slash contains_special
valid_path fs_valid p directory =
    if directory && (str_eq p "" || str_eq p ".")
    then true
    else fs_valid p && not (contains_special p) && not (any is_hidden (split_slash p))

abbrev pub video_extensions : List String
video_extensions =
    ".mkv" ∷ ".mp4" ∷ ".m4v" ∷ ".avi" ∷ ".mov" ∷ ".webm" ∷ ".mpg" ∷ ".mpeg" ∷ ".ts" ∷ ".m2ts"
    ∷ ".vob" ∷ ".ogv" ∷ ".wmv" ∷ []

unfoldable pub is_video_path : String → Bool
unfolding to_lower path_ext
is_video_path p = any (str_eq (to_lower (path_ext p))) video_extensions

-- `path.Join`, of names that need no cleaning.
abbrev pub join : String → String → String
join current part = if str_eq current "" then part else current ++ ("/" ++ part)

abbrev pub on_lstat : Option Bool → Option MediaError → Option MediaError
on_lstat none rest = some os_fails
on_lstat (some true) rest = some invalid_path
on_lstat (some false) rest = rest

unfoldable pub check_parts : (String → Option Bool) → String → List String → Option MediaError
check_parts lstat current [] = none
check_parts lstat current (part ∷ parts) =
    let rest = check_parts lstat (join current part) parts in
    on_lstat (lstat (join current part)) rest

-- The error, none for a path that passes.
unfoldable pub check_path :
    (String → Bool) → (String → Option Bool) → String → Bool → Option MediaError
unfolding valid_path check_parts split_slash
check_path fs_valid lstat p directory =
    if not (valid_path fs_valid p directory)
    then some invalid_path
    else if str_eq p "" || str_eq p "."
    then none
    else check_parts lstat "" (split_slash p)
