-- ===== src/Server/Scheduler/Naming.antt =====
-- server/scheduler/outputNaming.go and scheduler.go: the name of an output, made of the name of the
-- source by the regular expressions `videoCodecNameEx` and `ac3ex`, which are written as the walks
-- over the name that they stand for. Letters without case are ASCII.
use Prim.Native.Char.{Char, code}
use Prim.Native.String.{◌++◌, char_at, count}
use transcoderd.Prelude.{
  ℕ, zero, suc, ◌-◌, ◌≡◌, refl, Bool, true, false, not, ◌&&◌, ◌||◌, Option, none, some, List, [],
  ◌∷◌, String, str_eq, ◌==◌, leb, if◌then◌else◌,
}
use transcoderd.Server.Files.Names.{split_ext}

is_upper : Char → Bool
is_upper c = leb b'A' (code c) && leb (code c) b'Z'

unfoldable pub lower_char : Char → Char
unfolding is_upper
lower_char c = if is_upper c then char_at "abcdefghijklmnopqrstuvwxyz" (code c - b'A') else c

-- `strings.ToLower`.
unfoldable pub to_lower : String → String
unfolding lower_char
to_lower String.[] = ""
to_lower (String.◌∷◌ c s) = String.◌∷◌ (lower_char c) (to_lower s)

unfoldable pub output_codec_label : String → String
unfolding to_lower
output_codec_label codec =
    let name = to_lower codec in
    if str_eq name "av1"
    then "av1"
    else if str_eq name "hevc" || str_eq name "h265"
    then "x265"
    else if str_eq name "h264" || str_eq name "avc"
    then "x264"
    else name

-- The text after a word, where it begins with that.
unfoldable pub after : String → String → Option String
unfolding lower_char
after String.[] s = some s
after (String.◌∷◌ p ps) String.[] = none
after (String.◌∷◌ p ps) (String.◌∷◌ c s) =
    let rest = after ps s in if code (lower_char p) == code (lower_char c) then rest else none

abbrev pub audio_names : List String
audio_names =
    "ac3" ∷ "eac3" ∷ "pcm" ∷ "flac" ∷ "mp2" ∷ "dts" ∷ "mp3" ∷ "truehd" ∷ "wma" ∷ "vorbis" ∷ "opus"
    ∷ "mpeg audio" ∷ []

abbrev pub video_names : List String
video_names =
    "x264" ∷ "h264" ∷ "x265" ∷ "h265" ∷ "hevc" ∷ "av1" ∷ "vp8" ∷ "vp9" ∷ "mpeg-4" ∷ "mpeg-1"
    ∷ "mpeg-2" ∷ "mpeg" ∷ "xvid" ∷ "divx" ∷ "vc-1" ∷ "wmv3" ∷ "mp43" ∷ []

abbrev pub is_alphanumeric : Char → Bool
is_alphanumeric c =
    let k = code (lower_char c) in (leb b'a' k && leb k b'z') || (leb b'0' k && leb k b'9')

abbrev pub anything : String → Bool
anything s = true

-- `[^a-z0-9]|$`.
abbrev pub ends_word : String → Bool
ends_word String.[] = true
ends_word (String.◌∷◌ c s) = not (is_alphanumeric c)

abbrev pub fits : (String → Bool) → Option String → Bool
fits follows none = false
fits follows (some rest) = follows rest

-- How long the first of the words is that the text begins with, what follows it allowing.
unfoldable pub matched : (String → Bool) → List String → String → Option ℕ
unfolding after
matched follows [] s = none
matched follows (word ∷ words) s =
    let rest = matched follows words s in
    if fits follows (after word s) then some (count word) else rest

-- `ac3ex.ReplaceAllString(base, "AAC")`, with characters of a match still to be dropped.
unfoldable pub replace_audio : ℕ → String → String
unfolding matched
replace_audio dropped String.[] = ""
replace_audio (suc dropped) (String.◌∷◌ c s) = replace_audio dropped s
replace_audio zero (String.◌∷◌ c s) = elim (matched anything audio_names (String.◌∷◌ c s)) [
  | none ↦ String.◌∷◌ c (replace_audio 0 s)
  | some n ↦ "AAC" ++ replace_audio (n - 1) s
]

-- Where the walk of `videoCodecNameEx` is: at the start of the text, before a match, or in a match of
-- which characters are still to be dropped, then one to be kept.
pub data Phase : Type 0 where
  at_start : Phase
  searching : Phase
  dropping : ℕ → Phase

-- A match that takes no character before the word, or one.
abbrev pub match_here : Phase → String → Option ℕ
match_here at_start s = matched ends_word video_names s
match_here p s = none

abbrev pub match_after : Char → String → Option ℕ
match_after c s = if is_alphanumeric c then none else matched ends_word video_names s

unfoldable pub replace_video : String → Phase → String → String
unfolding matched lower_char
replace_video label p String.[] = ""
replace_video label (dropping zero) (String.◌∷◌ c s) =
    String.◌∷◌ c (replace_video label searching s)
replace_video label (dropping (suc n)) (String.◌∷◌ c s) = replace_video label (dropping n) s
replace_video label p (String.◌∷◌ c s) = elim (match_here p (String.◌∷◌ c s)) [
  | some n ↦ label ++ replace_video label (dropping (n - 1)) s
  | none ↦ elim (match_after c s) [
    | some n ↦ String.◌∷◌ c (label ++ replace_video label (dropping n) s)
    | none ↦ String.◌∷◌ c (replace_video label searching s)
  ]
]

abbrev pub is_some : Option ℕ → Bool
is_some none = false
is_some (some n) = true

-- `videoCodecNameEx.MatchString`.
unfoldable pub names_video : Phase → String → Bool
unfolding matched lower_char
names_video p String.[] = false
names_video p (String.◌∷◌ c s) =
    is_some (match_here p (String.◌∷◌ c s)) || is_some (match_after c s) || names_video searching s

-- `filepath.Split`: a path to its last slash, and from there.
abbrev pub split_at : Char → String → String × String → String × String
split_at c s (directory, file) =
    if not (str_eq directory "")
    then (String.◌∷◌ c directory, file)
    else if code c == b'/'
    then (String.◌∷◌ c "", s)
    else ("", String.◌∷◌ c s)

unfoldable pub split_path : String → String × String
split_path String.[] = ("", "")
split_path (String.◌∷◌ c s) = split_at c s (split_path s)

-- `filepath.Join` with the directory cleans a path, which is left to the join with the root.
unfoldable pub output_name_for_codec : String → String → String
unfolding split_path output_codec_label replace_audio names_video replace_video split_ext
output_name_for_codec source_path codec =
    let label = output_codec_label codec in
    let (directory, file) = split_path source_path in
    let named = replace_audio 0 (split_ext file).0 in
    let relabelled =
      if names_video at_start named
      then replace_video label at_start named
      else named ++ ("." ++ label) in
    directory ++ (relabelled ++ ".mkv")

relabelled_name :
    output_name_for_codec "films/A.Film.H264.x265-eac3.avi" "hevc"
    ≡ "films/A.Film.x265.x265-AAC.mkv"
unfolding output_name_for_codec
relabelled_name = refl

plain_name : output_name_for_codec "a film.mp4" "AV1" ≡ "a film.av1.mkv"
unfolding output_name_for_codec
plain_name = refl
