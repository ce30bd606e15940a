-- ===== src/Worker/Encoders.antt =====
-- worker/config/video.go and encoderProfiles.go: the settings of an encoder, and the profile of
-- each class of encoders. `atoi` is `strconv.Atoi`, none where it fails.
pub mod Ranges
use transcoderd.Prelude.{
  ℕ, Bool, true, false, not, ◌&&◌, ◌||◌, Option, none, some, List, [], ◌∷◌, String, str_eq, ltb,
  leb, ◌==◌, if◌then◌else◌,
}
use transcoderd.Prelude.Int.{ℤ, pos, negsuc}
use transcoderd.Worker.EncodePool.{EncoderKind, cpu, gpu, kind_eq}

pub record FfmpegConfig : Type 0 where
  pub audio_codec : String
  pub audio_vbr : ℤ
  pub video_codec : String
  pub video_preset : String
  pub video_profile : String
  pub video_crf : ℤ
  pub video_cq : ℤ
  pub video_qmax : ℤ
  pub parallel_jobs : ℤ
  pub threads : ℤ
  pub extra_args : String

pub record VideoSettings : Type 0 where
  pub codec : String
  pub preset : String
  pub profile : String
  pub pixel_format : String
  pub crf : ℕ
  pub cq : ℕ
  pub qmax : ℕ

abbrev pub av1_nvenc : String
av1_nvenc = "av1_nvenc"

abbrev pub av1_svt : String
av1_svt = "libsvtav1"

abbrev pub hevc_x265 : String
hevc_x265 = "libx265"

abbrev pub or_default : String → String → String
or_default s d = if str_eq s "" then d else s

abbrev pub is_zero : ℤ → Bool
is_zero (pos n) = n == 0
is_zero (negsuc n) = false

-- A number that stands for a default where it is 0, and has to lie from 1 to a bound.
unfoldable pub ranged : ℤ → ℕ → ℕ → Option ℕ
ranged (pos n) default bound =
    let value = if n == 0 then default else n in
    if leb 1 value && leb value bound then some value else none
ranged (negsuc n) default bound = none

abbrev pub is_one_of : List String → String → Bool
is_one_of [] s = false
is_one_of (x ∷ xs) s = str_eq s x || is_one_of xs s

abbrev pub nvenc_presets : List String
nvenc_presets = "p1" ∷ "p2" ∷ "p3" ∷ "p4" ∷ "p5" ∷ "p6" ∷ "p7" ∷ []

abbrev pub x265_presets : List String
x265_presets =
    "ultrafast" ∷ "superfast" ∷ "veryfast" ∷ "faster" ∷ "fast" ∷ "medium" ∷ "slow" ∷ "slower"
    ∷ "veryslow" ∷ "placebo" ∷ []

abbrev pub is_svt_preset : Option ℤ → Bool
is_svt_preset (some (pos n)) = leb n 13
is_svt_preset _ = false

abbrev pub nvenc_settings : String → Option ℕ → Option ℕ → Option VideoSettings
nvenc_settings preset (some cq) (some qmax) = some (record {
  codec = av1_nvenc;
  preset = preset;
  profile = "";
  pixel_format = "p010le";
  crf = 0;
  cq = cq;
  qmax = qmax;
})
nvenc_settings preset _ _ = none

abbrev pub crf_settings : String → String → String → Option ℕ → Option VideoSettings
crf_settings codec preset profile (some crf) = some (record {
  codec = codec;
  preset = preset;
  profile = profile;
  pixel_format = "yuv420p10le";
  crf = crf;
  cq = 0;
  qmax = 0;
})
crf_settings codec preset profile none = none

-- The three cases of `ResolveVideoSettings`.
unfoldable pub resolve_nvenc : FfmpegConfig → Option VideoSettings
resolve_nvenc c =
    let preset = or_default c.video_preset "p7" in
    if not (is_zero c.video_crf)
      || not (str_eq c.video_profile "")
      || not (is_one_of nvenc_presets preset)
    then none
    else nvenc_settings preset (ranged c.video_cq 38 63) (ranged c.video_qmax 100 255)

unfoldable pub resolve_svt : (String → Option ℤ) → FfmpegConfig → Option VideoSettings
resolve_svt atoi c =
    let preset = or_default c.video_preset "4" in
    if not (is_zero c.video_cq)
      || not (is_zero c.video_qmax)
      || not (str_eq c.video_profile "")
      || not (is_svt_preset (atoi preset))
    then none
    else crf_settings av1_svt preset "" (ranged c.video_crf 26 63)

unfoldable pub resolve_x265 : FfmpegConfig → Option VideoSettings
resolve_x265 c =
    let preset = or_default c.video_preset "medium" in
    let profile = or_default c.video_profile "main10" in
    if not (is_zero c.video_cq)
      || not (is_zero c.video_qmax)
      || not (is_one_of x265_presets preset)
      || not (str_eq profile "main10")
    then none
    else crf_settings hevc_x265 preset profile (ranged c.video_crf 21 51)

unfoldable pub resolve_video_settings : (String → Option ℤ) → FfmpegConfig → Option VideoSettings
unfolding resolve_nvenc resolve_svt resolve_x265 ranged
resolve_video_settings atoi c =
    let codec = or_default c.video_codec av1_nvenc in
    if str_eq codec av1_nvenc
    then resolve_nvenc c
    else if str_eq codec av1_svt
    then resolve_svt atoi c
    else if str_eq codec hevc_x265
    then resolve_x265 c
    else none

unfoldable pub encoder_kind : String → EncoderKind
encoder_kind codec = if str_eq codec av1_nvenc || str_eq codec "" then gpu else cpu

-- The class's own profile with its default codec, else the primary recipe where it is of the class,
-- else the approved defaults.
abbrev pub common_config : String → FfmpegConfig → FfmpegConfig
common_config codec primary = record {
  audio_codec = primary.audio_codec;
  audio_vbr = primary.audio_vbr;
  video_codec = codec;
  video_preset = "";
  video_profile = "";
  video_crf = pos 0;
  video_cq = pos 0;
  video_qmax = pos 0;
  parallel_jobs = pos 0;
  threads = primary.threads;
  extra_args = "";
}

abbrev pub default_codec : EncoderKind → String
default_codec cpu = av1_svt
default_codec gpu = av1_nvenc

abbrev pub base_profile : EncoderKind → FfmpegConfig → Option FfmpegConfig → FfmpegConfig
base_profile kind primary (some own) = record own {
  video_codec = or_default own.video_codec (default_codec kind);
}
base_profile kind primary none =
    if kind_eq (encoder_kind primary.video_codec) kind
    then primary
    else common_config (default_codec kind) primary

abbrev pub with_audio : FfmpegConfig → FfmpegConfig → FfmpegConfig
with_audio primary p = record p {
  audio_codec = or_default p.audio_codec primary.audio_codec;
  audio_vbr = if is_zero p.audio_vbr then primary.audio_vbr else p.audio_vbr;
}

abbrev pub byte_threads : ℤ → Bool
byte_threads (pos n) = leb n 255
byte_threads (negsuc n) = false

abbrev pub checked_profile : EncoderKind → FfmpegConfig → Option VideoSettings → Option FfmpegConfig
checked_profile kind p none = none
checked_profile kind p (some v) =
    if kind_eq (encoder_kind v.codec) kind && byte_threads p.threads then some p else none

unfoldable pub class_profile :
    (String → Option ℤ) → EncoderKind → FfmpegConfig → Option FfmpegConfig → Option FfmpegConfig
unfolding resolve_video_settings encoder_kind
class_profile atoi kind primary own =
    let p = with_audio primary (base_profile kind primary own) in
    checked_profile kind p (resolve_video_settings atoi p)

abbrev pub both : Option FfmpegConfig → Option FfmpegConfig → Option (FfmpegConfig × FfmpegConfig)
both (some a) (some b) = some (a, b)
both _ _ = none

-- `EncoderProfiles`: the profiles of the classes cpu and gpu, from the primary recipe and the
-- classes' own ones.
unfoldable pub encoder_profiles :
    (String → Option ℤ)
    → FfmpegConfig
    → Option FfmpegConfig
    → Option FfmpegConfig
    → Option (FfmpegConfig × FfmpegConfig)
unfolding class_profile
encoder_profiles atoi primary own_cpu own_gpu =
    both (class_profile atoi cpu primary own_cpu) (class_profile atoi gpu primary own_gpu)
