-- ===== src/Examples/Recipes.antt =====
-- Concrete encoder recipes.
use transcoderd.Prelude.{◌≡◌, refl, false, Option, none, some, String, str_eq, if◌then◌else◌}
use transcoderd.Prelude.Int.{ℤ, pos}
use transcoderd.Worker.EncodePool.{cpu, kind_eq}
use transcoderd.Worker.Encoders.{
  FfmpegConfig, VideoSettings, ranged, resolve_nvenc, resolve_svt, resolve_video_settings,
  encoder_kind, common_config, class_profile,
}
use transcoderd.Worker.Encoders.Ranges.{class_profile-uninherited}

-- Enough of `strconv.Atoi` for the default preset.
abbrev atoi_four : String → Option ℤ
atoi_four s = if str_eq s "4" then some (pos 4) else none

abbrev plain : FfmpegConfig
plain = record {
  audio_codec = "libfdk_aac";
  audio_vbr = pos 5;
  video_codec = "";
  video_preset = "";
  video_profile = "";
  video_crf = pos 0;
  video_cq = pos 0;
  video_qmax = pos 0;
  parallel_jobs = pos 0;
  threads = pos 0;
  extra_args = "";
}

abbrev plain_settings : VideoSettings
plain_settings = record {
  codec = "av1_nvenc";
  preset = "p7";
  profile = "";
  pixel_format = "p010le";
  crf = 0;
  cq = 38;
  qmax = 100;
}

plain_resolves : resolve_video_settings atoi_four plain ≡ some plain_settings
unfolding resolve_video_settings resolve_nvenc ranged
plain_resolves = refl

-- The same recipe with settings for the quality that only its own encoder knows.
abbrev tuned : FfmpegConfig
tuned = record plain { video_codec = "av1_nvenc"; video_cq = pos 30; extra_args = "-x" }

plain_is_gpu : kind_eq (encoder_kind plain.video_codec) cpu ≡ false
unfolding encoder_kind
plain_is_gpu = refl

tuned_is_gpu : kind_eq (encoder_kind tuned.video_codec) cpu ≡ false
unfolding encoder_kind
tuned_is_gpu = refl

plain_for_cpu : class_profile atoi_four cpu plain none ≡ some (common_config "libsvtav1" plain)
unfolding class_profile encoder_kind resolve_video_settings resolve_svt ranged
plain_for_cpu = refl

class_profile-uninherited_example :
    class_profile atoi_four cpu tuned none ≡ class_profile atoi_four cpu plain none
class_profile-uninherited_example =
    class_profile-uninherited atoi_four cpu tuned plain tuned_is_gpu plain_is_gpu refl refl refl
