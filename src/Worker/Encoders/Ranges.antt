-- ===== src/Worker/Encoders/Ranges.antt =====
-- What the settings that worker/config/video.go resolves are, and of which class the profiles of
-- worker/config/encoderProfiles.go are.
use transcoderd.Prelude.{
  ℕ, ◌≤◌, ◌≡◌, inl, inr, refl, Bool, true, false, not, ◌&&◌, ◌||◌, Option, none, some, String,
  str_eq, eq_iff, ◌∙◌, arith, Bool-cases,
}
use transcoderd.Prelude.Int.{ℤ, pos, negsuc}
use transcoderd.Worker.EncodePool.{EncoderKind, cpu, gpu, kind_eq}
use transcoderd.Worker.Encoders.{
  FfmpegConfig, VideoSettings, av1_nvenc, av1_svt, hevc_x265, or_default, is_zero, ranged,
  is_one_of, nvenc_presets, x265_presets, is_svt_preset, nvenc_settings, crf_settings,
  resolve_nvenc, resolve_svt, resolve_x265, resolve_video_settings, encoder_kind, base_profile,
  with_audio, checked_profile, byte_threads, class_profile, both, encoder_profiles,
}

abbrev pub IsFrom1To : ℕ → ℕ → Type 0
IsFrom1To bound n = (1 ≤ n) × (n ≤ bound)

-- The settings of one of the three encoders, with the numbers in its range.
pub data Resolved (v : VideoSettings) : Type 0 where
  nvenc : v.codec ≡ av1_nvenc → v.crf ≡ 0 → IsFrom1To 63 v.cq → IsFrom1To 255 v.qmax → Resolved v
  svt : v.codec ≡ av1_svt → IsFrom1To 63 v.crf → v.cq ≡ 0 → v.qmax ≡ 0 → Resolved v
  x265 :
      v.codec ≡ hevc_x265
      → IsFrom1To 51 v.crf
      → v.cq ≡ 0
      → v.qmax ≡ 0
      → v.profile ≡ "main10"
      → Resolved v

ranged-bound : (z : ℤ) (default bound n : ℕ) → ranged z default bound ≡ some n → IsFrom1To bound n
unfolding ranged
ranged-bound (pos m) default bound n h = ground (arith, h)
ranged-bound (negsuc m) default bound n h = absurd (ground (arith, h))

nvenc-Resolved :
    (preset : String) (x y : Option ℕ) (v : VideoSettings)
    → ((n : ℕ) → x ≡ some n → IsFrom1To 63 n)
    → ((n : ℕ) → y ≡ some n → IsFrom1To 255 n)
    → nvenc_settings preset x y ≡ some v
    → Resolved v
nvenc-Resolved preset (some cq) (some qmax) v f g h =
    nvenc (ground (arith, h)) (ground (arith, h)) (ground (arith, h, f cq refl))
      (ground (arith, h, g qmax refl))
nvenc-Resolved preset none y v f g h = absurd (ground (arith, h))
nvenc-Resolved preset (some cq) none v f g h = absurd (ground (arith, h))

crf_settings-codec :
    (codec preset profile : String) (x : Option ℕ) (v : VideoSettings) (bound : ℕ)
    → ((n : ℕ) → x ≡ some n → IsFrom1To bound n)
    → crf_settings codec preset profile x ≡ some v
    → (v.codec ≡ codec) × IsFrom1To bound v.crf × (v.cq ≡ 0) × (v.qmax ≡ 0) × (v.profile ≡ profile)
crf_settings-codec codec preset profile (some crf) v bound f h = (
  ground (arith, h),
  ground (arith, h, f crf refl),
  ground (arith, h),
  ground (arith, h),
  ground (arith, h),
)
crf_settings-codec codec preset profile none v bound f h = absurd (ground (arith, h))

resolve_nvenc-Resolved :
    (c : FfmpegConfig) (v : VideoSettings) → resolve_nvenc c ≡ some v → Resolved v
unfolding resolve_nvenc
resolve_nvenc-Resolved c v h =
    elim (Bool-cases (
      not (is_zero c.video_crf)
      || not (str_eq c.video_profile "")
      || not (is_one_of nvenc_presets (or_default c.video_preset "p7")))) [
        | inl bad ↦ absurd (ground (arith, rw bad at h))
        | inr good ↦
            nvenc-Resolved (or_default c.video_preset "p7") (ranged c.video_cq 38 63)
              (ranged c.video_qmax 100 255) v (ranged-bound c.video_cq 38 63)
              (ranged-bound c.video_qmax 100 255) (rw good at h)
      ]

resolve_svt-Resolved :
    (atoi : String → Option ℤ) (c : FfmpegConfig) (v : VideoSettings)
    → resolve_svt atoi c ≡ some v
    → Resolved v
unfolding resolve_svt
resolve_svt-Resolved atoi c v h =
    elim (Bool-cases (
      not (is_zero c.video_cq)
      || not (is_zero c.video_qmax)
      || not (str_eq c.video_profile "")
      || not (is_svt_preset (atoi (or_default c.video_preset "4"))))) [
        | inl bad ↦ absurd (ground (arith, rw bad at h))
        | inr good ↦
            let (a, b, d, e, f) =
              crf_settings-codec av1_svt (or_default c.video_preset "4") ""
                (ranged c.video_crf 26 63) v 63 (ranged-bound c.video_crf 26 63) (rw good at h) in
            svt a b d e
      ]

last_false : (a b c d : Bool) → (a || b || c || not d) ≡ false → d ≡ true
last_false a b c d h = ground (arith, h)

resolve_x265-Resolved :
    (c : FfmpegConfig) (v : VideoSettings) → resolve_x265 c ≡ some v → Resolved v
unfolding resolve_x265
resolve_x265-Resolved c v h =
    elim (Bool-cases (
      not (is_zero c.video_cq)
      || not (is_zero c.video_qmax)
      || not (is_one_of x265_presets (or_default c.video_preset "medium"))
      || not (str_eq (or_default c.video_profile "main10") "main10"))) [
        | inl bad ↦ absurd (ground (arith, rw bad at h))
        | inr good ↦
            let (a, b, d, e, f) =
              crf_settings-codec hevc_x265 (or_default c.video_preset "medium")
                (or_default c.video_profile "main10") (ranged c.video_crf 21 51) v 51
                (ranged-bound c.video_crf 21 51) (rw good at h) in
            x265 a b d e (
              f
              ∙ (eq_iff (or_default c.video_profile "main10") "main10").0 (
                  last_false (not (is_zero c.video_cq)) (not (is_zero c.video_qmax))
                    (not (is_one_of x265_presets (or_default c.video_preset "medium")))
                    (str_eq (or_default c.video_profile "main10") "main10") good))
      ]

-- Settings that are resolved are those of one of the three encoders, with its numbers in their
-- ranges and the numbers that it does not take 0.
pub resolve_video_settings-Resolved :
    (atoi : String → Option ℤ) (c : FfmpegConfig) (v : VideoSettings)
    → resolve_video_settings atoi c ≡ some v
    → Resolved v
unfolding resolve_video_settings
resolve_video_settings-Resolved atoi c v h =
    elim (Bool-cases (str_eq (or_default c.video_codec av1_nvenc) av1_nvenc)) [
      | inl first ↦ resolve_nvenc-Resolved c v (rw first at h)
      | inr other ↦ elim (Bool-cases (str_eq (or_default c.video_codec av1_nvenc) av1_svt)) [
        | inl second ↦ resolve_svt-Resolved atoi c v (rw (other, second) at h)
        | inr neither ↦ elim (Bool-cases (str_eq (or_default c.video_codec av1_nvenc) hevc_x265)) [
          | inl third ↦ resolve_x265-Resolved c v (rw (other, neither, third) at h)
          | inr unknown ↦ absurd (ground (arith, rw (other, neither, unknown) at h))
        ]
      ]
    ]

-- A profile of a class: settings of that class are resolved from it.
abbrev pub IsOfClass : (String → Option ℤ) → EncoderKind → FfmpegConfig → Type 0
IsOfClass atoi kind p =
    (v : VideoSettings) × (resolve_video_settings atoi p ≡ some v)
    × (kind_eq (encoder_kind v.codec) kind ≡ true)

checked_profile-IsOfClass :
    (atoi : String → Option ℤ) (kind : EncoderKind) (p q : FfmpegConfig) (r : Option VideoSettings)
    → resolve_video_settings atoi p ≡ r
    → checked_profile kind p r ≡ some q
    → IsOfClass atoi kind q
checked_profile-IsOfClass atoi kind p q none e h = absurd (ground (arith, h))
checked_profile-IsOfClass atoi kind p q (some v) e h =
    elim (Bool-cases (kind_eq (encoder_kind v.codec) kind && byte_threads p.threads)) [
      | inl good ↦
          let same : p ≡ q = ground (arith, rw good at h) in
          (v, rw (← same) e, ground (arith, good))
      | inr bad ↦ absurd (ground (arith, rw bad at h))
    ]

class_profile-IsOfClass :
    (atoi : String → Option ℤ) (kind : EncoderKind) (primary : FfmpegConfig)
    (own : Option FfmpegConfig) (q : FfmpegConfig)
    → class_profile atoi kind primary own ≡ some q
    → IsOfClass atoi kind q
unfolding class_profile
class_profile-IsOfClass atoi kind primary own q h =
    let p = with_audio primary (base_profile kind primary own) in
    checked_profile-IsOfClass atoi kind p q (resolve_video_settings atoi p) refl h

both-some :
    (x y : Option FfmpegConfig) (a b : FfmpegConfig)
    → both x y ≡ some (a, b)
    → (x ≡ some a) × (y ≡ some b)
both-some (some c) (some d) a b h = (ground (arith, h), ground (arith, h))
both-some none y a b h = absurd (ground (arith, h))
both-some (some c) none a b h = absurd (ground (arith, h))

-- The settings of an encoder of its class are resolved from each profile that is accepted.
pub encoder_profiles-IsOfClass :
    (atoi : String → Option ℤ) (primary : FfmpegConfig) (own_cpu own_gpu : Option FfmpegConfig)
    (for_cpu for_gpu : FfmpegConfig)
    → encoder_profiles atoi primary own_cpu own_gpu ≡ some (for_cpu, for_gpu)
    → IsOfClass atoi cpu for_cpu × IsOfClass atoi gpu for_gpu
unfolding encoder_profiles
encoder_profiles-IsOfClass atoi primary own_cpu own_gpu for_cpu for_gpu h =
    let (c, g) =
      both-some (class_profile atoi cpu primary own_cpu) (class_profile atoi gpu primary own_gpu)
        for_cpu for_gpu h in
    (
      class_profile-IsOfClass atoi cpu primary own_cpu for_cpu c,
      class_profile-IsOfClass atoi gpu primary own_gpu for_gpu g,
    )

-- A class without a recipe of its own takes from a primary recipe of the other class its audio and
-- its threads at most: two such recipes that agree in these give it the same profile, or are both
-- refused, whatever their quality settings and extra arguments are.
pub class_profile-uninherited :
    (atoi : String → Option ℤ) (kind : EncoderKind) (primary other : FfmpegConfig)
    → kind_eq (encoder_kind primary.video_codec) kind ≡ false
    → kind_eq (encoder_kind other.video_codec) kind ≡ false
    → primary.audio_codec ≡ other.audio_codec
    → primary.audio_vbr ≡ other.audio_vbr
    → primary.threads ≡ other.threads
    → class_profile atoi kind primary none ≡ class_profile atoi kind other none
unfolding class_profile
class_profile-uninherited atoi kind primary other h h' audio vbr threads =
    rw (h, h', audio, vbr, threads) refl
