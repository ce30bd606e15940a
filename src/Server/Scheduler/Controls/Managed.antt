-- ===== src/Server/Scheduler/Controls/Managed.antt =====
-- Which settings server/scheduler/scheduler.go writes for a worker with a managed profile.
use transcoderd.Prelude.{
  ℕ, ◌≤◌, ◌≡◌, refl, true, false, ◌&&◌, Option, none, some, String, str_eq, if◌then◌else◌, inl, inr,
  Bool-cases, arith,
}
use transcoderd.Prelude.Int.{pos}
use transcoderd.Model.Settings.{WorkerSettings, independent, total, validate_write}
use transcoderd.Model.Settings.Totals.{Form, one_limit, two_limits, validate_write-Form}
use transcoderd.Server.Repository.Limits.{LimitTable, LimitError}
use transcoderd.Server.Repository.Limits as Limits
use transcoderd.Server.Repository.Limits.Saved.{IsLimit, Saved, set_worker_settings-Saved}
use transcoderd.Server.Scheduler.Controls.{
  WorkerRuntime, WorkerTables, SettingsRefusal, over_profile, other_class, is_incompatible,
  report_of, refuses_settings, written, set_worker_settings,
}

-- Only encodes of the profile's class.
abbrev pub ClassFits : String → WorkerSettings → Type 0
ClassFits encoder s =
    (c g : ℕ)
    → s.cpu_jobs ≡ some (pos c)
    → s.gpu_jobs ≡ some (pos g)
    → (if str_eq encoder "av1_nvenc" then c else g) ≡ 0

pub record Accepts (name : String) (s : WorkerSettings) (w u : WorkerTables) : Type 0 where
  pub limit : ℕ
  pub is_limit : IsLimit s limit
  pub valid : validate_write s ≡ true
  pub saved : Saved name s limit w.limits u.limits
  pub managed :
      (rt : WorkerRuntime)
      → report_of (w.workers name) ≡ some rt
      → rt.managed_profile ≡ true
      → (limit ≤ 64) × ClassFits rt.encoder s
  pub rest : u ≡ record w { limits = u.limits }

abbrev pub Written :
    String → WorkerSettings → WorkerTables → WorkerTables × Option SettingsRefusal → Type 0
Written name s w (u, none) = Accepts name s w u
Written name s w (u, some refusal) = u ≡ w

profile-le :
    (s : WorkerSettings) (limit : ℕ)
    → Form s
    → IsLimit s limit
    → over_profile s ≡ false
    → limit ≤ 64
unfolding independent total
profile-le s limit (one_limit n e f i j) (inl m) o = ground (arith, e, f, i, j, m, o)
profile-le s limit (one_limit n e f i j) (inr m) o = ground (arith, e, f, i, j, m, o)
profile-le s limit (two_limits c g e f i j k sum) (inl m) o = ground (arith, e, f, i, j, m, o)
profile-le s limit (two_limits c g e f i j k sum) (inr m) o = ground (arith, e, f, i, j, m, o, sum)

other_class-ClassFits :
    (encoder : String) (s : WorkerSettings)
    → independent s && other_class encoder s.cpu_jobs s.gpu_jobs ≡ false
    → ClassFits encoder s
unfolding independent
other_class-ClassFits encoder s o c g i j = elim (Bool-cases (str_eq encoder "av1_nvenc")) [
  | inl gpu ↦ rw gpu (ground (arith, o, i, j, gpu))
  | inr cpu ↦ rw cpu (ground (arith, o, i, j, cpu))
]

compatible :
    (o : Option WorkerRuntime) (s : WorkerSettings) (limit : ℕ)
    → validate_write s ≡ true
    → refuses_settings o s ≡ false
    → IsLimit s limit
    → (rt : WorkerRuntime) → o ≡ some rt
    → rt.managed_profile ≡ true
    → (limit ≤ 64) × ClassFits rt.encoder s
compatible o s limit v r l rt e m =
    let passed : is_incompatible rt s ≡ false = rw e at r in
    (
      profile-le s limit (validate_write-Form s v) l (ground (arith, passed, m)),
      other_class-ClassFits rt.encoder s (ground (arith, passed, m)),
    )

written-Written :
    (name : String) (s : WorkerSettings) (limit : ℕ) (w : WorkerTables)
    (r : LimitTable × Option LimitError)
    → validate_write s ≡ true
    → refuses_settings (report_of (w.workers name)) s ≡ false
    → IsLimit s limit
    → r.1 ≡ none
    → Saved name s limit w.limits r.0
    → Written name s w (written w r)
written-Written name s limit w (t, some x) v f l e saved = absurd (ground (arith, e))
written-Written name s limit w (t, none) v f l e saved = record {
  limit = limit;
  is_limit = l;
  valid = v;
  saved = saved;
  managed = compatible (report_of (w.workers name)) s limit v f l;
  rest = refl;
}

unnamed_refused :
    (name : String) (s : WorkerSettings) (t : LimitTable)
    → str_eq name "" ≡ true
    → Limits.set_worker_settings name s t ≡ (t, some Limits.name_required)
unfolding Limits.set_worker_settings
unnamed_refused name s t e = rw e refl

-- `SetWorkerSettings` either refuses, and then changes nothing, or writes settings that may be
-- written, which are then read back and leave those of other workers; for a worker that reports a
-- managed profile they allow 64 jobs at most, and none of the class that the profile has no
-- encoder of.
pub set_worker_settings-Written :
    (name : String) (s : WorkerSettings) (w : WorkerTables)
    → Written name s w (set_worker_settings name s w)
unfolding set_worker_settings
set_worker_settings-Written name s w = elim (Bool-cases (validate_write s)) [
  | inr bad ↦ rw bad refl
  | inl valid ↦ elim (Bool-cases (refuses_settings (report_of (w.workers name)) s)) [
    | inl refused ↦ rw (valid, refused) refl
    | inr fits ↦ elim (Bool-cases (str_eq name "")) [
      | inl unnamed ↦ rw (valid, fits, unnamed_refused name s w.limits unnamed) refl
      | inr named ↦
          let (limit, l, answer) = set_worker_settings-Saved name s w.limits named valid in
          rw (valid, fits)
            (written-Written name s limit w (Limits.set_worker_settings name s w.limits) valid fits
              l answer.0 answer.1)
    ]
  ]
]
