-- ===== src/Server/Repository/Limits/Saved.antt =====
-- What server/repository/encoderSettings.go reads back of the settings that it has written.
use transcoderd.Prelude.{
  ℕ, ◌+◌, ◌≡◌, refl, true, false, Option, none, some, String, str_eq, eq_iff, ltb, if◌then◌else◌,
  Bool-cases, inl, inr, ◌⊎◌,
}
use transcoderd.Prelude.Int.{ℤ, pos}
use transcoderd.Model.Settings.{WorkerSettings, total, validate_write}
use transcoderd.Model.Settings.Totals.{Form, one_limit, two_limits, validate_write-Form}
use transcoderd.Server.Repository.Limits.{
  LimitRow, LimitTable, of_nat, settings_of, get_worker_settings, get_worker_resume_settings,
  resume_of, written, upsert, set_worker_max_active_jobs, write_limits, set_worker_settings,
}

-- The settings as they are read back: a pair comes with its sum.
abbrev pub stored : WorkerSettings → Option ℤ → WorkerSettings
stored s limit = record s { control = none; max_active_jobs = limit }

-- The limit of all encodes: the one that is given, or the sum of the two.
abbrev pub IsLimit : WorkerSettings → ℕ → Type 0
IsLimit s limit = (s.max_active_jobs ≡ some (pos limit)) ⊎ (total s ≡ some limit)

-- After a write: what is read, what the queue is resumed with, and that other workers keep theirs.
pub record Saved (name : String) (s : WorkerSettings) (limit : ℕ) (t u : LimitTable) : Type 0 where
  pub read : get_worker_settings name u ≡ stored s (some (pos limit))
  pub resumed :
      get_worker_resume_settings name u
      ≡ (if ltb 0 limit then stored s (some (pos limit)) else get_worker_resume_settings name t)
  pub others : (other : String) → str_eq other name ≡ false → u other ≡ t other

same_name : (name : String) → str_eq name name ≡ true
same_name name = (eq_iff name name).1 refl

read-written :
    (n : ℕ) (c g : Option ℕ) (r : Option LimitRow)
    → settings_of (some (written n c g r)) ≡ record {
      control = none;
      max_active_jobs = some (pos n);
      cpu_jobs = of_nat c;
      gpu_jobs = of_nat g;
    }
read-written n c g none = refl
read-written n c g (some r) = refl

resume-written :
    (n : ℕ) (c g : Option ℕ) (r : Option LimitRow)
    → resume_of (some (written n c g r)) ≡ (
        if ltb 0 n
        then record {
          control = none;
          max_active_jobs = some (pos n);
          cpu_jobs = of_nat c;
          gpu_jobs = of_nat g;
        }
        else resume_of r)
resume-written n c g none = elim (Bool-cases (ltb 0 n)) [ inl p ↦ rw p refl | inr z ↦ rw z refl ]
resume-written n c g (some r) = elim (Bool-cases (ltb 0 n)) [
  | inl p ↦ rw p refl
  | inr z ↦ rw z refl
]

upsert-Saved :
    (name : String) (s : WorkerSettings) (n : ℕ) (c g : Option ℕ) (t : LimitTable)
    → s.cpu_jobs ≡ of_nat c
    → s.gpu_jobs ≡ of_nat g
    → Saved name s n t (upsert name n c g t)
unfolding get_worker_settings get_worker_resume_settings
upsert-Saved name s n c g t e f = record {
  read = rw (same_name name, e, f) (read-written n c g (t name));
  resumed = rw (same_name name, e, f) (resume-written n c g (t name));
  others = λ other d. rw d refl;
}

write_limits-Saved :
    (name : String) (s : WorkerSettings) (t : LimitTable)
    → str_eq name "" ≡ false
    → Form s
    → (limit : ℕ) × IsLimit s limit
      × let (u, error) = write_limits name s.max_active_jobs s.cpu_jobs s.gpu_jobs (total s) t in
        (error ≡ none) × Saved name s limit t u
unfolding set_worker_max_active_jobs
write_limits-Saved name s t named (one_limit n e f i j) =
    let wrote : write_limits name s.max_active_jobs s.cpu_jobs s.gpu_jobs (total s) t
        ≡ (upsert name n none none t, none) =
      rw (f, i, j, named) refl in
    (n, inl f, rw wrote (refl, upsert-Saved name s n none none t i j))
write_limits-Saved name s t named (two_limits c g e f i j k sum) =
    let wrote : write_limits name s.max_active_jobs s.cpu_jobs s.gpu_jobs (total s) t
        ≡ (upsert name (c + g) (some c) (some g) t, none) =
      rw (sum, i, j) refl in
    (c + g, inr sum, rw wrote (refl, upsert-Saved name s (c + g) (some c) (some g) t i j))

-- Valid settings of a named worker are written, and then read back with their limit of all
-- encodes; the queue is resumed with the last settings whose limit was not zero; other workers
-- keep theirs.
pub set_worker_settings-Saved :
    (name : String) (s : WorkerSettings) (t : LimitTable)
    → str_eq name "" ≡ false
    → validate_write s ≡ true
    → (limit : ℕ) × IsLimit s limit
      × let (u, error) = set_worker_settings name s t in (error ≡ none) × Saved name s limit t u
unfolding set_worker_settings
set_worker_settings-Saved name s t named valid =
    rw (named, valid) (write_limits-Saved name s t named (validate_write-Form s valid))
