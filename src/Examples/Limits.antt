-- ===== src/Examples/Limits.antt =====
-- Concrete worker settings in the table.
use transcoderd.Prelude.{ℕ, ◌≡◌, refl, true, none, some}
use transcoderd.Prelude.Int.{pos}
use transcoderd.Model.Settings.{WorkerSettings, validate_write, independent, total}
use transcoderd.Server.Repository.Limits.{LimitTable, set_worker_settings}
use transcoderd.Server.Repository.Limits.Saved.{IsLimit, Saved, set_worker_settings-Saved}

abbrev two_classes : WorkerSettings
two_classes = record {
  control = none;
  max_active_jobs = none;
  cpu_jobs = some (pos 1);
  gpu_jobs = some (pos 2);
}

abbrev no_rows : LimitTable
no_rows name = none

two_classes_are_valid : validate_write two_classes ≡ true
unfolding validate_write independent total
two_classes_are_valid = refl

set_worker_settings-Saved_example :
    (limit : ℕ) × IsLimit two_classes limit
    × let (u, error) = set_worker_settings "w" two_classes no_rows in
      (error ≡ none) × Saved "w" two_classes limit no_rows u
set_worker_settings-Saved_example =
    set_worker_settings-Saved "w" two_classes no_rows refl two_classes_are_valid
