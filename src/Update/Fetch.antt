-- ===== src/Update/Fetch.antt =====
-- update/managed/manager.go: the part of `Step` that goes on with a pending update, up to the
-- installer. The progress of a download is kept only as it is at the end.
use transcoderd.Prelude.{ℕ, Bool, true, false, not, ◌||◌, Option, none, some, String, if◌then◌else◌}
use transcoderd.Prelude.Int.{ℤ}
use transcoderd.Update.Manifest.{Candidate, Manifest, Reply, reply, refusal, verify}
use transcoderd.Update.Manager.{
  State, Machine, Host, Outcome, ended, failure, set_then, when_drained,
}

abbrev pub downloading : State → State
downloading s = record s {
  phase = "downloading";
  message = "Downloading the mandatory update. Accepted jobs are finishing.";
}

abbrev pub staged :
    Host
    → ℕ
    → State
    → Candidate
    → Manifest
    → (ℕ → Reply (ℕ × ℕ))
    → Machine
    → ℤ × Reply String
    → Outcome
staged h now s c manifest drain m (got, refusal error) =
    failure h (record s { downloaded = got }) error now m
staged h now s c manifest drain m (got, reply path) =
    when_drained h now (record s { downloaded = s.total }) c manifest path m (drain 1)

abbrev pub with_installer :
    Host → ℕ → State → Candidate → Manifest → (ℕ → Reply (ℕ × ℕ)) → Machine → Bool → Outcome
with_installer h now s c manifest drain m true =
    when_drained h now s c manifest h.staged_path m (drain 1)
with_installer h now s c manifest drain m false =
    set_then h now (downloading s) m
      (λ m'. staged h now (downloading s) c manifest drain m' h.stage)

-- From the first call of `Drain`, which stops the worker from taking jobs.
unfoldable pub fetch :
    Host
    → ℕ
    → State
    → Candidate
    → Manifest
    → (ℕ → Reply (ℕ × ℕ))
    → Machine
    → Reply (ℕ × ℕ)
    → Outcome
unfolding failure set_then when_drained
fetch h now s c manifest drain m (refusal error) = failure h s error now m
fetch h now s c manifest drain m (reply _) = with_installer h now s c manifest drain m h.is_staged

abbrev pub with_drain :
    Host → ℕ → State → Candidate → Manifest → Machine → Option (ℕ → Reply (ℕ × ℕ)) → Outcome
with_drain h now s c manifest m none = failure h s "worker update controls are unavailable" now m
with_drain h now s c manifest m (some drain) = fetch h now s c manifest drain m (drain 0)

abbrev pub with_version :
    Host → ℕ → State → Candidate → Manifest → Machine → Option String → Outcome
with_version h now s c manifest m (some error) = failure h s error now m
with_version h now s c manifest m none =
    if h.newer manifest.version h.version
    then with_drain h now s c manifest m h.drain
    else failure h s "installed version changed; waiting for a verified newer complete update" now m

abbrev pub with_manifest : Host → ℕ → State → Candidate → Machine → Reply Manifest → Outcome
with_manifest h now s c m (refusal error) = failure h s error now m
with_manifest h now s c m (reply manifest) =
    with_version h now s c manifest m (h.parse_error h.version)

abbrev pub with_candidate : Host → ℕ → State → Machine → Option Candidate → Outcome
with_candidate h now s m none =
    failure h s "update recovery is waiting for authenticated release metadata" now m
with_candidate h now s m (some c) = with_manifest h now s c m (verify h.keys c)

abbrev pub unless_idle : Host → ℕ → State → Machine → Bool → Outcome
unless_idle h now s m true = ended m none
unless_idle h now s m false = with_candidate h now s m s.candidate

-- What is left of the step once releases were looked for.
unfoldable pub proceed : Host → ℕ → Bool → State → Machine → Outcome
unfolding fetch failure
proceed h now retry_due s m = unless_idle h now s m (not s.pending || not retry_due)
