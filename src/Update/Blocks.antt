-- ===== src/Update/Blocks.antt =====
-- update/managed/manager.go: a step that goes on with a pending update leaves new jobs blocked.
use transcoderd.Prelude.{
  ℕ, ◌≡◌, Bool, true, false, not, ◌||◌, Option, none, some, String, str_eq, ltb, Bool-cases,
  Option-cases, inl, inr,
}
use transcoderd.Prelude.Int.{ℤ}
use transcoderd.Update.Manifest.{Candidate, Manifest, Reply, reply, refusal, verify}
use transcoderd.Update.Manager.{
  State, Transaction, Loaded, loaded, Machine, Host, Outcome, fail, set, once_set, failure,
  set_then, call_install, when_drained, installing, draining,
}
use transcoderd.Update.Fetch.{
  downloading, staged, with_installer, fetch, with_drain, with_version, with_manifest,
  with_candidate, unless_idle, proceed,
}

-- A state on disk, if it can be read, blocks new jobs.
abbrev pub IsBlocking : Loaded State → Type 0
IsBlocking (loaded s) = s.pending ≡ true
IsBlocking d = Unit

pub record Blocks (m : Machine) : Type 0 where
  pub memory : m.memory.pending ≡ true
  pub saved : IsBlocking m.saved

-- The installation that was waited for is there.
pub record Committed (h : Host) (t : Loaded Transaction) : Type 0 where
  pub transaction : Transaction
  pub recorded : t ≡ loaded transaction
  pub completed : str_eq transaction.phase "completed" ≡ true
  pub manifest : Manifest
  pub verified : verify h.keys transaction.candidate ≡ reply manifest
  pub installed : h.same_version h.version manifest.version ≡ true

pub data Stays (h : Host) (t : Loaded Transaction) (o : Outcome) : Type 0 where
  blocks : Blocks o.machine → Stays h t o
  ends : Committed h t → Stays h t o

set-Blocks : (h : Host) (s : State) (m : Machine) → s.pending ≡ true → Blocks m → Blocks (set h s m)
unfolding set
set-Blocks h s m p b = elim (Option-cases (h.save_error s)) [
  | inl e ↦ rw e (record { memory = p; saved = p })
  | inr (error, e) ↦ rw e (record { memory = p; saved = b.saved })
]

pub failure-Blocks :
    (h : Host) (s : State) (error : String) (now : ℕ) (m : Machine)
    → s.pending ≡ true
    → Blocks m
    → Blocks (failure h s error now m).machine
unfolding failure fail
failure-Blocks h s error now m p b = set-Blocks h (fail h error now s) m p b

pub set_then-Blocks :
    (h : Host) (now : ℕ) (s : State) (m : Machine) (go : Machine → Outcome)
    → s.pending ≡ true
    → Blocks m
    → ((m' : Machine) → Blocks m' → Blocks (go m').machine)
    → Blocks (set_then h now s m go).machine
unfolding set_then
set_then-Blocks h now s m go p b k = by_save (h.save_error s)
  where
    by_save : (r : Option String) → Blocks (once_set h now s m go r).machine
    by_save none = k (set h s m) (set-Blocks h s m p b)
    by_save (some error) = failure-Blocks h s error now (set h s m) p (set-Blocks h s m p b)

call_install-Blocks :
    (h : Host) (now : ℕ) (s : State) (c : Candidate) (manifest : Manifest) (path : String)
    (m : Machine) (hook : Option (Candidate → Manifest → String → Option String))
    → s.pending ≡ true
    → Blocks m
    → Blocks (call_install h now s c manifest path m hook).machine
unfolding call_install
call_install-Blocks h now s c manifest path m none p b =
    failure-Blocks h s "windows installer helper is unavailable" now m p b
call_install-Blocks h now s c manifest path m (some install) p b =
    elim (Option-cases (install c manifest path)) [
      | inl q ↦ rw q b
      | inr (error, q) ↦ rw q (failure-Blocks h s error now m p b)
    ]

when_drained-Blocks :
    (h : Host) (now : ℕ) (s : State) (c : Candidate) (manifest : Manifest) (path : String)
    (m : Machine) (r : Reply (ℕ × ℕ))
    → s.pending ≡ true
    → Blocks m
    → Blocks (when_drained h now s c manifest path m r).machine
unfolding when_drained
when_drained-Blocks h now s c manifest path m (refusal error) p b =
    failure-Blocks h s error now m p b
when_drained-Blocks h now s c manifest path m (reply (jobs, reserved)) p b =
    elim (Bool-cases (ltb 0 jobs || ltb 0 reserved)) [
      | inl busy ↦ rw busy (set-Blocks h (draining s) m p b)
      | inr free ↦ rw free (
          set_then-Blocks h now (installing s) m
            (λ m'. call_install h now (installing s) c manifest path m' h.install) p b
            (λ m' b'. call_install-Blocks h now (installing s) c manifest path m' h.install p b'))
    ]

fetch-Blocks :
    (h : Host) (now : ℕ) (s : State) (c : Candidate) (manifest : Manifest)
    (drain : ℕ → Reply (ℕ × ℕ)) (m : Machine) (r : Reply (ℕ × ℕ))
    → s.pending ≡ true
    → Blocks m
    → Blocks (fetch h now s c manifest drain m r).machine
unfolding fetch
fetch-Blocks h now s c manifest drain m (refusal error) p b = failure-Blocks h s error now m p b
fetch-Blocks h now s c manifest drain m (reply counts) p b = by_installer h.is_staged
  where
    by_stage :
        (r : ℤ × Reply String) (m' : Machine)
        → Blocks m'
        → Blocks (staged h now (downloading s) c manifest drain m' r).machine
    by_stage (got, refusal error) m' b' =
        failure-Blocks h (record (downloading s) { downloaded = got }) error now m' p b'
    by_stage (got, reply path) m' b' =
        when_drained-Blocks h now (record (downloading s) { downloaded = s.total }) c manifest path
          m' (drain 1) p b'

    by_installer : (there : Bool) → Blocks (with_installer h now s c manifest drain m there).machine
    by_installer true = when_drained-Blocks h now s c manifest h.staged_path m (drain 1) p b
    by_installer false =
        set_then-Blocks h now (downloading s) m
          (λ m'. staged h now (downloading s) c manifest drain m' h.stage) p b
          (λ m' b'. by_stage h.stage m' b')

pub proceed-Blocks :
    (h : Host) (now : ℕ) (retry_due : Bool) (s : State) (m : Machine)
    → s.pending ≡ true
    → Blocks m
    → Blocks (proceed h now retry_due s m).machine
unfolding proceed
proceed-Blocks h now retry_due s m p b = by_due (not s.pending || not retry_due)
  where
    by_drain :
        (c : Candidate) (manifest : Manifest) (d : Option (ℕ → Reply (ℕ × ℕ)))
        → Blocks (with_drain h now s c manifest m d).machine
    by_drain c manifest none = failure-Blocks h s "worker update controls are unavailable" now m p b
    by_drain c manifest (some drain) = fetch-Blocks h now s c manifest drain m (drain 0) p b

    by_version :
        (c : Candidate) (manifest : Manifest) (r : Option String)
        → Blocks (with_version h now s c manifest m r).machine
    by_version c manifest (some error) = failure-Blocks h s error now m p b
    by_version c manifest none = elim (Bool-cases (h.newer manifest.version h.version)) [
      | inl newer ↦ rw newer (by_drain c manifest h.drain)
      | inr older ↦ rw older (
          failure-Blocks h s
            "installed version changed; waiting for a verified newer complete update" now m p b)
    ]

    by_manifest :
        (c : Candidate) (r : Reply Manifest) → Blocks (with_manifest h now s c m r).machine
    by_manifest c (refusal error) = failure-Blocks h s error now m p b
    by_manifest c (reply manifest) = by_version c manifest (h.parse_error h.version)

    by_candidate : (o : Option Candidate) → Blocks (with_candidate h now s m o).machine
    by_candidate none =
        failure-Blocks h s "update recovery is waiting for authenticated release metadata" now m p b
    by_candidate (some c) = by_manifest c (verify h.keys c)

    by_due : (idle : Bool) → Blocks (unless_idle h now s m idle).machine
    by_due true = b
    by_due false = by_candidate s.candidate
