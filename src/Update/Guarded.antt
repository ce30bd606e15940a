-- ===== src/Update/Guarded.antt =====
-- update/managed/manager.go: what has to hold where a step of the update manager runs the installer.
use transcoderd.Prelude.{
  ℕ, ◌≡◌, refl, ◌∙◌, Bool, true, false, ◌||◌, Option, none, some, String, ltb, Bool-cases,
  Option-cases, inl, inr, ◌⊎◌, arith,
}
use transcoderd.Prelude.Int.{ℤ}
use transcoderd.Update.Manifest.{Candidate, Manifest, Reply, reply, refusal, verify}
use transcoderd.Update.Manager.{
  State, Transaction, Loaded, loaded, Machine, Host, Outcome, install_call, recover_call, active,
  fail, set, failure, set_then, call_install, when_drained, installing, draining,
}
use transcoderd.Update.Fetch.{downloading, staged, with_installer, fetch}

-- No installation is under way that would have to be recovered.
abbrev pub IsIdle : Loaded Transaction → Type 0
IsIdle (loaded x) = active x ≡ false
IsIdle t = Unit

-- What has to hold for the installer to run with a candidate.
pub record Fit (h : Host) (t : Loaded Transaction) (s : State) (c : Candidate) (manifest : Manifest)
    : Type 0 where
  pub idle : IsIdle t
  pub verified : verify h.keys c ≡ reply manifest
  pub newer : h.newer manifest.version h.version ≡ true
  pub pending : s.pending ≡ true
  pub candidate : s.candidate ≡ some c

pub record Drained (h : Host) : Type 0 where
  pub drain : ℕ → Reply (ℕ × ℕ)
  pub hook : h.drain ≡ some drain
  pub no_work : drain 1 ≡ reply (0, 0)

-- The outcome of a step calls nothing, recovers the active transaction, or runs the installer when all
-- that holds, with the state that blocks new jobs on disk.
pub data Guarded (h : Host) (t : Loaded Transaction) : Outcome → Type 0 where
  calls_nothing :
      (m : Machine) (error : Option String)
      → Guarded h t (record { machine = m; error = error; call = none })
  recovers :
      (x : Transaction) (m : Machine) (error : Option String)
      → t ≡ loaded x
      → active x ≡ true
      → Guarded h t (record { machine = m; error = error; call = some (recover_call x) })
  installs :
      (c : Candidate) (manifest : Manifest) (path : String) (s : State) (m : Machine)
      (error : Option String)
      → Fit h t s c manifest
      → Drained h
      → m.saved ≡ loaded s
      → Guarded h t
          (record { machine = m; error = error; call = some (install_call c manifest path) })

pub failure-Guarded :
    (h : Host) (t : Loaded Transaction) (s : State) (error : String) (now : ℕ) (m : Machine)
    → Guarded h t (failure h s error now m)
unfolding failure
failure-Guarded h t s error now m = calls_nothing (set h (fail h error now s) m) (some error)

pub set_then-Guarded :
    (h : Host) (t : Loaded Transaction) (now : ℕ) (s : State) (m : Machine) (go : Machine → Outcome)
    → ((m' : Machine) → m'.saved ≡ loaded s → Guarded h t (go m'))
    → Guarded h t (set_then h now s m go)
unfolding set_then set
set_then-Guarded h t now s m go k = elim (Option-cases (h.save_error s)) [
  | inl e ↦ rw (e, e) (k (record m { memory = s; saved = loaded s }) refl)
  | inr (error, e) ↦ rw (e, e) (failure-Guarded h t s error now (record m { memory = s }))
]

-- After a failed installation the disk has the new state or, where that cannot be saved, the old one.
failure-saved :
    (h : Host) (s : State) (error : String) (now : ℕ) (m : Machine)
    → ((failure h s error now m).machine.saved ≡ loaded (fail h error now s))
      ⊎ ((failure h s error now m).machine.saved ≡ m.saved)
unfolding failure set
failure-saved h s error now m = elim (Option-cases (h.save_error (fail h error now s))) [
  | inl e ↦ rw e (inl refl)
  | inr (x, e) ↦ rw e (inr refl)
]

fail-Fit :
    (h : Host) (t : Loaded Transaction) (s : State) (c : Candidate) (manifest : Manifest)
    (error : String) (now : ℕ)
    → Fit h t s c manifest
    → Fit h t (fail h error now s) c manifest
unfolding fail
fail-Fit h t s c manifest error now f = record {
  idle = f.idle;
  verified = f.verified;
  newer = f.newer;
  pending = f.pending;
  candidate = f.candidate;
}

call_install-Guarded :
    (h : Host) (t : Loaded Transaction) (now : ℕ) (s : State) (c : Candidate) (manifest : Manifest)
    (path : String) (m : Machine) (hook : Option (Candidate → Manifest → String → Option String))
    → Fit h t s c manifest
    → Drained h
    → m.saved ≡ loaded s
    → Guarded h t (call_install h now s c manifest path m hook)
unfolding call_install
call_install-Guarded h t now s c manifest path m none f d e =
    failure-Guarded h t s "windows installer helper is unavailable" now m
call_install-Guarded h t now s c manifest path m (some install) f d e =
    elim (Option-cases (install c manifest path)) [
      | inl q ↦ rw q (installs c manifest path s m none f d e)
      | inr (error, q) ↦
          let o = failure h s error now m in
          rw q (elim (failure-saved h s error now m) [
            | inl k ↦
                installs c manifest path (fail h error now s) o.machine o.error
                  (fail-Fit h t s c manifest error now f) d k
            | inr k ↦ installs c manifest path s o.machine o.error f d (k ∙ e)
          ])
    ]

downloading-Fit :
    (h : Host) (t : Loaded Transaction) (s : State) (c : Candidate) (manifest : Manifest)
    (phase message : String) (next : Option ℕ) (got : ℤ)
    → Fit h t s c manifest
    → Fit h t
        (record s { phase = phase; message = message; next_retry = next; downloaded = got })
        c
        manifest
downloading-Fit h t s c manifest phase message next got f = record {
  idle = f.idle;
  verified = f.verified;
  newer = f.newer;
  pending = f.pending;
  candidate = f.candidate;
}

when_drained-Guarded :
    (h : Host) (t : Loaded Transaction) (now : ℕ) (s : State) (c : Candidate) (manifest : Manifest)
    (path : String) (m : Machine) (drain : ℕ → Reply (ℕ × ℕ)) (r : Reply (ℕ × ℕ))
    → Fit h t s c manifest
    → h.drain ≡ some drain
    → drain 1 ≡ r
    → Guarded h t (when_drained h now s c manifest path m r)
unfolding when_drained
when_drained-Guarded h t now s c manifest path m drain (refusal error) f d e =
    failure-Guarded h t s error now m
when_drained-Guarded h t now s c manifest path m drain (reply (jobs, reserved)) f d e =
    elim (Bool-cases (ltb 0 jobs || ltb 0 reserved)) [
      | inl busy ↦ rw busy (calls_nothing (set h (draining s) m) (h.save_error (draining s)))
      | inr free ↦ rw free (
          set_then-Guarded h t now (installing s) m
            (λ m'. call_install h now (installing s) c manifest path m' h.install)
            (λ m' k.
              call_install-Guarded h t now (installing s) c manifest path m' h.install
                (downloading-Fit h t s c manifest (installing s).phase (installing s).message none
                  s.downloaded f)
                (record { drain = drain; hook = d; no_work = e ∙ none_left jobs reserved free }) k))
    ]
  where
    none_left :
        (a b : ℕ)
        → (ltb 0 a || ltb 0 b) ≡ false
        → Path (Reply (ℕ × ℕ)) (reply (a, b)) (reply (0, 0))
    none_left a b k =
        let ea : a ≡ 0 = ground (arith, k) in let eb : b ≡ 0 = ground (arith, k) in rw (ea, eb) refl

pub fetch-Guarded :
    (h : Host) (t : Loaded Transaction) (now : ℕ) (s : State) (c : Candidate) (manifest : Manifest)
    (drain : ℕ → Reply (ℕ × ℕ)) (m : Machine) (r : Reply (ℕ × ℕ))
    → Fit h t s c manifest
    → h.drain ≡ some drain
    → Guarded h t (fetch h now s c manifest drain m r)
unfolding fetch
fetch-Guarded h t now s c manifest drain m (refusal error) f d = failure-Guarded h t s error now m
fetch-Guarded h t now s c manifest drain m (reply counts) f d = by_installer h.is_staged
  where
    staged-Guarded :
        (r : ℤ × Reply String) (m' : Machine)
        → Guarded h t (staged h now (downloading s) c manifest drain m' r)
    staged-Guarded (got, refusal error) m' =
        failure-Guarded h t (record (downloading s) { downloaded = got }) error now m'
    staged-Guarded (got, reply path) m' =
        when_drained-Guarded h t now (record (downloading s) { downloaded = s.total }) c manifest
          path m' drain (drain 1)
          (downloading-Fit h t s c manifest (downloading s).phase (downloading s).message
            s.next_retry s.total f)
          d refl

    by_installer : (b : Bool) → Guarded h t (with_installer h now s c manifest drain m b)
    by_installer true =
        when_drained-Guarded h t now s c manifest h.staged_path m drain (drain 1) f d refl
    by_installer false =
        set_then-Guarded h t now (downloading s) m
          (λ m'. staged h now (downloading s) c manifest drain m' h.stage)
          (λ m' k. staged-Guarded h.stage m')
