-- ===== src/Update/Calls.antt =====
-- update/managed/manager.go: when a step of the update manager runs the installer.
use transcoderd.Prelude.{
  ℕ, ◌≡◌, refl, sym, Bool, true, false, not, ◌&&◌, ◌||◌, Option, none, some, String, str_eq,
  Bool-cases, inl, inr,
}
use transcoderd.Update.Manifest.{Candidate, Manifest, Reply, reply, refusal, verify}
use transcoderd.Update.Manager.{
  State, Transaction, Loaded, absent, loaded, unreadable, Machine, Host, active,
}
use transcoderd.Update.Fetch.{
  with_drain, with_version, with_manifest, with_candidate, proceed, unless_idle,
}
use transcoderd.Update.Step.{
  offered, or_current, checked, checks, is_due, look_for_releases, read_state, cleared, clear_read,
  after_clearing, clear_completed, looking, if_same, with_idle, with_loaded, same_pending,
  committed, commit_verified, recovering, recovered, for_transaction, from_disk, from_saved, step,
}
use transcoderd.Update.Guarded.{
  IsIdle, Fit, Guarded, calls_nothing, recovers, failure-Guarded, set_then-Guarded, fetch-Guarded,
}

candidate-Guarded :
    (h : Host) (t : Loaded Transaction) (now : ℕ) (s : State) (m : Machine) (c : Candidate)
    → IsIdle t
    → s.pending ≡ true
    → s.candidate ≡ some c
    → Guarded h t (with_manifest h now s c m (verify h.keys c))
candidate-Guarded h t now s m c idle pending chosen = by_manifest (verify h.keys c) refl
  where
    by_drain :
        (manifest : Manifest) (d : Option (ℕ → Reply (ℕ × ℕ)))
        → Fit h t s c manifest
        → h.drain ≡ d
        → Guarded h t (with_drain h now s c manifest m d)
    by_drain manifest none f e =
        failure-Guarded h t s "worker update controls are unavailable" now m
    by_drain manifest (some drain) f e = fetch-Guarded h t now s c manifest drain m (drain 0) f e

    by_version :
        (manifest : Manifest) (p : Option String)
        → verify h.keys c ≡ reply manifest
        → Guarded h t (with_version h now s c manifest m p)
    by_version manifest (some error) e = failure-Guarded h t s error now m
    by_version manifest none e = elim (Bool-cases (h.newer manifest.version h.version)) [
      | inl newer ↦ rw newer (
          by_drain manifest h.drain
            (record {
              idle = idle;
              verified = e;
              newer = newer;
              pending = pending;
              candidate = chosen;
            })
            refl)
      | inr older ↦ rw older (
          failure-Guarded h t s
            "installed version changed; waiting for a verified newer complete update" now m)
    ]

    by_manifest :
        (r : Reply Manifest) → verify h.keys c ≡ r → Guarded h t (with_manifest h now s c m r)
    by_manifest (refusal error) e = failure-Guarded h t s error now m
    by_manifest (reply manifest) e = by_version manifest (h.parse_error h.version) e

is_pending : (a b : Bool) → (not a || not b) ≡ false → a ≡ true
is_pending true b e = refl
is_pending false b e = sym e

proceed-Guarded :
    (h : Host) (t : Loaded Transaction) (now : ℕ) (retry_due : Bool) (s : State) (m : Machine)
    → IsIdle t
    → Guarded h t (proceed h now retry_due s m)
unfolding proceed
proceed-Guarded h t now retry_due s m idle = by_due (not s.pending || not retry_due) refl
  where
    by_candidate :
        (o : Option Candidate)
        → s.pending ≡ true
        → s.candidate ≡ o
        → Guarded h t (with_candidate h now s m o)
    by_candidate none p e =
        failure-Guarded h t s "update recovery is waiting for authenticated release metadata" now m
    by_candidate (some c) p e = candidate-Guarded h t now s m c idle p e

    by_due :
        (b : Bool) → (not s.pending || not retry_due) ≡ b → Guarded h t (unless_idle h now s m b)
    by_due true e = calls_nothing m none
    by_due false e = by_candidate s.candidate (is_pending s.pending retry_due e) refl

look_for_releases-Guarded :
    (h : Host) (t : Loaded Transaction) (now : ℕ) (force : Bool) (s : State) (m : Machine)
    → IsIdle t
    → Guarded h t (look_for_releases h now force s m)
unfolding look_for_releases
look_for_releases-Guarded h t now force s m idle = by_looking (checks h now force s)
  where
    due : Bool
    due = is_due s.next_retry now

    by_check :
        (r : Reply (Option (Candidate × Manifest)))
        → Guarded h t (checked h now due (record s { last_check = some now }) m r)
    by_check (refusal error) = failure-Guarded h t (record s { last_check = some now }) error now m
    by_check (reply offer) =
        let s' = or_current (offered h offer (record s { last_check = some now })) in
        set_then-Guarded h t now s' m (proceed h now due s')
          (λ m' k. proceed-Guarded h t now due s' m' idle)

    by_looking : (b : Bool) → Guarded h t (looking h now due s m b)
    by_looking true = by_check h.check
    by_looking false = proceed-Guarded h t now due s m idle

clear_completed-Guarded :
    (h : Host) (t : Loaded Transaction) (m : Machine) → Guarded h t (clear_completed h m)
unfolding clear_completed
clear_completed-Guarded h t m = by_read m.saved
  where
    by_save : (s : State) (r : Option String) → Guarded h t (after_clearing h s m r)
    by_save s none = calls_nothing (record m { saved = loaded s }) h.list_error
    by_save s (some error) = calls_nothing m (some error)

    by_read : (d : Loaded State) → Guarded h t (clear_read h m d)
    by_read (unreadable error) = calls_nothing m (some error)
    by_read absent = let s = cleared h.version (read_state absent) in by_save s (h.save_error s)
    by_read (loaded d) = let s = cleared h.version d in by_save s (h.save_error s)

transaction-Guarded :
    (h : Host) (t : Loaded Transaction) (now : ℕ) (force : Bool) (s : State) (m : Machine)
    → Guarded h t (for_transaction h now force s m t)
transaction-Guarded h (unreadable error) now force s m =
    failure-Guarded h (unreadable error) (record s { pending = true }) error now m
transaction-Guarded h absent now force s m = look_for_releases-Guarded h absent now force s m tt
transaction-Guarded h (loaded t) now force s m = by_active (active t) refl
  where
    by_recover :
        (hook : Option (Transaction → Option String)) (m' : Machine)
        → active t ≡ true
        → Guarded h (loaded t) (recovered t m' hook)
    by_recover none m' e = calls_nothing m' none
    by_recover (some recover) m' e = recovers t m' (recover t) refl e

    by_parse :
        (manifest : Manifest) (p : Option String)
        → IsIdle (loaded t)
        → Guarded h (loaded t) (committed h now force s m t manifest p)
    by_parse manifest (some error) idle = failure-Guarded h (loaded t) s error now m
    by_parse manifest none idle =
        by_same (h.same_version h.version manifest.version && same_pending s t manifest)
      where
        by_same : (b : Bool) → Guarded h (loaded t) (if_same h now force s m b)
        by_same true = clear_completed-Guarded h (loaded t) m
        by_same false = look_for_releases-Guarded h (loaded t) now force s m idle

    by_verify :
        (r : Reply Manifest)
        → IsIdle (loaded t)
        → Guarded h (loaded t) (commit_verified h now force s m t r)
    by_verify (refusal error) idle = failure-Guarded h (loaded t) s error now m
    by_verify (reply manifest) idle = by_parse manifest (h.parse_error h.version) idle

    by_idle : (b : Bool) → IsIdle (loaded t) → Guarded h (loaded t) (with_idle h now force s m t b)
    by_idle true idle = by_verify (verify h.keys t.candidate) idle
    by_idle false idle = look_for_releases-Guarded h (loaded t) now force s m idle

    by_active : (b : Bool) → active t ≡ b → Guarded h (loaded t) (with_loaded h now force s m t b)
    by_active true e = by_recover h.recover (record m { memory = recovering s t }) e
    by_active false e = by_idle (str_eq t.phase "completed" && s.pending) e

-- A step of the update manager calls nothing, or recovers the active transaction, or runs the
-- installer; and that only if no transaction is active, the candidate verifies as a manifest that
-- is newer than the installed version, the worker has neither active nor reserved jobs, and the
-- saved state blocks new jobs with that candidate.
pub step-Guarded :
    (h : Host) (now : ℕ) (force : Bool) (m : Machine) → Guarded h m.transaction (step h now force m)
unfolding step
step-Guarded h now force m = by_saved m.saved
  where
    by_phase : (d : State) (b : Bool) → Guarded h m.transaction (from_disk h now force m d b)
    by_phase d true = transaction-Guarded h m.transaction now force m.memory m
    by_phase d false =
        let s = record d { installed_version = h.version } in
        transaction-Guarded h m.transaction now force s (record m { memory = s })

    by_saved : (d : Loaded State) → Guarded h m.transaction (from_saved h now force m d)
    by_saved (unreadable error) =
        failure-Guarded h m.transaction (record m.memory { pending = true }) error now m
    by_saved absent = by_phase (read_state absent) true
    by_saved (loaded d) = by_phase d (str_eq d.phase "")
