-- ===== src/Update/Barrier.antt =====
-- update/managed/manager.go: a pending update blocks new jobs until it is committed.
use transcoderd.Prelude.{
  ℕ, ◌≡◌, refl, Bool, true, false, ◌&&◌, Option, none, some, String, str_eq, Bool-cases, inl, inr,
}
use transcoderd.Update.Manifest.{Candidate, Manifest, Reply, reply, refusal, verify}
use transcoderd.Update.Manager.{
  State, Transaction, Loaded, absent, loaded, unreadable, Machine, Host, active,
}
use transcoderd.Update.Fetch.{proceed}
use transcoderd.Update.Step.{
  select_new, offered, or_current, checked, checks, is_due, looking, look_for_releases,
  same_pending, if_same, committed, commit_verified, recovering, recovered, with_idle, with_loaded,
  for_transaction, from_disk, from_saved, step,
}
use transcoderd.Update.Blocks.{
  IsBlocking, Blocks, failure-Blocks, set_then-Blocks, proceed-Blocks, Stays, blocks, ends,
}

-- A release that is offered never takes the update back.
offered-pending :
    (h : Host) (offer : Option (Candidate × Manifest)) (s : State)
    → s.pending ≡ true
    → (or_current (offered h offer s)).pending ≡ true
offered-pending h none s p = rw p refl
offered-pending h (some (c, manifest)) s p = elim (Bool-cases (select_new h manifest s.candidate)) [
  | inl new ↦ rw new refl
  | inr old ↦ rw (old, p) refl
]

look_for_releases-Blocks :
    (h : Host) (now : ℕ) (force : Bool) (s : State) (m : Machine)
    → s.pending ≡ true
    → Blocks m
    → Blocks (look_for_releases h now force s m).machine
unfolding look_for_releases
look_for_releases-Blocks h now force s m p b = by_looking (checks h now force s)
  where
    due : Bool
    due = is_due s.next_retry now

    by_check :
        (r : Reply (Option (Candidate × Manifest)))
        → Blocks (checked h now due (record s { last_check = some now }) m r).machine
    by_check (refusal error) = failure-Blocks h (record s { last_check = some now }) error now m p b
    by_check (reply offer) =
        let s' = or_current (offered h offer (record s { last_check = some now })) in
        let p' = offered-pending h offer (record s { last_check = some now }) p in
        set_then-Blocks h now s' m (proceed h now due s') p' b
          (λ m' b'. proceed-Blocks h now due s' m' p' b')

    by_looking : (looks : Bool) → Blocks (looking h now due s m looks).machine
    by_looking true = by_check h.check
    by_looking false = proceed-Blocks h now due s m p b

and_left : (a b : Bool) → (a && b) ≡ true → a ≡ true
and_left true b e = refl
and_left false b e = e

transaction-Stays :
    (h : Host) (t : Loaded Transaction) (now : ℕ) (force : Bool) (s : State) (m : Machine)
    → s.pending ≡ true
    → Blocks m
    → Stays h t (for_transaction h now force s m t)
transaction-Stays h (unreadable error) now force s m p b =
    blocks (failure-Blocks h (record s { pending = true }) error now m refl b)
transaction-Stays h absent now force s m p b = blocks (look_for_releases-Blocks h now force s m p b)
transaction-Stays h (loaded t) now force s m p b = by_active (active t)
  where
    by_recover :
        (hook : Option (Transaction → Option String))
        → Stays h (loaded t) (recovered t (record m { memory = recovering s t }) hook)
    by_recover none = blocks (record { memory = refl; saved = b.saved })
    by_recover (some recover) = blocks (record { memory = refl; saved = b.saved })

    by_same :
        (manifest : Manifest) (same : Bool)
        → str_eq t.phase "completed" ≡ true
        → verify h.keys t.candidate ≡ reply manifest
        → (h.same_version h.version manifest.version && same_pending s t manifest) ≡ same
        → Stays h (loaded t) (if_same h now force s m same)
    by_same manifest true c v e = ends (record {
      transaction = t;
      recorded = refl;
      completed = c;
      manifest = manifest;
      verified = v;
      installed =
          and_left (h.same_version h.version manifest.version) (same_pending s t manifest) e;
    })
    by_same manifest false c v e = blocks (look_for_releases-Blocks h now force s m p b)

    by_parse :
        (manifest : Manifest) (r : Option String)
        → str_eq t.phase "completed" ≡ true
        → verify h.keys t.candidate ≡ reply manifest
        → Stays h (loaded t) (committed h now force s m t manifest r)
    by_parse manifest (some error) c v = blocks (failure-Blocks h s error now m p b)
    by_parse manifest none c v =
        by_same manifest (h.same_version h.version manifest.version && same_pending s t manifest) c
          v refl

    by_verify :
        (r : Reply Manifest)
        → str_eq t.phase "completed" ≡ true
        → verify h.keys t.candidate ≡ r
        → Stays h (loaded t) (commit_verified h now force s m t r)
    by_verify (refusal error) c v = blocks (failure-Blocks h s error now m p b)
    by_verify (reply manifest) c v = by_parse manifest (h.parse_error h.version) c v

    by_idle :
        (done : Bool)
        → (str_eq t.phase "completed" && s.pending) ≡ done
        → Stays h (loaded t) (with_idle h now force s m t done)
    by_idle true e =
        by_verify (verify h.keys t.candidate) (and_left (str_eq t.phase "completed") s.pending e)
          refl
    by_idle false e = blocks (look_for_releases-Blocks h now force s m p b)

    by_active : (a : Bool) → Stays h (loaded t) (with_loaded h now force s m t a)
    by_active true = by_recover h.recover
    by_active false = by_idle (str_eq t.phase "completed" && s.pending) refl

-- Where the update manager and its saved state, if it can be read, block new jobs, they still do
-- after a step, whatever fails in it, unless a completed transaction verifies as the installed
-- version.
pub step-Stays :
    (h : Host) (now : ℕ) (force : Bool) (m : Machine)
    → Blocks m
    → Stays h m.transaction (step h now force m)
unfolding step
step-Stays h now force m b = by_saved m.saved b.saved
  where
    by_phase :
        (d : State) (empty : Bool)
        → d.pending ≡ true
        → Stays h m.transaction (from_disk h now force m d empty)
    by_phase d true p = transaction-Stays h m.transaction now force m.memory m b.memory b
    by_phase d false p =
        let s = record d { installed_version = h.version } in
        transaction-Stays h m.transaction now force s (record m { memory = s }) p
          (record { memory = p; saved = b.saved })

    by_saved :
        (d : Loaded State) → IsBlocking d → Stays h m.transaction (from_saved h now force m d)
    by_saved (unreadable error) k =
        blocks (failure-Blocks h (record m.memory { pending = true }) error now m refl b)
    by_saved absent k = transaction-Stays h m.transaction now force m.memory m b.memory b
    by_saved (loaded d) k = by_phase d (str_eq d.phase "") k
