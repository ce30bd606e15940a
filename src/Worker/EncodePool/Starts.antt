-- ===== src/Worker/EncodePool/Starts.antt =====
-- When worker/worker/encodeConcurrency.go starts an encode, and what the counters then say.
use transcoderd.Prelude.{
  ℕ, ◌+◌, ◌≤◌, ◌<◌, ◌≡◌, ◌⊎◌, inl, inr, refl, ap, ◌∙◌, Bool, true, false, not, ◌&&◌, ◌||◌, Option,
  none, some, arith, ltb, leb, ◌==◌, if◌then◌else◌,
}
use transcoderd.Worker.EncodePool.{
  EncoderKind, cpu, gpu, EncodeConcurrency, active_of, target_of, desired_of, try, other_kind,
  try_start_encoder, choose, or_other, started, with_target, one_more,
}

-- Nothing more is active.
pub record Waits (c d : EncodeConcurrency) : Type 0 where
  pub cpu_same : d.cpu_active ≡ c.cpu_active
  pub gpu_same : d.gpu_active ≡ c.gpu_active
  pub total_same : d.active ≡ c.active
  pub pause_same : d.paused ≡ c.paused

-- One more encode of a class is active, within the class's target.
pub record Starts (kind : EncoderKind) (c d : EncodeConcurrency) : Type 0 where
  pub one_more_active : active_of kind d ≡ active_of kind c + 1
  pub other_same : active_of (other_kind kind) d ≡ active_of (other_kind kind) c
  pub total : d.active ≡ c.active + 1
  pub within : active_of kind d ≤ target_of kind d
  pub hold_same : d.paused ≡ c.paused

abbrev Tried : EncoderKind → EncodeConcurrency → EncodeConcurrency × Bool → Type 0
Tried kind c (d, false) = Waits c d
Tried kind c (d, true) = Starts kind c d

grown :
    (kind : EncoderKind) (c d : EncodeConcurrency) (full : Bool)
    → Waits c d
    → (full ≡ false → active_of kind d < target_of kind d)
    → Tried kind c (if full then (d, false) else (one_more kind d, true))
grown kind c d true w room = w
grown cpu c d false w room = record {
  one_more_active = ap (λ n. n + 1) w.cpu_same;
  other_same = w.gpu_same;
  total = ap (λ n. n + 1) w.total_same;
  within = ground (arith, room refl);
  hold_same = w.pause_same;
}
grown gpu c d false w room = record {
  one_more_active = ap (λ n. n + 1) w.gpu_same;
  other_same = w.cpu_same;
  total = ap (λ n. n + 1) w.total_same;
  within = ground (arith, room refl);
  hold_same = w.pause_same;
}

still : (c : EncodeConcurrency) → Waits c c
still c = record { cpu_same = refl; gpu_same = refl; total_same = refl; pause_same = refl }

raised-Waits :
    (kind : EncoderKind) (b : Bool) (c : EncodeConcurrency)
    → Waits c (if b then with_target kind 1 c else c)
raised-Waits kind false c = still c
raised-Waits cpu true c = record {
  cpu_same = refl;
  gpu_same = refl;
  total_same = refl;
  pause_same = refl;
}
raised-Waits gpu true c = record {
  cpu_same = refl;
  gpu_same = refl;
  total_same = refl;
  pause_same = refl;
}

refused :
    (kind : EncoderKind) (b : Bool) (c : EncodeConcurrency) (r : EncodeConcurrency × Bool)
    → Tried kind c r
    → Tried kind c (if b then (c, false) else r)
refused kind true c r t = still c
refused kind false c r t = t

room : (t a : ℕ) → (leb t a || t == 0) ≡ false → a < t
room t a e = ground arith

try-cases :
    (kind : EncoderKind) (restored : Bool) (c : EncodeConcurrency)
    → Tried kind c (try kind restored c)
unfolding try
try-cases kind restored c =
    let d = if restored && target_of kind c == 0 then with_target kind 1 c else c in
    refused kind
      (c.independent && desired_of kind c == 0 && not restored && ltb 0 (c.cpu_jobs + c.gpu_jobs)) c
      _
      (grown kind c d (leb (target_of kind d) (active_of kind d) || target_of kind d == 0)
        (raised-Waits kind (restored && target_of kind c == 0) c)
        (room (target_of kind d) (active_of kind d)))

-- The outcome of a request to start an encode.
abbrev pub Chosen :
    Option EncoderKind → EncodeConcurrency → EncodeConcurrency × Option EncoderKind → Type 0
Chosen pinned c (d, none) = Waits c d
Chosen pinned c (d, some kind) = Starts kind c d × ((pinned ≡ none) ⊎ (pinned ≡ some kind))

-- The outcome where the pool may be paused or, under one common limit, full.
abbrev pub Admitted :
    Option EncoderKind → EncodeConcurrency → EncodeConcurrency × Option EncoderKind → Type 0
Admitted pinned c (d, none) = Waits c d
Admitted pinned c (d, some kind) =
    Starts kind c d
    × ((pinned ≡ none) ⊎ (pinned ≡ some kind))
    × (c.paused ≡ false)
    × (c.independent ≡ false → c.active < c.target)

started-Chosen :
    (pinned : Option EncoderKind) (kind : EncoderKind) (c : EncodeConcurrency)
    (r : EncodeConcurrency × Bool)
    → (pinned ≡ none) ⊎ (pinned ≡ some kind)
    → Tried kind c r
    → Chosen pinned c (started kind r)
started-Chosen pinned kind c (d, true) p t = (t, p)
started-Chosen pinned kind c (d, false) p t = t

after-Tried :
    (kind : EncoderKind) (c d : EncodeConcurrency) (r : EncodeConcurrency × Bool)
    → Waits c d
    → Tried kind d r
    → Tried kind c r
after-Tried kind c d (e, false) w t = record {
  cpu_same = t.cpu_same ∙ w.cpu_same;
  gpu_same = t.gpu_same ∙ w.gpu_same;
  total_same = t.total_same ∙ w.total_same;
  pause_same = t.pause_same ∙ w.pause_same;
}
after-Tried cpu c d (e, true) w t = record {
  one_more_active = t.one_more_active ∙ ap (λ n. n + 1) w.cpu_same;
  other_same = t.other_same ∙ w.gpu_same;
  total = t.total ∙ ap (λ n. n + 1) w.total_same;
  within = t.within;
  hold_same = t.hold_same ∙ w.pause_same;
}
after-Tried gpu c d (e, true) w t = record {
  one_more_active = t.one_more_active ∙ ap (λ n. n + 1) w.gpu_same;
  other_same = t.other_same ∙ w.cpu_same;
  total = t.total ∙ ap (λ n. n + 1) w.total_same;
  within = t.within;
  hold_same = t.hold_same ∙ w.pause_same;
}

alone :
    (c d : EncodeConcurrency) (b : Bool) (r : EncodeConcurrency × Option EncoderKind)
    → Waits c d
    → Chosen none c r
    → Chosen none c (if b then (d, none) else r)
alone c d true r w t = w
alone c d false r w t = t

or_other-Chosen :
    (kind : EncoderKind) (c : EncodeConcurrency) (r : EncodeConcurrency × Bool)
    → Tried kind c r
    → Chosen none c (or_other kind r)
or_other-Chosen kind c (d, true) t = (t, inl refl)
or_other-Chosen kind c (d, false) w = alone c d (not d.independent) _ w (
    started-Chosen none (other_kind kind) c (try (other_kind kind) false d) (inl refl) (
      after-Tried (other_kind kind) c d (try (other_kind kind) false d) w
        (try-cases (other_kind kind) false d)))

choose-Chosen :
    (pinned : Option EncoderKind) (c : EncodeConcurrency) → Chosen pinned c (choose pinned c)
choose-Chosen (some kind) c =
    started-Chosen (some kind) kind c (try kind true c) (inr refl) (try-cases kind true c)
choose-Chosen none c =
    or_other-Chosen c.primary c (try c.primary false c) (try-cases c.primary false c)

admitted :
    (pinned : Option EncoderKind) (c : EncodeConcurrency)
    (r : EncodeConcurrency × Option EncoderKind)
    → c.paused ≡ false
    → (c.independent ≡ false → c.active < c.target)
    → Chosen pinned c r
    → Admitted pinned c r
admitted pinned c (d, none) p q t = t
admitted pinned c (d, some kind) p q t = (t.0, t.1, p, q)

guarded :
    (pinned : Option EncoderKind) (c : EncodeConcurrency) (b : Bool)
    (r : EncodeConcurrency × Option EncoderKind)
    → (b ≡ false → Admitted pinned c r)
    → Admitted pinned c (if b then (c, none) else r)
guarded pinned c true r h = still c
guarded pinned c false r h = h refl

-- An encode starts only in a pool that is neither paused nor, under one limit, full, in the class
-- that its job is pinned to, if any, and within the class target; counters change by exactly that
-- encode, and not at all where none starts.
pub try_start_encoder-cases :
    (pinned : Option EncoderKind) (c : EncodeConcurrency)
    → Admitted pinned c (try_start_encoder pinned c)
unfolding try_start_encoder
try_start_encoder-cases pinned c =
    guarded pinned c (c.paused || not c.independent && leb c.target c.active) (choose pinned c)
      (λ e.
        admitted pinned c (choose pinned c) (ground arith) (λ i. ground arith)
          (choose-Chosen pinned c))

Admitted-paused :
    (pinned : Option EncoderKind) (c : EncodeConcurrency)
    (r : EncodeConcurrency × Option EncoderKind)
    → Admitted pinned c r
    → r.0.paused ≡ c.paused
Admitted-paused pinned c (d, none) a = a.pause_same
Admitted-paused pinned c (d, some kind) a = a.0.hold_same

pub try_start_encoder-paused :
    (pinned : Option EncoderKind) (c : EncodeConcurrency)
    → (try_start_encoder pinned c).0.paused ≡ c.paused
try_start_encoder-paused pinned c =
    Admitted-paused pinned c (try_start_encoder pinned c) (try_start_encoder-cases pinned c)
