-- ===== src/Worker/EncodePool.antt =====
-- worker/worker/encodeConcurrency.go: how many encodes of each class run. Counters are natural
-- numbers: limits are validated before they come here, and no counter is lowered at 0.
pub mod Starts
use transcoderd.Prelude.{
  ℕ, zero, suc, ◌+◌, ◌-◌, Bool, true, false, not, ◌&&◌, ◌||◌, Option, none, some, List, [], ◌∷◌,
  ◌++◌, ltb, leb, ◌==◌, if◌then◌else◌,
}

pub data EncoderKind : Type 0 where
  cpu gpu : EncoderKind

-- `changed` is the channel of capacity one: whether a wake-up is pending.
pub record EncodeConcurrency : Type 0 where
  pub active : ℕ
  pub target : ℕ
  pub changed : Bool
  pub primary : EncoderKind
  pub independent : Bool
  pub cpu_jobs : ℕ
  pub gpu_jobs : ℕ
  pub cpu_active : ℕ
  pub gpu_active : ℕ
  pub cpu_target : ℕ
  pub gpu_target : ℕ
  pub last_cpu_jobs : ℕ
  pub last_gpu_jobs : ℕ
  pub paused : Bool

abbrev pub at_least_one : ℕ → ℕ
at_least_one target = if ltb target 1 then 1 else target

unfoldable pub new_encode_concurrency : ℕ → EncodeConcurrency
new_encode_concurrency n = record {
  active = 0;
  target = at_least_one n;
  changed = false;
  primary = gpu;
  independent = false;
  cpu_jobs = 0;
  gpu_jobs = at_least_one n;
  cpu_active = 0;
  gpu_active = 0;
  cpu_target = 0;
  gpu_target = at_least_one n;
  last_cpu_jobs = 0;
  last_gpu_jobs = at_least_one n;
  paused = false;
}

abbrev pub notify : EncodeConcurrency → EncodeConcurrency
notify c = record c { changed = true }

abbrev pub target_of_primary : EncoderKind → ℕ → EncodeConcurrency → EncodeConcurrency
target_of_primary cpu n c = record c {
  cpu_jobs = n;
  cpu_target = n;
  gpu_jobs = 0;
  last_cpu_jobs = n;
  last_gpu_jobs = 0;
}
target_of_primary gpu n c = record c {
  gpu_jobs = n;
  gpu_target = n;
  cpu_jobs = 0;
  last_gpu_jobs = n;
  last_cpu_jobs = 0;
}

unfoldable pub set_target : ℕ → EncodeConcurrency → EncodeConcurrency
set_target n c =
    if ltb n 1
    then c
    else notify (target_of_primary c.primary n (record c { target = n; independent = false }))

unfoldable pub set_primary : EncoderKind → EncodeConcurrency → EncodeConcurrency
set_primary cpu c = record c {
  primary = cpu;
  cpu_jobs = c.target;
  cpu_target = c.target;
  gpu_jobs = 0;
  gpu_target = 0;
  last_cpu_jobs = c.target;
  last_gpu_jobs = 0;
}
set_primary gpu c = record c { primary = gpu }

unfoldable pub pause : EncodeConcurrency → EncodeConcurrency
pause c = notify (record c { cpu_jobs = 0; gpu_jobs = 0 })

-- The largest `int`.
abbrev pub max_int : ℕ
max_int = 9223372036854775807

unfoldable pub safe_encoder_sum : ℕ → ℕ → ℕ
safe_encoder_sum c g = if ltb (max_int - g) c then max_int else c + g

abbrev pub positive_or : ℕ → ℕ → ℕ
positive_or n before = if ltb 0 n then n else before

unfoldable pub set_limits : ℕ → ℕ → EncodeConcurrency → EncodeConcurrency
unfolding safe_encoder_sum
set_limits cpus gpus c =
    let cpu_target' = positive_or cpus c.cpu_target in
    let gpu_target' = positive_or gpus c.gpu_target in
    let some_jobs = ltb 0 (cpus + gpus) in
    notify (record c {
      independent = true;
      cpu_jobs = cpus;
      gpu_jobs = gpus;
      cpu_target = cpu_target';
      gpu_target = gpu_target';
      target = if some_jobs then cpus + gpus else safe_encoder_sum cpu_target' gpu_target';
      last_cpu_jobs = if some_jobs then cpus else c.last_cpu_jobs;
      last_gpu_jobs = if some_jobs then gpus else c.last_gpu_jobs;
    })

abbrev pub only_kind : ℕ → ℕ → Option EncoderKind
only_kind c g = if ltb 0 c && g == 0 then some cpu else if ltb 0 g && c == 0 then some gpu else none

-- The class that every accepted job gets, none where both are in use.
unfoldable pub admission_kind : EncodeConcurrency → Option EncoderKind
admission_kind c =
    if c.cpu_jobs + c.gpu_jobs == 0
    then only_kind c.last_cpu_jobs c.last_gpu_jobs
    else only_kind c.cpu_jobs c.gpu_jobs

abbrev pub active_of : EncoderKind → EncodeConcurrency → ℕ
active_of cpu c = c.cpu_active
active_of gpu c = c.gpu_active

abbrev pub target_of : EncoderKind → EncodeConcurrency → ℕ
target_of cpu c = c.cpu_target
target_of gpu c = c.gpu_target

abbrev pub desired_of : EncoderKind → EncodeConcurrency → ℕ
desired_of cpu c = c.cpu_jobs
desired_of gpu c = c.gpu_jobs

abbrev pub with_target : EncoderKind → ℕ → EncodeConcurrency → EncodeConcurrency
with_target cpu n c = record c { cpu_target = n }
with_target gpu n c = record c { gpu_target = n }

abbrev pub one_more : EncoderKind → EncodeConcurrency → EncodeConcurrency
one_more cpu c = record c { cpu_active = c.cpu_active + 1; active = c.active + 1 }
one_more gpu c = record c { gpu_active = c.gpu_active + 1; active = c.active + 1 }

abbrev pub kind_eq : EncoderKind → EncoderKind → Bool
kind_eq cpu cpu = true
kind_eq gpu gpu = true
kind_eq _ _ = false

-- The closure `try` of `tryStartEncoder`.
unfoldable pub try : EncoderKind → Bool → EncodeConcurrency → EncodeConcurrency × Bool
try kind restored c =
    if c.independent && desired_of kind c == 0 && not restored && ltb 0 (c.cpu_jobs + c.gpu_jobs)
    then (c, false)
    else let d = if restored && target_of kind c == 0 then with_target kind 1 c else c in
      if leb (target_of kind d) (active_of kind d) || target_of kind d == 0
      then (d, false)
      else (one_more kind d, true)

abbrev pub other_kind : EncoderKind → EncoderKind
other_kind cpu = gpu
other_kind gpu = cpu

abbrev pub started : EncoderKind → EncodeConcurrency × Bool → EncodeConcurrency × Option EncoderKind
started kind (c, true) = (c, some kind)
started kind (c, false) = (c, none)

abbrev pub or_other :
    EncoderKind → EncodeConcurrency × Bool → EncodeConcurrency × Option EncoderKind
or_other kind (c, true) = (c, some kind)
or_other kind (c, false) =
    if not c.independent
    then (c, none)
    else started (other_kind kind) (try (other_kind kind) false c)

abbrev pub choose : Option EncoderKind → EncodeConcurrency → EncodeConcurrency × Option EncoderKind
choose (some kind) c = started kind (try kind true c)
choose none c = or_other c.primary (try c.primary false c)

-- The class of the encode that was started, none where none may start.
unfoldable pub try_start_encoder :
    Option EncoderKind → EncodeConcurrency → EncodeConcurrency × Option EncoderKind
unfolding try
try_start_encoder pinned c =
    if c.paused || not c.independent && leb c.target c.active then (c, none) else choose pinned c

abbrev pub one_less : ℕ → ℕ
one_less n = if ltb 0 n then n - 1 else n

abbrev pub less_of : EncoderKind → EncodeConcurrency → EncodeConcurrency
less_of cpu c = record c { cpu_active = one_less c.cpu_active }
less_of gpu c = record c { gpu_active = one_less c.gpu_active }

unfoldable pub finish_encoder : EncoderKind → EncodeConcurrency → EncodeConcurrency
finish_encoder kind c = notify (record (less_of kind c) { active = one_less c.active })

unfoldable pub set_paused : Bool → EncodeConcurrency → EncodeConcurrency
set_paused b c = notify (record c { paused = b })

-- `tryStart` and `finish` serve the queue without classes.
unfoldable pub try_start : EncodeConcurrency → EncodeConcurrency × Bool
try_start c =
    if c.paused || leb c.target c.active
    then (c, false)
    else (record c { active = c.active + 1 }, true)

unfoldable pub finish : EncodeConcurrency → EncodeConcurrency
finish c = notify (record c { active = one_less c.active })

-- One pass of `runEncoderQueue` over the jobs that wait, each with the class that it is pinned to:
-- the pool, the jobs that are started with their classes, and those that go on waiting.
abbrev pub pick {ℓ} :
    {J : Type ℓ}
    → J × Option EncoderKind
    → Option EncoderKind
    → EncodeConcurrency × List (J × EncoderKind) × List (J × Option EncoderKind)
    → EncodeConcurrency × List (J × EncoderKind) × List (J × Option EncoderKind)
pick (j, pinned) (some kind) (c, run, wait) = (c, (j, kind) ∷ run, wait)
pick (j, pinned) none (c, run, wait) = (c, run, (j, pinned) ∷ wait)

unfoldable pub scan {ℓ} :
    {J : Type ℓ}
    → List (J × Option EncoderKind)
    → EncodeConcurrency
    → EncodeConcurrency × List (J × EncoderKind) × List (J × Option EncoderKind)
scan [] c = (c, [], [])
scan ((j, pinned) ∷ pending) c =
    let (c', kind) = try_start_encoder pinned c in pick (j, pinned) kind (scan pending c')
