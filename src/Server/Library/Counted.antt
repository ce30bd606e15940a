-- ===== src/Server/Library/Counted.antt =====
-- server/library/operations.go: what the bulk queueing of files counts, and when it ends.
use mathlib.Core.Option.{some-ne-none}
use transcoderd.Prelude.{
  ℕ, suc, ◌+◌, ◌≤◌, ◌≡◌, ◌⊎◌, refl, ap, ◌∙◌, Bool, true, false, Option, none, some, List, [], ◌∷◌,
  ◌++◌, String, leb, if◌then◌else◌, length, length-append, inl, inr, arith,
}
use transcoderd.Server.Library.{
  MediaFile, LoadState, scheduled, skipped, not_queued, MediaLoadResult, MediaOperation, Ending,
  context_done, Attempt, Step, result, stop, attempt, is_scheduled, with_result, file_done, load,
}

-- The results of files that were scheduled.
abbrev pub count_scheduled : List MediaLoadResult → ℕ
count_scheduled [] = 0
count_scheduled (r ∷ rs) =
    let rest = count_scheduled rs in if is_scheduled r.state then suc rest else rest

pub record IsCounted (op : MediaOperation) : Type 0 where
  pub examined : op.examined ≡ op.scheduled_files + op.skipped_files + op.failed_files
  pub results : length op.results ≡ op.examined
  pub scheduled_results : count_scheduled op.results ≡ op.scheduled_files

abbrev next : LoadState → ℕ → ℕ
next state n = if is_scheduled state then suc n else n

next_swap :
    (a b : Bool) (n : ℕ)
    → (if a then suc (if b then suc n else n) else (if b then suc n else n))
      ≡ (if b then suc (if a then suc n else n) else (if a then suc n else n))
next_swap true true n = refl
next_swap true false n = refl
next_swap false true n = refl
next_swap false false n = refl

count_scheduled-snoc :
    (rs : List MediaLoadResult) (r : MediaLoadResult)
    → count_scheduled (rs ++ (r ∷ [])) ≡ next r.state (count_scheduled rs)
count_scheduled-snoc [] r = refl
count_scheduled-snoc (x ∷ rs) r =
    ap (next x.state) (count_scheduled-snoc rs r)
    ∙ next_swap (is_scheduled x.state) (is_scheduled r.state) (count_scheduled rs)

file_done_rule :
    (P : MediaOperation × Option Ending → Type 0) (op : MediaOperation) (is_canceled is_full : Bool)
    (s : Step) (go : LoadState → String → String → MediaOperation × Option Ending)
    → P (op, some context_done)
    → (is_full ≡ true → P (op, none))
    → ((e : Ending) → P (op, some e))
    → (is_full ≡ false
        → (state : LoadState) (job_id message : String) → P (go state job_id message))
    → P (file_done op is_canceled is_full s go)
file_done_rule P op true is_full s go c f e k = c
file_done_rule P op false true s go c f e k = f refl
file_done_rule P op false false (stop x) go c f e k = e x
file_done_rule P op false false (result state job_id message) go c f e k =
    k refl state job_id message

with_result-IsCounted :
    (now : ℕ) (f : MediaFile) (state : LoadState) (job_id message : String) (op : MediaOperation)
    → IsCounted op
    → IsCounted (with_result now f state job_id message op)
      × ((with_result now f state job_id message op).scheduled_files
          ≡ next state op.scheduled_files)
unfolding with_result
with_result-IsCounted now f scheduled job_id message op h =
    let r : MediaLoadResult = record {
      id = f.id;
      path = f.path;
      state = scheduled;
      job_id = job_id;
      message = message;
    } in
    (
      record {
        examined = omega (arith, h.examined);
        results = length-append op.results (r ∷ []) ∙ ap (λ n. n + 1) h.results;
        scheduled_results = count_scheduled-snoc op.results r ∙ omega (arith, h.scheduled_results);
      },
      omega arith,
    )
with_result-IsCounted now f skipped job_id message op h =
    let r : MediaLoadResult = record {
      id = f.id;
      path = f.path;
      state = skipped;
      job_id = job_id;
      message = message;
    } in
    (
      record {
        examined = omega (arith, h.examined);
        results = length-append op.results (r ∷ []) ∙ ap (λ n. n + 1) h.results;
        scheduled_results = count_scheduled-snoc op.results r ∙ h.scheduled_results;
      },
      refl,
    )
with_result-IsCounted now f not_queued job_id message op h =
    let r : MediaLoadResult = record {
      id = f.id;
      path = f.path;
      state = not_queued;
      job_id = job_id;
      message = message;
    } in
    (
      record {
        examined = omega (arith, h.examined);
        results = length-append op.results (r ∷ []) ∙ ap (λ n. n + 1) h.results;
        scheduled_results = count_scheduled-snoc op.results r ∙ h.scheduled_results;
      },
      refl,
    )

below_target : (target n : ℕ) (state : LoadState) → leb target n ≡ false → next state n ≤ target
below_target target n scheduled e = ground (arith, e)
below_target target n skipped e = ground (arith, e)
below_target target n not_queued e = ground (arith, e)

loaded :
    (target n : ℕ) (op : MediaOperation) (files : List (MediaFile × Attempt))
    → IsCounted op
    → op.scheduled_files ≡ n
    → n ≤ target
    → IsCounted (load target n op files).0 × ((load target n op files).0.scheduled_files ≤ target)
unfolding load
loaded target n op [] h e le = (h, omega (arith, e, le))
loaded target n op ((f, a) ∷ rest) h e le =
    let so_far : op.scheduled_files ≤ target = omega (arith, e, le) in
    file_done_rule (λ r. IsCounted r.0 × (r.0.scheduled_files ≤ target)) op a.is_canceled
      (leb target n) (attempt f a)
      (λ state job_id message.
        load target (next state n) (with_result a.recorded_at f state job_id message op) rest)
      (h, so_far) (λ full. (h, so_far)) (λ x. (h, so_far))
      (λ open_target state job_id message.
        let (h', e') = with_result-IsCounted a.recorded_at f state job_id message op h in
        loaded target (next state n) (with_result a.recorded_at f state job_id message op) rest h'
          (e' ∙ ap (next state) e) (below_target target n state open_target))

-- The bulk queueing keeps the counters of its operation: the examined files are those scheduled,
-- skipped and failed, there is a result for each, as many are scheduled as it counts, and it never
-- schedules more than the target.
pub load-IsCounted :
    (target : ℕ) (op : MediaOperation) (files : List (MediaFile × Attempt))
    → IsCounted op
    → op.scheduled_files ≤ target
    → IsCounted (load target op.scheduled_files op files).0
      × ((load target op.scheduled_files op files).0.scheduled_files ≤ target)
load-IsCounted target op files h le = loaded target op.scheduled_files op files h refl le

-- Without an error all files are examined, or as many are scheduled as were asked for.
Complete : ℕ → MediaOperation → ℕ → MediaOperation × Option Ending → Type 0
Complete target op files r =
    r.1 ≡ none → (target ≤ r.0.scheduled_files) ⊎ (r.0.examined ≡ op.examined + files)

examined-with_result :
    (now : ℕ) (f : MediaFile) (state : LoadState) (job_id message : String) (op : MediaOperation)
    → (with_result now f state job_id message op).examined ≡ op.examined + 1
unfolding with_result
examined-with_result now f scheduled job_id message op = refl
examined-with_result now f skipped job_id message op = refl
examined-with_result now f not_queued job_id message op = refl

load-Complete :
    (target n : ℕ) (op : MediaOperation) (files : List (MediaFile × Attempt))
    → IsCounted op
    → op.scheduled_files ≡ n
    → Complete target op (length files) (load target n op files)
unfolding load Complete
load-Complete target n op [] h e = λ q. inr (omega arith)
load-Complete target n op ((f, a) ∷ rest) h e =
    file_done_rule (Complete target op (suc (length rest))) op a.is_canceled (leb target n)
      (attempt f a)
      (λ state job_id message.
        load target (next state n) (with_result a.recorded_at f state job_id message op) rest)
      (λ q. absurd (some-ne-none context_done q)) (λ full q. inl (ground (arith, full, e)))
      (λ x q. absurd (some-ne-none x q))
      (λ open_target state job_id message q.
        let op' = with_result a.recorded_at f state job_id message op in
        let (h', e') = with_result-IsCounted a.recorded_at f state job_id message op h in
        elim (load-Complete target (next state n) op' rest h' (e' ∙ ap (next state) e) q) [
          | inl done ↦ inl done
          | inr all ↦
              inr (omega (arith, all, examined-with_result a.recorded_at f state job_id message op))
        ])

-- With counters that agree, a bulk queueing that ends without an error has scheduled as many files
-- as were asked for, or examined all of them.
pub load-ends :
    (target : ℕ) (op : MediaOperation) (files : List (MediaFile × Attempt))
    → IsCounted op
    → (load target op.scheduled_files op files).1 ≡ none
    → (target ≤ (load target op.scheduled_files op files).0.scheduled_files)
      ⊎ ((load target op.scheduled_files op files).0.examined ≡ op.examined + length files)
unfolding Complete
load-ends target op files h = load-Complete target op.scheduled_files op files h refl
