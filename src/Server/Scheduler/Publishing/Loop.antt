-- ===== src/Server/Scheduler/Publishing/Loop.antt =====
-- server/scheduler/outputNaming.go: the loop over the candidates, how it ends and where.
use mathlib.Core.Bool.{true≢false}
use mathlib.Core.Path.{subst}
use mathlib.Core.Option.{some-ne-none}
use transcoderd.Prelude.{
  ℕ, zero, suc, ◌+◌, ◌<◌, ◌≡◌, ◌≢◌, refl, ap, sym, ◌∙◌, true, false, Option, none, some, ◌∷◌,
  length, Bool-cases, inl, inr, arith,
}
use transcoderd.Server.Files.Paths.{FilePath, path_eq, path_eq_sound, path_eq_refl}
use transcoderd.Server.Files.Disk.{Disk}
use transcoderd.Server.Scheduler.Publishing.{
  candidate, Access, Published, published, not_published, publish, link_output_without_overwrite,
}
use transcoderd.Server.Scheduler.Publishing.Candidates.{is_among, candidate_inj, distinct-le}
use transcoderd.Server.Scheduler.Publishing.Tries.{
  paths, length-paths, Kept, placed, failed, passed, Try-cases,
}

-- The candidate that the loop ends at is not the source; those before it are the source or taken.
pub record First (desired source : FilePath) (d : Disk) (start : ℕ) (path : FilePath) : Type 0 where
  pub index : ℕ
  pub is_candidate : path ≡ candidate desired (start + index)
  pub not_source : path ≢ source
  pub passed_over :
      (i : ℕ) → i < index → is_among (candidate desired (start + i)) (source ∷ paths d) ≡ true

pub data Ends (staging desired source : FilePath) (d : Disk) (start : ℕ)
    : Option Published → Type 0 where
  ends_published :
      (path : FilePath) (d' : Disk)
      → Kept staging path d d'
      → First desired source d start path
      → Ends staging desired source d start (some (published path d'))
  ends_failed : Ends staging desired source d start (some not_published)

-- What holds at a number and at `n` numbers after it.
from_next :
    (P : ℕ → Type 0) (start n : ℕ)
    → P start
    → ((i : ℕ) → i < n → P (suc start + i))
    → (i : ℕ) → i < suc n
    → P (start + i)
from_next P start n h all zero k = rw (at_zero start) h
  where
    at_zero : (m : ℕ) → m + zero ≡ m
    at_zero m = omega arith
from_next P start n h all (suc i) k = rw (at_suc start) (all i (omega (arith, k)))
  where
    at_suc : (m : ℕ) → m + suc i ≡ suc m + i
    at_suc m = omega arith

First-one_more :
    (desired source path : FilePath) (d : Disk) (start : ℕ)
    → is_among (candidate desired start) (source ∷ paths d) ≡ true
    → First desired source d (suc start) path
    → First desired source d start path
First-one_more desired source path d start h f = record {
  index = suc f.index;
  is_candidate = f.is_candidate ∙ ap (candidate desired) (omega arith);
  not_source = f.not_source;
  passed_over =
      from_next (λ n. is_among (candidate desired n) (source ∷ paths d) ≡ true) start f.index h
        f.passed_over;
}

Ends-one_more :
    (staging desired source : FilePath) (d : Disk) (start : ℕ) (r : Option Published)
    → is_among (candidate desired start) (source ∷ paths d) ≡ true
    → Ends staging desired source d (suc start) r
    → Ends staging desired source d start r
Ends-one_more staging desired source d start r h (ends_published path d' k f) =
    ends_published path d' k (First-one_more desired source path d start h f)
Ends-one_more staging desired source d start r h ends_failed = ends_failed

-- While the fuel lasts the loop passes over candidates that are taken.
pub data Runs (staging desired source : FilePath) (d : Disk) (start fuel : ℕ) (r : Option Published)
    : Type 0 where
  runs_out :
      ((i : ℕ) → i < fuel → is_among (candidate desired (start + i)) (source ∷ paths d) ≡ true)
      → Runs staging desired source d start fuel r
  ends : Ends staging desired source d start r → Runs staging desired source d start fuel r

Runs-one_more :
    (staging desired source : FilePath) (d : Disk) (start fuel : ℕ) (r : Option Published)
    → is_among (candidate desired start) (source ∷ paths d) ≡ true
    → Runs staging desired source d (suc start) fuel r
    → Runs staging desired source d start (suc fuel) r
Runs-one_more staging desired source d start fuel r h (runs_out all) =
    runs_out
      (from_next (λ n. is_among (candidate desired n) (source ∷ paths d) ≡ true) start fuel h all)
Runs-one_more staging desired source d start fuel r h (ends e) =
    ends (Ends-one_more staging desired source d start r h e)

candidate-First :
    (desired source : FilePath) (d : Disk) (start : ℕ)
    → path_eq (candidate desired start) source ≡ false
    → First desired source d start (candidate desired start)
candidate-First desired source d start other = record {
  index = zero;
  is_candidate = ap (candidate desired) (omega arith);
  not_source =
      λ e. true≢false (sym (path_eq_refl source) ∙ ap (λ p. path_eq p source) (sym e) ∙ other);
  passed_over = λ i h. absurd (omega (arith, h));
}

among-source :
    (desired source : FilePath) (d : Disk) (start : ℕ)
    → path_eq (candidate desired start) source ≡ true
    → is_among (candidate desired start) (source ∷ paths d) ≡ true
unfolding is_among
among-source desired source d start e =
    rw (path_eq_sound (candidate desired start) source e, path_eq_refl source) refl

among-paths :
    (source path : FilePath) (d : Disk)
    → is_among path (paths d) ≡ true
    → is_among path (source ∷ paths d) ≡ true
unfolding is_among
among-paths source path d h = elim (Bool-cases (path_eq source path)) [
  | inl e ↦ rw e refl
  | inr e ↦ rw e h
]

publish-Runs :
    (a : Access) (staging desired source : FilePath) (d : Disk) (fuel start : ℕ)
    → Runs staging desired source d start fuel (publish a staging desired source d fuel start)
unfolding publish
publish-Runs a staging desired source d zero start = runs_out (λ i h. absurd (omega (arith, h)))
publish-Runs a staging desired source d (suc fuel) start =
    let rest = publish a staging desired source d fuel (suc start) in
    let rest-Runs = publish-Runs a staging desired source d fuel (suc start) in
    elim (Bool-cases (path_eq (candidate desired start) source)) [
      | inl e ↦ rw e (
          Runs-one_more staging desired source d start fuel rest
            (among-source desired source d start e) rest-Runs)
      | inr e ↦ elim (Try-cases a staging (candidate desired start) d) [
        | placed d' q kept ↦
            rw (e, q rest)
              (ends (
                ends_published (candidate desired start) d' kept
                  (candidate-First desired source d start e)))
        | failed q ↦ rw (e, q rest) (ends ends_failed)
        | passed q h ↦
            rw (e, q rest)
              (Runs-one_more staging desired source d start fuel rest
                (among-paths source (candidate desired start) d h) rest-Runs)
      ]
    ]

output-Ends :
    (a : Access) (staging desired source : FilePath) (d : Disk)
    → Ends staging desired source d 0 (link_output_without_overwrite a staging desired source d)
unfolding link_output_without_overwrite
output-Ends a staging desired source d =
    elim (publish-Runs a staging desired source d (length d + 2) 0) [
      | runs_out all ↦
          let few =
            distinct-le (λ i. candidate desired (0 + i)) (length d + 2) (source ∷ paths d)
              (λ i j e. omega (arith, candidate_inj desired (0 + i) (0 + j) e)) all in
          absurd (omega (arith, few, length-paths d))
      | ends e ↦ e
    ]

Ends-some :
    (staging desired source : FilePath) (d : Disk) (start : ℕ) (r : Option Published)
    → Ends staging desired source d start r
    → r ≢ none
Ends-some staging desired source d start r (ends_published path d' k f) e =
    some-ne-none (published path d') e
Ends-some staging desired source d start r ends_failed e = some-ne-none not_published e

-- The loop over the candidates ends within two steps more than there are files: it publishes the
-- output or fails.
pub link_output_without_overwrite-ends :
    (a : Access) (staging desired source : FilePath) (d : Disk)
    → link_output_without_overwrite a staging desired source d ≢ none
link_output_without_overwrite-ends a staging desired source d =
    Ends-some staging desired source d 0 (link_output_without_overwrite a staging desired source d)
      (output-Ends a staging desired source d)

PublishedAt : FilePath → FilePath → FilePath → Disk → Option Published → Type 0
PublishedAt staging desired source d none = Unit
PublishedAt staging desired source d (some not_published) = Unit
PublishedAt staging desired source d (some (published path d')) =
    Kept staging path d d' × First desired source d 0 path

Ends-Published :
    (staging desired source : FilePath) (d : Disk) (r : Option Published)
    → Ends staging desired source d 0 r
    → PublishedAt staging desired source d r
unfolding PublishedAt
Ends-Published staging desired source d r (ends_published path d' k f) = (k, f)
Ends-Published staging desired source d r ends_failed = tt

-- Where an output is published at a path, the path has the staged file, by its inode, and was free
-- or had it before; every file stays what it was, and no other path changes; the path is a
-- candidate and not the source, and each candidate before it is the source or taken.
pub link_output_without_overwrite-Kept :
    (a : Access) (staging desired source path : FilePath) (d d' : Disk)
    → link_output_without_overwrite a staging desired source d ≡ some (published path d')
    → Kept staging path d d' × First desired source d 0 path
unfolding PublishedAt
link_output_without_overwrite-Kept a staging desired source path d d' h =
    subst (PublishedAt staging desired source d) h (
      Ends-Published staging desired source d
        (link_output_without_overwrite a staging desired source d)
        (output-Ends a staging desired source d))
