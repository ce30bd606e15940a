-- ===== src/Server/Scheduler/Publishing/Candidates.antt =====
-- server/scheduler/outputNaming.go: the candidates for an output's path are all different, so that
-- as many of them as there are files cannot all be taken.
use Prim.Native.String.{◌++◌}
use text.Mathlib.TextLemmas.{
  append_assoc, append_cancel_left, append_cancel_right, cons-append, cons≢nil, nil≢cons,
  nil-append,
}
use mathlib.Core.Bool.{false≢true}
use mathlib.Core.List.{nil≢cons as nil≢cons_path}
use transcoderd.Prelude.{
  ℕ, zero, suc, ◌≤◌, ◌<◌, ◌≡◌, ◌≢◌, refl, ap, sym, ◌∙◌, Bool, true, false, ◌||◌, List, [], ◌∷◌,
  String, if◌then◌else◌, length, Bool-cases, inl, inr, arith,
}
use transcoderd.Prelude.Decimal.{decimal, decimal_inj}
use transcoderd.Server.Files.Paths.{FilePath, base, path_eq, path_eq_sound}
use transcoderd.Server.Files.Names.{split_ext, split_ext-joined}
use transcoderd.Server.Scheduler.Publishing.{suffix, candidate}

suffix-numbered : (n : ℕ) → suffix (suc (suc n)) ≡ "_encoded" ++ ("-" ++ decimal (suc (suc n)))
unfolding suffix
suffix-numbered n = append_assoc "_encoded" "-" (decimal (suc (suc n)))

-- One collision and several leave no name in common.
encoded-numbered : (n : ℕ) → suffix (suc zero) ≢ suffix (suc (suc n))
unfolding suffix
encoded-numbered n h = nil≢cons (
    append_cancel_left "_encoded" "" ("-" ++ decimal (suc (suc n))) (h ∙ suffix-numbered n)
    ∙ cons-append "-" "" (decimal (suc (suc n))))

suffix_inj : (m n : ℕ) → suffix (suc m) ≡ suffix (suc n) → m ≡ n
suffix_inj zero zero h = refl
suffix_inj zero (suc n) h = absurd (encoded-numbered n h)
suffix_inj (suc m) zero h = absurd (encoded-numbered m (sym h))
suffix_inj (suc m) (suc n) h =
    let printed =
      append_cancel_left "_encoded-" (decimal (suc (suc m))) (decimal (suc (suc n)))
        (unfold suffix in h) in
    omega (arith, decimal_inj (suc (suc m)) (suc (suc n)) printed)

suffix-ne : (n : ℕ) → suffix (suc n) ≢ ""
unfolding suffix
suffix-ne zero h = cons≢nil (sym (cons-append "_" "encoded" "") ∙ h)
suffix-ne (suc n) h = cons≢nil (sym (cons-append "_" "encoded-" (decimal (suc (suc n)))) ∙ h)

head_of : FilePath → String
head_of [] = ""
head_of (name ∷ p) = name

-- The first candidate is none of the others.
candidate-first : (desired : FilePath) (n : ℕ) → candidate desired zero ≢ candidate desired (suc n)
unfolding candidate head_of
candidate-first [] n h = absurd (nil≢cons_path h)
candidate-first (name ∷ p) n h =
    let (before, ext) = split_ext name in
    suffix-ne n (
      append_cancel_right (suffix (suc n)) "" ext (
        append_cancel_left before (suffix (suc n) ++ ext) ("" ++ ext) (
          sym (ap head_of h)
          ∙ sym (split_ext-joined name)
          ∙ ap (λ t. before ++ t) (sym (nil-append ext)))))

candidate_inj_suc :
    (desired : FilePath) (m n : ℕ) → candidate desired (suc m) ≡ candidate desired (suc n) → m ≡ n
unfolding candidate head_of
candidate_inj_suc desired m n h =
    let (before, ext) = split_ext (base desired) in
    suffix_inj m n (
      append_cancel_right (suffix (suc m)) (suffix (suc n)) ext
        (append_cancel_left before (suffix (suc m) ++ ext) (suffix (suc n) ++ ext) (ap head_of h)))

pub candidate_inj :
    (desired : FilePath) (m n : ℕ) → candidate desired m ≡ candidate desired n → m ≡ n
candidate_inj desired zero zero h = refl
candidate_inj desired zero (suc n) h = absurd (candidate-first desired n h)
candidate_inj desired (suc m) zero h = absurd (candidate-first desired m (sym h))
candidate_inj desired (suc m) (suc n) h = ap suc (candidate_inj_suc desired m n h)

-- Membership by the test of paths.
unfoldable pub is_among : FilePath → List FilePath → Bool
is_among p [] = false
is_among p (q ∷ qs) = path_eq q p || is_among p qs

others : FilePath → List FilePath → List FilePath
others p [] = []
others p (q ∷ qs) = let rest = others p qs in if path_eq q p then rest else q ∷ rest

others-le : (p : FilePath) (qs : List FilePath) → length (others p qs) ≤ length qs
unfolding others
others-le p [] = omega arith
others-le p (q ∷ qs) = elim (Bool-cases (path_eq q p)) [
  | inl e ↦ rw e (omega (arith, others-le p qs))
  | inr e ↦ rw e (omega (arith, others-le p qs))
]

others-lt :
    (p : FilePath) (qs : List FilePath) → is_among p qs ≡ true → length (others p qs) < length qs
unfolding others is_among
others-lt p [] h = absurd (false≢true h)
others-lt p (q ∷ qs) h = elim (Bool-cases (path_eq q p)) [
  | inl e ↦ rw e (omega (arith, others-le p qs))
  | inr e ↦ rw e (omega (arith, others-lt p qs (rw e at h)))
]

among-others :
    (p r : FilePath) (qs : List FilePath)
    → p ≢ r
    → is_among r qs ≡ true
    → is_among r (others p qs) ≡ true
unfolding others is_among
among-others p r [] h k = k
among-others p r (q ∷ qs) h k = elim (Bool-cases (path_eq q p)) [
  | inl e ↦ elim (Bool-cases (path_eq q r)) [
    | inl same ↦ absurd (h (sym (path_eq_sound q p e) ∙ path_eq_sound q r same))
    | inr differs ↦ rw e (among-others p r qs h (rw differs at k))
  ]
  | inr e ↦ elim (Bool-cases (path_eq q r)) [
    | inl same ↦ rw (e, same) refl
    | inr differs ↦ rw (e, differs) (among-others p r qs h (rw differs at k))
  ]
]

-- Different paths that are all among some are at most as many.
pub distinct-le :
    (f : ℕ → FilePath) (n : ℕ) (qs : List FilePath)
    → ((i j : ℕ) → f i ≡ f j → i ≡ j)
    → ((i : ℕ) → i < n → is_among (f i) qs ≡ true)
    → n ≤ length qs
distinct-le f zero qs inj all = omega arith
distinct-le f (suc n) qs inj all =
    let fewer = others-lt (f n) qs (all n (omega arith)) in
    let rest = distinct-le f n (others (f n) qs) inj (λ i h.
      among-others (f n) (f i) qs (λ e. apart i h (inj n i e)) (all i (omega (arith, h)))) in
    omega (arith, fewer, rest)
  where
    apart : (i : ℕ) → i < n → n ≢ i
    apart i h e = absurd (omega (arith, h, e))
