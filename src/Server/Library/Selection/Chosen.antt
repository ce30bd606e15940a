-- ===== src/Server/Library/Selection/Chosen.antt =====
-- What server/library/operations.go takes of a selection: one eligible file for each ID.
use mathlib.Core.List.{Memᴰ}
use transcoderd.Prelude.{
  ◌+◌, ◌≤◌, ◌≡◌, ◌⊎◌, refl, sym, Bool, true, false, not, ◌&&◌, Option, none, some, List, [], ◌∷◌,
  String, str_eq, eq_iff, leb, if◌then◌else◌, length, any, All, Bool-cases, inl, inr, arith,
}
use transcoderd.Server.Library.{MediaFile}
use transcoderd.Server.Library.Selection.{
  PreviewFile, Preview, MediaBatchRequest, BatchError, is_selected, has_duplicate, deleted,
  with_file, choose_files, target_in_range, all_met, batch_files,
}
use transcoderd.Server.Library.Selection.Distinct.{
  Distinct, Distinct-deleted, length-deleted, is_selected-deleted, kept-deleted,
}

-- A file that may be taken.
pub record IsTaken (selection : List String) (fs : List PreviewFile) (f : MediaFile) : Type 0 where
  pub asked : is_selected f.id selection ≡ true
  pub preview : PreviewFile
  pub among : Memᴰ preview fs
  pub same : preview.file ≡ f
  pub eligible : preview.eligible ≡ true

pub record Chosen (selection : List String) (fs : List PreviewFile) (files : List MediaFile)
    (left : List String) : Type 0 where
  pub counted : length files + length left ≡ length selection
  pub taken : All (IsTaken selection fs) files
  pub met :
      (id : String)
      → is_selected id selection ≡ true
      → (any (λ f. str_eq f.id id) files ≡ true) ⊎ (is_selected id left ≡ true)

abbrev ChosenIf : List String → List PreviewFile → Option (List MediaFile × List String) → Type 0
ChosenIf selection fs none = Unit
ChosenIf selection fs (some (files, left)) = Chosen selection fs files left

taken-more :
    (wide narrow : List String) (p : PreviewFile) (fs : List PreviewFile) (files : List MediaFile)
    → ((id : String) → is_selected id narrow ≡ true → is_selected id wide ≡ true)
    → All (IsTaken narrow fs) files
    → All (IsTaken wide (p ∷ fs)) files
taken-more wide narrow p fs [] k h = tt
taken-more wide narrow p fs (f ∷ files) k h = (
  record {
    asked = k f.id h.0.asked;
    preview = h.0.preview;
    among = Memᴰ.tail h.0.among;
    same = h.0.same;
    eligible = h.0.eligible;
  },
  taken-more wide narrow p fs files k h.1,
)

with_file-ChosenIf :
    (selection : List String) (p : PreviewFile) (fs : List PreviewFile)
    (o : Option (List MediaFile × List String))
    → Distinct selection
    → is_selected p.file.id selection ≡ true
    → p.eligible ≡ true
    → ChosenIf (deleted p.file.id selection) fs o
    → ChosenIf selection (p ∷ fs) (with_file p.file o)
with_file-ChosenIf selection p fs none d a e h = tt
with_file-ChosenIf selection p fs (some (files, left)) d a e h = record {
  counted = omega (arith, h.counted, length-deleted p.file.id selection d a);
  taken = (
    record { asked = a; preview = p; among = Memᴰ.head refl; same = refl; eligible = e },
    taken-more selection (deleted p.file.id selection) p fs files
        (λ id k. is_selected-deleted p.file.id id selection k) h.taken,
  );
  met = λ id k. elim (Bool-cases (str_eq p.file.id id)) [
    | inl this ↦ inl (ground (arith, this))
    | inr other ↦ elim (h.met id (kept-deleted p.file.id id selection other k)) [
      | inl found ↦ inl (ground (arith, found))
      | inr waits ↦ inr waits
    ]
  ];
}

unasked-ChosenIf :
    (selection : List String) (p : PreviewFile) (fs : List PreviewFile)
    (o : Option (List MediaFile × List String))
    → ChosenIf selection fs o
    → ChosenIf selection (p ∷ fs) o
unasked-ChosenIf selection p fs none h = tt
unasked-ChosenIf selection p fs (some (files, left)) h = record {
  counted = h.counted;
  taken = taken-more selection selection p fs files (λ id k. k) h.taken;
  met = h.met;
}

eligible-ChosenIf :
    (selection : List String) (p : PreviewFile) (fs : List PreviewFile)
    (o : Option (List MediaFile × List String)) (b : Bool)
    → p.eligible ≡ b
    → Distinct selection
    → is_selected p.file.id selection ≡ true
    → ChosenIf (deleted p.file.id selection) fs o
    → ChosenIf selection (p ∷ fs) (if not b then none else with_file p.file o)
eligible-ChosenIf selection p fs o false e d a h = tt
eligible-ChosenIf selection p fs o true e d a h = with_file-ChosenIf selection p fs o d a e h

choose_files-ChosenIf :
    (selection : List String) (fs : List PreviewFile)
    → Distinct selection
    → ChosenIf selection fs (choose_files selection fs)
unfolding choose_files
choose_files-ChosenIf selection [] d = record {
  counted = omega arith;
  taken = tt;
  met = λ id k. inr k;
}
choose_files-ChosenIf selection (p ∷ fs) d = elim (Bool-cases (is_selected p.file.id selection)) [
  | inr other ↦ rw other (unasked-ChosenIf selection p fs _ (choose_files-ChosenIf selection fs d))
  | inl asked ↦ rw asked (
      eligible-ChosenIf selection p fs (choose_files (deleted p.file.id selection) fs) p.eligible
        refl d asked
        (choose_files-ChosenIf (deleted p.file.id selection) fs
          (Distinct-deleted p.file.id selection d)))
]

has_duplicate-Distinct :
    (seen ids : List String)
    → has_duplicate seen ids ≡ false
    → Distinct ids × All (λ id. is_selected id seen ≡ false) ids
unfolding has_duplicate
has_duplicate-Distinct seen [] = λ h. (tt, tt)
has_duplicate-Distinct seen (id ∷ ids) = elim (Bool-cases (is_selected id seen)) [
  | inl twice ↦ rw twice (λ h. absurd (ground (arith, h)))
  | inr new ↦ rw new (λ h.
      let (distinct, unseen) = has_duplicate-Distinct (id ∷ seen) ids h in
      ((absent id ids seen unseen, distinct), (refl, older id ids seen unseen)))
]
  where
    older :
        (id : String) (ids seen : List String)
        → All (λ other. is_selected other (id ∷ seen) ≡ false) ids
        → All (λ other. is_selected other seen ≡ false) ids
    older id [] seen h = tt
    older id (x ∷ ids) seen h = (ground (arith, h.0), older id ids seen h.1)

    absent :
        (id : String) (ids seen : List String)
        → All (λ other. is_selected other (id ∷ seen) ≡ false) ids
        → is_selected id ids ≡ false
    absent id [] seen h = refl
    absent id (x ∷ ids) seen h = elim (Bool-cases (str_eq id x)) [
      | inr other ↦ ground (arith, other, absent id ids seen h.1)
      | inl same ↦
          let back : str_eq x id ≡ true = (eq_iff x id).1 (sym ((eq_iff id x).0 same)) in
          absurd (ground (arith, h.0, back))
    ]

-- What a batch takes of a preview.
pub record Batch (r : MediaBatchRequest) (scan : Preview) (files : List MediaFile) : Type 0 where
  pub asked : target_in_range r.target ≡ true
  pub is_scan : scan.kind ≡ "scan"
  pub completed : scan.is_completed ≡ true
  pub source : scan.root ≡ "source"
  pub distinct : Distinct r.ids
  pub counted : length files ≡ length r.ids
  pub bounded : (1 ≤ length files) × (length files ≤ 5000)
  pub taken : All (IsTaken r.ids scan.files) files
  pub met : (id : String) → is_selected id r.ids ≡ true → any (λ f. str_eq f.id id) files ≡ true

abbrev pub BatchIf : MediaBatchRequest → Preview → BatchError ⊎ List MediaFile → Type 0
BatchIf r scan (inl e) = Unit
BatchIf r scan (inr files) = Batch r scan files

-- The files of a bulk queueing that is accepted are, for each of the 1 to 5000 different IDs that
-- were asked for, exactly one file of a completed preview of the source root, which was eligible
-- there.
pub batch_files-BatchIf :
    (r : MediaBatchRequest) (scan : Preview) → BatchIf r scan (batch_files r (some scan))
unfolding batch_files
batch_files-BatchIf r scan =
    elim (Bool-cases
      (target_in_range r.target && leb 1 (length r.ids) && leb (length r.ids) 5000)) [
        | inr outside ↦ rw outside tt
        | inl range ↦
            elim (Bool-cases
              (str_eq scan.kind "scan" && scan.is_completed && str_eq scan.root "source")) [
                | inr other ↦ rw (range, other) tt
                | inl preview ↦ elim (Bool-cases (has_duplicate [] r.ids)) [
                  | inl twice ↦ rw (range, preview, twice) tt
                  | inr once ↦
                      let (distinct, unseen) = has_duplicate-Distinct [] r.ids once in
                      rw (range, preview, once)
                        (by_choice (choose_files r.ids scan.files) range preview distinct
                          (choose_files-ChosenIf r.ids scan.files distinct))
                ]
              ]
      ]
  where
    by_choice :
        (o : Option (List MediaFile × List String))
        → target_in_range r.target && leb 1 (length r.ids) && leb (length r.ids) 5000 ≡ true
        → str_eq scan.kind "scan" && scan.is_completed && str_eq scan.root "source" ≡ true
        → Distinct r.ids
        → ChosenIf r.ids scan.files o
        → BatchIf r scan (all_met o)
    by_choice none range preview distinct h = tt
    by_choice (some (files, id ∷ left)) range preview distinct h = tt
    by_choice (some (files, [])) range preview distinct h =
        let all : length files ≡ length r.ids = omega (arith, h.counted) in
        record {
          asked = ground (arith, range);
          is_scan = (eq_iff scan.kind "scan").0 (ground (arith, preview));
          completed = ground (arith, preview);
          source = (eq_iff scan.root "source").0 (ground (arith, preview));
          distinct = distinct;
          counted = all;
          bounded = (ground (arith, range, all), ground (arith, range, all));
          taken = h.taken;
          met = λ id k. elim (h.met id k) [
            | inl found ↦ found
            | inr waits ↦ absurd (ground (arith, waits))
          ];
        }
