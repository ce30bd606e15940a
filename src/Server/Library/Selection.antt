-- ===== src/Server/Library/Selection.antt =====
-- server/library/operations.go: which files of a preview a bulk queueing takes. `selection` is the map
-- of the IDs that are not met yet, as a list.
pub mod Distinct
pub mod Chosen
use transcoderd.Prelude.{
  ℕ, Bool, true, false, not, ◌&&◌, ◌||◌, Option, none, some, List, [], ◌∷◌, String, str_eq, ltb,
  leb, if◌then◌else◌, length, keep, any, ◌⊎◌, inl, inr,
}
use transcoderd.Prelude.Int.{ℤ, pos, negsuc}
use transcoderd.Server.Library.{MediaFile, MediaOperation, OperationState, completed, new_operation}

pub record PreviewFile : Type 0 where
  pub file : MediaFile
  pub eligible : Bool

-- The operation that is named as the preview.
pub record Preview : Type 0 where
  pub kind : String
  pub is_completed : Bool
  pub root : String
  pub files : List PreviewFile

pub record MediaBatchRequest : Type 0 where
  pub ids : List String
  pub target : ℤ

pub data BatchError : Type 0 where
  out_of_range : BatchError
  operation_not_found : BatchError
  no_preview : BatchError
  duplicate_selection : BatchError
  ineligible_file : BatchError
  foreign_selection : BatchError
  too_many_operations : BatchError

abbrev pub is_selected : String → List String → Bool
is_selected id = any (str_eq id)

-- The map of the selection, none where an ID comes twice.
unfoldable pub has_duplicate : List String → List String → Bool
has_duplicate selection [] = false
has_duplicate selection (id ∷ ids) =
    let rest = has_duplicate (id ∷ selection) ids in if is_selected id selection then true else rest

abbrev pub deleted : String → List String → List String
deleted id = keep (λ other. not (str_eq id other))

abbrev pub with_file :
    MediaFile → Option (List MediaFile × List String) → Option (List MediaFile × List String)
with_file f none = none
with_file f (some (files, selection)) = some (f ∷ files, selection)

-- The loop over the files of the preview, none where a selected one is not eligible.
unfoldable pub choose_files : List String → List PreviewFile → Option (List MediaFile × List String)
choose_files selection [] = some ([], selection)
choose_files selection (f ∷ fs) =
    let taken = choose_files (deleted f.file.id selection) fs in
    let left = choose_files selection fs in
    if is_selected f.file.id selection
    then if not f.eligible then none else with_file f.file taken
    else left

abbrev pub target_in_range : ℤ → Bool
target_in_range (negsuc n) = false
target_in_range (pos n) = leb 1 n && leb n 5000

abbrev pub all_met : Option (List MediaFile × List String) → BatchError ⊎ List MediaFile
all_met none = inl ineligible_file
all_met (some (files, [])) = inr files
all_met (some (files, id ∷ selection)) = inl foreign_selection

-- The files of a batch, if the request is accepted.
unfoldable pub batch_files : MediaBatchRequest → Option Preview → BatchError ⊎ List MediaFile
unfolding choose_files has_duplicate
batch_files r none = inl (
    if target_in_range r.target && leb 1 (length r.ids) && leb (length r.ids) 5000
    then operation_not_found
    else out_of_range)
batch_files r (some scan) =
    if not (target_in_range r.target && leb 1 (length r.ids) && leb (length r.ids) 5000)
    then inl out_of_range
    else if not (str_eq scan.kind "scan" && scan.is_completed && str_eq scan.root "source")
    then inl no_preview
    else if has_duplicate [] r.ids
    then inl duplicate_selection
    else all_met (choose_files r.ids scan.files)
