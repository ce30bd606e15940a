-- ===== src/Examples/Reviews.antt =====
-- Concrete operations of the library: one that runs, and files that are queued.
use transcoderd.Prelude.{◌≤◌, ◌<◌, ◌≡◌, ◌⊎◌, refl, true, false, none, some, List, [], ◌∷◌, arith}
use transcoderd.Server.Library.{
  MediaFile, MediaOperation, fresh, eligible, ineligible, queued, Attempt, new_operation,
  count_running, load,
}
use transcoderd.Prelude.Int.{pos}
use transcoderd.Server.Library.Selection.{Preview, MediaBatchRequest, batch_files}
use transcoderd.Server.Library.Selection.Chosen.{BatchIf, batch_files-BatchIf}
use transcoderd.Server.Library.Bounded.{IsBounded, new_operation-IsBounded}
use transcoderd.Server.Library.Counted.{IsCounted, load-IsCounted}

abbrev one_scan : List MediaOperation
one_scan = fresh "a" "scan" 5 ∷ []

one_scan-IsBounded : IsBounded one_scan
unfolding count_running
one_scan-IsBounded = record { runs = omega arith; kept = omega arith }

new_operation-IsBounded_example :
    let (left, new) = new_operation "b" "queue" 9 one_scan in
    IsBounded left
    × (((new ≡ none) × (2 ≤ count_running one_scan))
        ⊎ ((new ≡ some (fresh "b" "queue" 9)) × (count_running one_scan < 2)))
new_operation-IsBounded_example = new_operation-IsBounded "b" "queue" 9 one_scan one_scan-IsBounded

abbrev film : MediaFile
film = record { id = "1"; path = "a.mkv"; size = 7; modified_ns = 3 }

abbrev taken : Attempt
taken = record {
  recorded_at = 10;
  is_canceled = false;
  current = some film;
  before = eligible;
  queue = queued "job";
  is_canceled_after = false;
  after = eligible;
}

abbrev waits : Attempt
waits = record taken { before = ineligible "queued" }

abbrev reviewed : List (MediaFile × Attempt)
reviewed = (film, waits) ∷ (film, taken) ∷ (film, taken) ∷ []

abbrev batch : MediaOperation
batch = fresh "b" "queue" 9

batch-IsCounted : IsCounted batch
batch-IsCounted = record { examined = refl; results = refl; scheduled_results = refl }

load-IsCounted_example :
    IsCounted (load 1 0 batch reviewed).0 × ((load 1 0 batch reviewed).0.scheduled_files ≤ 1)
load-IsCounted_example = load-IsCounted 1 batch reviewed batch-IsCounted (omega arith)

loads : (load 1 0 batch reviewed).1 ≡ none
unfolding load
loads = refl

abbrev preview : Preview
preview = record {
  kind = "scan";
  is_completed = true;
  root = "source";
  files = record { file = film; eligible = true } ∷ [];
}

abbrev one_film : MediaBatchRequest
one_film = record { ids = "1" ∷ []; target = pos 1 }

batch_files-BatchIf_example : BatchIf one_film preview (batch_files one_film (some preview))
batch_files-BatchIf_example = batch_files-BatchIf one_film preview
