-- ===== src/Server/Scheduler/Search/Walked.antt =====
-- server/scheduler/scheduler.go: which files a search finds, and what it says of each.
use Prim.Native.Char.{Char}
use text.Mathlib.TextLemmas.{length-cons, length-eq-zero_iff}
use mathlib.Core.List.{append_assoc, append-nil, nil≢cons}
use transcoderd.Prelude.{
  ℕ, ◌≤◌, ◌≡◌, ◌⊎◌, refl, sym, ap, ◌∙◌, Bool, true, false, Option, none, some, List, [], ◌∷◌, ◌++◌,
  String, str_eq, eq_iff, ltb, if◌then◌else◌, any, Bool-cases, inl, inr, arith, ◌↔◌,
}
use transcoderd.Server.Files.Paths.{FilePath, join, path_eq, relative}
use transcoderd.Server.Files.Names.{split_ext}
use transcoderd.Server.Scheduler.Intake.{JobRequest}
use transcoderd.Server.Scheduler.Search.{
  JobRequestResult, valid_extension, valid_extensions, request_of, problems, search_file, Entry,
  Entries, file, directory, nothing, entry, SearchConfig, both, unless_uploads, search, search_all,
  search_root,
}

-- A file of the tree, with its path and its name.
pub record FoundFile : Type 0 where
  pub path : FilePath
  pub name : String
  pub size : ℕ

-- The files of a tree in the order of the walk, those of the upload directory left out.
unfoldable mutual
  pub visible : FilePath → FilePath → Entry → List FoundFile
  visible root at (file name size) = record { path = name ∷ at; name = name; size = size } ∷ []
  visible root at (directory name entries) =
      let below = visible_all root (name ∷ at) entries in
      if path_eq (name ∷ at) (join root ".transcoderd-upload") then [] else below

  pub visible_all : FilePath → FilePath → Entries → List FoundFile
  visible_all root at nothing = []
  visible_all root at (entry e entries) = visible root at e ++ visible_all root at entries

unfoldable pub visible_root : FilePath → String → Entry → List FoundFile
unfolding visible visible_all
visible_root root path (file name size) =
    record { path = join root path; name = name; size = size } ∷ []
visible_root root path (directory name entries) =
    if path_eq (join root path) (join root ".transcoderd-upload")
    then []
    else visible_all root (join root path) entries

results_of : SearchConfig → JobRequest → List FoundFile → Option (List JobRequestResult)
results_of config parent [] = some []
results_of config parent (f ∷ fs) =
    both (search_file config parent f.path f.name f.size) (results_of config parent fs)

both_nil {ℓ} : {A : Type ℓ} (l : Option (List A)) → both (some []) l ≡ l
both_nil none = refl
both_nil (some l) = refl

both_nil_right {ℓ} : {A : Type ℓ} (l : Option (List A)) → both l (some []) ≡ l
both_nil_right none = refl
both_nil_right (some l) = ap some (append-nil l)

both_assoc {ℓ} : {A : Type ℓ} (k l m : Option (List A)) → both (both k l) m ≡ both k (both l m)
both_assoc none l m = refl
both_assoc (some k) none m = refl
both_assoc (some k) (some l) none = refl
both_assoc (some k) (some l) (some m) = ap some (append_assoc k l m)

results_of-append :
    (config : SearchConfig) (parent : JobRequest) (fs gs : List FoundFile)
    → results_of config parent (fs ++ gs)
      ≡ both (results_of config parent fs) (results_of config parent gs)
unfolding results_of
results_of-append config parent [] gs = sym (both_nil (results_of config parent gs))
results_of-append config parent (f ∷ fs) gs =
    ap (both (search_file config parent f.path f.name f.size))
      (results_of-append config parent fs gs)
    ∙ sym (both_assoc (search_file config parent f.path f.name f.size) _ _)

unless_uploads-results_of :
    (config : SearchConfig) (parent : JobRequest) (at : FilePath) (fs : List FoundFile)
    (l : Option (List JobRequestResult))
    → l ≡ results_of config parent fs
    → unless_uploads config at l
      ≡ results_of config parent
          (if path_eq at (join config.source_path ".transcoderd-upload") then [] else fs)
unfolding results_of
unless_uploads-results_of config parent at fs l e =
    elim (Bool-cases (path_eq at (join config.source_path ".transcoderd-upload"))) [
      | inl uploads ↦ rw uploads refl
      | inr other ↦ rw other e
    ]

-- The search is one over the list of the visible files.
mutual
  unfolding search visible results_of

  search-results_of :
      (config : SearchConfig) (parent : JobRequest) (at : FilePath) (e : Entry)
      → search config parent at e ≡ results_of config parent (visible config.source_path at e)
  search-results_of config parent at (file name size) =
      sym (both_nil_right (search_file config parent (name ∷ at) name size))
  search-results_of config parent at (directory name entries) =
      unless_uploads-results_of config parent (name ∷ at) _ _
        (search_all-results_of config parent (name ∷ at) entries)

  search_all-results_of :
      (config : SearchConfig) (parent : JobRequest) (at : FilePath) (entries : Entries)
      → search_all config parent at entries
        ≡ results_of config parent (visible_all config.source_path at entries)
  search_all-results_of config parent at nothing = refl
  search_all-results_of config parent at (entry e entries) =
      rw (search-results_of config parent at e, search_all-results_of config parent at entries)
        (sym (
          results_of-append config parent (visible config.source_path at e)
            (visible_all config.source_path at entries)))

search_root-results_of :
    (config : SearchConfig) (parent : JobRequest) (root : Entry)
    → search_root config parent root
      ≡ results_of config parent (visible_root config.source_path parent.source_path root)
unfolding search_root visible_root results_of
search_root-results_of config parent (file name size) = sym (
    both_nil_right
      (search_file config parent (join config.source_path parent.source_path) name size))
search_root-results_of config parent (directory name entries) =
    unless_uploads-results_of config parent (join config.source_path parent.source_path) _ _
      (search_all-results_of config parent (join config.source_path parent.source_path) entries)

abbrev pub lacks_extension : FoundFile → Bool
lacks_extension f = str_eq (split_ext f.name).1 ""

abbrev pub without_dot : String → String
without_dot String.[] = ""
without_dot (String.◌∷◌ c s) = s

-- The request for a file, and whether it is refused without asking the tables.
pub record IsResult (config : SearchConfig) (parent : JobRequest) (f : FoundFile)
    (r : JobRequestResult) : Type 0 where
  pub source : r.job_request.source_path ≡ relative config.source_path f.path
  pub size : r.job_request.source_size ≡ f.size
  pub completed : r.job_request.force_completed ≡ parent.force_completed
  pub failed : r.job_request.force_failed ≡ parent.force_failed
  pub assigned : r.job_request.force_assigned ≡ parent.force_assigned
  pub canceled : r.job_request.force_canceled ≡ false
  pub accepted : (r.errors ≡ []) ↔ (
      (config.min_file_size ≤ f.size)
      × (valid_extension valid_extensions (without_dot (split_ext f.name).1) ≡ true))

pub data Results (config : SearchConfig) (parent : JobRequest)
    : List FoundFile → List JobRequestResult → Type 0 where
  none_left : Results config parent [] []
  one_more :
      {f : FoundFile} {r : JobRequestResult} {fs : List FoundFile} {rs : List JobRequestResult}
      → IsResult config parent f r
      → Results config parent fs rs
      → Results config parent (f ∷ fs) (r ∷ rs)

pub data Search (config : SearchConfig) (parent : JobRequest) (fs : List FoundFile)
    : Option (List JobRequestResult) → Type 0 where
  panics : any lacks_extension fs ≡ true → Search config parent fs none
  finds :
      (rs : List JobRequestResult)
      → any lacks_extension fs ≡ false
      → Results config parent fs rs
      → Search config parent fs (some rs)

problems-none :
    (min_size size : ℕ) (extension : String)
    → (problems min_size size extension ≡ [])
      ↔ ((min_size ≤ size) × (valid_extension valid_extensions extension ≡ true))
problems-none min_size size extension = elim (Bool-cases (ltb size min_size)) [
  | inl small ↦
      rw small ((λ e. absurd (nil≢cons (sym e))), λ h. absurd (ground (arith, small, h.0)))
  | inr large ↦ elim (Bool-cases (valid_extension valid_extensions extension)) [
    | inl valid ↦ rw (large, valid) ((λ e. (ground (arith, large), refl)), λ h. refl)
    | inr other ↦
        rw (large, other) ((λ e. absurd (nil≢cons (sym e))), λ h. absurd (ground (arith, h.1)))
  ]
]

nonempty : (c : Char) (s : String) → str_eq (String.◌∷◌ c s) "" ≡ false
nonempty c s = elim (Bool-cases (str_eq (String.◌∷◌ c s) "")) [
  | inl e ↦
      let none_left = length-eq-zero_iff.1 ((eq_iff (String.◌∷◌ c s) "").0 e) in
      absurd (omega (arith, none_left, length-cons c s))
  | inr f ↦ f
]

-- What is said of one file.
found :
    (config : SearchConfig) (parent : JobRequest) (f : FoundFile) (ext : String)
    → (split_ext f.name).1 ≡ ext
    → ((ext ≡ "") × (search_file config parent f.path f.name f.size ≡ none))
      ⊎ ((str_eq ext "" ≡ false)
          × (r : JobRequestResult) × (search_file config parent f.path f.name f.size
              ≡ some (r ∷ []))
          × IsResult config parent f r)
unfolding search_file request_of
found config parent f String.[] e = inl (refl, rw e refl)
found config parent f (String.◌∷◌ dot extension) e =
    let r : JobRequestResult = record {
      job_request = request_of parent (relative config.source_path f.path) f.size;
      errors = problems config.min_file_size f.size extension;
    } in
    let answer : search_file config parent f.path f.name f.size ≡ some (r ∷ []) = rw e refl in
    inr (
      nonempty dot extension,
      r,
      answer,
      record {
        source = refl;
        size = refl;
        completed = refl;
        failed = refl;
        assigned = refl;
        canceled = refl;
        accepted = rw e (problems-none config.min_file_size f.size extension);
      },
    )

results_of-Search :
    (config : SearchConfig) (parent : JobRequest) (fs : List FoundFile)
    → Search config parent fs (results_of config parent fs)
unfolding results_of
results_of-Search config parent [] = finds [] refl none_left
results_of-Search config parent (f ∷ fs) = elim (found config parent f (split_ext f.name).1 refl) [
  | inl (empty, e) ↦
      let lacks : lacks_extension f ≡ true = (eq_iff _ "").1 empty in
      rw e (panics (ground (arith, lacks)))
  | inr (has, r, e, is) ↦ rw e (with_rest has r is _ (results_of-Search config parent fs))
]
  where
    with_rest :
        lacks_extension f ≡ false
        → (r : JobRequestResult) → IsResult config parent f r
        → (o : Option (List JobRequestResult)) → Search config parent fs o
        → Search config parent (f ∷ fs) (both (some (r ∷ [])) o)
    with_rest has r is _ (panics lacks) = panics (ground (arith, lacks))
    with_rest has r is _ (finds rs all those) =
        finds (r ∷ rs) (ground (arith, has, all)) (one_more is those)

-- The search of a requested path ends in a panic exactly if a file that it visits has no
-- extension, and else gives one result for each file that it visits, in order, outside the
-- directory of uploads: a request for its path below the source path, and its size, with the
-- forced states of the submission but for canceled jobs, refused exactly if the file is too small
-- or its extension not one of those that are valid.
pub search_root-Search :
    (config : SearchConfig) (parent : JobRequest) (root : Entry)
    → Search config parent
        (visible_root config.source_path parent.source_path root)
        (search_root config parent root)
search_root-Search config parent root =
    rw (search_root-results_of config parent root)
      (results_of-Search config parent (visible_root config.source_path parent.source_path root))
