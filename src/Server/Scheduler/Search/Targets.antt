-- ===== src/Server/Scheduler/Search/Targets.antt =====
-- server/scheduler/scheduler.go: the target of a request is never its source.
use Prim.Native.Char.{Char, code}
use Prim.Native.String.{◌++◌}
use text.Mathlib.TextLemmas.{cons-append, nil-append, append_assoc}
use mathlib.Core.Option.{some_inj}
use transcoderd.Prelude.{
  ℕ, ◌≡◌, ◌≢◌, refl, sym, ap, ◌∙◌, true, false, not, Option, none, some, String, str_eq, eq_iff,
  ◌==◌, Bool-cases, inl, inr, arith,
}
use transcoderd.Server.Files.Names.{split_step, split_ext, split_ext-joined}
use transcoderd.Server.Scheduler.Naming.{split_at, split_path}
use transcoderd.Server.Scheduler.Search.{
  cut_prefix, in_front, or_later, replace_found, replace_first, path_ext, trim_ext,
  format_target_name, target_path,
}

-- No text, or one that begins with a dot.
unfoldable pub Dotted : String → Type 0
Dotted String.[] = Unit
Dotted (String.◌∷◌ c s) = code c ≡ b'.'

split_step-Dotted :
    (c : Char) (s : String) (b : String × String) → Dotted b.1 → Dotted (split_step c s b).1
unfolding split_step Dotted
split_step-Dotted c s b h = elim (Bool-cases (not (str_eq b.1 ""))) [
  | inl found ↦ rw found h
  | inr plain ↦ elim (Bool-cases (code c == b'.')) [
    | inl dot ↦ rw (plain, dot) (ground (arith, dot))
    | inr other ↦ rw (plain, other) tt
  ]
]

split_ext-Dotted : (s : String) → Dotted (split_ext s).1
unfolding split_ext Dotted
split_ext-Dotted String.[] = tt
split_ext-Dotted (String.◌∷◌ c s) = split_step-Dotted c s (split_ext s) (split_ext-Dotted s)

split_at-joined :
    (c : Char) (s : String) (b : String × String)
    → b.0 ++ b.1 ≡ s
    → let (directory, name) = split_at c s b in directory ++ name ≡ String.◌∷◌ c s
split_at-joined c s b h = elim (Bool-cases (not (str_eq b.0 ""))) [
  | inl found ↦ rw found (cons-append c b.0 b.1 ∙ ap (λ t. String.◌∷◌ c t) h)
  | inr plain ↦ elim (Bool-cases (code c == b'/')) [
    | inl slash ↦ rw (plain, slash) (cons-append c "" s ∙ ap (λ t. String.◌∷◌ c t) (nil-append s))
    | inr other ↦ rw (plain, other) (nil-append (String.◌∷◌ c s))
  ]
]

split_path-joined : (s : String) → let (directory, name) = split_path s in directory ++ name ≡ s
unfolding split_path
split_path-joined String.[] = refl
split_path-joined (String.◌∷◌ c s) = split_at-joined c s (split_path s) (split_path-joined s)

-- A path is made up of what stands before its extension, and that.
pub path_ext-joined : (path : String) → trim_ext path ++ path_ext path ≡ path
unfolding path_ext trim_ext
path_ext-joined path =
    let (directory, name) = split_path path in
    let (before, ext) = split_ext name in
    append_assoc directory before ext
    ∙ ap (λ t. directory ++ t) (split_ext-joined name)
    ∙ split_path-joined path

path_ext-suffix : (path : String) → (front : String) × (front ++ path_ext path ≡ path)
path_ext-suffix path = (trim_ext path, path_ext-joined path)

cut_prefix-all : (s : String) → cut_prefix s s ≡ some ""
unfolding cut_prefix
cut_prefix-all String.[] = refl
cut_prefix-all (String.◌∷◌ c s) =
    let same : code c == code c ≡ true = ground arith in rw same (cut_prefix-all s)

Found : Option String → Type 0
Found o = (t : String) × (o ≡ some t)

or_later-Found :
    (later : Option String) (new : String) (o : Option String)
    → Found later
    → Found (or_later later new o)
unfolding Found
or_later-Found later new none h = h
or_later-Found later new (some rest) h = (new ++ rest, refl)

in_front-Found : (c : Char) (o : Option String) → Found o → Found (in_front c o)
unfolding Found
in_front-Found c o (t, e) = rw e (String.◌∷◌ c t, refl)

-- A suffix is found.
replace_found-suffix :
    (dot : Char) (ext new front : String)
    → Found (replace_found (String.◌∷◌ dot ext) new (front ++ String.◌∷◌ dot ext))
unfolding replace_found Found
replace_found-suffix dot ext new String.[] =
    rw (nil-append (String.◌∷◌ dot ext), cut_prefix-all (String.◌∷◌ dot ext)) (new ++ "", refl)
replace_found-suffix dot ext new (String.◌∷◌ c front) =
    rw (cons-append c front (String.◌∷◌ dot ext)) (
      or_later-Found _ new
        (cut_prefix (String.◌∷◌ dot ext) (String.◌∷◌ c (front ++ String.◌∷◌ dot ext)))
        (in_front-Found c _ (replace_found-suffix dot ext new front)))

unfoldable pub head_code : String → ℕ
head_code String.[] = 0
head_code (String.◌∷◌ c s) = code c

tail : String → String
tail String.[] = ""
tail (String.◌∷◌ c s) = s

cut_prefix-head :
    (dot : Char) (ext : String) (c : Char) (s rest : String)
    → cut_prefix (String.◌∷◌ dot ext) (String.◌∷◌ c s) ≡ some rest
    → code dot ≡ code c
unfolding cut_prefix
cut_prefix-head dot ext c s rest = elim (Bool-cases (code dot == code c)) [
  | inl same ↦ λ e. ground (arith, same)
  | inr other ↦ rw other (λ e. absurd (ground (arith, e)))
]

-- What replaces a text with a dot by one that begins otherwise changes the text.
replace_found-changes :
    (dot mark : Char) (ext new s t : String)
    → code dot ≡ b'.'
    → code mark ≡ b'_'
    → replace_found (String.◌∷◌ dot ext) (String.◌∷◌ mark new) s ≡ some t
    → t ≢ s
unfolding replace_found cut_prefix head_code tail
replace_found-changes dot mark ext new String.[] t d m e = absurd (ground (arith, e))
replace_found-changes dot mark ext new (String.◌∷◌ c s) t d m e =
    by_cut (cut_prefix (String.◌∷◌ dot ext) (String.◌∷◌ c s)) refl
      (replace_found (String.◌∷◌ dot ext) (String.◌∷◌ mark new) s)
      (λ u. replace_found-changes dot mark ext new s u d m) e
  where
    by_cut :
        (o : Option String)
        → cut_prefix (String.◌∷◌ dot ext) (String.◌∷◌ c s) ≡ o
        → (later : Option String) → ((u : String) → later ≡ some u → u ≢ s)
        → or_later (in_front c later) (String.◌∷◌ mark new) o ≡ some t
        → t ≢ String.◌∷◌ c s
    by_cut none k none h e q = absurd (ground (arith, e))
    by_cut none k (some u) h e q = h u refl (ap tail (some_inj.0 e ∙ q))
    by_cut (some rest) k later h e q =
        let same = cut_prefix-head dot ext c s rest k in
        let first = ap head_code (sym (cons-append mark new rest) ∙ some_inj.0 e ∙ q) in
        absurd (omega (arith, same, first, d, m))

replace_first-changes :
    (ext path : String)
    → Dotted ext
    → str_eq ext "" ≡ false
    → (front : String) × (front ++ ext ≡ path)
    → replace_first ext "_encoded.mkv" path ≢ path
unfolding replace_first Dotted Found
replace_first-changes String.[] path d n f = absurd (ground (arith, n))
replace_first-changes (String.◌∷◌ dot ext) path d n (front, e) =
    let (t, found) : Found (replace_found (String.◌∷◌ dot ext) "_encoded.mkv" path) =
      rw e at (replace_found-suffix dot ext "_encoded.mkv" front) in
    rw found (replace_found-changes dot "_" ext "encoded.mkv" path t d refl found)

pub path_ext-Dotted : (path : String) → Dotted (path_ext path)
unfolding path_ext
path_ext-Dotted path = split_ext-Dotted (split_path path).1

-- The target of the request for a path with an extension is another path.
pub target_path-differs :
    (source : String) → str_eq (path_ext source) "" ≡ false → target_path source ≢ source
unfolding target_path
target_path-differs source n = elim (Bool-cases (str_eq (format_target_name source) source)) [
  | inr other ↦
      rw other
        (λ e. absurd (ground (arith, other, (eq_iff (format_target_name source) source).1 e)))
  | inl same ↦
      let e : format_target_name source ≡ source =
        (eq_iff (format_target_name source) source).0 same in
      rw (same, e)
        (replace_first-changes (path_ext source) source (path_ext-Dotted source) n
          (path_ext-suffix source))
]
