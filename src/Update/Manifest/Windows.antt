-- ===== src/Update/Manifest/Windows.antt =====
-- update/managed/manifest.go: which file of a Windows directory a name stands for, where the updater
-- joins it to the directory. By the rules of Windows a name is split at slashes and backslashes; of
-- each part, what follows a colon is a stream of the file, dots and spaces at the end are dropped,
-- and the names of devices, with any extension, are no files.
use Prim.Native.Char.{Char, code}
use mathlib.Core.Bool.{true≢false}
use transcoderd.Prelude.{
  ◌≡◌, refl, ap, sym, ◌∙◌, Bool, true, false, not, ◌||◌, Option, none, some, List, [], ◌∷◌, String,
  str_eq, eq_iff, any, All, Bool-cases, inl, inr, arith, ◌==◌, if◌then◌else◌,
}
use transcoderd.Server.Files.Paths.{FilePath, dir, prepend, components}
use transcoderd.Server.Scheduler.Naming.{to_lower}
use transcoderd.Update.Manifest.{
  is_forbidden, has_forbidden, ends_badly, before_dot, is_device, is_unsafe_part, safe_name,
}

abbrev pub is_separator : Char → Bool
is_separator c = (code c == b'/') || (code c == 92)

unfoldable pub windows_parts : String → List String
windows_parts String.[] = "" ∷ []
windows_parts (String.◌∷◌ c s) =
    let rest = windows_parts s in if is_separator c then "" ∷ rest else prepend c rest

unfoldable pub before_colon : String → String
before_colon String.[] = ""
before_colon (String.◌∷◌ c s) =
    let rest = before_colon s in if code c == 58 then "" else String.◌∷◌ c rest

abbrev pub before_trimmed : Char → String → String
before_trimmed c String.[] = if (code c == 46) || (code c == 32) then "" else String.◌∷◌ c String.[]
before_trimmed c (String.◌∷◌ d s) = String.◌∷◌ c (String.◌∷◌ d s)

unfoldable pub trim_end : String → String
trim_end String.[] = ""
trim_end (String.◌∷◌ c s) = before_trimmed c (trim_end s)

abbrev pub devices : List String
devices =
    "con" ∷ "prn" ∷ "aux" ∷ "nul" ∷ "com0" ∷ "com1" ∷ "com2" ∷ "com3" ∷ "com4" ∷ "com5" ∷ "com6"
    ∷ "com7" ∷ "com8" ∷ "com9" ∷ "lpt0" ∷ "lpt1" ∷ "lpt2" ∷ "lpt3" ∷ "lpt4" ∷ "lpt5" ∷ "lpt6"
    ∷ "lpt7" ∷ "lpt8" ∷ "lpt9" ∷ []

abbrev pub file_of : FilePath → String → Option FilePath
file_of p name = if any (str_eq (to_lower (before_dot name))) devices then none else some (name ∷ p)

unfoldable pub windows_enter : FilePath → String → Option FilePath
unfolding before_colon trim_end to_lower before_dot
windows_enter p part =
    if str_eq part "" || str_eq part "."
    then some p
    else if str_eq part ".."
    then some (dir p)
    else file_of p (trim_end (before_colon part))

unfoldable pub windows_descend : FilePath → List String → Option FilePath
unfolding windows_enter
windows_descend p [] = some p
windows_descend p (part ∷ parts) = elim (windows_enter p part) [
  | none ↦ none
  | some q ↦ windows_descend q parts
]

-- The file that a name stands for below a directory, none for a device.
unfoldable pub windows_join : FilePath → String → Option FilePath
unfolding windows_parts windows_descend
windows_join root name = windows_descend root (windows_parts name)

-- The parts of a name as directories one in the other, and the file.
abbrev pub placed : List String → FilePath → FilePath
placed [] p = p
placed (part ∷ parts) p = placed parts (part ∷ p)

-- A character that is not forbidden is no backslash and no colon.
plain : (c : Char) → is_forbidden c ≡ false → ((code c == 92) ≡ false) × ((code c == 58) ≡ false)
plain c e = (ground (arith, e), ground (arith, e))

cons_plain :
    (c : Char) (s : String)
    → has_forbidden (String.◌∷◌ c s) ≡ false
    → (is_forbidden c ≡ false) × (has_forbidden s ≡ false)
unfolding has_forbidden
cons_plain c s e = elim (Bool-cases (is_forbidden c)) [
  | inl bad ↦ absurd (true≢false (rw bad at e))
  | inr good ↦ (good, rw good at e)
]

windows_parts-components : (s : String) → has_forbidden s ≡ false → windows_parts s ≡ components s
unfolding windows_parts components
windows_parts-components String.[] e = refl
windows_parts-components (String.◌∷◌ c s) e =
    let (good, rest) = cons_plain c s e in
    let (slash, colon) = plain c good in
    elim (Bool-cases (code c == b'/')) [
      | inl at ↦ rw (at, windows_parts-components s rest) refl
      | inr other ↦ rw (other, slash, windows_parts-components s rest) refl
    ]

components-plain :
    (s : String) → has_forbidden s ≡ false → All (λ p. has_forbidden p ≡ false) (components s)
unfolding components has_forbidden
components-plain String.[] e = (refl, tt)
components-plain (String.◌∷◌ c s) e =
    let (good, rest) = cons_plain c s e in
    elim (Bool-cases (code c == b'/')) [
      | inl at ↦ rw at (refl, components-plain s rest)
      | inr other ↦ rw other (with_char good (components s) (components-plain s rest))
    ]
  where
    with_char :
        is_forbidden c ≡ false
        → (names : List String) → All (λ p. has_forbidden p ≡ false) names
        → All (λ p. has_forbidden p ≡ false) (prepend c names)
    with_char good [] h = (rw good refl, tt)
    with_char good (name ∷ names) h = (rw good h.0, h.1)

before_colon-plain : (s : String) → has_forbidden s ≡ false → before_colon s ≡ s
unfolding before_colon
before_colon-plain String.[] e = refl
before_colon-plain (String.◌∷◌ c s) e =
    let (good, rest) = cons_plain c s e in rw ((plain c good).1, before_colon-plain s rest) refl

trim_end-good : (s : String) → ends_badly s ≡ false → trim_end s ≡ s
unfolding trim_end
trim_end-good String.[] e = refl
trim_end-good (String.◌∷◌ c String.[]) e = rw e refl
trim_end-good (String.◌∷◌ c (String.◌∷◌ d s)) e =
    ap (before_trimmed c) (trim_end-good (String.◌∷◌ d s) e)

none_of :
    (x : String) (names : List String)
    → is_device x ≡ false
    → any (λ d. not (is_device d)) names ≡ false
    → any (str_eq x) names ≡ false
none_of x [] e h = refl
none_of x (d ∷ names) e h = elim (Bool-cases (is_device d)) [
  | inr unknown ↦ absurd (true≢false (rw unknown at h))
  | inl known ↦ elim (Bool-cases (str_eq x d)) [
    | inl same ↦ absurd (true≢false (sym known ∙ ap is_device (sym ((eq_iff x d).0 same)) ∙ e))
    | inr other ↦ rw other (none_of x names e (rw known at h))
  ]
]

all_devices : any (λ d. not (is_device d)) devices ≡ false
all_devices = refl

-- What a part that is not unsafe is not.
record Safe (part : String) : Type 0 where
  empty : str_eq part "" ≡ false
  here : str_eq part "." ≡ false
  up : str_eq part ".." ≡ false
  good_end : ends_badly part ≡ false
  no_device : is_device (to_lower (before_dot part)) ≡ false

is_unsafe_part-Safe : (part : String) → is_unsafe_part part ≡ false → Safe part
unfolding is_unsafe_part
is_unsafe_part-Safe part e = record {
  empty = ground (arith, e);
  here = ground (arith, e);
  up = ground (arith, e);
  good_end = ground (arith, e);
  no_device = ground (arith, e);
}

windows_enter-safe :
    (p : FilePath) (part : String)
    → has_forbidden part ≡ false
    → is_unsafe_part part ≡ false
    → windows_enter p part ≡ some (part ∷ p)
unfolding windows_enter
windows_enter-safe p part plain_part e =
    let s = is_unsafe_part-Safe part e in
    rw
      (
        s.empty,
        s.here,
        s.up,
        before_colon-plain part plain_part,
        trim_end-good part s.good_end,
        none_of (to_lower (before_dot part)) devices s.no_device all_devices,
      )
      refl

windows_descend-safe :
    (p : FilePath) (parts : List String)
    → All (λ part. has_forbidden part ≡ false) parts
    → any is_unsafe_part parts ≡ false
    → windows_descend p parts ≡ some (placed parts p)
unfolding windows_descend
windows_descend-safe p [] h e = refl
windows_descend-safe p (part ∷ parts) h e = elim (Bool-cases (is_unsafe_part part)) [
  | inl bad ↦ absurd (true≢false (rw bad at e))
  | inr good ↦
      rw (windows_descend, windows_enter-safe p part h.0 good)
        (windows_descend-safe (part ∷ p) parts h.1 (rw good at e))
]

pub safe_name-placed :
    (root : FilePath) (name : String)
    → safe_name name ≡ true
    → windows_join root name ≡ some (placed (components name) root)
unfolding windows_join safe_name
safe_name-placed root name e =
    let plain_name : has_forbidden name ≡ false = ground (arith, e) in
    let safe : any is_unsafe_part (components name) ≡ false = ground (arith, e) in
    ap (windows_descend root) (windows_parts-components name plain_name)
    ∙ windows_descend-safe root (components name) (components-plain name plain_name) safe
