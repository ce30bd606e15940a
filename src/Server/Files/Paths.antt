-- ===== src/Server/Files/Paths.antt =====
-- path/filepath on a Unix system, for absolute clean paths. A path is the list of its names, the
-- innermost first, so `Dir` is the tail and `Base` the head.
use Prim.Native.Char.{Char, code}
use Prim.Native.String.{◌++◌ as ◌⧺◌}
use mathlib.Core.Bool.{false≢true}
use transcoderd.Prelude.{
  ℕ, suc, ◌≡◌, refl, ap, sym, Bool, true, false, not, ◌&&◌, ◌||◌, List, [], ◌∷◌, String, str_eq,
  ◌==◌, if◌then◌else◌, eq_iff, Bool-cases, inl, inr, ◌∙◌, Option, none, some, zero,
}

abbrev pub FilePath : Type 0
FilePath = List String

abbrev pub dir : FilePath → FilePath
dir [] = []
dir (name ∷ p) = p

abbrev pub base : FilePath → String
base [] = "/"
base (name ∷ p) = name

abbrev pub prepend : Char → List String → List String
prepend c [] = String.◌∷◌ c "" ∷ []
prepend c (name ∷ names) = String.◌∷◌ c name ∷ names

-- The names between the slashes: `strings.Split(s, "/")`.
unfoldable pub components : String → List String
components String.[] = "" ∷ []
components (String.◌∷◌ c s) =
    let rest = components s in if code c == b'/' then "" ∷ rest else prepend c rest

-- `Clean`, one name at a time.
unfoldable pub enter : FilePath → String → FilePath
enter p name =
    if str_eq name "" || str_eq name "." then p else if str_eq name ".." then dir p else name ∷ p

unfoldable pub descend : FilePath → List String → FilePath
unfolding enter
descend p [] = p
descend p (name ∷ names) = descend (enter p name) names

-- `filepath.Join` of a clean path and a text.
unfoldable pub join : FilePath → String → FilePath
unfolding components descend
join p s = descend p (components s)

abbrev pub above : ℕ → Option ℕ
above zero = none
above (suc d) = some d

-- How many directories below the start a name leads, and none above it.
unfoldable pub depth : ℕ → String → Option ℕ
depth d name =
    if str_eq name "" || str_eq name "."
    then some d
    else if str_eq name ".."
    then above d
    else some (suc d)

unfoldable pub stays : ℕ → List String → Bool
unfolding depth
stays d [] = true
stays d (name ∷ names) = elim (depth d name) [ none ↦ false | some d' ↦ stays d' names ]

abbrev pub is_absolute : String → Bool
is_absolute String.[] = false
is_absolute (String.◌∷◌ c s) = code c == b'/'

-- `filepath.IsLocal`.
unfoldable pub is_local : String → Bool
unfolding stays components
is_local s = not (str_eq s "") && not (is_absolute s) && stays 0 (components s)

unfoldable pub path_eq : FilePath → FilePath → Bool
path_eq [] [] = true
path_eq [] (y ∷ q) = false
path_eq (x ∷ p) [] = false
path_eq (x ∷ p) (y ∷ q) = str_eq x y && path_eq p q

pub path_eq_sound : (p q : FilePath) → path_eq p q ≡ true → p ≡ q
unfolding path_eq
path_eq_sound [] [] h = refl
path_eq_sound [] (y ∷ q) h = absurd (cc)
path_eq_sound (x ∷ p) [] h = absurd (cc)
path_eq_sound (x ∷ p) (y ∷ q) h = elim (Bool-cases (str_eq x y)) [
  | inl e ↦
      ap (λ n. n ∷ p) ((eq_iff x y).0 e)
      ∙ ap (λ r. y ∷ r) (path_eq_sound p q (sym (ap (λ b. b && path_eq p q) e) ∙ h))
  | inr e ↦ absurd (false≢true (sym (ap (λ b. b && path_eq p q) e) ∙ h))
]

pub path_eq_refl : (p : FilePath) → path_eq p p ≡ true
unfolding path_eq
path_eq_refl [] = refl
path_eq_refl (x ∷ p) = rw ((eq_iff x x).1 refl) (path_eq_refl p)

-- `filepath.Rel` of two clean absolute paths: up to where they part, and down from there.
abbrev pub outermost_first : FilePath → List String → List String
outermost_first [] names = names
outermost_first (name ∷ p) names = outermost_first p (name ∷ names)

unfoldable pub parting : List String → List String → List String × List String
parting [] names = ([], names)
parting (x ∷ xs) [] = (x ∷ xs, [])
parting (x ∷ xs) (y ∷ ys) =
    let rest = parting xs ys in if str_eq x y then rest else (x ∷ xs, y ∷ ys)

abbrev pub way_up : List String → List String → List String
way_up [] names = names
way_up (x ∷ xs) names = ".." ∷ way_up xs names

unfoldable pub joined_names : List String → String
joined_names [] = "."
joined_names (name ∷ []) = name
joined_names (name ∷ other ∷ names) = name ⧺ (String.◌∷◌ "/" (joined_names (other ∷ names)))

unfoldable pub relative : FilePath → FilePath → String
unfolding parting joined_names
relative root p =
    let (up, down) = parting (outermost_first root []) (outermost_first p []) in
    joined_names (way_up up down)
