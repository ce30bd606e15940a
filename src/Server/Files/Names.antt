-- ===== src/Server/Files/Names.antt =====
-- path/filepath: the extension of a file's name.
use Prim.Native.Char.{Char, code}
use Prim.Native.String.{◌++◌}
use text.Mathlib.TextLemmas.{append-nil, cons-append, nil-append}
use transcoderd.Prelude.{
  ◌≡◌, refl, ap, ◌∙◌, not, String, str_eq, ◌==◌, if◌then◌else◌, Bool-cases, inl, inr,
}

-- A name before its last dot, and from there: `TrimSuffix` with `Ext`, and `Ext`.
unfoldable pub split_step : Char → String → String × String → String × String
split_step c s (before, ext) =
    if not (str_eq ext "")
    then (String.◌∷◌ c before, ext)
    else if code c == b'.'
    then ("", String.◌∷◌ c s)
    else (String.◌∷◌ c s, "")

unfoldable pub split_ext : String → String × String
unfolding split_step
split_ext String.[] = ("", "")
split_ext (String.◌∷◌ c s) = split_step c s (split_ext s)

step-joined :
    (c : Char) (s : String) (b : String × String)
    → b.0 ++ b.1 ≡ s
    → let (before, ext) = split_step c s b in before ++ ext ≡ String.◌∷◌ c s
unfolding split_step
step-joined c s b h = elim (Bool-cases (not (str_eq b.1 ""))) [
  | inl found ↦ rw found (cons-append c b.0 b.1 ∙ ap (λ t. String.◌∷◌ c t) h)
  | inr plain ↦ elim (Bool-cases (code c == b'.')) [
    | inl dot ↦ rw (plain, dot) (nil-append (String.◌∷◌ c s))
    | inr other ↦ rw (plain, other) (append-nil (String.◌∷◌ c s))
  ]
]

-- The two parts make up the name.
pub split_ext-joined : (s : String) → let (before, ext) = split_ext s in before ++ ext ≡ s
unfolding split_ext
split_ext-joined String.[] = refl
split_ext-joined (String.◌∷◌ c s) = step-joined c s (split_ext s) (split_ext-joined s)
