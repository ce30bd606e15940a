-- ===== src/Server/Library/Selection/Distinct.antt =====
-- Lists of different IDs, of which server/library/operations.go deletes those that are met.

use transcoderd.Prelude.{
  ◌+◌, ◌≡◌, refl, sym, ap, ◌∙◌, true, false, List, [], ◌∷◌, String, str_eq, eq_iff, length,
  Bool-cases, inl, inr, arith,
}
use transcoderd.Server.Library.Selection.{is_selected, deleted}

abbrev pub Distinct : List String → Type 0
Distinct [] = Unit
Distinct (id ∷ ids) = (is_selected id ids ≡ false) × Distinct ids

pub deleted-other :
    (id : String) (ids : List String) → is_selected id ids ≡ false → deleted id ids ≡ ids
deleted-other id [] h = refl
deleted-other id (x ∷ ids) h =
    let other : str_eq id x ≡ false = ground (arith, h) in
    rw other (ap (λ l. x ∷ l) (deleted-other id ids (ground (arith, h))))

-- One ID less.
pub length-deleted :
    (id : String) (ids : List String)
    → Distinct ids
    → is_selected id ids ≡ true
    → length (deleted id ids) + 1 ≡ length ids
length-deleted id [] d h = absurd (ground (arith, h))
length-deleted id (x ∷ ids) d h = elim (Bool-cases (str_eq id x)) [
  | inl same ↦
      let e : id ≡ x = (eq_iff id x).0 same in
      let absent : is_selected id ids ≡ false = rw e d.0 in
      rw (same, deleted-other id ids absent) (omega arith)
  | inr other ↦
      let fewer = length-deleted id ids d.1 (ground (arith, h, other)) in
      rw other (omega (arith, fewer))
]

pub is_selected-deleted :
    (id other : String) (ids : List String)
    → is_selected other (deleted id ids) ≡ true
    → is_selected other ids ≡ true
is_selected-deleted id other [] = λ h. h
is_selected-deleted id other (x ∷ ids) = elim (Bool-cases (str_eq id x)) [
  | inl same ↦ rw same (λ h. ground (arith, is_selected-deleted id other ids h))
  | inr different ↦ rw different (λ h. elim (Bool-cases (str_eq other x)) [
    | inl this ↦ ground (arith, this)
    | inr next ↦ ground (arith, is_selected-deleted id other ids (ground (arith, h, next)))
  ])
]

pub unselected-deleted :
    (id other : String) (ids : List String)
    → is_selected other ids ≡ false
    → is_selected other (deleted id ids) ≡ false
unselected-deleted id other ids h = elim (Bool-cases (is_selected other (deleted id ids))) [
  | inl there ↦ absurd (ground (arith, h, is_selected-deleted id other ids there))
  | inr absent ↦ absent
]

pub Distinct-deleted : (id : String) (ids : List String) → Distinct ids → Distinct (deleted id ids)
Distinct-deleted id [] d = tt
Distinct-deleted id (x ∷ ids) d = elim (Bool-cases (str_eq id x)) [
  | inl same ↦ rw same (Distinct-deleted id ids d.1)
  | inr other ↦ rw other (unselected-deleted id x ids d.0, Distinct-deleted id ids d.1)
]

-- An ID that is met when another is deleted.
pub kept-deleted :
    (id other : String) (ids : List String)
    → str_eq id other ≡ false
    → is_selected other ids ≡ true
    → is_selected other (deleted id ids) ≡ true
kept-deleted id other [] n h = h
kept-deleted id other (x ∷ ids) n h = elim (Bool-cases (str_eq id x)) [
  | inl same ↦ rw same (elim (Bool-cases (str_eq other x)) [
    | inl this ↦
        let e : id ≡ other = (eq_iff id x).0 same ∙ sym ((eq_iff other x).0 this) in
        absurd (ground (arith, n, (eq_iff id other).1 e))
    | inr next ↦ kept-deleted id other ids n (ground (arith, h, next))
  ])
  | inr different ↦ rw different (elim (Bool-cases (str_eq other x)) [
    | inl this ↦ ground (arith, this)
    | inr next ↦ ground (arith, kept-deleted id other ids n (ground (arith, h, next)))
  ])
]
