-- ===== src/Queue/Requests/Ids.antt =====
-- Which ids uniqueIDs of application/forwarder/queue.go keeps.
use Prim.Native.String.{String}
use text.Mathlib.Text.{◌==◌ as str_eq}
use text.Mathlib.TextEquality.{eq_iff}
use text.Mathlib.TextPositions.{eq_refl}
use tdl.Prelude.{
  not, ◌&&◌, map, ◌≡◌, refl, sym, subst, inl, inr, Bool, true, false, List, [], ◌∷◌, arith,
  Bool-cases,
}
use tdl.Prelude.Text.{trim_text}
use tdl.Queue.Actions.{has_id, unique_from}

-- `id` occurs once among ids that none of `seen` is.
abbrev pub IsDistinct : List String → Type 0
IsDistinct [] = Unit {0}
IsDistinct (id ∷ ids) = (has_id id ids ≡ false) × IsDistinct ids

fresh_id :
    (seen : List String) (id k : String)
    → has_id k seen ≡ true
    → has_id id seen ≡ false
    → str_eq id k ≡ false
fresh_id seen id k h new = elim (Bool-cases (str_eq id k)) [
  | inr apart ↦ apart
  | inl hit ↦
      let old : has_id id seen ≡ true =
        subst (λ (z : String). has_id z seen ≡ true) (sym ((eq_iff id k).0 hit)) h in
      absurd (ground (arith, old, new))
]

has_id_first : (id : String) (seen : List String) → has_id id (id ∷ seen) ≡ true
unfolding has_id
has_id_first id seen = rw (eq_refl id, has_id) refl

unique_from-fresh :
    (seen ids : List String) (k : String)
    → has_id k seen ≡ true
    → has_id k (unique_from seen ids) ≡ false
unfolding unique_from has_id
unique_from-fresh seen [] k h = refl
unique_from-fresh seen (raw ∷ ids) k h = elim (Bool-cases (str_eq (trim_text raw) "")) [
  | inl blank ↦ rw (blank, unique_from) (unique_from-fresh seen ids k h)
  | inr text ↦ elim (Bool-cases (has_id (trim_text raw) seen)) [
    | inl old ↦ rw (text, old, unique_from) (unique_from-fresh seen ids k h)
    | inr new ↦
        let id = trim_text raw in
        let apart : str_eq id k ≡ false = fresh_id seen id k h new in
        let later : has_id k (id ∷ seen) ≡ true = ground (arith, h) in
        let rest = unique_from-fresh (id ∷ seen) ids k later in
        rw (text, new, unique_from) (ground (arith, apart, rest))
  ]
]

pub unique_from-IsDistinct : (seen ids : List String) → IsDistinct (unique_from seen ids)
unfolding unique_from
unique_from-IsDistinct seen [] = tt
unique_from-IsDistinct seen (raw ∷ ids) = elim (Bool-cases (str_eq (trim_text raw) "")) [
  | inl blank ↦ rw (blank, unique_from) (unique_from-IsDistinct seen ids)
  | inr text ↦ elim (Bool-cases (has_id (trim_text raw) seen)) [
    | inl old ↦ rw (text, old, unique_from) (unique_from-IsDistinct seen ids)
    | inr new ↦
        let id = trim_text raw in
        rw (text, new, unique_from)
          (
            unique_from-fresh (id ∷ seen) ids id (has_id_first id seen),
            unique_from-IsDistinct (id ∷ seen) ids,
          )
  ]
]

-- Whether `k` is one of the requested ids, trimmed, and not blank.
abbrev pub is_asked : String → List String → Bool
is_asked k ids = not (str_eq k "") && has_id k (map trim_text ids)

pub unique_from-asked :
    (seen ids : List String) (k : String)
    → has_id k (unique_from seen ids) ≡ (not (has_id k seen) && is_asked k ids)
unfolding unique_from has_id
unique_from-asked seen [] k = ground arith
unique_from-asked seen (raw ∷ ids) k = elim (Bool-cases (str_eq (trim_text raw) "")) [
  | inl blank ↦
      let ih = unique_from-asked seen ids k in
      let empty : trim_text raw ≡ "" = (eq_iff (trim_text raw) "").0 blank in
      let law : (not (str_eq k "") && str_eq (trim_text raw) k) ≡ false =
        rw empty (ground (arith, eq_iff k "", eq_iff "" k)) in
      rw (blank, unique_from) (ground (arith, ih, law))
  | inr text ↦ elim (Bool-cases (has_id (trim_text raw) seen)) [
    | inl old ↦
        let ih = unique_from-asked seen ids k in
        let law : (not (has_id k seen) && str_eq (trim_text raw) k) ≡ false =
          elim (Bool-cases (str_eq (trim_text raw) k)) [
            | inr apart ↦ ground (arith, apart)
            | inl hit ↦
                let in_seen : has_id k seen ≡ true =
                  subst (λ (z : String). has_id z seen ≡ true) ((eq_iff (trim_text raw) k).0 hit)
                    old in
                ground (arith, in_seen)
          ] in
        rw (text, old, unique_from) (ground (arith, ih, law))
    | inr new ↦
        let ih = unique_from-asked (trim_text raw ∷ seen) ids k in
        elim (Bool-cases (str_eq (trim_text raw) k)) [
          | inr apart ↦ rw (text, new, unique_from) (ground (arith, ih, apart))
          | inl hit ↦
              let this = (eq_iff (trim_text raw) k).0 hit in
              let out : has_id k seen ≡ false =
                subst (λ (z : String). has_id z seen ≡ false) this new in
              let full : str_eq k "" ≡ false =
                subst (λ (z : String). str_eq z "" ≡ false) this text in
              rw (text, new, unique_from) (ground (arith, hit, out, full))
        ]
  ]
]
