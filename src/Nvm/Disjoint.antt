-- ===== src/Nvm/Disjoint.antt =====
-- Which keys the registered datasets of bsw/services/nvm/registry.go contain.
use Prim.Native.String.{String, ◌++◌ as join}
use text.Mathlib.Text.{◌==◌ as str_eq, starts_with}
use text.Mathlib.TextEquality.{eq_iff, starts_with_iff}
use text.Mathlib.TextBridge.{IsPrefix}
use text.Mathlib.TextLemmas.{nil-append, cons-append, head-eq_of_cons-eq, tail-eq_of_cons-eq}
use tdl.Prelude.{
  ◌≡◌, ◌≢◌, refl, sym, ap, subst, ◌∙◌, ◌⊎◌, inl, inr, Bool, true, false, ◌||◌, none, List, [], ◌∷◌,
  arith, Bool-cases, Option-cases, List-cases, All,
}
use tdl.Nvm.Registry.{
  Dataset, contains_key, contains, contains_any, overlaps, has_bad_key, find_dataset, find_overlap,
  is_incomplete, is_registered, no_keys, register,
}

prefixes-comparable : (p q u v : String) → join p u ≡ join q v → IsPrefix p q ⊎ IsPrefix q p
prefixes-comparable String.[] q u v e = inl (q, nil-append q)
prefixes-comparable (String.◌∷◌ c p) String.[] u v e =
    inr (String.◌∷◌ c p, nil-append (String.◌∷◌ c p))
prefixes-comparable (String.◌∷◌ c p) (String.◌∷◌ d q) u v e =
    let flat : String.◌∷◌ c (join p u) ≡ String.◌∷◌ d (join q v) =
      sym (cons-append c p u) ∙ e ∙ cons-append d q v in
    let head : c ≡ d = head-eq_of_cons-eq flat in
    elim (prefixes-comparable p q u v (tail-eq_of_cons-eq flat)) [
      | inl (w, k) ↦ inl (w, cons-append c p w ∙ rw (head, k) refl)
      | inr (w, k) ↦ inr (w, cons-append d q w ∙ rw (head, k) refl)
    ]

or-left : (a b : Bool) → a ≡ true → (a || b) ≡ true
or-left a b h = ground arith

or-right : (a b : Bool) → b ≡ true → (a || b) ≡ true
or-right a b h = ground arith

starts_with-comparable :
    (key p q : String)
    → starts_with key p ≡ true
    → starts_with key q ≡ true
    → (starts_with p q || starts_with q p) ≡ true
starts_with-comparable key p q h k =
    let (u, e) = (starts_with_iff key p).0 h in
    let (v, f) = (starts_with_iff key q).0 k in
    elim (prefixes-comparable p q u v (e ∙ sym f)) [
      | inl below ↦ or-right (starts_with p q) (starts_with q p) ((starts_with_iff q p).1 below)
      | inr above ↦ or-left (starts_with p q) (starts_with q p) ((starts_with_iff p q).1 above)
    ]

contains_any-key :
    (d : Dataset) (key : String) (ks : List String)
    → contains_key key ks ≡ true
    → contains d key ≡ true
    → contains_any d ks ≡ true
unfolding contains_key contains_any
contains_any-key d key [] h k = absurd (ground (arith, h))
contains_any-key d key (j ∷ ks) h k = elim (Bool-cases (str_eq j key)) [
  | inl same ↦
      let here : contains d j ≡ true =
        subst (λ (z : String). contains d z ≡ true) (sym ((eq_iff j key).0 same)) k in
      ground (arith, here)
  | inr other ↦
      let there = contains_any-key d key ks (ground (arith, h, other)) k in ground (arith, there)
]

-- A dataset with a prefix has no exact keys.
prefix-only :
    (d : Dataset) (key : String)
    → is_incomplete d ≡ false
    → str_eq d.prefix "" ≡ false
    → contains d key ≡ true
    → starts_with key d.prefix ≡ true
unfolding contains contains_key
prefix-only d key whole some_prefix k = elim (List-cases d.keys) [
  | inl empty ↦
      let out : contains_key key d.keys ≡ false =
        subst (λ (ks : List String). contains_key key ks ≡ false) (sym empty) refl in
      ground (arith, k, out)
  | inr (_, _, some_key) ↦
      let out : no_keys d.keys ≡ false = rw some_key refl in
      absurd (ground (arith, whole, some_prefix, out))
]

keys-only :
    (d : Dataset) (key : String)
    → str_eq d.prefix "" ≡ true
    → contains d key ≡ true
    → contains_key key d.keys ≡ true
unfolding contains
keys-only d key empty k = ground (arith, empty, k)

shared-overlaps :
    (a b : Dataset) (key : String)
    → is_incomplete a ≡ false
    → is_incomplete b ≡ false
    → contains a key ≡ true
    → contains b key ≡ true
    → overlaps a b ≡ true
unfolding overlaps
shared-overlaps a b key ha hb ka kb = elim (Bool-cases (str_eq a.prefix "")) [
  | inl a_keys ↦
      let any = contains_any-key b key a.keys (keys-only a key a_keys ka) kb in
      ground (arith, a_keys, any)
  | inr a_prefix ↦ elim (Bool-cases (str_eq b.prefix "")) [
    | inl b_keys ↦
        let any = contains_any-key a key b.keys (keys-only b key b_keys kb) ka in
        ground (arith, a_prefix, b_keys, any)
    | inr b_prefix ↦
        let either =
          starts_with-comparable key a.prefix b.prefix (prefix-only a key ha a_prefix ka)
            (prefix-only b key hb b_prefix kb) in
        ground (arith, a_prefix, b_prefix, either)
  ]
]

overlaps_comm : (a b : Dataset) → overlaps a b ≡ overlaps b a
unfolding overlaps
overlaps_comm a b = ground arith

-- Each registered dataset is complete and overlaps none that was there before.
abbrev pub Separate : List Dataset → Type 0
Separate [] = Unit {0}
Separate (d ∷ ds) =
    (is_incomplete d ≡ false) × All (λ existing. overlaps d existing ≡ false) ds × Separate ds

find_overlap-none :
    (d : Dataset) (ds : List Dataset)
    → find_overlap d ds ≡ none
    → All (λ existing. overlaps d existing ≡ false) ds
unfolding find_overlap
find_overlap-none d [] h = tt
find_overlap-none d (x ∷ ds) h = elim (Bool-cases (overlaps d x)) [
  | inl bad ↦ absurd (ground (arith, h, bad))
  | inr fine ↦ (fine, find_overlap-none d ds (ground (arith, h, fine)))
]

-- What a registration leaves: the datasets as they were, or with a complete one that overlaps none.
pub register-cases :
    (d : Dataset) (ds : List Dataset)
    → ((register d ds).1 ≡ ds)
      ⊎ (((register d ds).1 ≡ d ∷ ds) × (is_incomplete d ≡ false) × (find_overlap d ds ≡ none))
unfolding register
register-cases d ds = elim (Bool-cases (is_incomplete d)) [
  | inl out ↦ inl (rw out refl)
  | inr whole ↦ elim (Bool-cases (has_bad_key [] d.keys)) [
    | inl bad ↦ inl (rw (whole, bad) refl)
    | inr good ↦ elim (Bool-cases (is_registered (find_dataset d.name ds))) [
      | inl old ↦ inl (rw (whole, good, old) refl)
      | inr new ↦ elim (Option-cases (find_overlap d ds)) [
        | inl apart ↦ inr (rw (whole, good, new, apart) refl, whole, apart)
        | inr (_, hit) ↦ inl (rw (whole, good, new, hit) refl)
      ]
    ]
  ]
]

pub register-Separate : (d : Dataset) (ds : List Dataset) → Separate ds → Separate (register d ds).1
unfolding register
register-Separate d ds h = elim (register-cases d ds) [
  | inl same ↦ subst Separate (sym same) h
  | inr (added, whole, apart) ↦ subst Separate (sym added) (whole, find_overlap-none d ds apart, h)
]

abbrev pub Member : Dataset → List Dataset → Type 0
Member a [] = ⊥
Member a (d ∷ ds) = (a ≡ d) ⊎ Member a ds

All-Member : (P : Dataset → Type 0) (ds : List Dataset) (a : Dataset) → All P ds → Member a ds → P a
All-Member P [] a h m = absurd m
All-Member P (d ∷ ds) a (p, h) (inl same) = subst P (sym same) p
All-Member P (d ∷ ds) a (p, h) (inr m) = All-Member P ds a h m

Separate-complete :
    (ds : List Dataset) (a : Dataset) → Separate ds → Member a ds → is_incomplete a ≡ false
Separate-complete [] a h m = absurd m
Separate-complete (d ∷ ds) a (whole, _, h) (inl same) = rw same whole
Separate-complete (d ∷ ds) a (whole, _, h) (inr m) = Separate-complete ds a h m

alone :
    (a b : Dataset) (key : String)
    → is_incomplete a ≡ false
    → is_incomplete b ≡ false
    → contains a key ≡ true
    → overlaps a b ≡ false
    → contains b key ≡ false
alone a b key ha hb ka free = elim (Bool-cases (contains b key)) [
  | inr out ↦ out
  | inl kb ↦ let hit = shared-overlaps a b key ha hb ka kb in absurd (ground (arith, hit, free))
]

-- Two registered datasets of different names contain no common key.
pub Separate-disjoint :
    (ds : List Dataset) (a b : Dataset) (key : String)
    → Separate ds
    → Member a ds
    → Member b ds
    → a.name ≢ b.name
    → contains a key ≡ true
    → contains b key ≡ false
Separate-disjoint [] a b key h m n other ka = absurd m
Separate-disjoint (d ∷ ds) a b key (whole, apart, h) (inl ea) (inl eb) other ka =
    absurd (other (ap (λ (x : Dataset). x.name) (ea ∙ sym eb)))
Separate-disjoint (d ∷ ds) a b key (whole, apart, h) (inr m) (inr n) other ka =
    Separate-disjoint ds a b key h m n other ka
Separate-disjoint (d ∷ ds) a b key (whole, apart, h) (inl ea) (inr n) other ka =
    let free : overlaps a b ≡ false = rw ea (All-Member (λ x. overlaps d x ≡ false) ds b apart n) in
    let whole_a : is_incomplete a ≡ false = rw ea whole in
    alone a b key whole_a (Separate-complete ds b h n) ka free
Separate-disjoint (d ∷ ds) a b key (whole, apart, h) (inr m) (inl eb) other ka =
    let free : overlaps a b ≡ false =
      overlaps_comm a b ∙ rw eb (All-Member (λ x. overlaps d x ≡ false) ds a apart m) in
    let whole_b : is_incomplete b ≡ false = rw eb whole in
    alone a b key (Separate-complete ds a h m) whole_b ka free
