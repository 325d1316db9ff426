-- ===== src/Filter/Decision.antt =====
-- Which files application/filter.rules/filter.go lets through, in the settings' own unit.
use tdl.Prelude.{
  ℕ, ◌*◌, ◌≤◌, ◌<◌, ◌≡◌, refl, subst, ◌⊎◌, inl, inr, Bool, true, false, not, ◌&&◌, ◌||◌, some, List,
  [], ◌∷◌, if◌then◌else◌, ltb, arith, Bool-cases, ◌↔◌,
}
use tdl.Prelude.Int.{ℤ, pos, negsuc, pos_part, ltb_ℤ}
use tdl.Prelude.Text.{same_codes}
use tdl.Filter.{
  Settings, Reason, max_int64, mb_to_bytes, has_ext, is_none, find_ext, ext_or_empty,
  normalize_extension, extensions, prepare_filter, should_handle, allowed, size_excluded,
  extension_excluded,
}

-- A bound of the settings in bytes, where it does not pass the largest integer.
abbrev pub clamped : ℕ → ℕ
clamped n = if ltb max_int64 n then max_int64 else n

-- The bytes of a number of megabytes never overflow: they are the product, cut off at the largest
-- 64-bit integer, and nothing for a number that is not positive.
pub mb_to_bytes-clamped :
    (mb : ℕ) → (mb_to_bytes (pos mb) ≡ clamped (mb * 1048576)) × (mb_to_bytes (negsuc mb) ≡ 0)
unfolding mb_to_bytes
mb_to_bytes-clamped mb = (ground arith, refl)

same_codes_refl : (x : List ℕ) → same_codes x x ≡ true
unfolding same_codes
same_codes_refl [] = refl
same_codes_refl (c ∷ cs) = ground (arith, same_codes_refl cs)

same_codes-eq : (x y : List ℕ) → same_codes x y ≡ true → x ≡ y
unfolding same_codes
same_codes-eq [] [] h = refl
same_codes-eq [] (_ ∷ _) h = absurd (ground (arith, h))
same_codes-eq (_ ∷ _) [] h = absurd (ground (arith, h))
same_codes-eq (c ∷ cs) (d ∷ ds) h =
    let head : c ≡ d = ground (arith, h) in
    let tail = same_codes-eq cs ds (ground (arith, h)) in rw (head, tail) refl

under_min : ℤ → ℕ → Bool
under_min mb n = ltb 0 (mb_to_bytes mb) && ltb_ℤ (pos n) (pos (mb_to_bytes mb))

over_max : ℤ → ℕ → Bool
over_max mb n = ltb 0 (mb_to_bytes mb) && ltb_ℤ (pos (mb_to_bytes mb)) (pos n)

under_min_iff :
    (mb : ℤ) (n : ℕ) → n < max_int64 → (under_min mb n ≡ false) ↔ (pos_part mb * 1048576 ≤ n)
unfolding mb_to_bytes under_min
under_min_iff (negsuc m) n h = (λ _. ground arith, λ _. refl)
under_min_iff (pos m) n h = (λ e. ground (arith, e, h), λ e. ground (arith, e, h))

over_max_iff :
    (mb : ℤ) (n : ℕ)
    → n < max_int64
    → (over_max mb n ≡ false) ↔ ((pos_part mb ≡ 0) ⊎ (n ≤ pos_part mb * 1048576))
unfolding mb_to_bytes over_max
over_max_iff (negsuc m) n h = (λ _. inl refl, λ _. refl)
over_max_iff (pos m) n h = (λ e. ground (arith, e, h), λ e. ground (arith, e, h))

-- The branches of ShouldHandle on its five tests.
pick : Bool → Bool → Bool → Bool → Bool → Bool × Reason
pick a b c d e =
    if not a && not b
    then (false, extension_excluded)
    else if c
    then (false, extension_excluded)
    else if d || e
    then (false, size_excluded)
    else (true, allowed)

pick_to :
    (a b c d e : Bool)
    → (pick a b c d e).0 ≡ true
    → ((a ≡ true) ⊎ (b ≡ true)) × (c ≡ false) × (d ≡ false) × (e ≡ false)
unfolding pick
pick_to a b c d e h = elim (Bool-cases a) [
  | inl yes_a ↦
      (inl yes_a, ground (arith, h, yes_a), ground (arith, h, yes_a), ground (arith, h, yes_a))
  | inr no_a ↦ (
    inr (ground (arith, h, no_a)),
    ground (arith, h, no_a),
    ground (arith, h, no_a),
    ground (arith, h, no_a),
  )
]

pick_from :
    (a b c d e : Bool)
    → (a ≡ true) ⊎ (b ≡ true)
    → c ≡ false
    → d ≡ false
    → e ≡ false
    → (pick a b c d e).0 ≡ true
unfolding pick
pick_from a b c d e (inl h) hc hd he = rw (h, hc, hd, he) refl
pick_from a b c d e (inr h) hc hd he = ground (arith, h, hc, hd, he)

module _ (lower : ℕ → ℕ) where
  -- An entry of the settings names the extension.
  abbrev pub Listed : List ℕ → List (List ℕ) → Type 0
  Listed ext [] = ⊥
  Listed ext (v ∷ vs) = (normalize_extension lower v ≡ ext) ⊎ Listed ext vs

  -- The rule that the settings state.
  abbrev pub Passes : List (List ℕ) → List (List ℕ) → ℤ → ℤ → List ℕ → ℕ → Type 0
  Passes include exclude min_mb max_mb name n =
      let ext = normalize_extension lower (ext_or_empty (find_ext name)) in
      ((include ≡ []) ⊎ Listed ext include)
      × (Listed ext exclude → ⊥)
      × (pos_part min_mb * 1048576 ≤ n)
      × ((pos_part max_mb ≡ 0) ⊎ (n ≤ pos_part max_mb * 1048576))

  has_ext_iff :
      (ext : List ℕ) (vs : List (List ℕ))
      → (has_ext ext (extensions lower vs) ≡ true) ↔ Listed ext vs
  unfolding has_ext extensions
  has_ext_iff ext [] = (λ h. absurd (ground (arith, h)), λ l. absurd l)
  has_ext_iff ext (v ∷ vs) = (
    λ h. elim (Bool-cases (same_codes (normalize_extension lower v) ext)) [
      | inl here ↦ inl (same_codes-eq (normalize_extension lower v) ext here)
      | inr other ↦ inr ((has_ext_iff ext vs).0 (ground (arith, h, other)))
    ],
    λ l. elim l [
      | inl same ↦ rw (same, same_codes_refl ext) refl
      | inr later ↦ let rest = (has_ext_iff ext vs).1 later in ground (arith, rest)
    ],
  )

  is_none_iff : (vs : List (List ℕ)) → (is_none (extensions lower vs) ≡ true) ↔ (vs ≡ [])
  unfolding extensions
  is_none_iff [] = (λ _. refl, λ _. refl)
  is_none_iff (v ∷ vs) = (λ h. absurd (ground (arith, h)), λ e. absurd (ground (arith, e)))

  abbrev built : List (List ℕ) → List (List ℕ) → ℤ → ℤ → Settings
  built include exclude min_mb max_mb = record {
    include = extensions lower include;
    exclude = extensions lower exclude;
    min = mb_to_bytes min_mb;
    max = mb_to_bytes max_mb;
  }

  prepare_filter-built :
      (include exclude : List (List ℕ)) (min_mb max_mb : ℤ) (s : Settings)
      → prepare_filter lower include exclude min_mb max_mb ≡ some s
      → built include exclude min_mb max_mb ≡ s
  unfolding prepare_filter
  prepare_filter-built include exclude min_mb max_mb s e =
      elim (Bool-cases (ltb_ℤ (pos 0) max_mb && ltb_ℤ max_mb min_mb)) [
        | inl bad ↦ absurd (ground (arith, e, bad))
        | inr good ↦ ground (arith, e, good)
      ]

  should_handle-built :
      (include exclude : List (List ℕ)) (min_mb max_mb : ℤ) (name : List ℕ) (n : ℕ)
      → n < max_int64
      → ((should_handle lower (some (built include exclude min_mb max_mb)) name (pos n)).0 ≡ true)
        ↔ Passes include exclude min_mb max_mb name n
  unfolding should_handle under_min over_max pick
  should_handle-built include exclude min_mb max_mb name n h =
      let ext = normalize_extension lower (ext_or_empty (find_ext name)) in
      let a = is_none (extensions lower include) in
      let b = has_ext ext (extensions lower include) in
      let c = has_ext ext (extensions lower exclude) in
      let d = under_min min_mb n in
      let x = over_max max_mb n in
      (
        λ e.
            let (some_include, free, low, high) = pick_to a b c d x e in
            (
              elim some_include [
                | inl empty ↦ inl ((is_none_iff include).0 empty)
                | inr listed ↦ inr ((has_ext_iff ext include).0 listed)
              ],
              λ l. let bad = (has_ext_iff ext exclude).1 l in absurd (ground (arith, bad, free)),
              (under_min_iff min_mb n h).0 low,
              (over_max_iff max_mb n h).0 high,
            ),
        λ p.
            let (inside, outside, low, high) = p in
            pick_from a b c d x
              (elim inside [
                | inl empty ↦ inl ((is_none_iff include).1 empty)
                | inr listed ↦ inr ((has_ext_iff ext include).1 listed)
              ])
              (elim (Bool-cases c) [
                | inl bad ↦ absurd (outside ((has_ext_iff ext exclude).0 bad))
                | inr free ↦ free
              ])
              ((under_min_iff min_mb n h).1 low) ((over_max_iff max_mb n h).1 high),
      )

  -- With accepted settings, a file of a size below the largest integer passes exactly when its normalized
  -- extension is one of the included ones, or none is included; it is none of the excluded ones; and its
  -- size lies between the two bounds in megabytes, inclusively, where a bound that is not positive is none.
  pub should_handle-Passes :
      (include exclude : List (List ℕ)) (min_mb max_mb : ℤ) (s : Settings) (name : List ℕ) (n : ℕ)
      → prepare_filter lower include exclude min_mb max_mb ≡ some s
      → n < max_int64
      → ((should_handle lower (some s) name (pos n)).0 ≡ true)
        ↔ Passes include exclude min_mb max_mb name n
  should_handle-Passes include exclude min_mb max_mb s name n e h =
      subst
        (λ (t : Settings).
          ((should_handle lower (some t) name (pos n)).0 ≡ true)
          ↔ Passes include exclude min_mb max_mb name n)
        (prepare_filter-built include exclude min_mb max_mb s e)
        (should_handle-built include exclude min_mb max_mb name n h)
