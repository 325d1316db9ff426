-- ===== src/Forward/Rules/Accepted.antt =====
-- What PrepareConfig of application/forward.rules/rules.go accepts and refuses.
use Prim.Native.String.{String}
use text.Mathlib.Text.{◌==◌ as str_eq}
use text.Mathlib.TextEquality.{eq_iff}
use tdl.Prelude.Flags.{has}
use tdl.Prelude.{
  ◌<◌, ◌≡◌, refl, ◌⊎◌, inl, inr, true, false, some, List, [], ◌∷◌, map, ltb, length, arith, ltb→lt,
  Bool-cases, Option-cases,
}
use tdl.Forward.Cycle.{has_cycle}
use tdl.Forward.Cycle.Search.{Walk}
use tdl.Forward.Cycle.Correct.{has_cycle_lem}
use tdl.Forward.Rules.{
  ForwardRule, Routes, RuleError, has_loop, too_many_rules, Outcome, refused, routed, destinations,
  targets_of, key_of, add_rules, refuse_loop, prepare_config,
}

pub Outcome-cases :
    (o : Outcome) → ((e : RuleError) × (o ≡ refused e)) ⊎ ((next : Routes) × (o ≡ routed next))
Outcome-cases (refused e) = inl (e, refl)
Outcome-cases (routed next) = inr (next, refl)

has-key :
    (next : Routes) (x y : String)
    → has y (targets_of next x) ≡ true
    → has x (map key_of next) ≡ true
unfolding destinations has
has-key [] x y h = absurd (ground (arith, h))
has-key ((key, list) ∷ rest) x y h = elim (Bool-cases (str_eq key x)) [
  | inl same ↦ ground (arith, same, eq_iff key x, eq_iff x key)
  | inr other ↦ ground (arith, has-key rest x y (ground (arith, h, other)))
]

pub prepare_config-routed :
    (rules : List ForwardRule) (next : Routes)
    → prepare_config rules ≡ some (routed next)
    → add_rules [] [] rules ≡ routed next
unfolding prepare_config refuse_loop
prepare_config-routed rules next e = elim (Bool-cases (ltb 200 (length rules))) [
  | inl many ↦ absurd (ground (arith, e, many))
  | inr few ↦ elim (Outcome-cases (add_rules [] [] rules)) [
    | inl (_, bad) ↦ absurd (ground (arith, e, few, bad))
    | inr (mid, built) ↦ elim (Option-cases (has_cycle (targets_of mid) (map key_of mid))) [
      | inl out ↦ absurd (ground (arith, e, few, built, out))
      | inr (true, loop) ↦ absurd (ground (arith, e, few, built, loop))
      | inr (false, free) ↦
          let same : mid ≡ next = ground (arith, e, few, built, free) in rw⁻¹ same built
    ]
  ]
]

-- What PrepareConfig answers: routes without a loop; the error for a loop, with one; or another error.
abbrev pub Verdict : List ForwardRule → Type 0
Verdict rules =
    ((next : Routes) × (prepare_config rules ≡ some (routed next))
      × ((x : String) → Walk (targets_of next) x x → ⊥))
    ⊎ (((next : Routes) × (prepare_config rules ≡ some (refused has_loop))
          × (add_rules [] [] rules ≡ routed next)
          × ((x : String) × Walk (targets_of next) x x))
        ⊎ ((e : RuleError) × (prepare_config rules ≡ some (refused e))
            × ((200 < length rules) ⊎ (add_rules [] [] rules ≡ refused e))))

-- The validation always ends. Either it accepts routes in which no chain of forwards leads from a chat
-- back to it; or it refuses them for a loop, and such a chain is there; or it refuses the number of
-- rules or one of them.
pub prepare_config_lem : (rules : List ForwardRule) → Verdict rules
unfolding prepare_config refuse_loop
prepare_config_lem rules = elim (Bool-cases (ltb 200 (length rules))) [
  | inl many ↦
      inr (inr (too_many_rules, ground (arith, many), inl (ltb→lt 200 (length rules) many)))
  | inr few ↦ elim (Outcome-cases (add_rules [] [] rules)) [
    | inl (e, bad) ↦ inr (inr (e, ground (arith, few, bad), inr bad))
    | inr (next, built) ↦ elim (has_cycle_lem (targets_of next) (map key_of next) (has-key next)) [
      | inl (loop, x) ↦ inr (inl (next, ground (arith, few, built, loop), built, x))
      | inr (free, out) ↦ inl (next, ground (arith, few, built, free), out)
    ]
  ]
]
