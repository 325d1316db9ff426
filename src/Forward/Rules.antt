-- ===== src/Forward/Rules.antt =====
-- PrepareConfig and Destinations of application/forward.rules/rules.go. The settings are decoded and
-- the context is alive. The map of routes is an association list.
pub mod Routes
pub mod Accepted
use Prim.Native.String.{String}
use text.Mathlib.Text.{◌==◌ as str_eq}
use tdl.Prelude.Flags.{has}
use tdl.Prelude.{
  ℕ, Bool, true, false, not, ◌&&◌, ◌||◌, Option, none, some, List, [], ◌∷◌, ◌++◌, map,
  if◌then◌else◌, ltb, ◌==◌, length,
}
use tdl.Prelude.Text.{codes, is_blank}
use tdl.Forward.Refs.{valid_ref}
use tdl.Forward.Cycle.{has_cycle}

-- types.ForwardRule
pub record ForwardRule : Type 0 where
  pub id : String
  pub name : String
  pub enabled : Bool
  pub sources : List String
  pub targets : List String
  pub mode : String
  pub silent : Bool

-- types.ForwardDestination
pub record ForwardDestination : Type 0 where
  pub rule_id : String
  pub target : String
  pub mode : String
  pub silent : Bool
  pub name : String

abbrev pub Routes : Type 0
Routes = List (String × List ForwardDestination)

-- The errors of PrepareConfig.
pub data RuleError : Type 0 where
  too_many_rules : RuleError
  bad_id : String → RuleError
  over_limit : String → RuleError
  no_ends : String → RuleError
  bad_mode : String → RuleError
  bad_source : String → RuleError
  bad_target : String → RuleError
  has_loop : RuleError

pub data Outcome : Type 0 where
  refused : RuleError → Outcome
  routed : Routes → Outcome

-- next[source]; also what Destinations returns.
unfoldable pub destinations : String → Routes → List ForwardDestination
destinations source [] = []
destinations source ((key, list) ∷ rest) =
    if str_eq key source then list else destinations source rest

-- next[source] = append(next[source], d)
unfoldable pub append_route : String → ForwardDestination → Routes → Routes
append_route source d [] = (source, d ∷ []) ∷ []
append_route source d ((key, list) ∷ rest) =
    if str_eq key source
    then (key, list ++ (d ∷ [])) ∷ rest
    else (key, list) ∷ append_route source d rest

-- The loop that looks for a duplicate.
unfoldable pub is_duplicate : String → List ForwardDestination → Bool
is_duplicate target [] = false
is_duplicate target (d ∷ ds) = str_eq d.target target || is_duplicate target ds

abbrev pub destination_of : ForwardRule → String → ForwardDestination
destination_of rule target = record {
  rule_id = rule.id;
  target = target;
  mode = rule.mode;
  silent = rule.silent;
  name = "";
}

-- The body of the loop over the targets.
unfoldable pub add_target : ForwardRule → String → Routes → String → Outcome
add_target rule source next target =
    if not (valid_ref target true) || str_eq source target
    then refused (bad_target target)
    else if not rule.enabled
    then routed next
    else if is_duplicate target (destinations source next)
    then routed next
    else routed (append_route source (destination_of rule target) next)

unfoldable pub add_targets : ForwardRule → String → Routes → List String → Outcome
add_targets rule source next [] = routed next
add_targets rule source next (t ∷ ts) = elim (add_target rule source next t) [
  | refused e ↦ refused e
  | routed next' ↦ add_targets rule source next' ts
]

-- The loop over the sources.
unfoldable pub add_sources : ForwardRule → Routes → List String → Outcome
add_sources rule next [] = routed next
add_sources rule next (s ∷ ss) = elim (valid_ref s false) [
  | false ↦ refused (bad_source s)
  | true ↦ elim (add_targets rule s next rule.targets) [
    | refused e ↦ refused e
    | routed next' ↦ add_sources rule next' ss
  ]
]

abbrev pub is_empty : List String → Bool
is_empty [] = true
is_empty (_ ∷ _) = false

-- The checks before the loops; `none` is a pass.
unfoldable pub rule_error : List String → ForwardRule → Option RuleError
rule_error ids rule =
    if is_blank (codes rule.id) || has rule.id ids
    then some (bad_id rule.id)
    else if ltb 100 (length (codes rule.name))
        || ltb 500 (length rule.sources)
        || ltb 100 (length rule.targets)
    then some (over_limit rule.id)
    else if is_empty rule.sources || is_empty rule.targets
    then some (no_ends rule.id)
    else if not (str_eq rule.mode "default") && not (str_eq rule.mode "clone")
    then some (bad_mode rule.id)
    else none

-- The loop over the rules.
unfoldable pub add_rules : List String → Routes → List ForwardRule → Outcome
add_rules ids next [] = routed next
add_rules ids next (rule ∷ rules) = elim (rule_error ids rule) [
  | some e ↦ refused e
  | none ↦ elim (add_sources rule next rule.sources) [
    | refused e ↦ refused e
    | routed next' ↦ add_rules (rule.id ∷ ids) next' rules
  ]
]

abbrev pub target_of : ForwardDestination → String
target_of d = d.target

abbrev pub targets_of : Routes → String → List String
targets_of next source = map target_of (destinations source next)

abbrev pub key_of : String × List ForwardDestination → String
key_of entry = entry.0

-- The search for a loop over the built routes.
unfoldable pub refuse_loop : Outcome → Option Outcome
refuse_loop (refused e) = some (refused e)
refuse_loop (routed next) = elim (has_cycle (targets_of next) (map key_of next)) [
  | none ↦ none
  | some true ↦ some (refused has_loop)
  | some false ↦ some (routed next)
]

-- PrepareConfig; `none` means that the search ran out of fuel.
unfoldable pub prepare_config : List ForwardRule → Option Outcome
prepare_config rules =
    if ltb 200 (length rules)
    then some (refused too_many_rules)
    else refuse_loop (add_rules [] [] rules)
