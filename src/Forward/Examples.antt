-- ===== src/Forward/Examples.antt =====
-- Rules and routes of application/forward.rules/rules.go, run.
use Prim.Native.String.{String}
use text.Mathlib.Text.{◌==◌ as str_eq}
use tdl.Prelude.Flags.{has}
use tdl.Prelude.{if◌then◌else◌, arith, ◌≡◌, refl, true, false, some, List, [], ◌∷◌}
use tdl.Prelude.Text.{same_codes, is_blank, is_space}
use tdl.Forward.Refs.{
  valid_ref, valid_parts, split, is_kind, is_canonical, parse_int, parse_digits, digits_value,
  in_range, format_digits,
}
use tdl.Forward.Cycle.{has_cycle, scan_targets, visit_source}
use tdl.Forward.Cycle.Correct.{Answers, has_cycle_lem}
use tdl.Forward.Rules.{
  ForwardRule, Routes, refused, routed, has_loop, prepare_config, refuse_loop, add_rules,
  rule_error, add_sources, add_targets, add_target, is_duplicate, append_route, destinations,
  destination_of,
}
use tdl.Forward.Rules.Accepted.{Verdict, prepare_config_lem}
use tdl.Forward.Rules.Routes.{route_to, first_match, route_to-first_match}

abbrev news : ForwardRule
news = record {
  id = "a";
  name = "news";
  enabled = true;
  sources = "channel:7" ∷ [];
  targets = "chat:3" ∷ "self" ∷ [];
  mode = "default";
  silent = false;
}

abbrev copy : ForwardRule
copy = record news { id = "b"; targets = "self" ∷ "user:12" ∷ []; mode = "clone" }

abbrev back : ForwardRule
back = record news { id = "c"; sources = "chat:3" ∷ []; targets = "channel:7" ∷ [] }

abbrev built : Routes
built =
    (
      "channel:7",
      destination_of news "chat:3"
          ∷ destination_of news "self"
          ∷ destination_of copy "user:12"
          ∷ [],
    )
    ∷ []

refs : valid_ref "user:12" false ≡ true
unfolding valid_ref valid_parts split is_kind is_canonical parse_int parse_digits digits_value
    in_range format_digits same_codes
refs = refl

refs_zero : valid_ref "user:012" false ≡ false
unfolding valid_ref valid_parts split is_kind is_canonical parse_int parse_digits digits_value
    in_range format_digits same_codes
refs_zero = refl

two_rules : prepare_config (news ∷ copy ∷ []) ≡ some (routed built)
unfolding valid_ref valid_parts split is_kind is_canonical parse_int parse_digits digits_value
    in_range format_digits same_codes is_blank is_space has_cycle has scan_targets visit_source
    prepare_config refuse_loop add_rules rule_error add_sources add_targets add_target is_duplicate
    append_route destinations
two_rules = refl

loop_refused : prepare_config (news ∷ back ∷ []) ≡ some (refused has_loop)
unfolding valid_ref valid_parts split is_kind is_canonical parse_int parse_digits digits_value
    in_range format_digits same_codes is_blank is_space has_cycle has scan_targets visit_source
    prepare_config refuse_loop add_rules rule_error add_sources add_targets add_target is_duplicate
    append_route destinations
loop_refused = refl

prepare_config_lem_example : Verdict (news ∷ back ∷ [])
prepare_config_lem_example = prepare_config_lem (news ∷ back ∷ [])

route_to-first_match_example :
    route_to "channel:7" "self" built ≡ first_match "channel:7" "self" (news ∷ copy ∷ [])
route_to-first_match_example =
    route_to-first_match (news ∷ copy ∷ []) built "channel:7" "self" two_rules

abbrev pair : String → List String
pair x = if str_eq x "a" then "b" ∷ [] else if str_eq x "b" then "a" ∷ [] else []

pair_sources : (x y : String) → has y (pair x) ≡ true → has x ("a" ∷ "b" ∷ []) ≡ true
unfolding has
pair_sources x y h = ground (arith, h)

has_cycle_lem_example : Answers pair ("a" ∷ "b" ∷ [])
has_cycle_lem_example = has_cycle_lem pair ("a" ∷ "b" ∷ []) pair_sources
