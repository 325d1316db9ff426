-- ===== src/Forward/Rules/Routes.antt =====
-- The routes that PrepareConfig of application/forward.rules/rules.go builds, against the rules.
use Prim.Native.String.{String}
use text.Mathlib.Text.{◌==◌ as str_eq}
use text.Mathlib.TextEquality.{eq_iff}
use text.Mathlib.TextPositions.{eq_refl}
use tdl.Prelude.Flags.{has}
use tdl.Prelude.{
  ◌≡◌, refl, sym, subst, ◌∙◌, inl, inr, Bool, true, false, not, ◌&&◌, ◌||◌, Option, none, some,
  List, [], ◌∷◌, ◌++◌, if◌then◌else◌, arith, Bool-cases, Option-cases,
}
use tdl.Forward.Refs.{valid_ref}
use tdl.Forward.Rules.{
  ForwardRule, ForwardDestination, Routes, routed, destinations, append_route, is_duplicate,
  destination_of, add_target, add_targets, add_sources, rule_error, add_rules, prepare_config,
}
use tdl.Forward.Rules.Accepted.{Outcome-cases, prepare_config-routed}

abbrev pub or_else :
    Option ForwardDestination → Option ForwardDestination → Option ForwardDestination
or_else (some d) other = some d
or_else none other = other

-- The destination for `target` among a source's.
unfoldable pub route_in : String → List ForwardDestination → Option ForwardDestination
route_in target [] = none
route_in target (d ∷ ds) = if str_eq d.target target then some d else route_in target ds

abbrev pub route_to : String → String → Routes → Option ForwardDestination
route_to source target next = route_in target (destinations source next)

abbrev pub route_when : Bool → ForwardRule → String → Option ForwardDestination
route_when true rule target = some (destination_of rule target)
route_when false rule target = none

-- The first enabled rule from `source` to `target`, as a destination.
unfoldable pub first_match : String → String → List ForwardRule → Option ForwardDestination
first_match source target [] = none
first_match source target (rule ∷ rules) =
    or_else
      (route_when (rule.enabled && (has source rule.sources && has target rule.targets)) rule
        target)
      (first_match source target rules)

or_else_assoc :
    (a b c : Option ForwardDestination) → or_else (or_else a b) c ≡ or_else a (or_else b c)
or_else_assoc none b c = refl
or_else_assoc (some d) b c = refl

or_else-none : (a : Option ForwardDestination) → or_else a none ≡ a
or_else-none none = refl
or_else-none (some d) = refl

or_else_when :
    (a : Option ForwardDestination) (p q : Bool) (rule : ForwardRule) (t : String)
    → or_else (or_else a (route_when p rule t)) (route_when q rule t)
      ≡ or_else a (route_when (p || q) rule t)
or_else_when (some d) p q rule t = refl
or_else_when none true q rule t = refl
or_else_when none false q rule t = refl

destinations-append_route :
    (s k : String) (d : ForwardDestination) (next : Routes)
    → destinations s (append_route k d next)
      ≡ (if str_eq k s then destinations s next ++ (d ∷ []) else destinations s next)
unfolding destinations append_route
destinations-append_route s k d [] = ground arith
destinations-append_route s k d ((key, list) ∷ rest) =
    ground (arith, eq_iff key k, eq_iff k s, eq_iff key s, destinations-append_route s k d rest)

route_in-append :
    (t : String) (ds : List ForwardDestination) (d : ForwardDestination)
    → route_in t (ds ++ (d ∷ []))
      ≡ or_else (route_in t ds) (if str_eq d.target t then some d else none)
unfolding route_in
route_in-append t [] d = refl
route_in-append t (x ∷ ds) d = ground (arith, route_in-append t ds d)

route_in-duplicate :
    (t : String) (ds : List ForwardDestination)
    → is_duplicate t ds ≡ true
    → (d : ForwardDestination) × (route_in t ds ≡ some d)
unfolding route_in is_duplicate
route_in-duplicate t [] h = absurd (ground (arith, h))
route_in-duplicate t (x ∷ ds) h = elim (Bool-cases (str_eq x.target t)) [
  | inl same ↦ (x, ground (arith, same))
  | inr other ↦
      let (d, e) = route_in-duplicate t ds (ground (arith, h, other)) in
      (d, ground (arith, other, e))
]

route_when-target :
    (rule : ForwardRule) (u t : String)
    → (if str_eq u t then some (destination_of rule u) else none) ≡ route_when (str_eq u t) rule t
route_when-target rule u t = elim (Bool-cases (str_eq u t)) [
  | inr other ↦ rw other refl
  | inl same ↦
      let eq : u ≡ t = (eq_iff u t).0 same in
      subst
        (λ (z : String).
          (if str_eq u z then some (destination_of rule u) else none)
          ≡ route_when (str_eq u z) rule z)
        eq (rw (eq_refl u) refl)
]

route_to-append_route :
    (rule : ForwardRule) (k u : String) (next : Routes) (s t : String)
    → route_to s t (append_route k (destination_of rule u) next)
      ≡ or_else (route_to s t next) (route_when (str_eq k s && str_eq u t) rule t)
route_to-append_route rule k u next s t = elim (Bool-cases (str_eq k s)) [
  | inl same ↦
      rw (destinations-append_route s k (destination_of rule u) next, same)
        (rw
          (
            route_in-append t (destinations s next) (destination_of rule u),
            route_when-target rule u t,
          )
          refl)
  | inr other ↦
      rw (destinations-append_route s k (destination_of rule u) next, other)
        (sym (or_else-none (route_to s t next)))
]

route_to-duplicate :
    (rule : ForwardRule) (k u : String) (next : Routes) (s t : String)
    → is_duplicate u (destinations k next) ≡ true
    → route_to s t next ≡ or_else (route_to s t next) (route_when (str_eq k s && str_eq u t) rule t)
route_to-duplicate rule k u next s t h = elim (Bool-cases (str_eq k s && str_eq u t)) [
  | inr other ↦ rw other (sym (or_else-none (route_to s t next)))
  | inl same ↦
      let left : str_eq k s ≡ true = ground (arith, same) in
      let right : str_eq u t ≡ true = ground (arith, same) in
      let at_s : is_duplicate u (destinations s next) ≡ true =
        subst (λ (z : String). is_duplicate u (destinations z next) ≡ true) ((eq_iff k s).0 left)
          h in
      let here : is_duplicate t (destinations s next) ≡ true =
        subst (λ (z : String). is_duplicate z (destinations s next) ≡ true) ((eq_iff u t).0 right)
          at_s in
      let (d, found) = route_in-duplicate t (destinations s next) here in rw found refl
]

-- What a target adds to the routes from `s` to `t`, when its rule's switch is `on`.
abbrev Adds : ForwardRule → String → String → Routes → String → String → Routes → Bool → Type 0
Adds rule k u next s t next' on =
    route_to s t next'
    ≡ or_else (route_to s t next) (route_when (on && (str_eq k s && str_eq u t)) rule t)

add_target-route :
    (rule : ForwardRule) (k u : String) (next next' : Routes) (s t : String)
    → add_target rule k next u ≡ routed next'
    → route_to s t next'
      ≡ or_else (route_to s t next) (route_when (rule.enabled && (str_eq k s && str_eq u t)) rule t)
unfolding add_target
add_target-route rule k u next next' s t e =
    elim (Bool-cases (not (valid_ref u true) || str_eq k u)) [
      | inl bad ↦ absurd (ground (arith, e, bad))
      | inr good ↦ elim (Bool-cases rule.enabled) [
        | inr off ↦
            let same : next ≡ next' = ground (arith, e, good, off) in
            rw⁻¹ same (
              subst (Adds rule k u next s t next) (sym off)
                (sym (or_else-none (route_to s t next))))
        | inl on ↦ elim (Bool-cases (is_duplicate u (destinations k next))) [
          | inl twice ↦
              let same : next ≡ next' = ground (arith, e, good, on, twice) in
              rw⁻¹ same (
                subst (Adds rule k u next s t next) (sym on)
                  (route_to-duplicate rule k u next s t twice))
          | inr once ↦
              let same : append_route k (destination_of rule u) next ≡ next' =
                ground (arith, e, good, on, once) in
              let added = append_route k (destination_of rule u) next in
              rw⁻¹ same (
                subst (Adds rule k u next s t added) (sym on)
                  (route_to-append_route rule k u next s t))
        ]
      ]
    ]

chain :
    (a x y : Option ForwardDestination) (p q r : Bool) (rule : ForwardRule) (t : String)
    → (p || q) ≡ r
    → x ≡ or_else a (route_when p rule t)
    → y ≡ or_else x (route_when q rule t)
    → y ≡ or_else a (route_when r rule t)
chain a x y p q r rule t both h k = rw⁻¹ both (k ∙ rw h (or_else_when a p q rule t))

str_eq_comm : (a b : String) → str_eq a b ≡ str_eq b a
str_eq_comm a b = ground (arith, eq_iff a b, eq_iff b a)

never : (on here : Bool) → (on && (here && false)) ≡ false
never on here = ground arith

either_target : (on k p q : Bool) → ((on && (k && p)) || (on && (k && q))) ≡ (on && (k && (p || q)))
either_target on k p q = ground arith

either_source : (on p q t : Bool) → ((on && (p && t)) || (on && (q && t))) ≡ (on && ((p || q) && t))
either_source on p q t = ground arith

add_targets-route :
    (rule : ForwardRule) (k : String) (us : List String) (next next' : Routes) (s t : String)
    → add_targets rule k next us ≡ routed next'
    → route_to s t next'
      ≡ or_else (route_to s t next) (route_when (rule.enabled && (str_eq k s && has t us)) rule t)
unfolding add_targets has
add_targets-route rule k [] next next' s t e =
    let same : next ≡ next' = ground (arith, e) in
    rw⁻¹ same (rw (never rule.enabled (str_eq k s)) (sym (or_else-none (route_to s t next))))
add_targets-route rule k (u ∷ us) next next' s t e =
    elim (Outcome-cases (add_target rule k next u)) [
      | inl (_, bad) ↦ absurd (ground (arith, e, bad))
      | inr (mid, good) ↦
          let first = add_target-route rule k u next mid s t good in
          let rest = add_targets-route rule k us mid next' s t (ground (arith, e, good)) in
          rw (str_eq_comm t u) (
            chain (route_to s t next) (route_to s t mid) (route_to s t next')
              (rule.enabled && (str_eq k s && str_eq u t))
              (rule.enabled && (str_eq k s && has t us))
              (rule.enabled && (str_eq k s && (str_eq u t || has t us))) rule t
              (either_target rule.enabled (str_eq k s) (str_eq u t) (has t us)) first rest)
    ]

add_sources-route :
    (rule : ForwardRule) (ks : List String) (next next' : Routes) (s t : String)
    → add_sources rule next ks ≡ routed next'
    → route_to s t next'
      ≡ or_else
          (route_to s t next)
          (route_when (rule.enabled && (has s ks && has t rule.targets)) rule t)
unfolding add_sources has
add_sources-route rule [] next next' s t e =
    let same : next ≡ next' = ground (arith, e) in
    let off : (rule.enabled && false) ≡ false = never rule.enabled true in
    rw⁻¹ same (rw off (sym (or_else-none (route_to s t next))))
add_sources-route rule (k ∷ ks) next next' s t e = elim (Bool-cases (valid_ref k false)) [
  | inr bad ↦ absurd (ground (arith, e, bad))
  | inl valid ↦ elim (Outcome-cases (add_targets rule k next rule.targets)) [
    | inl (_, bad) ↦ absurd (ground (arith, e, valid, bad))
    | inr (mid, good) ↦
        let first = add_targets-route rule k rule.targets next mid s t good in
        let rest = add_sources-route rule ks mid next' s t (ground (arith, e, valid, good)) in
        let to = has t rule.targets in
        rw (str_eq_comm s k) (
          chain (route_to s t next) (route_to s t mid) (route_to s t next')
            (rule.enabled && (str_eq k s && to)) (rule.enabled && (has s ks && to))
            (rule.enabled && ((str_eq k s || has s ks) && to)) rule t
            (either_source rule.enabled (str_eq k s) (has s ks) to) first rest)
  ]
]

add_rules-route :
    (ids : List String) (rules : List ForwardRule) (next next' : Routes) (s t : String)
    → add_rules ids next rules ≡ routed next'
    → route_to s t next' ≡ or_else (route_to s t next) (first_match s t rules)
unfolding add_rules first_match
add_rules-route ids [] next next' s t e =
    let same : next ≡ next' = ground (arith, e) in
    rw⁻¹ same (sym (or_else-none (route_to s t next)))
add_rules-route ids (rule ∷ rules) next next' s t e = elim (Option-cases (rule_error ids rule)) [
  | inr (_, bad) ↦ absurd (ground (arith, e, bad))
  | inl fine ↦ elim (Outcome-cases (add_sources rule next rule.sources)) [
    | inl (_, bad) ↦ absurd (ground (arith, e, fine, bad))
    | inr (mid, good) ↦
        let first = add_sources-route rule rule.sources next mid s t good in
        let rest =
          add_rules-route (rule.id ∷ ids) rules mid next' s t (ground (arith, e, fine, good)) in
        let here = route_when (rule.enabled && (has s rule.sources && has t rule.targets)) rule t in
        rest ∙ rw first (or_else_assoc (route_to s t next) here (first_match s t rules))
  ]
]

-- When the rules are accepted, the route between two chats is that of the first enabled rule with this
-- source and this target, and there is none when no rule has both.
pub route_to-first_match :
    (rules : List ForwardRule) (next : Routes) (s t : String)
    → prepare_config rules ≡ some (routed next)
    → route_to s t next ≡ first_match s t rules
unfolding first_match route_in destinations
route_to-first_match rules next s t e =
    add_rules-route [] rules [] next s t (prepare_config-routed rules next e)
