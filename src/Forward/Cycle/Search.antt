-- ===== src/Forward/Cycle/Search.antt =====
-- The search of application/forward.rules/rules.go against chains of forwards: what it does to `visited`.
use Prim.Native.String.{String}
use tdl.Prelude.Flags.{has, has_cons, has_later, has_nil, has_self}
use tdl.Prelude.{
  ℕ, zero, suc, ◌≡◌, sym, subst, inl, inr, true, false, some, List, [], ◌∷◌, arith, Bool-cases,
  Option-cases,
}
use tdl.Forward.Cycle.{Visit, scan_targets, visit_source}

-- A chain of one or more forwards.
pub data Walk (targets : String → List String) (x : String) : String → Type 0 where
  one : {y : String} → has y (targets x) ≡ true → Walk targets x y
  more : {y z : String} → Walk targets x y → has z (targets y) ≡ true → Walk targets x z

-- Each entry's targets stand behind it, and it does not.
abbrev pub Settled : (String → List String) → List String → Type 0
Settled targets [] = Unit {0}
Settled targets (v ∷ vs) =
    (has v vs ≡ false)
    × ((y : String) → has y (targets v) ≡ true → has y vs ≡ true)
    × Settled targets vs

-- What a visit that finds no loop does to `visited`.
pub record Grows (targets : String → List String) (visiting before after : List String)
    : Type 0 where
  pub settled : Settled targets after
  pub kept : (y : String) → has y before ≡ true → has y after ≡ true
  pub outside : (y : String) → has y visiting ≡ true → has y before ≡ false → has y after ≡ false

pub scan-Grows :
    (targets : String → List String) (visiting : List String) (visit : List String → String → Visit)
    → ((vs : List String) (t : String) (vs' : List String)
        → Settled targets vs
        → visit vs t ≡ some (false, vs')
        → Grows targets visiting vs vs' × (has t vs' ≡ true))
    → (vs ts vs' : List String) → Settled targets vs
    → scan_targets visit vs ts ≡ some (false, vs')
    → Grows targets visiting vs vs' × ((y : String) → has y ts ≡ true → has y vs' ≡ true)
unfolding scan_targets
scan-Grows targets visiting visit step vs [] vs' h e =
    let same : vs ≡ vs' = ground (arith, e) in
    subst
      (λ (w : List String).
        Grows targets visiting vs w × ((y : String) → has y [] ≡ true → has y w ≡ true))
      same
      (record { settled = h; kept = λ y k. k; outside = λ y a b. b }, λ y k. absurd (has_nil y k))
scan-Grows targets visiting visit step vs (t ∷ ts) vs' h e = elim (Option-cases (visit vs t)) [
  | inl n ↦ absurd (ground (arith, e, n))
  | inr ((true, mid), n) ↦ absurd (ground (arith, e, n))
  | inr ((false, mid), n) ↦
      let (first, here) = step vs t mid h n in
      let later : scan_targets visit mid ts ≡ some (false, vs') = ground (arith, e, n) in
      let (rest, there) = scan-Grows targets visiting visit step mid ts vs' first.settled later in
      (
        record {
          settled = rest.settled;
          kept = λ y k. rest.kept y (first.kept y k);
          outside = λ y a b. rest.outside y a (first.outside y a b);
        },
        λ y k. elim (has_cons y t ts k) [
          | inl same ↦ rest.kept y (subst (λ z. has z mid ≡ true) (sym same) here)
          | inr deeper ↦ there y deeper
        ],
      )
]

leave-outside :
    (targets : String → List String) (visiting vs vs' : List String) (source : String)
    → has source visiting ≡ false
    → Grows targets (source ∷ visiting) vs vs'
    → (y : String) → has y visiting ≡ true
    → has y vs ≡ false
    → has y (source ∷ vs') ≡ false
leave-outside targets visiting vs vs' source free g y a b =
    elim (Bool-cases (has y (source ∷ vs'))) [
      | inr out ↦ out
      | inl found ↦ elim (has_cons y source vs' found) [
        | inl same ↦
            let a' : has source visiting ≡ true = subst (λ z. has z visiting ≡ true) same a in
            absurd (ground (arith, a', free))
        | inr deeper ↦
            let out : has y vs' ≡ false = g.outside y (has_later y source visiting a) b in
            absurd (ground (arith, out, deeper))
      ]
    ]

Grows-leave :
    (targets : String → List String) (visiting vs vs' : List String) (source : String)
    → has source vs ≡ false
    → has source visiting ≡ false
    → Grows targets (source ∷ visiting) vs vs'
    → ((y : String) → has y (targets source) ≡ true → has y vs' ≡ true)
    → Grows targets visiting vs (source ∷ vs')
Grows-leave targets visiting vs vs' source new free g all = record {
  settled = (g.outside source (has_self source visiting) new, all, g.settled);
  kept = λ y k. has_later y source vs' (g.kept y k);
  outside = λ y a b. leave-outside targets visiting vs vs' source free g y a b;
}

pub visit-Grows :
    (fuel : ℕ) (targets : String → List String) (visiting vs : List String) (source : String)
    (vs' : List String)
    → Settled targets vs
    → visit_source fuel targets visiting vs source ≡ some (false, vs')
    → Grows targets visiting vs vs' × (has source vs' ≡ true)
unfolding visit_source
visit-Grows zero targets visiting vs source vs' h e = absurd (ground (arith, e))
visit-Grows (suc fuel) targets visiting vs source vs' h e =
    elim (Bool-cases (has source visiting)) [
      | inl loop ↦ absurd (ground (arith, e, loop))
      | inr free ↦ elim (Bool-cases (has source vs)) [
        | inl old ↦
            let same : vs ≡ vs' = ground (arith, e, free, old) in
            subst (λ (w : List String). Grows targets visiting vs w × (has source w ≡ true)) same
              (record { settled = h; kept = λ y k. k; outside = λ y a b. b }, old)
        | inr new ↦
            let below = visit_source fuel targets (source ∷ visiting) in
            elim (Option-cases (scan_targets below vs (targets source))) [
              | inl n ↦ absurd (ground (arith, e, free, new, n))
              | inr ((true, mid), n) ↦ absurd (ground (arith, e, free, new, n))
              | inr ((false, mid), n) ↦
                  let (g, all) =
                    scan-Grows targets (source ∷ visiting) below
                      (λ us t us' k eq. visit-Grows fuel targets (source ∷ visiting) us t us' k eq)
                      vs (targets source) mid h n in
                  let same : source ∷ mid ≡ vs' = ground (arith, e, free, new, n) in
                  subst (λ (w : List String). Grows targets visiting vs w × (has source w ≡ true))
                    same
                    (Grows-leave targets visiting vs mid source new free g all, has_self source mid)
            ]
      ]
    ]
