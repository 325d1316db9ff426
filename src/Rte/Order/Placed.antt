-- ===== src/Rte/Order/Placed.antt =====
-- The order of dependencies of rte as a whole: each id after the ids that it depends on.
use Prim.Native.String.{String}
use text.Mathlib.Text.{◌==◌ as str_eq}
use tdl.Prelude.{
  suc, ◌≡◌, refl, sym, ap, ◌∙◌, subst, ◌⊎◌, inl, inr, Bool, true, false, ◌||◌, List, [], ◌∷◌, ◌++◌,
  arith, length,
}
use tdl.Prelude.Flags.{has, has_self, has_later, has_cons, has_nil, room_nil}
use tdl.Forward.Cycle.{scan_targets, visit_source}
use tdl.Forward.Cycle.Search.{Walk, Settled, scan-Grows, visit-Grows}
use tdl.Forward.Cycle.Loop.{scan-Walk, visit-Walk}
use tdl.Forward.Cycle.Fuel.{scan_total, visit_total}
use tdl.Rte.Order.{Walked, out_of_fuel, unknown, cycle, ended, visit_id, any_id, order_ids}
use tdl.Rte.Order.Correct.{rev, Agrees, Walked-cases, visit_all-Agrees, visit_id-Agrees}
use tdl.Rte.Order.Sound.{Sound, order_ids-Sound}

-- Each id is new and comes after everything that it depends on; `seen` came before.
abbrev pub Placed : (String → List String) → List String → List String → Type 0
Placed deps seen [] = Unit {0}
Placed deps seen (y ∷ ys) =
    (has y seen ≡ false)
    × ((d : String) → has d (deps y) ≡ true → has d seen ≡ true)
    × Placed deps (y ∷ seen) ys

has-snoc : (x v : String) (xs : List String) → has x (xs ++ (v ∷ [])) ≡ (str_eq x v || has x xs)
unfolding has
has-snoc x v [] = refl
has-snoc x v (y ∷ ys) = ground (arith, has-snoc x v ys)

has-rev : (x : String) (vs : List String) → has x (rev vs) ≡ has x vs
unfolding has
has-rev x [] = refl
has-rev x (v ∷ vs) = ground (arith, has-snoc x v (rev vs), has-rev x vs)

not_in_cons :
    (v x : String) (xs seen : List String)
    → has v seen ≡ false
    → has v (x ∷ xs) ≡ false
    → has v (x ∷ seen) ≡ false
unfolding has
not_in_cons v x xs seen f n = ground (arith, f, n)

not_in_tail : (v x : String) (xs : List String) → has v (x ∷ xs) ≡ false → has v xs ≡ false
unfolding has
not_in_tail v x xs n = ground (arith, n)

Placed-snoc :
    (deps : String → List String) (seen xs : List String) (v : String)
    → Placed deps seen xs
    → has v seen ≡ false
    → has v xs ≡ false
    → ((d : String) → has d (deps v) ≡ true → (has d xs ≡ true) ⊎ (has d seen ≡ true))
    → Placed deps seen (xs ++ (v ∷ []))
Placed-snoc deps seen [] v p fresh new all =
    (fresh, λ d h. elim (all d h) [ inl none_left ↦ absurd (has_nil d none_left) | inr s ↦ s ], tt)
Placed-snoc deps seen (x ∷ xs) v (a, b, p) fresh new all = (
  a,
  b,
  Placed-snoc deps (x ∷ seen) xs v p (not_in_cons v x xs seen fresh new) (not_in_tail v x xs new)
      (λ d h. elim (all d h) [
        | inr s ↦ inr (has_later d x seen s)
        | inl k ↦ elim (has_cons d x xs k) [
          | inl this ↦ inr (subst (λ z. has z (x ∷ seen) ≡ true) (sym this) (has_self x seen))
          | inr deep ↦ inl deep
        ]
      ]),
)

Settled-Placed :
    (deps : String → List String) (vs : List String) → Settled deps vs → Placed deps [] (rev vs)
unfolding has
Settled-Placed deps [] s = tt
Settled-Placed deps (v ∷ vs) (fresh, all, s) =
    Placed-snoc deps [] (rev vs) v (Settled-Placed deps vs s) refl (has-rev v vs ∙ fresh)
      (λ d h. inl (has-rev d vs ∙ all d h))

-- An order of exactly `ids`, with what they depend on first; or a true reason why there is none.
abbrev pub Orders : (String → Bool) → (String → List String) → List String → Walked → Type 0
Orders known deps ids out_of_fuel = ⊥
Orders known deps ids (unknown d) = (known d ≡ false) × ((x : String) × (has d (deps x) ≡ true))
Orders known deps ids (cycle x) = (y : String) × Walk deps y y
Orders known deps ids (ended done order) =
    Placed deps [] order × ((y : String) → has y order ≡ has y ids)

same_flags : (a b : Bool) → (a ≡ true → b ≡ true) → (b ≡ true → a ≡ true) → a ≡ b
same_flags true b f g = sym (f refl)
same_flags false true f g = g refl
same_flags false false f g = refl

-- The assembly of components and the reconciler order the ids with everything that an id depends on before it,
-- each id once; they refuse only a true loop of dependencies or a dependency that is not known. The search ends.
pub order_ids-Orders :
    (known : String → Bool) (deps : String → List String) (ids : List String)
    → ((x y : String) → has y (deps x) ≡ true → has x ids ≡ true)
    → ((x y : String) → has y (deps x) ≡ true → known y ≡ true → has y ids ≡ true)
    → Orders known deps ids (order_ids known deps ids)
unfolding order_ids
order_ids-Orders known deps ids listed closed =
    let fuel = suc (length ids) in
    let seek = visit_source fuel deps [] in
    let agree =
      visit_all-Agrees any_id (visit_id fuel known deps []) seek
        (λ us o t h. visit_id-Agrees fuel known deps [] us o t h) [] [] ids refl in
    let sound = order_ids-Sound known deps ids closed in
    elim (Walked-cases (order_ids known deps ids)) [
      | inl w ↦
          let out = subst (λ z. Agrees z (scan_targets seek [] ids)) w agree in
          absurd (
            scan_total seek [] ids
              (λ us t k. visit_total fuel deps ids [] us t listed (ground (arith, room_nil ids)))
              out)
      | inr (inl (x, w)) ↦ rw w (subst (Sound known deps ids) w sound)
      | inr (inr (inl (x, w))) ↦
          let (vs, out) = subst (λ z. Agrees z (scan_targets seek [] ids)) w agree in
          rw w (
            scan-Walk deps seek [] ids vs
              (λ us t us' k eq. visit-Walk fuel deps [] us t us' (λ y h. absurd (has_nil y h)) eq)
              out)
      | inr (inr (inr (done, order, w))) ↦
          let (out, o) = subst (λ z. Agrees z (scan_targets seek [] ids)) w agree in
          let within = subst (Sound known deps ids) w sound in
          let (g, here) =
            scan-Grows deps [] seek (λ us t us' h eq. visit-Grows fuel deps [] us t us' h eq) [] ids
              done tt out in
          rw w (
            subst (Placed deps []) (sym o) (Settled-Placed deps done g.settled),
            λ y.
                same_flags (has y order) (has y ids)
                  (λ h. within y (sym (has-rev y done) ∙ sym (ap (has y) o) ∙ h))
                  (λ h. ap (has y) o ∙ has-rev y done ∙ here y h),
          )
    ]
