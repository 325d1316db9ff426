-- ===== src/Rte/Order/Sound.antt =====
-- What the order of dependencies of rte may hold, and which dependencies it refuses.
use Prim.Native.String.{String}
use tdl.Prelude.{
  ℕ, zero, suc, ◌≡◌, sym, subst, inl, inr, Bool, true, false, List, [], ◌∷◌, arith, Bool-cases,
  length,
}
use tdl.Prelude.Flags.{has, has_self, has_later, has_cons, has_nil}
use tdl.Rte.Order.{
  Walked, out_of_fuel, unknown, cycle, ended, visit_all, close, visit_id, any_id, order_ids,
}
use tdl.Rte.Order.Correct.{Walked-cases}

-- A refused dependency is some id's, and not known; the done ids are among `ids`.
abbrev pub Sound : (String → Bool) → (String → List String) → List String → Walked → Type 0
Sound known deps ids out_of_fuel = Unit {0}
Sound known deps ids (unknown d) = (known d ≡ false) × ((x : String) × (has d (deps x) ≡ true))
Sound known deps ids (cycle x) = Unit {0}
Sound known deps ids (ended done order) = (y : String) → has y done ≡ true → has y ids ≡ true

module _ (known : String → Bool) (deps : String → List String) (ids : List String) where
  visit_all-Sound :
      (tests : String → Bool) (visit : List String → List String → String → Walked)
      → ((vs order : List String) (t : String)
          → has t ids ≡ true
          → ((y : String) → has y vs ≡ true → has y ids ≡ true)
          → Sound known deps ids (visit vs order t))
      → (vs order ts : List String) → ((y : String) → has y vs ≡ true → has y ids ≡ true)
      → ((t : String) → has t ts ≡ true → tests t ≡ true → has t ids ≡ true)
      → ((t : String) → has t ts ≡ true → tests t ≡ false → Sound known deps ids (unknown t))
      → Sound known deps ids (visit_all tests visit vs order ts)
  unfolding visit_all
  visit_all-Sound tests visit step vs order [] within ok bad = within
  visit_all-Sound tests visit step vs order (t ∷ ts) within ok bad = elim (Bool-cases (tests t)) [
    | inr strange ↦ rw strange (bad t (has_self t ts) strange)
    | inl fine ↦
        let one = step vs order t (ok t (has_self t ts) fine) within in
        elim (Walked-cases (visit vs order t)) [
          | inl w ↦ rw (fine, w) tt
          | inr (inl (x, w)) ↦ rw (fine, w) (subst (Sound known deps ids) w one)
          | inr (inr (inl (x, w))) ↦ rw (fine, w) tt
          | inr (inr (inr (done, next, w))) ↦
              let after = subst (Sound known deps ids) w one in
              rw (fine, w)
                (visit_all-Sound tests visit step done next ts after
                  (λ u h. ok u (has_later u t ts h)) (λ u h. bad u (has_later u t ts h)))
        ]
  ]

  close-Sound :
      (id : String) (w : Walked)
      → has id ids ≡ true
      → Sound known deps ids w
      → Sound known deps ids (close id w)
  close-Sound id out_of_fuel h s = tt
  close-Sound id (unknown x) h s = s
  close-Sound id (cycle x) h s = tt
  close-Sound id (ended done order) h s = λ y k. elim (has_cons y id done k) [
    | inl this ↦ subst (λ z. has z ids ≡ true) (sym this) h
    | inr old ↦ s y old
  ]

  visit_id-Sound :
      (fuel : ℕ) (visiting vs order : List String) (id : String)
      → ((x y : String) → has y (deps x) ≡ true → known y ≡ true → has y ids ≡ true)
      → has id ids ≡ true
      → ((y : String) → has y vs ≡ true → has y ids ≡ true)
      → Sound known deps ids (visit_id fuel known deps visiting vs order id)
  unfolding visit_id
  visit_id-Sound zero visiting vs order id closed h within = tt
  visit_id-Sound (suc fuel) visiting vs order id closed h within =
      elim (Bool-cases (has id visiting)) [
        | inl loop ↦ rw loop tt
        | inr free ↦ elim (Bool-cases (has id vs)) [
          | inl old ↦ rw (free, old) within
          | inr new ↦
              let visit = visit_id fuel known deps (id ∷ visiting) in
              rw (free, new)
                (close-Sound id (visit_all known visit vs order (deps id)) h (
                  visit_all-Sound known visit
                    (λ us o t k w. visit_id-Sound fuel (id ∷ visiting) us o t closed k w) vs order
                    (deps id) within (λ t k g. closed id t k g) (λ t k g. (g, (id, k)))))
        ]
      ]

  pub order_ids-Sound :
      ((x y : String) → has y (deps x) ≡ true → known y ≡ true → has y ids ≡ true)
      → Sound known deps ids (order_ids known deps ids)
  unfolding order_ids
  order_ids-Sound closed =
      visit_all-Sound any_id (visit_id (suc (length ids)) known deps [])
        (λ us o t k w. visit_id-Sound (suc (length ids)) [] us o t closed k w) [] [] ids
        (λ y h. absurd (has_nil y h)) (λ t h g. h) (λ t h g. absurd (ground (arith, g)))
