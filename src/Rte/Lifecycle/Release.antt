-- ===== src/Rte/Lifecycle/Release.antt =====
-- Stop of rte/rte.go as a whole, against the dependencies of the components.
use Prim.Native.String.{String}
use text.Mathlib.Text.{◌==◌ as str_eq}
use text.Mathlib.TextEquality.{eq_iff}
use tdl.Prelude.{
  Among, ◌≡◌, refl, sym, ◌∙◌, subst, ◌⊎◌, inl, inr, Bool, true, false, not, ◌&&◌, ◌||◌, List, [],
  ◌∷◌, ◌++◌, map, arith, Bool-cases,
}
use tdl.Prelude.Flags.{has, has_self, has_later, has_cons, has_nil}
use tdl.Rte.Assembly.{Manifest, id_of}
use tdl.Rte.Order.Placed.{Placed}
use tdl.Rte.Lifecycle.{
  State, stopping, failed, Runtime, Behaviour, mark_all, drain_all, release_all, reverse_order,
  close_all, stop_all, clear_ports,
}
use tdl.Rte.Lifecycle.Stops.{
  holds, set_state-holds, release_all-holds, release_all-done, release_all-snoc,
}

-- While a component is initialized, those before it in the order are as they were.
abbrev Safe : List Manifest → Runtime → Runtime → Type 0
Safe [] r r' = Unit {0}
Safe (m ∷ ms) r r' =
    ((y : Manifest) → Among y ms → holds r' y.id ≡ true → holds r' m.id ≡ holds r m.id)
    × Safe ms r r'

Safe-released :
    (ms : List Manifest) (r r' : Runtime)
    → ((y : Manifest) → Among y ms → holds r' y.id ≡ false)
    → Safe ms r r'
Safe-released [] r r' out = tt
Safe-released (m ∷ ms) r r' out = (
  λ y h on. let off = out y (inr h) in absurd (ground (arith, on, off)),
  Safe-released ms r r' (λ y h. out y (inr h)),
)

Among-snoc : (y m : Manifest) (ms : List Manifest) → (y ≡ m) ⊎ Among y ms → Among y (ms ++ (m ∷ []))
Among-snoc y m [] h = h
Among-snoc y m (k ∷ ks) (inl this) = inr (Among-snoc y m ks (inl this))
Among-snoc y m (k ∷ ks) (inr (inl top)) = inl top
Among-snoc y m (k ∷ ks) (inr (inr deep)) = inr (Among-snoc y m ks (inr deep))

Among-reverse_order : (y : Manifest) (ms : List Manifest) → Among y ms → Among y (reverse_order ms)
unfolding reverse_order
Among-reverse_order y [] h = h
Among-reverse_order y (m ∷ ms) (inl this) = Among-snoc y m (reverse_order ms) (inl this)
Among-reverse_order y (m ∷ ms) (inr deep) =
    Among-snoc y m (reverse_order ms) (inr (Among-reverse_order y ms deep))

has-map_snoc :
    (k : String) (m : Manifest) (ms : List Manifest)
    → has k (map id_of (ms ++ (m ∷ []))) ≡ (str_eq k m.id || has k (map id_of ms))
unfolding has
has-map_snoc k m [] = refl
has-map_snoc k m (x ∷ xs) = ground (arith, has-map_snoc k m xs)

has-reverse_order :
    (k : String) (ms : List Manifest) → has k (map id_of (reverse_order ms)) ≡ has k (map id_of ms)
unfolding has reverse_order
has-reverse_order k [] = refl
has-reverse_order k (m ∷ ms) =
    ground (arith, has-map_snoc k m (reverse_order ms), has-reverse_order k ms)

Placed-fresh :
    (deps : String → List String) (seen ids : List String) (x : String)
    → Placed deps seen ids
    → has x seen ≡ true
    → has x ids ≡ false
unfolding has
Placed-fresh deps seen [] x p h = refl
Placed-fresh deps seen (y ∷ ys) x (new, _, p) h = elim (Bool-cases (str_eq x y)) [
  | inl this ↦
      let old : has y seen ≡ true =
        subst (λ (z : String). has z seen ≡ true) ((eq_iff x y).0 this) h in
      absurd (ground (arith, old, new))
  | inr apart ↦
      let deep = Placed-fresh deps (y ∷ seen) ys x p (has_later x y seen h) in
      ground (arith, deep, apart)
]

module _ (b : String → Behaviour) (deps : String → List String) where
  release_all-Safe :
      (seen : List String) (ms : List Manifest) (r : Runtime)
      → Placed deps seen (map id_of ms)
      → Safe ms r (release_all b (reverse_order ms) r).1
  unfolding reverse_order
  release_all-Safe seen [] r p = tt
  release_all-Safe seen (m ∷ ms) r (new, _, p) =
      let rs = reverse_order ms in
      let first = release_all b rs r in
      let ih = release_all-Safe (m.id ∷ seen) ms r p in
      let snoc = release_all-snoc b rs m r in
      elim (Bool-cases first.0) [
        | inr bad ↦
            let free : has m.id (map id_of rs) ≡ false =
              has-reverse_order m.id ms
              ∙ Placed-fresh deps (m.id ∷ seen) (map id_of ms) m.id p (has_self m.id seen) in
            let whole : release_all b (rs ++ (m ∷ [])) r ≡ first = snoc ∙ rw bad refl in
            subst (λ (z : Bool × Runtime). Safe (m ∷ ms) r z.1) (sym whole)
              (λ y h on. (release_all-holds b rs r m.id).1 free, ih)
        | inl good ↦
            let last = release_all b (m ∷ []) first.1 in
            let whole : release_all b (rs ++ (m ∷ [])) r ≡ last = snoc ∙ rw good refl in
            let out : (y : Manifest) → Among y ms → holds last.1 y.id ≡ false = λ y h.
              elim (Bool-cases (holds last.1 y.id)) [
                | inr off ↦ off
                | inl on ↦
                    let back = (release_all-holds b (m ∷ []) first.1 y.id).0 on in
                    let done = release_all-done b rs r y good (Among-reverse_order y ms h) in
                    absurd (ground (arith, back, done))
              ] in
            subst (λ (z : Bool × Runtime). Safe (m ∷ ms) r z.1) (sym whole)
              (
                λ y h on. let off = out y h in absurd (ground (arith, on, off)),
                Safe-released ms r last.1 out,
              )
      ]

  Safe-deps :
      (seen : List String) (ms : List Manifest) (r r' : Runtime) (y : Manifest) (x : String)
      → Placed deps seen (map id_of ms)
      → Safe ms r r'
      → Among y ms
      → has x (deps y.id) ≡ true
      → holds r' y.id ≡ true
      → (has x seen ≡ true) ⊎ (holds r' x ≡ holds r x)
  Safe-deps seen [] r r' y x p s h d on = absurd h
  Safe-deps seen (m ∷ ms) r r' y x (new, before, p) (here, s) (inl this) d on =
      inl (before x (subst (λ (z : Manifest). has x (deps z.id) ≡ true) this d))
  Safe-deps seen (m ∷ ms) r r' y x (new, before, p) (here, s) (inr deep) d on =
      elim (Safe-deps (m.id ∷ seen) ms r r' y x p s deep d on) [
        | inr kept ↦ inr kept
        | inl known ↦ elim (has_cons x m.id seen known) [
          | inr old ↦ inl old
          | inl this ↦
              inr (subst (λ (z : String). holds r' z ≡ holds r z) (sym this) (here y deep on))
        ]
      ]

mark_all-holds : (s : State) (r : Runtime) (k : String) → holds (mark_all s r) k ≡ holds r k
mark_all-holds s r k = elim (Bool-cases (r.instances k).initialized) [
  | inl on ↦ rw (on, holds) refl
  | inr off ↦ rw (off, holds) refl
]

drain_all-holds :
    (b : String → Behaviour) (ms : List Manifest) (r : Runtime) (k : String)
    → holds (drain_all b ms r).1 k ≡ holds r k
unfolding drain_all
drain_all-holds b [] r k = refl
drain_all-holds b (m ∷ ms) r k =
    elim (Bool-cases ((r.instances m.id).launched && not (b m.id).drains)) [
      | inl bad ↦ rw (bad, drain_all) (set_state-holds m.id failed r k)
      | inr fine ↦ rw (fine, drain_all) (drain_all-holds b ms r k)
    ]

-- What a stop does: the first part is about every stop, the second about one that succeeds.
abbrev pub Released : (String → List String) → List Manifest → Runtime → Bool × Runtime → Type 0
Released deps order r w =
    ((y : Manifest) (x : String)
      → Among y order
      → has x (deps y.id) ≡ true
      → holds w.1 y.id ≡ true
      → holds w.1 x ≡ holds r x)
    × (w.0 ≡ true → (y : Manifest) → Among y order → holds w.1 y.id ≡ false)

Released-kept :
    (deps : String → List String) (order : List Manifest) (r r' : Runtime)
    → ((k : String) → holds r' k ≡ holds r k)
    → Released deps order r (false, r')
Released-kept deps order r r' same = (λ y x h d on. same x, λ t. absurd (ground (arith, t)))

Released-split :
    (deps : String → List String) (order : List Manifest) (r : Runtime) (w : Bool × Runtime)
    → w.0 ≡ false
    → ((y : Manifest) (x : String)
        → Among y order
        → has x (deps y.id) ≡ true
        → holds w.1 y.id ≡ true
        → holds w.1 x ≡ holds r x)
    → Released deps order r w
Released-split deps order r w bad part = (part, λ good. absurd (ground (arith, good, bad)))

close_all-Released :
    (behaviour : String → Behaviour) (deps : String → List String) (closes : Bool)
    (order : List Manifest) (r marked : Runtime)
    → Placed deps [] (map id_of order)
    → ((k : String) → holds marked k ≡ holds r k)
    → Released deps order r (close_all behaviour closes order marked)
unfolding close_all
close_all-Released behaviour deps closes order r marked p marks =
    let drained = drain_all behaviour order marked in
    let released = release_all behaviour (reverse_order order) drained.1 in
    let drains : (k : String) → holds drained.1 k ≡ holds r k =
      λ k. drain_all-holds behaviour order marked k ∙ marks k in
    let safe = release_all-Safe behaviour deps [] order drained.1 p in
    let part : (y : Manifest) (x : String)
        → Among y order
        → has x (deps y.id) ≡ true
        → holds released.1 y.id ≡ true
        → holds released.1 x ≡ holds r x =
      λ y x h d on.
        elim (Safe-deps behaviour deps [] order drained.1 released.1 y x p safe h d on) [
          | inl out ↦ absurd (has_nil x out)
          | inr kept ↦ kept ∙ drains x
        ] in
    elim (Bool-cases closes) [
      | inr late ↦
          rw (late, close_all)
            (Released-kept deps order r (mark_all failed marked)
              (λ k. mark_all-holds failed marked k ∙ marks k))
      | inl in_time ↦ elim (Bool-cases drained.0) [
        | inr stuck ↦
            let given_up : close_all behaviour closes order marked ≡ drained =
              rw (in_time, stuck, close_all) refl in
            subst (Released deps order r) (sym given_up)
              (Released-split deps order r drained stuck (λ y x h d on. drains x))
        | inl dry ↦ elim (Bool-cases released.0) [
          | inr bad ↦
              let given_up : close_all behaviour closes order marked ≡ released =
                rw (in_time, dry, bad, close_all) refl in
              subst (Released deps order r) (sym given_up)
                (Released-split deps order r released bad part)
          | inl good ↦
              let ended : close_all behaviour closes order marked ≡ (true, clear_ports released.1) =
                rw (in_time, dry, good, close_all) refl in
              subst (Released deps order r) (sym ended) (
                part,
                λ _ y h.
                    release_all-done behaviour (reverse_order order) drained.1 y good
                      (Among-reverse_order y order h),
              )
        ]
      ]
    ]

-- A stop of a runtime that is not stopped yet, whatever fails in it and wherever it is given up: while a
-- component is still initialized, nothing that it depends on has been released; and a stop that succeeds
-- has released every component.
pub stop_all-Released :
    (behaviour : String → Behaviour) (deps : String → List String) (closes : Bool)
    (order : List Manifest) (r : Runtime)
    → Placed deps [] (map id_of order)
    → r.has_stopped ≡ false
    → Released deps order r (stop_all behaviour closes order r)
unfolding stop_all
stop_all-Released behaviour deps closes order r p fresh =
    let marked = mark_all stopping (record r { is_stopping = true }) in
    let whole : stop_all behaviour closes order r ≡ close_all behaviour closes order marked =
      rw (fresh, stop_all) refl in
    subst (Released deps order r) (sym whole) (
      close_all-Released behaviour deps closes order r marked p
        (λ k. mark_all-holds stopping (record r { is_stopping = true }) k))
