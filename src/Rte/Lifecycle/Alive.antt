-- ===== src/Rte/Lifecycle/Alive.antt =====
-- The first start of an assembled runtime of rte/rte.go whose components behave.
use Prim.Native.String.{String}
use text.Mathlib.Text.{◌==◌ as str_eq}
use text.Mathlib.TextEquality.{eq_iff}
use tdl.Prelude.{
  Among, ◌≡◌, refl, sym, ap, ◌∙◌, subst, ◌⊎◌, inl, inr, Bool, true, false, ◌||◌, some, List, [],
  ◌∷◌, map, arith,
}
use tdl.Prelude.Flags.{has, has_cons, has_nil}
use tdl.Rte.Assembly.{
  Port, Require, Manifest, Provider, Table, find_port, deps_at, id_of, Assembled,
}
use tdl.Rte.Assembly.Needs.{Met}
use tdl.Rte.Assembly.Complete.{IsAssembled}
use tdl.Rte.Order.Placed.{Placed}
use tdl.Rte.Lifecycle.{
  stopped, running, is_running, is_blocked, Instance, Runtime, Behaviour, has_port, bind_ports,
  all_bound, is_waiting, launch, conclude, start_one, start_all, start_runtime,
}
use tdl.Rte.Lifecycle.Starts.{Runs, set_instance-this, start_one-other, start_one-Runs}

-- The component is created, initializes itself, binds all its ports and starts.
abbrev pub Behaves : Behaviour → Manifest → Type 0
Behaves b m =
    (b.creates ≡ true)
    × ((names : List String) × (b.inits ≡ some names)
        × ((p : Port) → Among p m.provides → has p.name names ≡ true))
    × (b.starts ≡ true)

-- Nothing has been started or stopped.
abbrev pub IsFresh : Runtime → Type 0
IsFresh r =
    ((x : String) → (r.instances x).state ≡ stopped)
    × (r.has_started ≡ false)
    × (r.has_stopped ≡ false)
    × (r.is_stopping ≡ false)

has_port-Among : (p : Port) (ps : List Port) → Among p ps → has_port p.name ps ≡ true
unfolding has_port
has_port-Among p [] h = absurd h
has_port-Among p (q ∷ ps) (inl this) =
    let n : p.name ≡ q.name = ap (λ (z : Port). z.name) this in
    ground (arith, eq_iff q.name p.name, n)
has_port-Among p (q ∷ ps) (inr deep) = ground (arith, has_port-Among p ps deep)

all_bound-all :
    (ps : List Port) (ports : String → Bool)
    → ((p : Port) → Among p ps → ports p.name ≡ true)
    → all_bound ps ports ≡ true
unfolding all_bound
all_bound-all [] ports h = refl
all_bound-all (p ∷ ps) ports h =
    let here = h p (inl refl) in ground (arith, here, all_bound-all ps ports (λ q k. h q (inr k)))

launch-good : (b : Behaviour) (m : Manifest) (r : Runtime) → Behaves b m → (launch b m r).0 ≡ true
launch-good b m r (made, (names, init, all), starts) =
    let bound =
      all_bound-all m.provides (bind_ports m.provides names r).ports
        (λ p h. let d = has_port-Among p m.provides h in let n = all p h in ground (arith, d, n)) in
    rw (made, init) (ground (arith, bound, starts))

conclude-good :
    (b : Behaviour) (m : Manifest) (w : Bool × Bool × Runtime)
    → w.0 ≡ true
    → Runs (conclude b m w) m.id
conclude-good b m (true, i, r) e =
    ap (λ (x : Instance). is_running x.state)
      (set_instance-this m.id (record { state = running; initialized = i; launched = true }) r)
conclude-good b m (false, i, r) e = absurd (ground (arith, e))

not-waiting :
    (table : Table) (r : Runtime) (qs : List Require)
    → ((q : Require)
        → Among q qs
        → (q.optional ≡ true)
          ⊎ ((e : Provider) × (find_port q.port.name table ≡ some e) × Runs r e.owner))
    → is_waiting table r qs ≡ false
unfolding is_waiting
not-waiting table r [] h = refl
not-waiting table r (q ∷ qs) h =
    let rest = not-waiting table r qs (λ k a. h k (inr a)) in
    elim (h q (inl refl)) [
      | inl may ↦ ground (arith, rest, may)
      | inr (e, f, on) ↦ ground (arith, rest, f, on)
    ]

start_one-good :
    (table : Table) (behaviour : String → Behaviour) (m : Manifest) (r : Runtime)
    → (r.instances m.id).state ≡ stopped
    → is_waiting table r m.requires ≡ false
    → Behaves (behaviour m.id) m
    → Runs (start_one table behaviour m r) m.id
unfolding start_one
start_one-good table behaviour m r s fed good =
    let off : is_running (r.instances m.id).state ≡ false = ap is_running s in
    let free : is_blocked (r.instances m.id).state ≡ false = ap is_blocked s in
    let b = behaviour m.id in
    rw (off, fed, free, start_one) (conclude-good b m (launch b m r) (launch-good b m r good))

start_all-Runs :
    (table : Table) (behaviour : String → Behaviour) (ms : List Manifest) (r : Runtime) (k : String)
    → Runs r k
    → Runs (start_all table behaviour ms r) k
unfolding start_all
start_all-Runs table behaviour [] r k h = h
start_all-Runs table behaviour (m ∷ ms) r k h =
    start_all-Runs table behaviour ms (start_one table behaviour m r) k
      (start_one-Runs table behaviour m r k h)

not-in_cons :
    (x y : String) (ys : List String)
    → has x (y ∷ ys) ≡ false
    → (str_eq x y ≡ false) × (has x ys ≡ false)
unfolding has
not-in_cons x y ys h = (ground (arith, h), ground (arith, h))

module _ (a : Assembled) (behaviour : String → Behaviour) where
  start_all-alive :
      (ms : List Manifest) (seen : List String) (r : Runtime)
      → ((m : Manifest)
          → Among m ms
          → (q : Require) → Among q m.requires
          → Met a.providers a.deps m.id q)
      → ((m : Manifest) → Among m ms → Behaves (behaviour m.id) m)
      → Placed (deps_at a.deps) seen (map id_of ms)
      → ((x : String) → has x seen ≡ true → Runs r x)
      → ((x : String) → has x seen ≡ false → (r.instances x).state ≡ stopped)
      → (m : Manifest) → Among m ms
      → Runs (start_all a.providers behaviour ms r) m.id
  unfolding start_all
  start_all-alive [] seen r met good placed on off m h = absurd h
  start_all-alive (k ∷ ks) seen r met good (fresh, deps, placed) on off m h =
      let r' = start_one a.providers behaviour k r in
      let fed = not-waiting a.providers r k.requires (λ q z. elim (met k (inl refl) q z) [
        | inl (may, f) ↦ inl may
        | inr (e, f, _, d) ↦ inr (e, f, on e.owner (deps e.owner d))
      ]) in
      let mine : Runs r' k.id =
        start_one-good a.providers behaviour k r (off k.id fresh) fed (good k (inl refl)) in
      elim h [
        | inl this ↦
            subst (λ (z : String). Runs (start_all a.providers behaviour ks r') z)
              (sym (ap id_of this)) (start_all-Runs a.providers behaviour ks r' k.id mine)
        | inr deep ↦
            start_all-alive ks (k.id ∷ seen) r' (λ n i. met n (inr i)) (λ n i. good n (inr i))
              placed
              (λ x s. elim (has_cons x k.id seen s) [
                | inl same_id ↦ subst (Runs r') (sym same_id) mine
                | inr old ↦ start_one-Runs a.providers behaviour k r x (on x old)
              ])
              (λ x s.
                let (apart, new) = not-in_cons x k.id seen s in
                ap (λ (i : Instance). i.state) (start_one-other a.providers behaviour k r x apart)
                ∙ off x new)
              m deep
      ]

-- The first start of an assembled runtime, in its order, leaves every component running when all of them are
-- created, initialize themselves, bind their ports and start.
pub start_runtime-alive :
    (ms order : List Manifest) (a : Assembled) (behaviour : String → Behaviour) (r : Runtime)
    → IsAssembled ms a
    → map id_of order ≡ a.order
    → ((m : Manifest) → Among m order → Among m ms)
    → ((m : Manifest) → Among m order → Behaves (behaviour m.id) m)
    → IsFresh r
    → (m : Manifest) → Among m order
    → Runs (start_runtime a.providers behaviour order r) m.id
unfolding start_runtime
start_runtime-alive ms order a behaviour r built ids sub good (off, s, e, g) m h =
    let first : (r.has_started || r.has_stopped || r.is_stopping) ≡ false =
      ground (arith, s, e, g) in
    rw (first, start_runtime)
      (start_all-alive a behaviour order [] (record r { has_started = true })
        (λ n i. built.met n (sub n i)) good
        (subst (Placed (deps_at a.deps) []) (sym ids) built.placed) (λ x k. absurd (has_nil x k))
        (λ x k. off x) m h)
