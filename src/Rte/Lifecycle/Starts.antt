-- ===== src/Rte/Lifecycle/Starts.antt =====
-- The start of the components of rte/rte.go: what a running component can rely on, and who runs.
use Prim.Native.String.{String}
use text.Mathlib.Text.{◌==◌ as str_eq}
use text.Mathlib.TextEquality.{eq_iff}
use text.Mathlib.TextPositions.{eq_refl}
use tdl.Prelude.{
  All, ◌≡◌, refl, sym, ap, ◌∙◌, subst, ◌⊎◌, inl, inr, Bool, true, false, not, ◌||◌, some, List, [],
  ◌∷◌, arith, Bool-cases, Option-cases,
}
use tdl.Rte.Assembly.{Require, Manifest, Provider, Table, find_port}
use tdl.Rte.Lifecycle.{
  blocked, is_running, is_blocked, Instance, Runtime, Behaviour, set_instance, set_state,
  is_waiting, launch, conclude, start_one, start_all, start_runtime,
}

abbrev pub Runs : Runtime → String → Type 0
Runs r id = is_running (r.instances id).state ≡ true

-- Each required port has a provider that runs.
abbrev pub IsFed : Table → Runtime → List Require → Type 0
IsFed table r [] = Unit {0}
IsFed table r (q ∷ qs) =
    ((q.optional ≡ true)
      ⊎ ((e : Provider) × (find_port q.port.name table ≡ some e) × Runs r e.owner))
    × IsFed table r qs

abbrev pub Supported : (String → List Require) → Table → Runtime → Type 0
Supported requires table r = (id : String) → Runs r id → IsFed table r (requires id)

pub set_instance-other :
    (id k : String) (item : Instance) (r : Runtime)
    → str_eq k id ≡ false
    → (set_instance id item r).instances k ≡ r.instances k
set_instance-other id k item r e = rw e refl

pub set_instance-this :
    (id : String) (item : Instance) (r : Runtime) → (set_instance id item r).instances id ≡ item
set_instance-this id item r = rw (eq_refl id) refl

launch-instances :
    (b : Behaviour) (m : Manifest) (r : Runtime) → (launch b m r).2.instances ≡ r.instances
launch-instances b m r = elim (Bool-cases (not b.creates)) [
  | inl bad ↦ rw bad refl
  | inr good ↦ elim (Option-cases b.inits) [
    | inl no_init ↦ rw (good, no_init) refl
    | inr (names, init) ↦ rw (good, init) refl
  ]
]

conclude-other :
    (b : Behaviour) (m : Manifest) (w : Bool × Bool × Runtime) (k : String)
    → str_eq k m.id ≡ false
    → (conclude b m w).instances k ≡ w.2.instances k
conclude-other b m (true, i, r) k e = rw e refl
conclude-other b m (false, i, r) k e = rw e refl

pub start_one-other :
    (table : Table) (behaviour : String → Behaviour) (m : Manifest) (r : Runtime) (k : String)
    → str_eq k m.id ≡ false
    → (start_one table behaviour m r).instances k ≡ r.instances k
unfolding start_one set_state
start_one-other table behaviour m r k e = elim (Bool-cases (is_running (r.instances m.id).state)) [
  | inl on ↦ rw (on, start_one) refl
  | inr off ↦ elim (Bool-cases (is_waiting table r m.requires)) [
    | inl waits ↦
        rw (off, waits, start_one)
          (set_instance-other m.id k (record (r.instances m.id) { state = blocked }) r e)
    | inr fed ↦ elim (Bool-cases (is_blocked (r.instances m.id).state)) [
      | inl old ↦ rw (off, fed, old, start_one) refl
      | inr free ↦
          rw (off, fed, free, start_one)
            (conclude-other (behaviour m.id) m (launch (behaviour m.id) m r) k e
              ∙ ap (λ (f : String → Instance). f k) (launch-instances (behaviour m.id) m r))
    ]
  ]
]

pub start_one-Runs :
    (table : Table) (behaviour : String → Behaviour) (m : Manifest) (r : Runtime) (k : String)
    → Runs r k
    → Runs (start_one table behaviour m r) k
unfolding start_one
start_one-Runs table behaviour m r k h = elim (Bool-cases (str_eq k m.id)) [
  | inr apart ↦
      ap (λ (i : Instance). is_running i.state) (start_one-other table behaviour m r k apart) ∙ h
  | inl this ↦
      let on : Runs r m.id = subst (Runs r) ((eq_iff k m.id).0 this) h in
      let kept : start_one table behaviour m r ≡ r = rw (on, start_one) refl in
      subst (λ (z : Runtime). Runs z k) (sym kept) h
]

IsFed-more :
    (table : Table) (r r' : Runtime) (qs : List Require)
    → ((k : String) → Runs r k → Runs r' k)
    → IsFed table r qs
    → IsFed table r' qs
IsFed-more table r r' [] more h = tt
IsFed-more table r r' (q ∷ qs) more (here, rest) = (
  elim here [ inl o ↦ inl o | inr (e, f, on) ↦ inr (e, f, more e.owner on) ],
  IsFed-more table r r' qs more rest,
)

is_waiting-IsFed :
    (table : Table) (r : Runtime) (qs : List Require)
    → is_waiting table r qs ≡ false
    → IsFed table r qs
unfolding is_waiting
is_waiting-IsFed table r [] h = tt
is_waiting-IsFed table r (q ∷ qs) h = elim (Bool-cases q.optional) [
  | inl may ↦ (inl may, is_waiting-IsFed table r qs (ground (arith, h, may)))
  | inr must ↦ elim (Option-cases (find_port q.port.name table)) [
    | inl f ↦ absurd (ground (arith, h, must, f))
    | inr (e, f) ↦ elim (Bool-cases (is_running (r.instances e.owner).state)) [
      | inr off ↦ absurd (ground (arith, h, must, f, off))
      | inl on ↦ (inr (e, f, on), is_waiting-IsFed table r qs (ground (arith, h, must, f, on)))
    ]
  ]
]

-- A round that leaves its component running found it so, or found its providers running.
start_one-this :
    (table : Table) (behaviour : String → Behaviour) (m : Manifest) (r : Runtime)
    → Runs (start_one table behaviour m r) m.id
    → Runs r m.id ⊎ IsFed table r m.requires
unfolding start_one set_state
start_one-this table behaviour m r h = elim (Bool-cases (is_running (r.instances m.id).state)) [
  | inl on ↦ inl on
  | inr off ↦ elim (Bool-cases (is_waiting table r m.requires)) [
    | inr fed ↦ inr (is_waiting-IsFed table r m.requires fed)
    | inl waits ↦
        let item : Instance = record (r.instances m.id) { state = blocked } in
        let put : start_one table behaviour m r ≡ set_state m.id blocked r =
          rw (off, waits, start_one) refl in
        let out : Runs (set_state m.id blocked r) m.id =
          subst (λ (z : Runtime). Runs z m.id) put h in
        let dead : is_running item.state ≡ true =
          sym (ap (λ (i : Instance). is_running i.state) (set_instance-this m.id item r)) ∙ out in
        absurd (ground (arith, dead))
  ]
]

start_one-Supported :
    (requires : String → List Require) (table : Table) (behaviour : String → Behaviour)
    (m : Manifest) (r : Runtime)
    → requires m.id ≡ m.requires
    → Supported requires table r
    → Supported requires table (start_one table behaviour m r)
start_one-Supported requires table behaviour m r e sup k h =
    let r' = start_one table behaviour m r in
    let more = start_one-Runs table behaviour m r in
    elim (Bool-cases (str_eq k m.id)) [
      | inr apart ↦
          let same =
            ap (λ (i : Instance). is_running i.state)
              (start_one-other table behaviour m r k apart) in
          IsFed-more table r r' (requires k) more (sup k (sym same ∙ h))
      | inl this ↦
          let id : k ≡ m.id = (eq_iff k m.id).0 this in
          let fed : IsFed table r' (requires m.id) =
            elim (start_one-this table behaviour m r (subst (Runs r') id h)) [
              | inl on ↦ IsFed-more table r r' (requires m.id) more (sup m.id on)
              | inr f ↦ subst (IsFed table r') (sym e) (IsFed-more table r r' m.requires more f)
            ] in
          subst (λ (z : String). IsFed table r' (requires z)) (sym id) fed
    ]

start_all-Supported :
    (requires : String → List Require) (table : Table) (behaviour : String → Behaviour)
    (ms : List Manifest) (r : Runtime)
    → All (λ (m : Manifest). requires m.id ≡ m.requires) ms
    → Supported requires table r
    → Supported requires table (start_all table behaviour ms r)
unfolding start_all
start_all-Supported requires table behaviour [] r es sup = sup
start_all-Supported requires table behaviour (m ∷ ms) r (e, es) sup =
    start_all-Supported requires table behaviour ms (start_one table behaviour m r) es
      (start_one-Supported requires table behaviour m r e sup)

-- Whatever the components do, a start keeps this: each component that runs has a running provider of every
-- port that it requires and that is not optional.
pub start_runtime-Supported :
    (requires : String → List Require) (table : Table) (behaviour : String → Behaviour)
    (order : List Manifest) (r : Runtime)
    → All (λ (m : Manifest). requires m.id ≡ m.requires) order
    → Supported requires table r
    → Supported requires table (start_runtime table behaviour order r)
unfolding start_runtime
start_runtime-Supported requires table behaviour order r es sup =
    elim (Bool-cases (r.has_started || r.has_stopped || r.is_stopping)) [
      | inl done ↦ rw (done, start_runtime) sup
      | inr fresh ↦
          rw (fresh, start_runtime)
            (start_all-Supported requires table behaviour order (record r { has_started = true }) es
              sup)
    ]
