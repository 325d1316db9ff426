-- ===== src/Rte/Lifecycle.antt =====
-- startLocked and Stop of rte/rte.go on a built runtime. What a component's factory, Init, Start and Stop do,
-- with the draining of its runnables, is a `Behaviour`; a panic counts as an error. The maps are functions.
-- Statuses have no text here, and the diagnostics, the kernel and the observations are left out.
pub mod Starts
pub mod Alive
pub mod Stops
pub mod Release
use Prim.Native.String.{String}
use text.Mathlib.Text.{◌==◌ as str_eq}
use tdl.Prelude.{
  Bool, true, false, not, ◌&&◌, ◌||◌, Option, none, some, List, [], ◌∷◌, ◌++◌, if◌then◌else◌,
}
use tdl.Prelude.Flags.{has}
use tdl.Rte.Assembly.{Port, Require, Manifest, Provider, Table, find_port}

pub data State : Type 0 where
  starting : State
  stopping : State
  running : State
  failed : State
  blocked : State
  stopped : State

abbrev pub is_running : State → Bool
is_running running = true
is_running starting = false
is_running stopping = false
is_running failed = false
is_running blocked = false
is_running stopped = false

abbrev pub is_blocked : State → Bool
is_blocked blocked = true
is_blocked starting = false
is_blocked stopping = false
is_blocked running = false
is_blocked failed = false
is_blocked stopped = false

-- An instance; `launched` is that it has a group of runnables.
pub record Instance : Type 0 where
  pub state : State
  pub initialized : Bool
  pub launched : Bool

pub record Runtime : Type 0 where
  pub instances : String → Instance
  pub ports : String → Bool
  pub has_started : Bool
  pub has_stopped : Bool
  pub is_stopping : Bool

-- What a component does: `inits` has the names that a successful Init provides.
pub record Behaviour : Type 0 where
  pub creates : Bool
  pub inits : Option (List String)
  pub starts : Bool
  pub drains : Bool
  pub stops : Bool

abbrev pub set_instance : String → Instance → Runtime → Runtime
set_instance id item r = record r { instances = λ x. if str_eq x id then item else r.instances x }

unfoldable pub set_state : String → State → Runtime → Runtime
set_state id s r = set_instance id (record (r.instances id) { state = s }) r

unfoldable pub has_port : String → List Port → Bool
has_port name [] = false
has_port name (p ∷ ps) = str_eq p.name name || has_port name ps

-- The ports that Init has bound: kernel.provide accepts declared names only.
abbrev pub bind_ports : List Port → List String → Runtime → Runtime
bind_ports provides names r = record r {
  ports = λ x. r.ports x || (has_port x provides && has x names);
}

abbrev pub drop_ports : List Port → Runtime → Runtime
drop_ports provides r = record r { ports = λ x. r.ports x && not (has_port x provides) }

unfoldable pub all_bound : List Port → (String → Bool) → Bool
all_bound [] ports = true
all_bound (p ∷ ps) ports = ports p.name && all_bound ps ports

abbrev pub is_missing : Option Provider → Runtime → Bool
is_missing none r = true
is_missing (some e) r = not (is_running (r.instances e.owner).state)

-- Whether a required provider is not running. Build has refused a required port without a provider.
unfoldable pub is_waiting : Table → Runtime → List Require → Bool
is_waiting table r [] = false
is_waiting table r (q ∷ qs) =
    if not q.optional && is_missing (find_port q.port.name table) r
    then true
    else is_waiting table r qs

-- The factory, Init and Start: whether they succeed, whether the component is initialized, and the ports.
abbrev pub launch : Behaviour → Manifest → Runtime → Bool × Bool × Runtime
launch b m r = if not b.creates then (false, (r.instances m.id).initialized, r) else elim b.inits [
  | none ↦ (false, true, r)
  | some names ↦
      let bound = bind_ports m.provides names r in
      (all_bound m.provides bound.ports && b.starts, true, bound)
]

-- What follows a launch: its failure is cleaned up.
abbrev pub conclude : Behaviour → Manifest → Bool × Bool × Runtime → Runtime
conclude b m (true, initialized, r) =
    set_instance m.id (record { state = running; initialized = initialized; launched = true }) r
conclude b m (false, initialized, r) =
    set_instance m.id
      (record {
        state = failed;
        initialized = initialized && not (b.drains && b.stops);
        launched = true;
      })
      (drop_ports m.provides r)

-- One round of startLocked. An instance that is blocked already stays so.
unfoldable pub start_one : Table → (String → Behaviour) → Manifest → Runtime → Runtime
unfolding is_waiting
start_one table behaviour m r =
    if is_running (r.instances m.id).state
    then r
    else if is_waiting table r m.requires
    then set_state m.id blocked r
    else if is_blocked (r.instances m.id).state
    then r
    else conclude (behaviour m.id) m (launch (behaviour m.id) m r)

-- startLocked
unfoldable pub start_all : Table → (String → Behaviour) → List Manifest → Runtime → Runtime
start_all table behaviour [] r = r
start_all table behaviour (m ∷ ms) r = start_all table behaviour ms (start_one table behaviour m r)

-- Start
unfoldable pub start_runtime : Table → (String → Behaviour) → List Manifest → Runtime → Runtime
unfolding start_all start_one
start_runtime table behaviour order r =
    if r.has_started || r.has_stopped || r.is_stopping
    then r
    else start_all table behaviour order (record r { has_started = true })

-- The loops of Stop over all instances: those that are initialized get a state.
abbrev pub mark_all : State → Runtime → Runtime
mark_all s r = record r {
  instances = λ x.
      if (r.instances x).initialized then record (r.instances x) { state = s } else r.instances x;
}

-- The loop that drains the runnables: whether it succeeds.
unfoldable pub drain_all : (String → Behaviour) → List Manifest → Runtime → Bool × Runtime
drain_all behaviour [] r = (true, r)
drain_all behaviour (m ∷ ms) r =
    if (r.instances m.id).launched && not (behaviour m.id).drains
    then (false, set_state m.id failed r)
    else drain_all behaviour ms r

-- What follows a successful Stop of a component.
unfoldable pub release : Manifest → Runtime → Runtime
release m r =
    drop_ports m.provides
      (set_instance m.id (record (r.instances m.id) { state = stopped; initialized = false }) r)

-- The loop that releases the components, in the reverse of the order.
unfoldable pub release_all : (String → Behaviour) → List Manifest → Runtime → Bool × Runtime
release_all behaviour [] r = (true, r)
release_all behaviour (m ∷ ms) r =
    if not (r.instances m.id).initialized
    then release_all behaviour ms (set_state m.id stopped r)
    else if not (behaviour m.id).stops
    then (false, set_state m.id failed r)
    else release_all behaviour ms (release m r)

unfoldable pub reverse_order : List Manifest → List Manifest
reverse_order [] = []
reverse_order (m ∷ ms) = reverse_order ms ++ (m ∷ [])

abbrev pub clear_ports : Runtime → Runtime
clear_ports r = record r { ports = λ x. false; has_stopped = true }

-- Stop after the marking: `closes` is that the bus closes in time.
unfoldable pub close_all : (String → Behaviour) → Bool → List Manifest → Runtime → Bool × Runtime
unfolding drain_all release_all reverse_order
close_all behaviour closes order marked =
    let drained = drain_all behaviour order marked in
    let released = release_all behaviour (reverse_order order) drained.1 in
    if not closes
    then (false, mark_all failed marked)
    else if not drained.0
    then drained
    else if not released.0
    then released
    else (true, clear_ports released.1)

-- Stop
unfoldable pub stop_all : (String → Behaviour) → Bool → List Manifest → Runtime → Bool × Runtime
unfolding close_all
stop_all behaviour closes order r =
    if r.has_stopped
    then (true, r)
    else close_all behaviour closes order (mark_all stopping (record r { is_stopping = true }))
