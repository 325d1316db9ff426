-- ===== src/Rte/Examples.antt =====
-- The theorems on the runtime of rte at concrete inputs: a provider, a component that requires it, and one with
-- an optional requirement.
use Prim.Native.String.{String}
use text.Mathlib.Text.{◌==◌ as str_eq}
use tdl.Prelude.{
  ◌↔◌, Among, ◌≡◌, refl, sym, subst, if◌then◌else◌, arith, inl, inr, Bool, true, false, none, some,
  List, [], ◌∷◌,
}
use tdl.Prelude.Int.{pos}
use tdl.Prelude.Flags.{has}
use tdl.Rte.Order.{ended, order_ids}
use tdl.Rte.Order.Placed.{Orders}
use tdl.Rte.Units.{Units, names_of, requires_of, order_units, order_units-Orders}
use tdl.Rte.Assembly.{
  Port, interface_type, Require, Manifest, valid_port, find_port, add_ports, is_compatible,
  add_requires, deps_at, insert_id, is_enabled, chosen, Assembled, build,
}
use tdl.Rte.Assembly.Complete.{IsAssembled, Built, build-Built}
use tdl.Rte.Lifecycle.{
  Runtime, Behaviour, stopped, blocked, start_runtime, set_state, has_port, all_bound, stop_all,
}
use tdl.Rte.Lifecycle.Starts.{Runs, Supported, start_runtime-Supported}
use tdl.Rte.Lifecycle.Alive.{Behaves, IsFresh, start_runtime-alive}
use tdl.Rte.Lifecycle.Release.{Released, stop_all-Released}

abbrev greeting : Port
greeting = record {
  name = "greeting";
  major = pos 1;
  minor = pos 0;
  type = interface_type "Greeting";
}

abbrev clock : Port
clock = record { name = "clock"; major = pos 1; minor = pos 0; type = interface_type "Clock" }

abbrev provider : Manifest
provider = record { id = "z-provider"; provides = greeting ∷ []; requires = [] }

abbrev consumer : Manifest
consumer = record {
  id = "a-consumer";
  provides = [];
  requires =
      record { port = greeting; optional = false } ∷ record { port = clock; optional = true } ∷ [];
}

abbrev entries : List Manifest
entries = provider ∷ consumer ∷ []

abbrev accepts : String → Bool
accepts id = true

abbrev assembled : Assembled
assembled = record {
  providers = record { owner = "z-provider"; port = greeting } ∷ [];
  deps = ("a-consumer", "z-provider") ∷ [];
  order = "z-provider" ∷ "a-consumer" ∷ [];
}

build_run : build accepts "main" [] none [] entries ≡ inr assembled
unfolding build add_ports valid_port find_port add_requires has is_compatible order_ids deps_at
build_run = refl

build-Built_example :
    Built accepts (chosen none entries) (build accepts "main" [] none [] entries)
    × ((m : Manifest)
        → Among m (chosen none entries) ↔ (Among m entries × (is_enabled none m.id ≡ true)))
build-Built_example = build-Built accepts "main" [] none [] entries

abbrev units : Units
units = ("bot", "account" ∷ []) ∷ ("account", []) ∷ []

order_units_run : order_units units ≡ ended ("bot" ∷ "account" ∷ []) ("account" ∷ "bot" ∷ [])
unfolding order_units has
order_units_run = refl

order_units-Orders_example :
    Orders (λ id. has id (names_of units)) (requires_of units) (names_of units) (order_units units)
order_units-Orders_example = order_units-Orders units

assembled-IsAssembled : IsAssembled (chosen none entries) assembled
assembled-IsAssembled =
    subst (Built accepts (chosen none entries)) build_run
      (build-Built accepts "main" [] none [] entries).0

abbrev start_order : List Manifest
start_order = provider ∷ consumer ∷ []

abbrev well : Behaviour
well = record {
  creates = true;
  inits = some ("greeting" ∷ []);
  starts = true;
  drains = true;
  stops = true;
}

abbrev all_well : String → Behaviour
all_well id = well

abbrev nothing_yet : Runtime
nothing_yet = record {
  instances = λ x. record { state = stopped; initialized = false; launched = false };
  ports = λ x. false;
  has_started = false;
  has_stopped = false;
  is_stopping = false;
}

start_order-chosen : (m : Manifest) → Among m start_order → Among m (chosen none entries)
unfolding chosen insert_id
start_order-chosen m (inl e) = inr (inl e)
start_order-chosen m (inr (inl e)) = inl e
start_order-chosen m (inr (inr f)) = absurd f

provider-bound : (p : Port) → Among p provider.provides → has p.name ("greeting" ∷ []) ≡ true
unfolding has
provider-bound p (inl e) = subst (λ (z : Port). has z.name ("greeting" ∷ []) ≡ true) (sym e) refl
provider-bound p (inr f) = absurd f

start_order-Behaves : (m : Manifest) → Among m start_order → Behaves (all_well m.id) m
start_order-Behaves m (inl e) =
    subst (λ (z : Manifest). Behaves well z) (sym e)
      (refl, ("greeting" ∷ [], refl, provider-bound), refl)
start_order-Behaves m (inr (inl e)) =
    subst (λ (z : Manifest). Behaves well z) (sym e)
      (refl, ("greeting" ∷ [], refl, λ p k. absurd k), refl)
start_order-Behaves m (inr (inr f)) = absurd f

nothing_yet-IsFresh : IsFresh nothing_yet
nothing_yet-IsFresh = (λ x. refl, refl, refl, refl)

start_runtime-alive_example :
    Runs (start_runtime assembled.providers all_well start_order nothing_yet) "a-consumer"
start_runtime-alive_example =
    start_runtime-alive (chosen none entries) start_order assembled all_well nothing_yet
      assembled-IsAssembled refl start_order-chosen start_order-Behaves nothing_yet-IsFresh consumer
      (inr (inl refl))

-- The provider's Start fails.
abbrev one_bad : String → Behaviour
one_bad id = if str_eq id "z-provider" then record well { starts = false } else well

abbrev required_by : String → List Require
required_by id = if str_eq id "a-consumer" then consumer.requires else []

nothing_yet-Supported : Supported required_by assembled.providers nothing_yet
nothing_yet-Supported id h = absurd (ground (arith, h))

one_bad_run :
    ((start_runtime assembled.providers one_bad start_order nothing_yet).instances
      "a-consumer").state
    ≡ blocked
unfolding start_runtime find_port has all_bound has_port set_state
one_bad_run = refl

start_runtime-Supported_example :
    Supported required_by assembled.providers
      (start_runtime assembled.providers one_bad start_order nothing_yet)
start_runtime-Supported_example =
    start_runtime-Supported required_by assembled.providers one_bad start_order nothing_yet
      (refl, (refl, tt)) nothing_yet-Supported

abbrev all_started : Runtime
all_started = start_runtime assembled.providers all_well start_order nothing_yet

all_started-goes : all_started.has_stopped ≡ false
unfolding start_runtime find_port has all_bound has_port
all_started-goes = refl

-- The consumer's Stop fails, so that the provider stays.
abbrev stuck_consumer : String → Behaviour
stuck_consumer id = if str_eq id "a-consumer" then record well { stops = false } else well

stop_all-Released_example :
    Released
      (deps_at assembled.deps)
      start_order
      all_started
      (stop_all stuck_consumer true start_order all_started)
stop_all-Released_example =
    stop_all-Released stuck_consumer (deps_at assembled.deps) true start_order all_started
      (assembled-IsAssembled.placed) all_started-goes
