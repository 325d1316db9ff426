-- ===== src/Queue/System/Running.antt =====
-- Where a running job of application/forwarder/queue.go was running before a section.
use Prim.Native.String.{String}
use text.Mathlib.Text.{◌==◌ as str_eq}
use tdl.Prelude.{◌≡◌, refl, ap, ◌∙◌, ◌⊎◌, Bool, true, false, Option, none, some, List, ◌++◌, arith}
use tdl.Queue.Job.{Status, queued, paused, Job, is_queued, is_running}
use tdl.Queue.Repository.{find_job}
use tdl.Queue.Repository.Keeps.{Kept, same, moved, Keeps}
use tdl.Queue.Actions.{has_id}
use tdl.Queue.System.{Worker, stopped, idle, picked, forwarding, Queue, cancel_active, left_by}
use tdl.Queue.System.Keeps.{is_paused, is_settled}

-- The worker is in the transport with the job of this id.
abbrev pub holds : String → Worker → Bool
holds k stopped = false
holds k idle = false
holds k (picked job canceled) = false
holds k (forwarding job canceled) = str_eq job.id k

-- A stored job runs only in the worker's hand, or was left running.
abbrev pub IsSingleFlight : Queue → Type 0
IsSingleFlight q =
    (k : String) (j : Job)
    → find_job k q.jobs ≡ some j
    → is_running j.status ≡ true
    → (holds k q.worker ≡ true) ⊎ (has_id k q.stuck ≡ true)

abbrev pub Running : Option Job → Type 0
Running o = (j : Job) × (o ≡ some j) × (is_running j.status ≡ true)

module _ (from to : Status → Bool) (ends : (s : Status) → to s ≡ true → is_running s ≡ false) where
  Kept-Running : (a b : Option Job) → Kept from to a b → Running b → Running a
  Kept-Running a none h (j, e, r) = absurd (ground (arith, e))
  Kept-Running none (some j') h r = elim h [ ]
  Kept-Running (some j) (some j') (same e) (x, f, r) =
      let x_is : j' ≡ x = ground (arith, f) in
      (j, refl, ap is_running (e ∙ ap (λ (z : Job). z.status) x_is) ∙ r)
  Kept-Running (some j) (some j') (moved f t) (x, g, r) =
      let x_is : j' ≡ x = ground (arith, g) in
      let still : is_running j'.status ≡ true = ap (λ (z : Job). is_running z.status) x_is ∙ r in
      let stops_here : is_running j'.status ≡ false = ends j'.status t in
      absurd (ground (arith, still, stops_here))

  -- A section that starts no job keeps what is known of the running ones.
  pub Keeps-Running :
      (jobs jobs' : List Job) (k : String)
      → Keeps from to jobs jobs'
      → Running (find_job k jobs')
      → Running (find_job k jobs)
  Keeps-Running jobs jobs' k h r = Kept-Running (find_job k jobs) (find_job k jobs') (h k) r

pub paused-ends : (s : Status) → is_paused s ≡ true → is_running s ≡ false
paused-ends paused h = refl
paused-ends s h = ground (arith, h)

pub queued-ends : (s : Status) → is_queued s ≡ true → is_running s ≡ false
queued-ends queued h = refl
queued-ends s h = ground (arith, h)

pub settled-ends : (s : Status) → is_settled s ≡ true → is_running s ≡ false
settled-ends queued h = refl
settled-ends s h = ground (arith, h)

pub holds-cancel_active :
    (k : String) (ids : List String) (w : Worker) → holds k (cancel_active ids w) ≡ holds k w
holds-cancel_active k ids stopped = refl
holds-cancel_active k ids idle = refl
holds-cancel_active k ids (picked job c) = refl
holds-cancel_active k ids (forwarding job c) = refl

pub has_id-append :
    (k : String) (w : Worker) (ids : List String)
    → holds k w ≡ true
    → has_id k (left_by w ++ ids) ≡ true
unfolding has_id
has_id-append k stopped ids h = absurd (ground (arith, h))
has_id-append k idle ids h = absurd (ground (arith, h))
has_id-append k (picked job c) ids h = absurd (ground (arith, h))
has_id-append k (forwarding job c) ids h = rw (h, has_id) refl

pub has_id_later :
    (k : String) (w : Worker) (ids : List String)
    → has_id k ids ≡ true
    → has_id k (left_by w ++ ids) ≡ true
unfolding has_id
has_id_later k stopped ids h = h
has_id_later k idle ids h = h
has_id_later k (picked job c) ids h = h
has_id_later k (forwarding job c) ids h = ground (arith, h)
