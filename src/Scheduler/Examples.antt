-- ===== src/Scheduler/Examples.antt =====
-- A run of the scheduler: one file of data centre 2 becomes active and gets a lane.
use tdl.Prelude.{ℕ, ◌≡◌, ◌+◌, refl, true, false, none, [], ◌∷◌}
use tdl.Prelude.Sums.{sum_below}
use tdl.Scheduler.State.{Scheduler, new_scheduler, acquire_token, flight_of}
use tdl.Scheduler.Dispatch.{dispatch, first_file_waiter, prune_queue, grant}
use tdl.Scheduler.Fairness.{oldest, first_file_waiter-oldest}
use tdl.Scheduler.Leases.{
  acquire_round, complete_activation, make_active, request_chunk, queue_request,
}
use tdl.Scheduler.Invariant.{permit, lane, active_bit}
use tdl.Scheduler.Invariant.Chunks.{calls_after_request}
use tdl.Scheduler.Invariant.Files.{hands_after}
use tdl.Scheduler.System.{
  System, acquires, takes_token, completes, requests, Reach, here, next, started, IsPanicFree,
  Reach-IsPanicFree, Reach-accounts,
}

abbrev asked : System
asked = record (started 1 2) { sched = (acquire_round false none "a" 2 (started 1 2).sched).0 }

abbrev admitted : System
admitted = record asked {
  sched = record asked.sched { file_tokens = record { limit = 1; used = 1 } };
  hands = 1;
}

abbrev running : System
running = record admitted {
  sched = (complete_activation 0 0 true admitted.sched).0;
  hands = hands_after (complete_activation 0 0 true admitted.sched).1 0;
}

abbrev busy : System
busy = record running {
  sched = (request_chunk false 0 running.sched).0;
  calls = calls_after_request (request_chunk false 0 running.sched).1 running.calls 0;
}

-- A request is queued, and the dispatch is still to come.
abbrev waiting : Scheduler
waiting = queue_request 0 running.sched

busy-Reach : Reach (started 1 2) busy
unfolding acquire_round acquire_token new_scheduler
busy-Reach =
    next
      (next (next (next here (acquires false none "a" 2)) (takes_token admitted.sched refl))
        (completes 0 0 0 refl))
      (requests false 0)

busy_lane : ((busy.sched.tasks 0).in_flight ≡ 1) × (flight_of (busy.sched.dcs 2) ≡ 1)
unfolding acquire_round new_scheduler complete_activation make_active request_chunk queue_request
    dispatch first_file_waiter prune_queue grant
busy_lane = (refl, refl)

Reach-IsPanicFree_example : IsPanicFree busy
Reach-IsPanicFree_example = Reach-IsPanicFree 1 2 busy busy-Reach

Reach-accounts_example :
    ((p : ℕ)
      → (busy.sched.tasks p).in_flight
        ≡ sum_below busy.sched.next_waiter (permit busy.sched.waiter busy.calls p))
    × ((d : ℕ)
        → flight_of (busy.sched.dcs d) ≡ sum_below busy.sched.next_task (lane busy.sched.tasks d))
    × (busy.sched.file_tokens.used
        ≡ sum_below busy.sched.next_task (active_bit busy.sched.tasks) + busy.hands)
Reach-accounts_example = Reach-accounts 1 2 busy busy-Reach

first_file_waiter-oldest_example :
    (first_file_waiter (0 ∷ []) busy.sched).1 ≡ oldest busy.sched.waiter busy.sched.tasks (0 ∷ [])
first_file_waiter-oldest_example = first_file_waiter-oldest (0 ∷ []) busy.sched
