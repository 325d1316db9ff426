-- ===== src/Scheduler/System.antt =====
-- The scheduler of bsw/ecual/comif among its goroutines: every section under the lock is one step, in
-- any order. A step may run the section for any task and any argument, so the goroutines of the
-- program are among those covered; a lane is returned only by a call that has one, and a file token
-- only by a goroutine that holds one.
use Prim.Native.String.{String}
use tdl.Prelude.{
  ℕ, suc, ◌+◌, ◌-◌, ◌<◌, ◌≡◌, refl, sym, subst, ◌∙◌, Bool, true, false, Option, none, some, arith,
  ◌≢◌,
}
use mathlib.Core.Option.{some_inj}
use tdl.Prelude.Sums.{sum_below, sum_below-zero}
use tdl.Scheduler.State.{Scheduler, flight_of, new_scheduler, acquire_token, release_token}
use tdl.Scheduler.Leases.{
  acquire_round, complete_activation, release_task, request_chunk, take_grant, abandon_wait,
  release_chunk, reconfigure,
}
use tdl.Scheduler.Invariant.{holding, finished, Calls, Inv, permit, lane, active_bit}
use tdl.Scheduler.Invariant.Removal.{HasLane, end_call, release_chunk-Inv, release_token-Inv}
use tdl.Scheduler.Invariant.Chunks.{
  Waits, calls_after_request, calls_after_grant, request_chunk-Inv, take_grant-Inv,
  abandon_wait-Inv,
}
use tdl.Scheduler.Invariant.Files.{
  hands_after, release_task-Inv, acquire_token-Inv, reconfigure-Inv,
}
use tdl.Scheduler.Invariant.Tasks.{acquire_round-Inv, complete_activation-Inv, abort_activation-Inv}

-- The scheduler, the calls of AcquireChunk, and the file tokens in the hands of goroutines.
pub record System : Type 0 where
  pub sched : Scheduler
  pub calls : Calls
  pub hands : ℕ

-- ChunkLease.Release returns the lane of a lease once.
pub record Holds (x : System) (p w : ℕ) : Type 0 where
  pub made : w < x.sched.next_waiter
  pub for_task : (x.calls w).task ≡ p
  pub holds : (x.calls w).phase ≡ holding

pub data Step (x : System) : System → Type 0 where
  -- A round of acquireTask's loop.
  acquires :
      (ended : Bool) (registered : Option ℕ) (id : String) (d : ℕ)
      → Step x (record x { sched = (acquire_round ended registered id d x.sched).0 })
  -- fileLimiter.acquire finds a token.
  takes_token :
      (s' : Scheduler)
      → acquire_token x.sched ≡ some s'
      → Step x (record x { sched = s'; hands = suc x.hands })
  -- completeActivation after a token, and after none.
  completes :
      (p ready n : ℕ)
      → x.hands ≡ suc n
      → Step x (record x {
        sched = (complete_activation p ready true x.sched).0;
        hands = hands_after (complete_activation p ready true x.sched).1 n;
      })
  aborts :
      (p ready : ℕ)
      → Step x (record x {
        sched = (complete_activation p ready false x.sched).0;
        hands = hands_after (complete_activation p ready false x.sched).1 x.hands;
      })
  -- releaseTask; a token that it gives up is in hand until `returns_token`.
  releases :
      (p : ℕ)
      → Step x (record x {
        sched = (release_task p x.sched).0;
        hands = hands_after (release_task p x.sched).1 x.hands;
      })
  returns_token :
      (s' : Scheduler) (n : ℕ)
      → x.hands ≡ suc n
      → release_token x.sched ≡ some s'
      → Step x (record x { sched = s'; hands = n })
  -- AcquireChunk, up to its `select` and at its two cases.
  requests :
      (ended : Bool) (p : ℕ)
      → Step x (record x {
        sched = (request_chunk ended p x.sched).0;
        calls = calls_after_request (request_chunk ended p x.sched).1 x.calls p;
      })
  takes_grant :
      (ended : Bool) (p w : ℕ) (s' : Scheduler) (leased : Bool)
      → Waits x.sched x.calls p w
      → (x.sched.waiter w).ready ≡ true
      → take_grant ended p w x.sched ≡ some (s', leased)
      → Step x (record x { sched = s'; calls = calls_after_grant leased x.calls w })
  abandons :
      (p w : ℕ) (s' : Scheduler)
      → Waits x.sched x.calls p w
      → abandon_wait p w x.sched ≡ some s'
      → Step x (record x { sched = s'; calls = end_call x.calls w })
  -- ChunkLease.Release
  returns_lane :
      (p w : ℕ) (s' : Scheduler)
      → Holds x p w
      → release_chunk p x.sched ≡ some s'
      → Step x (record x { sched = s'; calls = end_call x.calls w })
  reconfigures :
      (max_files per_dc : ℕ) → Step x (record x { sched = reconfigure max_files per_dc x.sched })

pub data Reach (x : System) : System → Type 0 where
  here : Reach x x
  next : {y z : System} → Reach x y → Step y z → Reach x z

abbrev pub started : ℕ → ℕ → System
started max_files per_dc = record {
  sched = new_scheduler max_files per_dc;
  calls = λ _. record { task = 0; phase = finished };
  hands = 0;
}

abbrev pub IsSound : System → Type 0
IsSound x = Inv x.sched x.calls x.hands

started-IsSound : (max_files per_dc : ℕ) → IsSound (started max_files per_dc)
unfolding new_scheduler
started-IsSound max_files per_dc = record {
  permits = λ p. sym (sum_below-zero 0 _ (λ x l. absurd (omega arith)));
  lanes = λ d. sym (sum_below-zero 0 _ (λ x l. absurd (omega arith)));
  queued = λ p. tt;
  listed = λ d. tt;
  owned = λ w l. absurd (omega arith);
  busy = λ p b. absurd (omega arith);
  waking = λ p r e. refl;
  held = λ w e. cc;
  allocated = λ p e. cc;
  known = λ id p e. cc;
  tokens = ground (
    arith,
    sum_below-zero 0 (active_bit (new_scheduler max_files per_dc).tasks)
        (λ x l. absurd (omega arith)),
  );
}

Holds-HasLane : (x : System) (p w : ℕ) → IsSound x → Holds x p w → HasLane x.sched x.calls p w
Holds-HasLane x p w h has = record {
  made = has.made;
  for_task = has.for_task;
  granted = h.held w has.holds;
  open_ = λ e. ground (arith, has.holds);
}

abbrev SoundAt : Calls → ℕ → Scheduler → Type 0
SoundAt c hands s = Inv s c hands

Step-IsSound : {x y : System} → Step x y → IsSound x → IsSound y
Step-IsSound {x} (acquires ended registered id d) h =
    acquire_round-Inv ended registered id d x.sched x.calls x.hands h
Step-IsSound {x} (takes_token s' e) h = acquire_token-Inv x.sched s' x.calls x.hands e h
Step-IsSound {x} (completes p ready n e) h =
    complete_activation-Inv p ready x.sched x.calls n (subst (λ k. Inv x.sched x.calls k) e h)
Step-IsSound {x} (aborts p ready) h = abort_activation-Inv p ready x.sched x.calls x.hands h
Step-IsSound {x} (releases p) h = release_task-Inv x.sched x.calls x.hands p h
Step-IsSound {x} (returns_token s' n e f) h =
    let (t, freed, inv) =
      release_token-Inv x.sched x.calls n (subst (λ k. Inv x.sched x.calls k) e h) in
    subst (SoundAt x.calls n) (some_inj.0 (sym freed ∙ f)) inv
Step-IsSound {x} (requests ended p) h = request_chunk-Inv ended p x.sched x.calls x.hands h
Step-IsSound {x} (takes_grant ended p w s' leased waits ready e) h =
    let (t, l, took, inv) = take_grant-Inv x.sched x.calls x.hands p w waits h ended ready in
    subst (λ (r : Scheduler × Bool). Inv r.0 (calls_after_grant r.1 x.calls w) x.hands)
      (some_inj.0 (sym took ∙ e)) inv
Step-IsSound {x} (abandons p w s' waits e) h =
    let (t, left, inv) = abandon_wait-Inv x.sched x.calls x.hands p w waits h in
    subst (SoundAt (end_call x.calls w) x.hands) (some_inj.0 (sym left ∙ e)) inv
Step-IsSound {x} (returns_lane p w s' has e) h =
    let (t, freed, inv) =
      release_chunk-Inv x.sched x.calls x.hands p w (Holds-HasLane x p w h has) h in
    subst (SoundAt (end_call x.calls w) x.hands) (some_inj.0 (sym freed ∙ e)) inv
Step-IsSound {x} (reconfigures max_files per_dc) h =
    reconfigure-Inv max_files per_dc x.sched x.calls x.hands h

-- The accounting holds of every state that the scheduler reaches from its start.
pub Reach-IsSound :
    (max_files per_dc : ℕ) {x : System} → Reach (started max_files per_dc) x → IsSound x
Reach-IsSound max_files per_dc here = started-IsSound max_files per_dc
Reach-IsSound max_files per_dc (next r st) = Step-IsSound st (Reach-IsSound max_files per_dc r)

-- The operations that can panic return in state `x`: ChunkLease.Release of a lease that is held, both
-- cases of AcquireChunk's `select`, and the return of a file token that is in hand.
pub record IsPanicFree (x : System) : Type 0 where
  pub lane_returns : (p w : ℕ) → Holds x p w → release_chunk p x.sched ≢ none
  pub grant_returns :
      (ended : Bool) (p w : ℕ)
      → Waits x.sched x.calls p w
      → (x.sched.waiter w).ready ≡ true
      → take_grant ended p w x.sched ≢ none
  pub abandon_returns : (p w : ℕ) → Waits x.sched x.calls p w → abandon_wait p w x.sched ≢ none
  pub token_returns : 0 < x.hands → release_token x.sched ≢ none

IsSound-IsPanicFree : (x : System) → IsSound x → IsPanicFree x
IsSound-IsPanicFree x h = record {
  lane_returns = λ p w has panic.
      let (s', freed, _) =
        release_chunk-Inv x.sched x.calls x.hands p w (Holds-HasLane x p w h has) h in
      cc;
  grant_returns = λ ended p w waits ready panic.
      let (s', leased, took, _) = take_grant-Inv x.sched x.calls x.hands p w waits h ended ready in
      cc;
  abandon_returns = λ p w waits panic.
      let (s', left, _) = abandon_wait-Inv x.sched x.calls x.hands p w waits h in cc;
  token_returns = λ some_hand panic.
      let one : x.hands ≡ suc (x.hands - 1) = omega arith in
      let (s', freed, _) =
        release_token-Inv x.sched x.calls (x.hands - 1)
          (subst (λ k. Inv x.sched x.calls k) one h) in
      cc;
}

-- In no state that the scheduler reaches does an operation panic, neither on the lanes nor on the file
-- tokens.
pub Reach-IsPanicFree :
    (max_files per_dc : ℕ) (x : System) → Reach (started max_files per_dc) x → IsPanicFree x
Reach-IsPanicFree max_files per_dc x r = IsSound-IsPanicFree x (Reach-IsSound max_files per_dc r)

-- In every state that the scheduler reaches, `inFlight` of a task counts the calls of AcquireChunk that
-- have one of its lanes, `inFlight` of a data centre is the sum over its tasks, and `used` of the file
-- limiter counts the active tasks and the tokens in hand.
pub Reach-accounts :
    (max_files per_dc : ℕ) (x : System)
    → Reach (started max_files per_dc) x
    → ((p : ℕ)
        → (x.sched.tasks p).in_flight
          ≡ sum_below x.sched.next_waiter (permit x.sched.waiter x.calls p))
      × ((d : ℕ) → flight_of (x.sched.dcs d) ≡ sum_below x.sched.next_task (lane x.sched.tasks d))
      × (x.sched.file_tokens.used
          ≡ sum_below x.sched.next_task (active_bit x.sched.tasks) + x.hands)
Reach-accounts max_files per_dc x r =
    let h = Reach-IsSound max_files per_dc r in (h.permits, h.lanes, h.tokens)
