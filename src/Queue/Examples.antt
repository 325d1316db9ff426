-- ===== src/Queue/Examples.antt =====
-- The queue of application/forwarder/queue.go, run: an album's message is queued, claimed and fails.
use Prim.Native.String.{String}
use tdl.Prelude.{◌*◌, ◌+◌, ◌^◌, ◌≤◌, ◌≡◌, refl, inl, inr, false, none, some, List, [], ◌∷◌, arith}
use tdl.Prelude.Int.{pos}
use tdl.Prelude.Text.{trim_text, is_space, is_blank, decimal_ℤ}
use tdl.Forward.Rules.{ForwardDestination}
use tdl.Queue.Job.{queued, Job, Policy, prepare_policy, backoff, double_delay}
use tdl.Queue.Repository.{
  find_job, save_job, put_job, update_job, records, insert_job, comes_before,
}
use tdl.Queue.Actions.{update_jobs, pause_change, unique_ids, unique_from, has_id, update_each}
use tdl.Queue.Enqueue.{enqueue_routed, route_identity, link_job}
use tdl.Queue.Worker.{
  pick_next, pick_best, is_eligible, prune_terminal, drop_ended, sort_ended, insert_ended,
  terminal_jobs, recover_running, recover_each,
}
use tdl.Queue.System.{
  Queue, idle, stopped, stops, pauses, picked, Step, saves, starts, picks, claims, Reach, here,
  next, empty_queue, pick_from, claim_from, no_failure,
}
use tdl.Queue.System.Moves.{Moves, Step-Moves}
use tdl.Queue.System.Running.{IsSingleFlight}
use tdl.Queue.System.Flight.{Reach-IsSingleFlight}
use tdl.Queue.Backoff.{backoff_lem, smaller}
use tdl.Queue.Pick.{Chosen, pick_next-Chosen}
use tdl.Queue.Retention.{IsIndexed, prune_terminal-live}
use tdl.Queue.Retries.{Fate, fail_times, fail_times-Fate}
use tdl.Queue.Replays.{enqueue_routed_again}
use tdl.Queue.System.Stored.{Spared, unmoved, spared}

abbrev policy : Policy
policy = record {
  base = 5000000000;
  maximum = 300000000000;
  retention = 86400000000000;
  attempts = 2;
  history = 200;
}

policy_built : prepare_policy 5 300 2 24 200 600 ≡ some policy
unfolding prepare_policy
policy_built = refl

third_delay : backoff policy 3 ≡ 20000000000
unfolding backoff double_delay
third_delay = refl

last_delay : backoff policy 9 ≡ 300000000000
unfolding backoff double_delay
last_delay = refl

backoff_lem_example :
    (backoff policy 3 ≡ smaller 300000000000 (5000000000 * 2 ^ 2))
    × (5000000000 ≤ backoff policy 3)
    × (backoff policy 3 ≤ 300000000000)
backoff_lem_example = backoff_lem 5 300 2 24 200 600 policy 3 policy_built

abbrev link : Job
link = link_job "fwd-1-1" "https://t.me/a/1" "" "" "default" false

abbrev stored : List Job
stored = save_job 10 link []

abbrev first : Job
first = record link { created_at = 10; updated_at = 10 }

stored_job : find_job "fwd-1-1" stored ≡ some first
unfolding save_job put_job find_job
stored_job = refl

abbrev later : Job
later = record first { id = "fwd-2-2"; created_at = 11 }

second_picked : (pick_next false no_failure 20 policy (later ∷ first ∷ [])).1 ≡ some first
unfolding pick_next pick_best is_eligible prune_terminal drop_ended sort_ended insert_ended
    terminal_jobs records insert_job comes_before
second_picked = refl

pick_next-Chosen_example :
    Chosen 20 (later ∷ first ∷ []) (pick_next false no_failure 20 policy (later ∷ first ∷ [])).1
pick_next-Chosen_example = pick_next-Chosen no_failure 20 policy (later ∷ first ∷ [])

first_only : IsIndexed (first ∷ [])
unfolding find_job
first_only x h = elim h [ inl same_job ↦ rw same_job refl | inr deep ↦ absurd deep ]

first_found : find_job "fwd-1-1" (first ∷ []) ≡ some first
unfolding find_job
first_found = refl

prune_terminal-live_example :
    find_job "fwd-1-1" (prune_terminal no_failure 20 policy (records (first ∷ [])) (first ∷ []))
    ≡ some first
prune_terminal-live_example =
    prune_terminal-live no_failure 20 policy (first ∷ []) "fwd-1-1" first first_only first_found
      refl

fail_times-Fate_example :
    Fate policy 2 101 (fail_times policy (λ n. 100 + n) (λ n. "FLOOD_WAIT") 2 first)
fail_times-Fate_example =
    fail_times-Fate policy (λ n. 100 + n) (λ n. "FLOOD_WAIT") 1 first refl refl (omega arith)

paused_once :
    (update_jobs no_failure 30 pause_change
      ("fwd-1-1" ∷ " fwd-1-1 " ∷ "" ∷ "x" ∷ [])
      (first ∷ [])).0
    ≡ record { matched = 1; changed = 1; skipped = 1; errors = [] }
unfolding update_jobs update_each unique_ids unique_from has_id update_job pause_change trim_text
    is_space is_blank
paused_once = refl

abbrev asked : List String
asked = "fwd-1-1" ∷ " fwd-1-1 " ∷ "" ∷ "x" ∷ []

abbrev saved_messages : ForwardDestination
saved_messages = record {
  rule_id = "a";
  target = "self";
  mode = "clone";
  silent = false;
  name = "";
}

abbrev hash : String → String
hash s = s

abbrev album_id : String
album_id = "route-channel:7/g:5/self"

abbrev album_jobs : List Job
album_jobs =
    (enqueue_routed hash false false 40 "channel" (pos 7) (pos 1) (pos 5) "news" saved_messages
      []).1

album_queued :
    enqueue_routed hash false false 40 "channel" (pos 7) (pos 1) (pos 5) "news" saved_messages []
    ≡ (some album_id, album_jobs)
unfolding enqueue_routed route_identity find_job decimal_ℤ
album_queued = refl

abbrev with_job : Queue
with_job = record { jobs = stored; worker = idle; stuck = [] }

abbrev with_pick : Queue
with_pick = pick_from false no_failure 20 policy with_job

abbrev with_claim : Queue
with_claim = claim_from false 21 first false with_pick

nothing_stored : find_job "fwd-1-1" [] ≡ none
unfolding find_job
nothing_stored = refl

picked_first : with_pick.worker ≡ picked first false
unfolding pick_next pick_best is_eligible prune_terminal drop_ended sort_ended insert_ended
    terminal_jobs records insert_job comes_before save_job put_job
picked_first = refl

claim-Step : Step with_pick with_claim
claim-Step = claims with_pick false 21 first false picked_first

Step-Moves_example : Moves (find_job "fwd-1-1" with_pick.jobs) (find_job "fwd-1-1" with_claim.jobs)
Step-Moves_example = Step-Moves with_pick with_claim "fwd-1-1" claim-Step

started_jobs : Reach empty_queue (record { jobs = []; worker = idle; stuck = [] })
unfolding recover_running recover_each records
started_jobs = next here (starts empty_queue 0 refl)

claimed-Reach : Reach empty_queue with_claim
claimed-Reach =
    next
      (next
        (next started_jobs
          (saves (record { jobs = []; worker = idle; stuck = [] }) 10 link refl nothing_stored))
        (picks with_job false no_failure 20 policy refl))
      claim-Step

Reach-IsSingleFlight_example : IsSingleFlight with_claim
Reach-IsSingleFlight_example = Reach-IsSingleFlight with_claim claimed-Reach

-- The album's job is queued while the worker is idle; then it is paused and resumed, and the process ends.
abbrev with_album : Queue
with_album = record { jobs = album_jobs; worker = idle; stuck = [] }

abbrev album_paused : Queue
album_paused = record with_album {
  jobs = (update_jobs no_failure 50 pause_change (album_id ∷ []) album_jobs).1;
}

album-Spared : Spared album_id with_album (record album_paused { worker = stopped; stuck = [] })
album-Spared =
    spared (spared unmoved (pauses with_album no_failure 50 (album_id ∷ [])) tt)
      (stops album_paused) tt

enqueue_routed_again_example :
    (enqueue_routed hash false false 61 "channel"
        (pos 7)
        (pos 2)
        (pos 5)
        "news"
        saved_messages
        album_paused.jobs
      ≡ (some album_id, album_paused.jobs))
    × (let r =
          enqueue_routed hash false false 61 "channel"
            (pos 7)
            (pos 2)
            (pos 5)
            "news"
            saved_messages
            [] in
        (r.0 ≡ some album_id)
        × ((j : Job) × (find_job album_id r.1 ≡ some j) × (j.status ≡ queued)))
enqueue_routed_again_example =
    enqueue_routed_again hash false false false 40 61 "channel" (pos 7) (pos 1) (pos 2) (pos 5)
      "news" "news" saved_messages saved_messages [] album_id with_album
      (record album_paused { worker = stopped; stuck = [] }) [] (inr refl) refl album_queued
      album-Spared (unfold find_job in refl)
