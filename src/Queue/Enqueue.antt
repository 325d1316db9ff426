-- ===== src/Queue/Enqueue.antt =====
-- The jobs that producers add to the queue of application/forwarder/queue.go (EnqueueLinks, EnqueueMessage,
-- EnqueueRouted), and its lists (List, RunningCount). A save may fail: `fails` says for which id it does.
use Prim.Native.String.{String, ◌++◌ as join}
use text.Mathlib.Text.{◌==◌ as str_eq}
use tdl.Prelude.{
  ℕ, suc, Bool, true, false, not, ◌&&◌, Option, none, some, List, [], ◌∷◌, if◌then◌else◌, ltb, ◌==◌,
}
use tdl.Prelude.Int.{ℤ, pos, negsuc}
use tdl.Prelude.Text.{trim_text, decimal, decimal_ℤ}
use tdl.Forward.Rules.{ForwardDestination}
use tdl.Queue.Job.{queued, command, watch, Route, Job, is_terminal}
use tdl.Queue.Repository.{find_job, save_job, records}

-- nextID, at a time and a value of the counter.
unfoldable pub next_id : ℕ → ℕ → String
next_id now seq = join "fwd-" (join (decimal now) (join "-" (decimal seq)))

abbrev pub new_job : String → Route → String → String → Job
new_job id route origin_name destination_name = record {
  id = id;
  route = route;
  progress = record {
    origin_name = origin_name;
    destination_name = destination_name;
    total = 1;
    sent = 0;
    clone_done = 0;
    clone_total = 0;
  };
  status = queued;
  attempts = 0;
  message = "";
  created_at = 0;
  updated_at = 0;
  started_at = none;
  finished_at = none;
  next_attempt_at = none;
}

-- The job of a link.
abbrev pub link_job : String → String → String → String → String → Bool → Job
link_job id link target target_name mode silent =
    new_job id
      (record {
        source = command;
        source_link = link;
        source_peer_id = pos 0;
        source_peer_kind = "";
        rule_id = "";
        source_message_id = pos 0;
        destination = target;
        mode = mode;
        silent = silent;
      })
      link target_name

-- EnqueueLinks: the ids that were saved, whether a save failed, the counter and the jobs.
unfoldable pub enqueue_links :
    (String → Bool)
    → ℕ
    → ℕ
    → List String
    → String
    → String
    → String
    → Bool
    → List Job
    → List String × Bool × ℕ × List Job
enqueue_links fails now seq [] target target_name mode silent jobs = ([], false, seq, jobs)
enqueue_links fails now seq (raw ∷ links) target target_name mode silent jobs =
    let link = trim_text raw in
    let skipped = enqueue_links fails now seq links target target_name mode silent jobs in
    let id = next_id now (suc seq) in
    let rest =
      enqueue_links fails now (suc seq) links target target_name mode silent
        (save_job now (link_job id link target target_name mode silent) jobs) in
    if str_eq link ""
    then skipped
    else if fails id
    then ([], true, suc seq, jobs)
    else (id ∷ rest.0, rest.1, rest.2, rest.3)

-- The job of a known message.
abbrev pub message_job : String → String → ℤ → ℤ → String → String → String → String → Bool → Job
message_job id kind peer message origin target target_name mode silent =
    new_job id
      (record {
        source = watch;
        source_link = "";
        source_peer_id = peer;
        source_peer_kind = kind;
        rule_id = "";
        source_message_id = message;
        destination = target;
        mode = mode;
        silent = silent;
      })
      origin target_name

-- enqueueMessage: `none` is the error of the save.
unfoldable pub enqueue_message :
    Bool
    → ℕ
    → ℕ
    → String
    → ℤ
    → ℤ
    → String
    → String
    → String
    → String
    → Bool
    → List Job
    → Option String × ℕ × List Job
enqueue_message fails now seq kind peer message origin target target_name mode silent jobs =
    let id = next_id now (suc seq) in
    let job = message_job id kind peer message origin target target_name mode silent in
    if fails then (none, suc seq, jobs) else (some id, suc seq, save_job now job jobs)

abbrev pub is_zero : ℤ → Bool
is_zero (pos n) = n == 0
is_zero (negsuc n) = false

-- The identity of a routed job: an album's id stands for its messages.
unfoldable pub route_identity : String → ℤ → ℤ → ℤ → String → String
route_identity kind peer message grouped target =
    let part =
      if is_zero grouped then join "m:" (decimal_ℤ message) else join "g:" (decimal_ℤ grouped) in
    join kind (join ":" (join (decimal_ℤ peer) (join "/" (join part (join "/" target)))))

abbrev pub routed_job : String → String → ℤ → ℤ → String → ForwardDestination → Job
routed_job id kind peer message origin d =
    new_job id
      (record {
        source = watch;
        source_link = "";
        source_peer_id = peer;
        source_peer_kind = kind;
        rule_id = d.rule_id;
        source_message_id = message;
        destination = d.target;
        mode = d.mode;
        silent = d.silent;
      })
      origin ""

-- EnqueueRouted: `digest` is the hexadecimal SHA-256 of a text, `none` the error of Get or Save.
unfoldable pub enqueue_routed :
    (String → String)
    → Bool
    → Bool
    → ℕ
    → String
    → ℤ
    → ℤ
    → ℤ
    → String
    → ForwardDestination
    → List Job
    → Option String × List Job
enqueue_routed digest fails_get fails_save now kind peer message grouped origin d jobs =
    let id = join "route-" (digest (route_identity kind peer message grouped d.target)) in
    if fails_get then (none, jobs) else elim (find_job id jobs) [
      | some _ ↦ (some id, jobs)
      | none ↦
          if fails_save
          then (none, jobs)
          else (some id, save_job now (routed_job id kind peer message origin d) jobs)
    ]

-- The order of List: the active jobs first, then the most recent.
unfoldable pub lists_before : Job → Job → Bool
lists_before a b =
    let active_a = not (is_terminal a.status) in
    let active_b = not (is_terminal b.status) in
    if active_a && not active_b
    then true
    else if active_b && not active_a
    then false
    else ltb b.created_at a.created_at

-- A stable insertion: equal jobs keep their order.
unfoldable pub insert_listed : Job → List Job → List Job
insert_listed j [] = j ∷ []
insert_listed j (k ∷ ks) =
    let rest = insert_listed j ks in if lists_before k j then k ∷ rest else j ∷ k ∷ ks

unfoldable pub sort_listed : List Job → List Job
sort_listed [] = []
sort_listed (j ∷ js) = insert_listed j (sort_listed js)

-- List
unfoldable pub list_jobs : List Job → List Job
unfolding sort_listed insert_listed lists_before
list_jobs jobs = sort_listed (records jobs)

-- RunningCount
unfoldable pub running_count : List Job → ℕ
running_count [] = 0
running_count (j ∷ js) =
    let rest = running_count js in if is_terminal j.status then rest else suc rest
