-- ===== src/Queue/Replays.antt =====
-- What EnqueueRouted of application/forwarder/queue.go does with a message that was queued before.
use Prim.Native.String.{String, ◌++◌ as join}
use text.Mathlib.TextPositions.{eq_refl}
use tdl.Prelude.{
  none, if◌then◌else◌, ℕ, ◌≡◌, refl, sym, ap, ◌∙◌, Bool, true, false, some, List, arith, Bool-cases,
  Option-cases, ◌⊎◌, inl, inr,
}
use tdl.Prelude.Int.{ℤ}
use tdl.Forward.Rules.{ForwardDestination}
use tdl.Queue.Job.{queued, Job}
use tdl.Queue.Repository.{find_job, save_job, stamp}
use tdl.Queue.Repository.Laws.{find_job-put_job}
use tdl.Queue.Enqueue.{route_identity, is_zero, enqueue_routed, routed_job}
use tdl.Queue.System.{Queue}
use tdl.Queue.System.Stored.{Spared, Spared-IsStored}

-- The identity of an album's message does not depend on which message it is.
album_identity :
    (kind : String) (peer message message' grouped : ℤ) (target : String)
    → is_zero grouped ≡ false
    → route_identity kind peer message grouped target
      ≡ route_identity kind peer message' grouped target
unfolding route_identity
album_identity kind peer message message' grouped target h = rw (h, route_identity) refl

abbrev routed_id : (String → String) → String → ℤ → ℤ → ℤ → String → String
routed_id digest kind peer message grouped target =
    join "route-" (digest (route_identity kind peer message grouped target))

enqueue_routed-stored :
    (digest : String → String) (fails_save : Bool) (now : ℕ) (kind : String)
    (peer message grouped : ℤ) (origin : String) (d : ForwardDestination) (jobs jobs' : List Job)
    (id : String)
    → enqueue_routed digest false fails_save now kind peer message grouped origin d jobs
      ≡ (some id, jobs')
    → (routed_id digest kind peer message grouped d.target ≡ id)
      × ((j : Job) × (find_job (routed_id digest kind peer message grouped d.target) jobs'
            ≡ some j))
unfolding enqueue_routed save_job
enqueue_routed-stored digest fs now kind peer message grouped origin d jobs jobs' id e =
    let key = routed_id digest kind peer message grouped d.target in
    elim (Option-cases (find_job key jobs)) [
      | inr (j, found) ↦
          let same_jobs : jobs ≡ jobs' = ground (arith, e, found) in
          (ground (arith, e, found), (j, ap (find_job key) (sym same_jobs) ∙ found))
      | inl missing ↦ elim (Bool-cases fs) [
        | inl bad ↦ absurd (ground (arith, e, missing, bad))
        | inr fine ↦
            let job = stamp now (routed_job key kind peer message origin d) in
            let saved : save_job now (routed_job key kind peer message origin d) jobs ≡ jobs' =
              ground (arith, e, missing, fine) in
            let law = find_job-put_job key job jobs in
            (
              ground (arith, e, missing, fine),
              (job, ap (find_job key) (sym saved) ∙ (law ∙ rw (eq_refl key) refl)),
            )
      ]
    ]

-- With a job under its id, nothing is queued.
replay_answer :
    (digest : String → String) (fails_get fails_save : Bool) (now : ℕ) (kind : String)
    (peer message grouped : ℤ) (origin : String) (d : ForwardDestination) (jobs : List Job)
    (j : Job) (id : String)
    → routed_id digest kind peer message grouped d.target ≡ id
    → find_job id jobs ≡ some j
    → enqueue_routed digest fails_get fails_save now kind peer message grouped origin d jobs
      ≡ ((if fails_get then none else some id), jobs)
unfolding enqueue_routed
replay_answer digest true fs now kind peer message grouped origin d jobs j id key found = refl
replay_answer digest false fs now kind peer message grouped origin d jobs j id key found =
    let found_key : find_job (routed_id digest kind peer message grouped d.target) jobs ≡ some j =
      ap (λ (z : String). find_job z jobs) key ∙ found in
    rw (found_key, enqueue_routed) (ap (λ (z : String). (some z, jobs)) key)

-- The identities of two messages for one target are the same: they are one message, or of one album.
same_routed_id :
    (digest : String → String) (kind : String) (peer message message' grouped : ℤ)
    (target target' : String)
    → (message' ≡ message) ⊎ (is_zero grouped ≡ false)
    → target' ≡ target
    → routed_id digest kind peer message' grouped target'
      ≡ routed_id digest kind peer message grouped target
same_routed_id digest kind peer message message' grouped target target' one same_target =
    ap (routed_id digest kind peer message' grouped) same_target ∙ elim one [
      | inl m ↦ ap (λ (z : ℤ). routed_id digest kind peer z grouped target) m
      | inr album ↦
          ap (λ (z : String). join "route-" (digest z))
            (album_identity kind peer message' message grouped target album)
    ]

-- With no job under its id, a message is queued.
enqueue_routed-new :
    (digest : String → String) (now : ℕ) (kind : String) (peer message grouped : ℤ)
    (origin : String) (d : ForwardDestination) (jobs : List Job)
    → let key = routed_id digest kind peer message grouped d.target in
      find_job key jobs ≡ none
      → ((enqueue_routed digest false false now kind peer message grouped origin d jobs).0
          ≡ some key)
        × ((j : Job) × (find_job key
                (enqueue_routed digest false false now kind peer message grouped origin d jobs).1
              ≡ some j)
            × (j.status ≡ queued))
unfolding enqueue_routed save_job
enqueue_routed-new digest now kind peer message grouped origin d jobs missing =
    let key = routed_id digest kind peer message grouped d.target in
    let job = stamp now (routed_job key kind peer message origin d) in
    rw (missing, enqueue_routed)
      (refl, (job, find_job-put_job key job jobs ∙ rw (eq_refl key) refl, refl))

-- A message is queued for a target under `id`, and then the queue takes any steps, with whatever failures,
-- but no Delete of `id` and no pick that finds the job of `id` ended and either older than the retention or
-- among more ended jobs than the history holds. Then a replay, of the same message or of any message of the
-- same album for the same target, answers `id` (or the error of Get) and changes nothing. The identity is
-- remembered no longer than the job: at any store with no job under `id` a replay whose calls do not fail
-- answers `id` and stores a queued job under it.
pub enqueue_routed_again :
    (digest : String → String) (fails_save fails_get' fails_save' : Bool) (now now' : ℕ)
    (kind : String) (peer message message' grouped : ℤ) (origin origin' : String)
    (d d' : ForwardDestination) (jobs : List Job) (id : String) (q q' : Queue) (gone : List Job)
    → (message' ≡ message) ⊎ (is_zero grouped ≡ false)
    → d'.target ≡ d.target
    → enqueue_routed digest false fails_save now kind peer message grouped origin d jobs
      ≡ (some id, q.jobs)
    → Spared id q q'
    → find_job id gone ≡ none
    → (enqueue_routed digest fails_get' fails_save' now' kind peer message' grouped origin' d'
          q'.jobs
        ≡ ((if fails_get' then none else some id), q'.jobs))
      × (let r =
            enqueue_routed digest false false now' kind peer message' grouped origin' d' gone in
          (r.0 ≡ some id) × ((j : Job) × (find_job id r.1 ≡ some j) × (j.status ≡ queued)))
enqueue_routed_again digest fs fg' fs' now now' kind peer message message' grouped origin origin' d
      d' jobs id q q' gone one t e path missing =
    let (id_is, stored) =
      enqueue_routed-stored digest fs now kind peer message grouped origin d jobs q.jobs id e in
    let key : routed_id digest kind peer message' grouped d'.target ≡ id =
      same_routed_id digest kind peer message message' grouped d.target d'.target one t ∙ id_is in
    let (j, found) =
      Spared-IsStored id q q' path
        (stored.0, ap (λ (z : String). find_job z q.jobs) (sym id_is) ∙ stored.1) in
    let (answer, (j', found', is_new)) =
      enqueue_routed-new digest now' kind peer message' grouped origin' d' gone
        (ap (λ (z : String). find_job z gone) key ∙ missing) in
    (
      replay_answer digest fg' fs' now' kind peer message' grouped origin' d' q'.jobs j id key
          found,
      (
        answer ∙ ap some key,
        (
          j',
          ap
                (λ (z : String).
                  find_job z
                    (enqueue_routed digest false false now' kind peer message' grouped origin' d'
                      gone).1)
                (sym key)
              ∙ found',
          is_new,
        ),
      ),
    )
