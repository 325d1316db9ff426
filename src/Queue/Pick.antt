-- ===== src/Queue/Pick.antt =====
-- Which job application/forwarder/queue.go runs next, and which ended jobs it removes.
use Prim.Native.String.{String}
use tdl.Prelude.{
  Among, ℕ, ◌≤◌, ◌≡◌, refl, subst, ap, ◌∙◌, ◌⊎◌, inl, inr, Bool, true, false, Option, none, some,
  List, [], ◌∷◌, if◌then◌else◌, ltb, arith, Bool-cases,
}
use tdl.Queue.Job.{Job, Policy}
use tdl.Queue.Repository.{insert_job, comes_before, records}
use tdl.Queue.Worker.{is_eligible, pick_best, pick_next}
use tdl.Queue.System.Recovery.{Among-records}

Among-insert_job_back :
    (x j : Job) (js : List Job) → Among x (insert_job j js) → (x ≡ j) ⊎ Among x js
unfolding insert_job
Among-insert_job_back x j [] h = h
Among-insert_job_back x j (k ∷ ks) h = elim (Bool-cases (comes_before k j)) [
  | inr first ↦
      let put : insert_job j (k ∷ ks) ≡ j ∷ k ∷ ks = rw (first, insert_job) refl in
      subst (Among x) put h
  | inl later ↦
      let put : insert_job j (k ∷ ks) ≡ k ∷ insert_job j ks = rw (later, insert_job) refl in
      let moved : Among x (k ∷ insert_job j ks) = subst (Among x) put h in
      elim moved [
        | inl top ↦ inr (inl top)
        | inr deep ↦ elim (Among-insert_job_back x j ks deep) [
          | inl same_job ↦ inl same_job
          | inr d ↦ inr (inr d)
        ]
      ]
]

pub Among-records_back : (x : Job) (js : List Job) → Among x (records js) → Among x js
unfolding records
Among-records_back x [] h = h
Among-records_back x (j ∷ js) h = elim (Among-insert_job_back x j (records js) h) [
  | inl top ↦ inl top
  | inr deep ↦ inr (Among-records_back x js deep)
]

-- The best job so far is eligible and no younger than the eligible ones that were seen.
abbrev pub Best : ℕ → (Job → Type 0) → Option Job → Type 0
Best now Seen none = (x : Job) → Seen x → is_eligible now x ≡ false
Best now Seen (some b) =
    Seen b
    × (is_eligible now b ≡ true)
    × ((x : Job) → Seen x → is_eligible now x ≡ true → b.created_at ≤ x.created_at)

abbrev better : ℕ → Job → Option Job → Option Job
better now j best =
    if is_eligible now j
    then elim best [
      | none ↦ some j
      | some b ↦ if ltb j.created_at b.created_at then some j else some b
    ]
    else best

abbrev SeenToo : (Job → Type 0) → Job → Job → Type 0
SeenToo Seen j x = Seen x ⊎ (x ≡ j)

better-Best :
    (now : ℕ) (Seen : Job → Type 0) (j : Job) (best : Option Job)
    → Best now Seen best
    → Best now (SeenToo Seen j) (better now j best)
better-Best now Seen j none h = elim (Bool-cases (is_eligible now j)) [
  | inl good ↦ rw good (
    inr refl,
    good,
    λ x s e. elim s [
      | inl old ↦ let out = h x old in absurd (ground (arith, out, e))
      | inr top ↦ rw top (ground arith)
    ],
  )
  | inr bad ↦
      rw bad (λ x s. elim s [ inl old ↦ h x old | inr top ↦ ap (is_eligible now) top ∙ bad ])
]
better-Best now Seen j (some b) (sb, eb, all) = elim (Bool-cases (is_eligible now j)) [
  | inr bad ↦ rw bad (
    inl sb,
    eb,
    λ x s e. elim s [
      | inl old ↦ all x old e
      | inr top ↦ let out = ap (is_eligible now) top ∙ bad in absurd (ground (arith, out, e))
    ],
  )
  | inl good ↦ elim (Bool-cases (ltb j.created_at b.created_at)) [
    | inl older ↦
        rw (good, older)
          (
            inr refl,
            good,
            λ x s e. elim s [
              | inl old ↦ let le = all x old e in ground (arith, le, older)
              | inr top ↦ rw top (ground arith)
            ],
          )
    | inr younger ↦
        rw (good, younger)
          (
            inl sb,
            eb,
            λ x s e. elim s [
              | inl old ↦ all x old e
              | inr top ↦
                  let age : x.created_at ≡ j.created_at = ap (λ (z : Job). z.created_at) top in
                  ground (arith, age, younger)
            ],
          )
  ]
]

-- More jobs are seen.
Best-more :
    (now : ℕ) (Seen Known : Job → Type 0) (best : Option Job)
    → ((x : Job) → Seen x → Known x)
    → ((x : Job) → Known x → Seen x)
    → Best now Seen best
    → Best now Known best
Best-more now Seen Known none up down h = λ x k. h x (down x k)
Best-more now Seen Known (some b) up down (s, e, all) = (up b s, e, λ x k. all x (down x k))

regroup :
    (Seen : Job → Type 0) (j : Job) (js : List Job) (x : Job)
    → SeenToo Seen j x ⊎ Among x js
    → Seen x ⊎ Among x (j ∷ js)
regroup Seen j js x (inl (inl s)) = inl s
regroup Seen j js x (inl (inr top)) = inr (inl top)
regroup Seen j js x (inr a) = inr (inr a)

regroup_back :
    (Seen : Job → Type 0) (j : Job) (js : List Job) (x : Job)
    → Seen x ⊎ Among x (j ∷ js)
    → SeenToo Seen j x ⊎ Among x js
regroup_back Seen j js x (inl s) = inl (inl s)
regroup_back Seen j js x (inr (inl top)) = inl (inr top)
regroup_back Seen j js x (inr (inr a)) = inr a

pick_best-Best :
    (now : ℕ) (js : List Job) (Seen : Job → Type 0) (best : Option Job)
    → Best now Seen best
    → Best now (λ x. Seen x ⊎ Among x js) (pick_best now js best)
unfolding pick_best
pick_best-Best now [] Seen best h =
    Best-more now Seen (λ x. Seen x ⊎ Among x []) best (λ x s. inl s)
      (λ x k. elim k [ inl s ↦ s | inr a ↦ absurd a ]) h
pick_best-Best now (j ∷ js) Seen best h =
    Best-more now (λ x. SeenToo Seen j x ⊎ Among x js) (λ x. Seen x ⊎ Among x (j ∷ js))
      (pick_best now js (better now j best)) (λ x s. regroup Seen j js x s)
      (λ x s. regroup_back Seen j js x s)
      (pick_best-Best now js (SeenToo Seen j) (better now j best) (better-Best now Seen j best h))

-- The worker's choice: an eligible stored job, and no eligible one was created before it; or none is eligible.
abbrev pub Chosen : ℕ → List Job → Option Job → Type 0
Chosen now jobs best = Best now (λ x. Among x jobs) best

-- At every time, the worker picks a waiting job whose delay is over and than which no other such job was
-- created earlier; it picks none exactly when no stored job is waiting with its delay over.
pub pick_next-Chosen :
    (fails : String → Bool) (now : ℕ) (p : Policy) (jobs : List Job)
    → Chosen now jobs (pick_next false fails now p jobs).1
unfolding pick_next
pick_next-Chosen fails now p jobs =
    Best-more now (λ x. ⊥ ⊎ Among x (records jobs)) (λ x. Among x jobs)
      (pick_best now (records jobs) none)
      (λ x s. elim s [ inl f ↦ absurd f | inr a ↦ Among-records_back x jobs a ])
      (λ x a. inr (Among-records x jobs a))
      (pick_best-Best now (records jobs) (λ x. ⊥) none (λ x s. absurd s))
