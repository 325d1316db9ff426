-- ===== src/Scheduler/Kept.antt =====
-- What becomes of the queued requests in `dispatchLocked` of bsw/ecual/comif/scheduler.go: none of them is lost.
use tdl.Prelude.{
  Among, ℕ, zero, suc, ◌-◌, ◌≡◌, refl, sym, ap, subst, ◌∙◌, ◌⊎◌, inl, inr, true, false, Option,
  none, some, List, [], ◌∷◌, arith, ℕ_discrete, Bool-cases, Option-cases, List-cases,
}
use tdl.Scheduler.State.{Waiter, Scheduler, tasks_of}
use tdl.Scheduler.Invariant.Grants.{first_file_waiter-empty, first_file_waiter-head}
use tdl.Scheduler.Dispatch.{prune_queue, set_queue, first_file_waiter, grant, grant_loop, dispatch}

-- A request that is not canceled stands in the queue of a file.
abbrev pub IsQueued : Scheduler → ℕ → ℕ → Type 0
IsQueued s p w = ((s.waiter w).canceled ≡ false) × Among w (s.tasks p).waiters

-- A later state: what was queued is granted or is still in the queue, and no grant is taken back.
pub record Later (s t : Scheduler) : Type 0 where
  pub kept : (p w : ℕ) → IsQueued s p w → ((t.waiter w).granted ≡ true) ⊎ IsQueued t p w
  pub still : (w : ℕ) → (s.waiter w).granted ≡ true → (t.waiter w).granted ≡ true

Later-refl : (s : Scheduler) → Later s s
Later-refl s = record { kept = λ p w h. inr h; still = λ w h. h }

Later-trans : (s t u : Scheduler) → Later s t → Later t u → Later s u
Later-trans s t u a b = record {
  kept = λ p w h. elim (a.kept p w h) [ inl g ↦ inl (b.still w g) | inr q ↦ b.kept p w q ];
  still = λ w h. b.still w (a.still w h);
}

prune_queue-Among :
    (waiter : ℕ → Waiter) (w : ℕ) (ws : List ℕ)
    → (waiter w).canceled ≡ false
    → Among w ws
    → Among w (prune_queue waiter ws)
unfolding prune_queue
prune_queue-Among waiter w [] live h = h
prune_queue-Among waiter w (v ∷ vs) live h = elim (Bool-cases (waiter v).canceled) [
  | inl dead ↦
      rw (dead, prune_queue)
        (elim h [
          | inl this ↦
              let here = ap (λ (z : ℕ). (waiter z).canceled) this in
              absurd (ground (arith, here, live, dead))
          | inr deep ↦ prune_queue-Among waiter w vs live deep
        ])
  | inr alive ↦ rw (alive, prune_queue) h
]

-- What a scan leaves: the requests, but the one that it found.
abbrev Scanned : Scheduler → Scheduler × Option (ℕ × ℕ) → Type 0
Scanned s r =
    (r.0.waiter ≡ s.waiter)
    × ((p w : ℕ) → IsQueued s p w → Among w (r.0.tasks p).waiters ⊎ ((q : ℕ) × (r.1 ≡ some (q, w))))

set_queue-queued :
    (s : Scheduler) (q : ℕ) (ws : List ℕ) (p w : ℕ)
    → (p ≡ q → Among w ws)
    → Among w (s.tasks p).waiters
    → Among w ((set_queue q ws s).tasks p).waiters
set_queue-queued s q ws p w here h = elim (ℕ_discrete p q) [
  | yes this ↦
      let put : ((set_queue q ws s).tasks p).waiters ≡ ws = rw this (ground arith) in
      subst (Among w) (sym put) (here this)
  | no other ↦
      let put : ((set_queue q ws s).tasks p).waiters ≡ (s.tasks p).waiters = ground arith in
      subst (Among w) (sym put) h
]

first_file_waiter-Scanned : (ps : List ℕ) (s : Scheduler) → Scanned s (first_file_waiter ps s)
unfolding first_file_waiter
first_file_waiter-Scanned [] s = (refl, λ p w h. inl h.1)
first_file_waiter-Scanned (q ∷ qs) s =
    let pruned = λ (p w : ℕ) (h : IsQueued s p w) (e : p ≡ q).
      subst (λ (z : ℕ). Among w (prune_queue s.waiter (s.tasks z).waiters)) e
        (prune_queue-Among s.waiter w (s.tasks p).waiters h.0 h.1) in
    elim (List-cases (prune_queue s.waiter (s.tasks q).waiters)) [
      | inl empty ↦
          let (waiters, rest) = first_file_waiter-Scanned qs (set_queue q [] s) in
          subst (Scanned s) (sym (first_file_waiter-empty s q qs empty)) (
            waiters,
            λ p w h. rest p w (
              h.0,
              set_queue-queued s q [] p w (λ e. subst (Among w) empty (pruned p w h e)) h.1,
            ),
          )
      | inr (v, vs, found) ↦ subst (Scanned s) (sym (first_file_waiter-head s q qs v vs found)) (
        refl,
        λ p w h. elim (ℕ_discrete p q) [
          | yes this ↦ elim (subst (Among w) found (pruned p w h this)) [
            | inl top ↦ inr (q, ap (λ (z : ℕ). some (q, z)) (sym top))
            | inr deep ↦ inl (set_queue-queued s q vs p w (λ _. deep) h.1)
          ]
          | no other ↦ inl (set_queue-queued s q vs p w (λ e. absurd (other e)) h.1)
        ],
      )
    ]

grant-granted : (d p w : ℕ) (s : Scheduler) → ((grant d p w s).waiter w).granted ≡ true
unfolding grant
grant-granted d p w s = ground arith

grant-Later : (d p w : ℕ) (s : Scheduler) → Later s (grant d p w s)
unfolding grant
grant-Later d p w s = record {
  kept = λ q v h. inr (
    let live = h.0 in ground (arith, live),
    elim (ℕ_discrete q p) [
      | yes this ↦
          let put : ((grant d p w s).tasks q).waiters ≡ (s.tasks q).waiters =
            rw this (ground arith) in
          subst (Among v) (sym put) h.1
      | no other ↦
          let put : ((grant d p w s).tasks q).waiters ≡ (s.tasks q).waiters = ground arith in
          subst (Among v) (sym put) h.1
    ],
  );
  still = λ v h. ground (arith, h);
}

-- A round: the scan and, when it finds a request, the grant.
round-Later :
    (d : ℕ) (s : Scheduler) (r : Scheduler × Option (ℕ × ℕ)) (q v : ℕ)
    → Scanned s r
    → r.1 ≡ some (q, v)
    → Later s (grant d q v r.0)
round-Later d s r q v (waiters, kept) found =
    let after = grant-Later d q v r.0 in
    record {
      kept = λ p w h. elim (kept p w h) [
        | inl queued ↦
            after.kept p w (ap (λ (f : ℕ → Waiter). (f w).canceled) waiters ∙ h.0, queued)
        | inr (_, this) ↦
            let same : v ≡ w = ground (arith, found, this) in
            inl (
              subst (λ (z : ℕ). ((grant d q v r.0).waiter z).granted ≡ true) same
                (grant-granted d q v r.0))
      ];
      still = λ w h. after.still w (ap (λ (f : ℕ → Waiter). (f w).granted) waiters ∙ h);
    }

none-Later :
    (s : Scheduler) (r : Scheduler × Option (ℕ × ℕ)) → Scanned s r → r.1 ≡ none → Later s r.0
none-Later s r (waiters, kept) found = record {
  kept = λ p w h. elim (kept p w h) [
    | inl queued ↦ inr (ap (λ (f : ℕ → Waiter). (f w).canceled) waiters ∙ h.0, queued)
    | inr (_, this) ↦ absurd (ground (arith, found, this))
  ];
  still = λ w h. ap (λ (f : ℕ → Waiter). (f w).granted) waiters ∙ h;
}

pub grant_loop-Later : (rounds d : ℕ) (s : Scheduler) → Later s (grant_loop rounds d s)
unfolding grant_loop
grant_loop-Later zero d s = Later-refl s
grant_loop-Later (suc rounds) d s =
    let r = first_file_waiter (tasks_of (s.dcs d)) s in
    let scanned = first_file_waiter-Scanned (tasks_of (s.dcs d)) s in
    elim (Option-cases r.1) [
      | inl e ↦ rw (e, grant_loop) (none-Later s r scanned e)
      | inr ((p, w), e) ↦
          rw (e, grant_loop)
            (Later-trans s (grant d p w r.0) (grant_loop rounds d (grant d p w r.0))
              (round-Later d s r p w scanned e) (grant_loop-Later rounds d (grant d p w r.0)))
    ]

pub dispatch-Later : (d : ℕ) (s : Scheduler) → Later s (dispatch d s)
unfolding dispatch
dispatch-Later d s = elim (Option-cases (s.dcs d)) [
  | inl e ↦ rw (e, dispatch) (Later-refl s)
  | inr (dc, e) ↦ elim (List-cases dc.tasks) [
    | inl empty ↦ rw (e, dispatch) (rw empty (Later-refl s))
    | inr (p, ps, found) ↦
        rw (e, dispatch) (rw found (grant_loop-Later (s.capacity - dc.in_flight) d s))
  ]
]
