-- ===== src/Queue/Retention.antt =====
-- Which jobs the pruning of application/forwarder/queue.go removes.
use Prim.Native.String.{String}
use text.Mathlib.Text.{◌==◌ as str_eq}
use text.Mathlib.TextEquality.{eq_iff}
use tdl.Prelude.{
  Among, ℕ, ◌-◌, ◌≡◌, ◌≢◌, refl, sym, subst, ap, ◌∙◌, ◌⊎◌, inl, inr, Bool, true, false, not, ◌&&◌,
  ◌||◌, some, List, [], ◌∷◌, ltb, arith, Bool-cases, length,
}
use tdl.Queue.Job.{Job, Policy, is_terminal, terminal_time}
use tdl.Queue.Repository.{find_job, remove_job, records}
use tdl.Queue.Repository.Laws.{find_job-remove_job}
use tdl.Queue.Worker.{terminal_jobs, insert_ended, sort_ended, drop_ended, prune_terminal}
use tdl.Queue.Pick.{Among-records_back}

-- Each stored job is the one that its id finds.
abbrev pub IsIndexed : List Job → Type 0
IsIndexed jobs = (x : Job) → Among x jobs → find_job x.id jobs ≡ some x

Among-insert_ended :
    (x j : Job) (js : List Job) → Among x (insert_ended j js) → (x ≡ j) ⊎ Among x js
unfolding insert_ended
Among-insert_ended x j [] h = h
Among-insert_ended x j (k ∷ ks) h = elim (Bool-cases (ltb (terminal_time k) (terminal_time j))) [
  | inr first ↦
      let put : insert_ended j (k ∷ ks) ≡ j ∷ k ∷ ks = rw (first, insert_ended) refl in
      subst (Among x) put h
  | inl later ↦
      let put : insert_ended j (k ∷ ks) ≡ k ∷ insert_ended j ks = rw (later, insert_ended) refl in
      let moved : Among x (k ∷ insert_ended j ks) = subst (Among x) put h in
      elim moved [
        | inl top ↦ inr (inl top)
        | inr deep ↦ elim (Among-insert_ended x j ks deep) [
          | inl this ↦ inl this
          | inr d ↦ inr (inr d)
        ]
      ]
]

pub Among-sort_ended : (x : Job) (js : List Job) → Among x (sort_ended js) → Among x js
unfolding sort_ended
Among-sort_ended x [] h = h
Among-sort_ended x (j ∷ js) h = elim (Among-insert_ended x j (sort_ended js) h) [
  | inl top ↦ inl top
  | inr deep ↦ inr (Among-sort_ended x js deep)
]

pub Among-terminal_jobs :
    (x : Job) (js : List Job)
    → Among x (terminal_jobs js)
    → Among x js × (is_terminal x.status ≡ true)
unfolding terminal_jobs
Among-terminal_jobs x [] h = absurd h
Among-terminal_jobs x (j ∷ js) h = elim (Bool-cases (is_terminal j.status)) [
  | inr live ↦
      let put : terminal_jobs (j ∷ js) ≡ terminal_jobs js = rw (live, terminal_jobs) refl in
      let (a, t) = Among-terminal_jobs x js (subst (Among x) put h) in (inr a, t)
  | inl ended ↦
      let put : terminal_jobs (j ∷ js) ≡ j ∷ terminal_jobs js = rw (ended, terminal_jobs) refl in
      let moved : Among x (j ∷ terminal_jobs js) = subst (Among x) put h in
      elim moved [
        | inl top ↦ (inl top, ap (λ (z : Job). is_terminal z.status) top ∙ ended)
        | inr deep ↦ let (a, t) = Among-terminal_jobs x js deep in (inr a, t)
      ]
]

pub drop_ended-other :
    (fails : String → Bool) (now retention over : ℕ) (js jobs : List Job) (k : String)
    → ((x : Job) → Among x js → x.id ≢ k)
    → find_job k (drop_ended fails now retention over js jobs) ≡ find_job k jobs
unfolding drop_ended
drop_ended-other fails now retention over [] jobs k h = refl
drop_ended-other fails now retention over (j ∷ js) jobs k h =
    let rest = λ (js' : List Job).
      drop_ended-other fails now retention (over - 1) js js' k (λ x a. h x (inr a)) in
    elim (Bool-cases ((ltb 0 over || ltb retention (now - terminal_time j)) && not (fails j.id))) [
      | inr keep ↦ rw (keep, drop_ended) (rest jobs)
      | inl drop ↦
          let other_id : str_eq j.id k ≡ false = ground (arith, h j (inl refl), eq_iff j.id k) in
          rw (drop, drop_ended)
            (rest (remove_job j.id jobs) ∙ (find_job-remove_job k j.id jobs ∙ rw other_id refl))
    ]

-- The pruning removes ended jobs only: whatever fails, every other stored job is found as before.
pub prune_terminal-live :
    (fails : String → Bool) (now : ℕ) (p : Policy) (jobs : List Job) (k : String) (j : Job)
    → IsIndexed jobs
    → find_job k jobs ≡ some j
    → is_terminal j.status ≡ false
    → find_job k (prune_terminal fails now p (records jobs) jobs) ≡ some j
unfolding prune_terminal
prune_terminal-live fails now p jobs k j indexed e live =
    let ended = sort_ended (terminal_jobs (records jobs)) in
    drop_ended-other fails now p.retention (length ended - p.history) ended jobs k (λ x a same_id.
      let (m, t) =
        Among-terminal_jobs x (records jobs)
          (Among-sort_ended x (terminal_jobs (records jobs)) a) in
      let f : find_job k jobs ≡ some x =
        ap (λ (z : String). find_job z jobs) (sym same_id)
        ∙ indexed x (Among-records_back x jobs m) in
      let this : x ≡ j = ground (arith, e, f) in
      let t' : is_terminal j.status ≡ true =
        ap (λ (z : Job). is_terminal z.status) (sym this) ∙ t in
      ground (arith, t', live))
    ∙ e
