-- ===== src/Queue/System/Recovery.antt =====
-- recoverRunning of application/forwarder/queue.go, when no call of the store fails.
use Prim.Native.String.{String}
use text.Mathlib.Text.{◌==◌ as str_eq}
use text.Mathlib.TextEquality.{eq_iff}
use tdl.Prelude.{
  Among, ℕ, ◌≡◌, refl, sym, ap, ◌∙◌, ◌⊎◌, inl, inr, true, false, Option, none, some, List, [], ◌∷◌,
  arith, Bool-cases,
}
use tdl.Queue.Job.{Job, is_running}
use tdl.Queue.Repository.{find_job, update_job, insert_job, comes_before, records}
use tdl.Queue.Repository.Laws.{find_job-update_job, find_job-id, after_change}
use tdl.Queue.Worker.{recover_change, recover_each, recover_running}
use tdl.Queue.System.{no_failure}

Among-insert_job : (x j : Job) (js : List Job) → (x ≡ j) ⊎ Among x js → Among x (insert_job j js)
unfolding insert_job
Among-insert_job x j [] h = h
Among-insert_job x j (k ∷ ks) h = elim (Bool-cases (comes_before k j)) [
  | inr first ↦ rw (first, insert_job) h
  | inl later ↦
      rw (later, insert_job)
        (elim h [
          | inl same ↦ inr (Among-insert_job x j ks (inl same))
          | inr (inl top) ↦ inl top
          | inr (inr deep) ↦ inr (Among-insert_job x j ks (inr deep))
        ])
]

pub Among-records : (x : Job) (js : List Job) → Among x js → Among x (records js)
unfolding records
Among-records x [] h = h
Among-records x (j ∷ js) (inl same) = Among-insert_job x j (records js) (inl same)
Among-records x (j ∷ js) (inr deep) =
    Among-insert_job x j (records js) (inr (Among-records x js deep))

found-Among : (k : String) (js : List Job) (x : Job) → find_job k js ≡ some x → Among x js
unfolding find_job
found-Among k [] x e = absurd (ground (arith, e))
found-Among k (j ∷ js) x e = elim (Bool-cases (str_eq j.id k)) [
  | inl here ↦ let same : j ≡ x = ground (arith, e, here) in inl (sym same)
  | inr apart ↦ inr (found-Among k js x (ground (arith, e, apart)))
]

recovered-idle :
    (now : ℕ) (id : String) (o : Option Job) (j : Job)
    → after_change now id recover_change o ≡ some j
    → is_running j.status ≡ false
unfolding recover_change
recovered-idle now id none j e = absurd (ground (arith, e))
recovered-idle now id (some x) j e = elim (Bool-cases (is_running x.status)) [
  | inl runs ↦ ground (arith, e, runs)
  | inr apart ↦ ground (arith, e, apart)
]

-- A running job is put back under its own id only.
recovered-elsewhere :
    (now : ℕ) (id k : String) (jobs : List Job) (j : Job)
    → find_job k (update_job now id recover_change jobs).1 ≡ some j
    → is_running j.status ≡ true
    → (find_job k jobs ≡ some j) × (str_eq id k ≡ false)
recovered-elsewhere now id k jobs j e r = elim (Bool-cases (str_eq id k)) [
  | inr apart ↦ (sym (find_job-update_job now k id recover_change jobs ∙ rw apart refl) ∙ e, apart)
  | inl same ↦
      let changed : after_change now id recover_change (find_job id jobs) ≡ some j =
        sym (find_job-update_job now k id recover_change jobs ∙ rw same refl) ∙ e in
      let out = recovered-idle now id (find_job id jobs) j changed in
      absurd (ground (arith, out, r))
]

recover_each-running :
    (now : ℕ) (js jobs : List Job) (k : String) (j : Job)
    → find_job k (recover_each no_failure now js jobs) ≡ some j
    → is_running j.status ≡ true
    → (find_job k jobs ≡ some j) × ((x : Job) → Among x js → x.id ≡ k → is_running x.status ≡ false)
unfolding recover_each
recover_each-running now [] jobs k j e r = (e, λ x h. absurd h)
recover_each-running now (y ∷ js) jobs k j e r = elim (Bool-cases (is_running y.status)) [
  | inl back ↦
      let u = (update_job now y.id recover_change jobs).1 in
      let e' : find_job k (recover_each no_failure now js u) ≡ some j =
        sym (ap (find_job k) (rw (back, recover_each) refl)) ∙ e in
      let (f, out) = recover_each-running now js u k j e' r in
      let (g, apart) = recovered-elsewhere now y.id k jobs j f r in
      (
        g,
        λ x m ids. elim m [
          | inr deep ↦ out x deep ids
          | inl top ↦
              let id : y.id ≡ k = sym (ap (λ (z : Job). z.id) top) ∙ ids in
              let hit : str_eq y.id k ≡ true = (eq_iff y.id k).1 id in
              absurd (ground (arith, hit, apart))
        ],
      )
  | inr stays ↦
      let e' : find_job k (recover_each no_failure now js jobs) ≡ some j =
        sym (ap (find_job k) (rw (stays, recover_each) refl)) ∙ e in
      let (f, out) = recover_each-running now js jobs k j e' r in
      (
        f,
        λ x m ids. elim m [
          | inr deep ↦ out x deep ids
          | inl top ↦ ap (λ (z : Job). is_running z.status) top ∙ stays
        ],
      )
]

pub recover_running-none :
    (now : ℕ) (jobs : List Job) (k : String) (j : Job)
    → find_job k (recover_running false no_failure now jobs) ≡ some j
    → is_running j.status ≡ false
unfolding recover_running
recover_running-none now jobs k j e = elim (Bool-cases (is_running j.status)) [
  | inr idle_job ↦ idle_job
  | inl r ↦
      let (f, out) = recover_each-running now (records jobs) jobs k j e r in
      out j (Among-records j jobs (found-Among k jobs j f)) (find_job-id k jobs j f)
]
