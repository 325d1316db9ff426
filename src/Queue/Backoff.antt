-- ===== src/Queue/Backoff.antt =====
-- The delays between the attempts of application/forwarder/queue.go, by the policy of config.go.
use tdl.Prelude.{
  ℕ, zero, suc, ◌-◌, ◌*◌, ◌/◌, ◌^◌, ◌≤◌, ◌≡◌, refl, sym, subst, inl, inr, some, if◌then◌else◌, leb,
  arith, Bool-cases,
}
use native.Mathlib.Nat.{pow-suc}
use tdl.Queue.Job.{Policy, double_delay, backoff, prepare_policy}

abbrev pub smaller : ℕ → ℕ → ℕ
smaller a b = if leb a b then a else b

grow : (d r : ℕ) → d * 2 ^ suc r ≡ d * 2 * 2 ^ r
grow d r = rw (pow-suc 2 r) (grind arith)

le-double : (d r : ℕ) → d ≤ d * 2 ^ r
le-double d zero = ground arith
le-double d (suc r) = rw (grow d r) (omega (arith, le-double (d * 2) r))

-- Half of an even maximum is reached exactly when the double reaches it.
double_delay_lem :
    (half rounds delay : ℕ)
    → delay ≤ half * 2
    → double_delay (half * 2) rounds delay ≡ smaller (half * 2) (delay * 2 ^ rounds)
unfolding double_delay
double_delay_lem half zero delay h = ground arith
double_delay_lem half (suc r) delay h = elim (Bool-cases (leb (half * 2 / 2) delay)) [
  | inl reached ↦
      let past : half * 2 ≤ delay * 2 = ground (arith, reached) in
      let far : delay * 2 ≤ delay * 2 ^ suc r = rw (grow delay r) (le-double (delay * 2) r) in
      let end : smaller (half * 2) (delay * 2 ^ suc r) ≡ half * 2 = ground (arith, past, far) in
      rw (reached, end) refl
  | inr below ↦
      let near : delay * 2 ≤ half * 2 = ground (arith, below) in
      rw (below, grow delay r) (double_delay_lem half r (delay * 2) near)
]

policy-bounds :
    (base maximum limit hours history dedupe : ℕ) (p : Policy)
    → prepare_policy base maximum limit hours history dedupe ≡ some p
    → (p.maximum ≡ maximum * 500000000 * 2) × (p.base ≤ p.maximum)
unfolding prepare_policy
policy-bounds base maximum limit hours history dedupe p e = (ground (arith, e), ground (arith, e))

smaller-bounds : (a b c : ℕ) → a ≤ b → a ≤ c → (a ≤ smaller b c) × (smaller b c ≤ b)
smaller-bounds a b c h k = (ground (arith, h, k), ground (arith, h, k))

-- With a policy that the settings gave, the delay after a number of failures is the first delay, doubled
-- for each failure after the first, and cut off at the maximum; it is never shorter than the first.
pub backoff_lem :
    (base maximum limit hours history dedupe : ℕ) (p : Policy) (attempts : ℕ)
    → prepare_policy base maximum limit hours history dedupe ≡ some p
    → (backoff p attempts ≡ smaller p.maximum (p.base * 2 ^ (attempts - 1)))
      × (p.base ≤ backoff p attempts)
      × (backoff p attempts ≤ p.maximum)
unfolding backoff
backoff_lem base maximum limit hours history dedupe p attempts e =
    let (even, order) = policy-bounds base maximum limit hours history dedupe p e in
    let half = maximum * 500000000 in
    let law : backoff p attempts ≡ smaller p.maximum (p.base * 2 ^ (attempts - 1)) =
      subst
        (λ (m : ℕ). double_delay m (attempts - 1) p.base ≡ smaller m (p.base * 2 ^ (attempts - 1)))
        (sym even) (double_delay_lem half (attempts - 1) p.base (omega (arith, even, order))) in
    let (low, high) =
      smaller-bounds p.base p.maximum (p.base * 2 ^ (attempts - 1)) order
        (le-double p.base (attempts - 1)) in
    (law, rw law low, rw law high)
