-- ===== src/Prelude/Sums.antt =====
-- Sums over the numbers below a bound: the totals of a store that is a function.
use Prim.Native.Nat.{ℕ, zero, suc, ◌+◌, ◌≤◌, ◌<◌}
use mathlib.Core.Path.{◌≡◌, refl}
use mathlib.Core.Logic.{◌≢◌}
use native.Mathlib.Omega.{arith}
use native.Mathlib.Decide.{ℕ_discrete}

pub sum_below : ℕ → (ℕ → ℕ) → ℕ
sum_below zero f = 0
sum_below (suc n) f = f n + sum_below n f

pub sum_below-eq :
    (n : ℕ) (f g : ℕ → ℕ) → ((x : ℕ) → x < n → f x ≡ g x) → sum_below n f ≡ sum_below n g
unfolding sum_below
sum_below-eq zero f g h = refl
sum_below-eq (suc n) f g h =
    omega (arith, h n (omega arith), sum_below-eq n f g (λ x l. h x (omega arith)))

-- A change at one number changes the sum by as much.
pub sum_below-change :
    (n k : ℕ) (f g : ℕ → ℕ)
    → k < n
    → ((x : ℕ) → x ≢ k → f x ≡ g x)
    → sum_below n g + f k ≡ sum_below n f + g k
unfolding sum_below
sum_below-change zero k f g l h = absurd (omega arith)
sum_below-change (suc n) k f g l h = elim (ℕ_discrete n k) [
  | yes e ↦ rw e (omega (arith, sum_below-eq k f g (λ x b. h x (omega arith))))
  | no ne ↦ omega (arith, h n ne, sum_below-change n k f g (omega arith) h)
]

pub le-sum_below : (n k : ℕ) (f : ℕ → ℕ) → k < n → f k ≤ sum_below n f
unfolding sum_below
le-sum_below zero k f l = absurd (omega arith)
le-sum_below (suc n) k f l = elim (ℕ_discrete n k) [
  | yes e ↦ rw e (omega arith)
  | no ne ↦ omega (arith, le-sum_below n k f (omega arith))
]

pub sum_below-suc : (n : ℕ) (f : ℕ → ℕ) → sum_below (suc n) f ≡ f n + sum_below n f
unfolding sum_below
sum_below-suc n f = refl

pub sum_below-zero : (n : ℕ) (f : ℕ → ℕ) → ((x : ℕ) → x < n → f x ≡ 0) → sum_below n f ≡ 0
unfolding sum_below
sum_below-zero zero f h = refl
sum_below-zero (suc n) f h =
    omega (arith, h n (omega arith), sum_below-zero n f (λ x l. h x (omega arith)))
