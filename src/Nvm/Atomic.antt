-- ===== src/Nvm/Atomic.antt =====
-- A transaction of internal/core/storage/memory.go, through a handle of bsw/services/nvm/registry.go:
-- what a callback leaves alone, and what an error leaves.
use Prim.Native.String.{String}
use text.Mathlib.Text.{◌==◌ as str_eq}
use text.Mathlib.TextEquality.{eq_iff}
use tdl.Prelude.{
  ℕ, zero, suc, ◌-◌, ◌≡◌, refl, sym, ap, subst, ◌∙◌, ◌⊎◌, inl, inr, true, false, Option, none, some,
  List, arith, Bool-cases,
}
use tdl.Nvm.Registry.{Dataset}
use tdl.Nvm.Store.{
  Tx, Values, StorageError, canceled, memory_get, memory_write, in_scope, scoped_get, scoped_write,
  Script, finish, get, write, run, commit, memory_update, checked, writer_update,
}

memory_write-elsewhere :
    (j key : String) (v : Option (List ℕ)) (values : Values) (left : ℕ)
    → str_eq key j ≡ false
    → (memory_write j v (record { values = values; left = left })).1.values key ≡ values key
unfolding memory_write
memory_write-elsewhere j key v values zero other = refl
memory_write-elsewhere j key v values (suc n) other = rw other refl

in_scope-other :
    (scopes : List Dataset) (key j : String)
    → in_scope scopes key ≡ false
    → in_scope scopes j ≡ true
    → str_eq key j ≡ false
in_scope-other scopes key j out inside = elim (Bool-cases (str_eq key j)) [
  | inr other ↦ other
  | inl same ↦
      let k : in_scope scopes key ≡ true =
        subst (λ (z : String). in_scope scopes z ≡ true) (sym ((eq_iff key j).0 same)) inside in
      absurd (ground (arith, k, out))
]

memory_get-values :
    (j : String) (values : Values) (left : ℕ)
    → (memory_get j (record { values = values; left = left })).1.values ≡ values
unfolding memory_get
memory_get-values j values zero = refl
memory_get-values j values (suc n) = refl

scoped_write-outside :
    (scopes : List Dataset) (j key : String) (v : Option (List ℕ)) (tx : Tx)
    → in_scope scopes key ≡ false
    → (scoped_write scopes j v tx).1.values key ≡ tx.values key
unfolding scoped_write memory_write
scoped_write-outside scopes j key v tx out = elim (Bool-cases (in_scope scopes j)) [
  | inr refused ↦ rw refused refl
  | inl inside ↦
      rw inside
        (memory_write-elsewhere j key v tx.values tx.left (in_scope-other scopes key j out inside))
]

scoped_get-values :
    (scopes : List Dataset) (j : String) (tx : Tx) → (scoped_get scopes j tx).1.values ≡ tx.values
unfolding scoped_get memory_get
scoped_get-values scopes j tx = elim (Bool-cases (in_scope scopes j)) [
  | inr refused ↦ rw refused refl
  | inl inside ↦ rw inside (memory_get-values j tx.values tx.left)
]

run-outside :
    (scopes : List Dataset) (key : String) (script : Script) (tx : Tx)
    → in_scope scopes key ≡ false
    → (run scopes script tx).1.values key ≡ tx.values key
unfolding run
run-outside scopes key (finish e) tx out = refl
run-outside scopes key (get j next) tx out =
    let r = scoped_get scopes j tx in
    run-outside scopes key (next r.0) r.1 out
    ∙ ap (λ (m : Values). m key) (scoped_get-values scopes j tx)
run-outside scopes key (write j v next) tx out =
    let r = scoped_write scopes j v tx in
    run-outside scopes key (next r.0) r.1 out ∙ scoped_write-outside scopes j key v tx out

abbrev pub Ends : Values → Option StorageError × Tx → Option StorageError × Tx → Type 0
Ends before inner r =
    ((r.0 ≡ none) × (r.1.values ≡ inner.1.values) × (inner.0 ≡ none))
    ⊎ ((e : StorageError) × ((r.0 ≡ some e) × (r.1.values ≡ before)))

abbrev pub Transacts : List Dataset → Script → Tx → Type 0
Transacts scopes script tx =
    Ends tx.values (run scopes script (record tx { left = tx.left - 3 }))
      (writer_update scopes script tx)

commit-Ends :
    (before values : Values) (left : ℕ)
    → Ends before
        (none, record { values = values; left = left })
        (commit before (none, record { values = values; left = left }))
commit-Ends before values zero = inr (canceled, (refl, refl))
commit-Ends before values (suc n) = inl (refl, refl, refl)

Ends-commit : (before : Values) (r : Option StorageError × Tx) → Ends before r (commit before r)
Ends-commit before (some e, tx) = inr (e, (refl, refl))
Ends-commit before (none, tx) = commit-Ends before tx.values tx.left

Ends-update :
    (scopes : List Dataset) (script : Script) (values : Values) (left : ℕ)
    → Transacts scopes script (record { values = values; left = left })
unfolding writer_update checked memory_update
Ends-update scopes script values zero = inr (canceled, (refl, refl))
Ends-update scopes script values (suc zero) = inr (canceled, (refl, refl))
Ends-update scopes script values (suc (suc zero)) = inr (canceled, (refl, refl))
Ends-update scopes script values (suc (suc (suc n))) =
    let inner = run scopes script (record { values = values; left = n }) in
    let ran : n ≡ suc (suc (suc n)) - 3 = omega arith in
    subst
      (λ (m : ℕ).
        Ends values (run scopes script (record { values = values; left = m }))
          (commit values inner))
      ran (Ends-commit values inner)

-- A transaction either succeeds with every write of its callback, or reports an error and has changed
-- nothing, wherever the context is canceled: the callback runs after three checks of the context.
pub writer_update-atomic :
    (scopes : List Dataset) (script : Script) (tx : Tx) → Transacts scopes script tx
writer_update-atomic scopes script tx = Ends-update scopes script tx.values tx.left

pub writer_update-outside :
    (scopes : List Dataset) (script : Script) (tx : Tx) (key : String)
    → in_scope scopes key ≡ false
    → (writer_update scopes script tx).1.values key ≡ tx.values key
writer_update-outside scopes script tx key out = elim (writer_update-atomic scopes script tx) [
  | inl (_, ran, _) ↦
      ap (λ (m : Values). m key) ran
      ∙ run-outside scopes key script (record tx { left = tx.left - 3 }) out
  | inr (_, (_, same)) ↦ ap (λ (m : Values). m key) same
]
