-- ===== src/Nvm/Store.antt =====
-- The storage of internal/core/storage/memory.go and update.go, and the handle `writer` of
-- bsw/services/nvm/registry.go on it. A context is the number of its checks that still pass: it is
-- canceled at any moment that this number chooses. A callback is a `Script`: the calls that it makes
-- of the storage it is given, each next one chosen by the answers so far.
use Prim.Native.String.{String}
use text.Mathlib.Text.{◌==◌ as str_eq}
use tdl.Prelude.{
  ℕ, zero, suc, ◌⊎◌, inl, inr, Bool, false, ◌||◌, Option, none, some, List, [], ◌∷◌, if◌then◌else◌,
}
use tdl.Nvm.Registry.{Dataset, contains}

abbrev pub Value : Type 0
Value = List ℕ

abbrev pub Values : Type 0
Values = String → Option Value

pub data StorageError : Type 0 where
  canceled : StorageError
  not_found : StorageError
  outside_scope : StorageError
  callback_error : String → StorageError

-- The map, and the checks of the context that still pass.
pub record Tx : Type 0 where
  pub values : Values
  pub left : ℕ

abbrev pub Answer : Type 0
Answer = StorageError ⊎ Value

abbrev pub found_or : Option Value → Answer
found_or none = inl not_found
found_or (some v) = inr v

abbrev pub put_value : String → Option Value → Values → Values
put_value key v values = λ k. if str_eq k key then v else values k

-- memoryTransaction.Get
unfoldable pub memory_get : String → Tx → Answer × Tx
memory_get key tx = elim tx.left [
  | zero ↦ (inl canceled, tx)
  | suc n ↦ (found_or (tx.values key), record tx { left = n })
]

-- memoryTransaction.Set and Delete: the new entry of the key.
unfoldable pub memory_write : String → Option Value → Tx → Option StorageError × Tx
memory_write key v tx = elim tx.left [
  | zero ↦ (some canceled, tx)
  | suc n ↦ (none, record { values = put_value key v tx.values; left = n })
]

-- reader.check
unfoldable pub in_scope : List Dataset → String → Bool
in_scope [] key = false
in_scope (d ∷ ds) key = contains d key || in_scope ds key

-- reader.Get
unfoldable pub scoped_get : List Dataset → String → Tx → Answer × Tx
unfolding memory_get
scoped_get scopes key tx =
    if in_scope scopes key then memory_get key tx else (inl outside_scope, tx)

-- writer.Set and writer.Delete
unfoldable pub scoped_write : List Dataset → String → Option Value → Tx → Option StorageError × Tx
unfolding memory_write
scoped_write scopes key v tx =
    if in_scope scopes key then memory_write key v tx else (some outside_scope, tx)

-- What a callback does with its storage.
pub data Script : Type 0 where
  finish : Option StorageError → Script
  get : String → (Answer → Script) → Script
  write : String → Option Value → (Option StorageError → Script) → Script

unfoldable pub run : List Dataset → Script → Tx → Option StorageError × Tx
run scopes (finish e) tx = (e, tx)
run scopes (get key next) tx = let r = scoped_get scopes key tx in run scopes (next r.0) r.1
run scopes (write key v next) tx = let r = scoped_write scopes key v tx in run scopes (next r.0) r.1

-- The end of Memory.Update: the check after the callback, and the swap of the maps.
abbrev pub commit : Values → Option StorageError × Tx → Option StorageError × Tx
commit before (some e, tx) = (some e, record tx { values = before })
commit before (none, tx) = elim tx.left [
  | zero ↦ (some canceled, record tx { values = before })
  | suc n ↦ (none, record tx { left = n })
]

-- Memory.Update
unfoldable pub memory_update : (Tx → Option StorageError × Tx) → Tx → Option StorageError × Tx
memory_update fn tx = elim tx.left [
  | zero ↦ (some canceled, tx)
  | suc n ↦ commit tx.values (fn (record tx { left = n }))
]

-- Update of update.go, on a store that has transactions.
unfoldable pub checked : (Tx → Option StorageError × Tx) → Tx → Option StorageError × Tx
checked update tx = elim tx.left [
  | zero ↦ (some canceled, tx)
  | suc n ↦ update (record tx { left = n })
]

-- Update of update.go on a writer: writer.Update, which updates the store below it.
unfoldable pub writer_update : List Dataset → Script → Tx → Option StorageError × Tx
unfolding memory_update checked
writer_update scopes script tx =
    checked (λ t. checked (λ u. memory_update (λ w. run scopes script w) u) t) tx
