-- ===== src/Nvm/Registry.antt =====
-- Dataset, Registry, Register, contains, overlaps and WriterSet of bsw/services/nvm/registry.go. The map of
-- datasets is the list of its values, which carry their names.
use Prim.Native.String.{String}
use text.Mathlib.Text.{◌==◌ as str_eq, starts_with}
use tdl.Prelude.{
  Bool, true, false, not, ◌&&◌, ◌||◌, Option, none, some, List, [], ◌∷◌, if◌then◌else◌,
}

-- Dataset
pub record Dataset : Type 0 where
  pub name : String
  pub writer : String
  pub prefix : String
  pub keys : List String

abbrev pub no_keys : List String → Bool
no_keys [] = true
no_keys (_ ∷ _) = false

-- slices.Contains
unfoldable pub contains_key : String → List String → Bool
contains_key key [] = false
contains_key key (k ∷ ks) = str_eq k key || contains_key key ks

-- Dataset.contains
unfoldable pub contains : Dataset → String → Bool
contains d key = (not (str_eq d.prefix "") && starts_with key d.prefix) || contains_key key d.keys

-- A loop of overlaps.
unfoldable pub contains_any : Dataset → List String → Bool
contains_any d [] = false
contains_any d (k ∷ ks) = contains d k || contains_any d ks

-- overlaps
unfoldable pub overlaps : Dataset → Dataset → Bool
overlaps a b =
    if not (str_eq a.prefix "") && not (str_eq b.prefix "")
    then starts_with a.prefix b.prefix || starts_with b.prefix a.prefix
    else contains_any b a.keys || contains_any a b.keys

pub data RegisterError : Type 0 where
  incomplete : RegisterError
  bad_key : RegisterError
  duplicate_name : RegisterError
  overlapping : String → RegisterError

-- The check of the exact keys: an empty or a repeated one.
unfoldable pub has_bad_key : List String → List String → Bool
has_bad_key seen [] = false
has_bad_key seen (k ∷ ks) = (str_eq k "" || contains_key k seen) || has_bad_key (k ∷ seen) ks

-- r.datasets[name]
unfoldable pub find_dataset : String → List Dataset → Option Dataset
find_dataset name [] = none
find_dataset name (d ∷ ds) =
    let later = find_dataset name ds in if str_eq d.name name then some d else later

-- A registered dataset that the new one overlaps: Go leaves open which, and only the error names it.
unfoldable pub find_overlap : Dataset → List Dataset → Option Dataset
find_overlap d [] = none
find_overlap d (existing ∷ ds) =
    let later = find_overlap d ds in if overlaps d existing then some existing else later

abbrev pub is_incomplete : Dataset → Bool
is_incomplete d =
    (str_eq d.name "" || str_eq d.writer "")
    || ((str_eq d.prefix "" && no_keys d.keys)
        || (not (str_eq d.prefix "") && not (no_keys d.keys)))

abbrev pub is_registered : Option Dataset → Bool
is_registered none = false
is_registered (some _) = true

-- Register
unfoldable pub register : Dataset → List Dataset → Option RegisterError × List Dataset
register d ds =
    if is_incomplete d
    then (some incomplete, ds)
    else if has_bad_key [] d.keys
    then (some bad_key, ds)
    else if is_registered (find_dataset d.name ds)
    then (some duplicate_name, ds)
    else elim (find_overlap d ds) [
      | some other ↦ (some (overlapping other.name), ds)
      | none ↦ (none, d ∷ ds)
    ]

pub data HandleError : Type 0 where
  no_datasets : HandleError
  unknown_dataset : String → HandleError
  not_owner : String → HandleError

pub data Handle : Type 0 where
  denied : HandleError → Handle
  granted : List Dataset → Handle

abbrev pub add_scope : Dataset → Handle → Handle
add_scope d (denied e) = denied e
add_scope d (granted scopes) = granted (d ∷ scopes)

-- The loop of WriterSet.
unfoldable pub collect_scopes : String → List String → List Dataset → Handle
collect_scopes owner [] ds = granted []
collect_scopes owner (name ∷ names) ds = elim (find_dataset name ds) [
  | none ↦ denied (unknown_dataset name)
  | some d ↦
      if str_eq owner d.writer
      then add_scope d (collect_scopes owner names ds)
      else denied (not_owner name)
]

-- WriterSet
unfoldable pub writer_set : String → List String → List Dataset → Handle
writer_set owner [] ds = denied no_datasets
writer_set owner (name ∷ names) ds = collect_scopes owner (name ∷ names) ds
