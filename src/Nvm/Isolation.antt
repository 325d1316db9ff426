-- ===== src/Nvm/Isolation.antt =====
-- Which keys a handle of bsw/services/nvm/registry.go can change.
use Prim.Native.String.{String}
use text.Mathlib.Text.{◌==◌ as str_eq}
use text.Mathlib.TextEquality.{eq_iff}
use tdl.Prelude.{
  ℕ, ◌≡◌, ◌≢◌, refl, sym, ap, subst, ◌∙◌, ◌⊎◌, inl, inr, true, false, Option, some, List, [], ◌∷◌,
  arith, Bool-cases, Option-cases,
}
use tdl.Nvm.Registry.{
  Dataset, contains_key, contains, find_dataset, register, Handle, HandleError, denied, granted,
  collect_scopes, writer_set,
}
use tdl.Nvm.Disjoint.{Separate, Member, register-Separate, Separate-disjoint}
use tdl.Nvm.Store.{Tx, in_scope, Script, writer_update}
use tdl.Nvm.Atomic.{writer_update-outside}

-- A registry after any registrations, refused ones included.
pub data Registered : List Dataset → Type 0 where
  fresh : Registered []
  registers : (d : Dataset) (ds : List Dataset) → Registered ds → Registered (register d ds).1

Registered-Separate : (ds : List Dataset) → Registered ds → Separate ds
Registered-Separate [] fresh = tt
Registered-Separate _ (registers d ds r) = register-Separate d ds (Registered-Separate ds r)

find_dataset-Member :
    (name : String) (ds : List Dataset) (d : Dataset)
    → find_dataset name ds ≡ some d
    → Member d ds × (d.name ≡ name)
unfolding find_dataset
find_dataset-Member name [] d e = absurd (ground (arith, e))
find_dataset-Member name (x ∷ ds) d e = elim (Bool-cases (str_eq x.name name)) [
  | inl here ↦
      let same : x ≡ d = ground (arith, e, here) in
      (inl (sym same), ap (λ (z : Dataset). z.name) (sym same) ∙ (eq_iff x.name name).0 here)
  | inr later ↦ let (m, n) = find_dataset-Member name ds d (ground (arith, e, later)) in (inr m, n)
]

-- Where the scopes of a handle come from.
abbrev pub Owned : String → List String → List Dataset → Dataset → Type 0
Owned owner names ds d = Member d ds × (contains_key d.name names ≡ true) × (d.writer ≡ owner)

Handle-cases :
    (h : Handle) → ((e : HandleError) × (h ≡ denied e)) ⊎ ((s : List Dataset) × (h ≡ granted s))
Handle-cases (denied e) = inl (e, refl)
Handle-cases (granted s) = inr (s, refl)

collect_scopes-Owned :
    (owner : String) (names : List String) (ds scopes : List Dataset) (key : String)
    → collect_scopes owner names ds ≡ granted scopes
    → in_scope scopes key ≡ true
    → (d : Dataset) × (Owned owner names ds d × (contains d key ≡ true))
unfolding collect_scopes in_scope contains_key
collect_scopes-Owned owner [] ds scopes key e k =
    let same : [] ≡ scopes = ground (arith, e) in
    let out : in_scope [] key ≡ true =
      subst (λ (s : List Dataset). in_scope s key ≡ true) (sym same) k in
    absurd (ground (arith, out))
collect_scopes-Owned owner (name ∷ names) ds scopes key e k =
    elim (Option-cases (find_dataset name ds)) [
      | inl missing ↦ absurd (ground (arith, e, missing))
      | inr (d, found) ↦ elim (Bool-cases (str_eq owner d.writer)) [
        | inr foreign ↦ absurd (ground (arith, e, found, foreign))
        | inl mine ↦ elim (Handle-cases (collect_scopes owner names ds)) [
          | inl (_, bad) ↦ absurd (ground (arith, e, found, mine, bad))
          | inr (rest, good) ↦
              let same : d ∷ rest ≡ scopes = ground (arith, e, found, mine, good) in
              let k' : in_scope (d ∷ rest) key ≡ true =
                subst (λ (s : List Dataset). in_scope s key ≡ true) (sym same) k in
              let (m, named) = find_dataset-Member name ds d found in
              elim (Bool-cases (contains d key)) [
                | inl here ↦ (
                  d,
                  (
                    (
                      m,
                      ground (arith, eq_iff name d.name, named),
                      sym ((eq_iff owner d.writer).0 mine),
                    ),
                    here,
                  ),
                )
                | inr there ↦
                    let (x, ((n, listed, w), c)) =
                      collect_scopes-Owned owner names ds rest key good
                        (ground (arith, k', there)) in
                    (x, ((n, ground (arith, listed), w), c))
              ]
        ]
      ]
    ]

-- A key is as it was, or the owner's.
abbrev pub Writes :
    String → List String → List Dataset → String → Option (List ℕ) → Option (List ℕ) → Type 0
Writes owner names ds key after before =
    (after ≡ before) ⊎ ((d : Dataset) × (Owned owner names ds d × (contains d key ≡ true)))

-- A transaction of a handle that one owner asked for by names changes a key only if a registered
-- dataset of one of these names contains the key, and that dataset is the owner's.
pub writer_update-owned :
    (owner : String) (names : List String) (ds scopes : List Dataset) (script : Script) (tx : Tx)
    (key : String)
    → writer_set owner names ds ≡ granted scopes
    → Writes owner names ds key ((writer_update scopes script tx).1.values key) (tx.values key)
unfolding writer_set
writer_update-owned owner [] ds scopes script tx key e = absurd (ground (arith, e))
writer_update-owned owner (name ∷ names) ds scopes script tx key e =
    elim (Bool-cases (in_scope scopes key)) [
      | inr out ↦ inl (writer_update-outside scopes script tx key out)
      | inl inside ↦ inr (collect_scopes-Owned owner (name ∷ names) ds scopes key e inside)
    ]

-- After any registrations, a transaction of a handle leaves every key of every dataset alone that the
-- handle does not name, whoever owns that dataset and whatever the callback asks for.
pub writer_update-isolated :
    (owner other : String) (names : List String) (ds scopes : List Dataset) (d : Dataset)
    (script : Script) (tx : Tx) (key : String)
    → Registered ds
    → writer_set owner names ds ≡ granted scopes
    → find_dataset other ds ≡ some d
    → contains_key other names ≡ false
    → contains d key ≡ true
    → (writer_update scopes script tx).1.values key ≡ tx.values key
writer_update-isolated owner other names ds scopes d script tx key r e found unnamed k =
    elim (writer_update-owned owner names ds scopes script tx key e) [
      | inl same ↦ same
      | inr (x, ((m, listed, _), c)) ↦
          let (n, named) = find_dataset-Member other ds d found in
          let apart : x.name ≢ d.name = λ same.
            let again : contains_key other names ≡ true =
              subst (λ (z : String). contains_key z names ≡ true) (same ∙ named) listed in
            absurd (ground (arith, again, unnamed)) in
          let clear = Separate-disjoint ds x d key (Registered-Separate ds r) m n apart c in
          absurd (ground (arith, clear, k))
    ]
