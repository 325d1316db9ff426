-- ===== src/Nvm/Examples.antt =====
-- The dataset of links of bsw/cdd/taskhub/hub.go and one of another owner, registered, and transactions
-- of a handle.
use Prim.Native.String.{String}
use tdl.Prelude.{◌≡◌, refl, true, false, none, some, List, [], ◌∷◌, if◌then◌else◌}
use tdl.Nvm.Registry.{
  Dataset, register, find_dataset, find_overlap, overlaps, contains, contains_key, contains_any,
  has_bad_key, writer_set, collect_scopes, granted, denied, not_owner,
}
use tdl.Nvm.Store.{
  Tx, Values, Script, finish, write, run, writer_update, checked, memory_update, memory_write,
  scoped_write, in_scope, outside_scope,
}
use tdl.Nvm.Atomic.{Transacts, writer_update-atomic}
use tdl.Nvm.Isolation.{
  Registered, fresh, registers, Writes, writer_update-owned, writer_update-isolated,
}

abbrev dataset : String → String → Dataset
dataset name prefix = record { name = name; writer = "taskhub"; prefix = prefix; keys = [] }

abbrev links : Dataset
links = dataset "links" "watch.download."

abbrev session : Dataset
session = record { name = "session"; writer = "account"; prefix = ""; keys = "session" ∷ [] }

abbrev both : List Dataset
both = (register session (register links []).1).1

both-Registered : Registered both
both-Registered = registers session (register links []).1 (registers links [] fresh)

both_datasets : both ≡ session ∷ links ∷ []
unfolding register find_dataset find_overlap overlaps contains contains_key contains_any has_bad_key
both_datasets = refl

links_handle : writer_set "taskhub" ("links" ∷ []) both ≡ granted (links ∷ [])
unfolding writer_set collect_scopes register find_dataset find_overlap overlaps contains
    contains_key contains_any has_bad_key
links_handle = refl

session_denied : writer_set "taskhub" ("session" ∷ []) both ≡ denied (not_owner "session")
unfolding writer_set collect_scopes register find_dataset find_overlap overlaps contains
    contains_key contains_any has_bad_key
session_denied = refl

session_found : find_dataset "session" both ≡ some session
unfolding register find_dataset find_overlap overlaps contains contains_key contains_any has_bad_key
session_found = refl

session_key : contains session "session" ≡ true
unfolding contains contains_key
session_key = refl

links_only : contains_key "session" ("links" ∷ []) ≡ false
unfolding contains_key
links_only = refl

-- A callback that writes one of its keys and then asks for a foreign one.
abbrev escape : Script
escape = write "watch.download.1" (some (1 ∷ [])) (λ _. write "session" none (λ e. finish e))

abbrev store : Values
store key = if contains session key then some (7 ∷ []) else none

abbrev before_escape : Tx
before_escape = record { values = store; left = 9 }

escape_refused : (writer_update (links ∷ []) escape before_escape).0 ≡ some outside_scope
unfolding writer_update checked memory_update run scoped_write memory_write in_scope contains
    contains_key
escape_refused = refl

writer_update-atomic_example : Transacts (links ∷ []) escape before_escape
writer_update-atomic_example = writer_update-atomic (links ∷ []) escape before_escape

writer_update-owned_example :
    Writes "taskhub"
      ("links" ∷ [])
      both
      "watch.download.1"
      ((writer_update (links ∷ []) escape before_escape).1.values "watch.download.1")
      (before_escape.values "watch.download.1")
writer_update-owned_example =
    writer_update-owned "taskhub" ("links" ∷ []) both (links ∷ []) escape before_escape
      "watch.download.1" links_handle

writer_update-isolated_example :
    (writer_update (links ∷ []) escape before_escape).1.values "session"
    ≡ before_escape.values "session"
writer_update-isolated_example =
    writer_update-isolated "taskhub" "session" ("links" ∷ []) both (links ∷ []) session escape
      before_escape "session" both-Registered links_handle session_found links_only session_key
