-- ===== src/Propeller/Store/Tests.antt =====
-- The store over the server in memory.
use payment_processing.Common.{◌≡◌, refl, List, [], ◌∷◌, none}
use payment_processing.Propeller.Store.{load, store, delete}
use payment_processing.Propeller.Store.Refinement.{lookup}
use payment_processing.Propeller.Store.Memory.{memory, memory-AreHashes}
use payment_processing.Propeller.Store.Runs.{Call, stores, deletes, load_refines}

abbrev calls : List Call
calls =
    stores "acme:rider" "phone" "{}"
    ∷ stores "acme:rider" "car" "{}"
    ∷ deletes "acme:rider" ("phone" ∷ [])
    ∷ []

load_refines_example : lookup "phone" (("car", "{}") ∷ []) ≡ none
unfolding load store delete
load_refines_example =
    load_refines memory memory-AreHashes calls [] "acme:rider" (("car", "{}") ∷ []) refl refl
      "phone"
