-- ===== src/Propeller/Store/Memory.antt =====
-- A Redis server in memory that answers every hash command: the laws of its hashes can hold.
use payment_processing.Common.{
  String, ◌≡◌, refl, ◌&&◌, List, [], ◌∷◌, Option, none, some, arith, if◌then◌else◌,
}
use payment_processing.Common.Text.{◌==◌ as same_text, eq_iff}
use payment_processing.Propeller.Store.{Hashes}
use payment_processing.Propeller.Store.Refinement.{lookup, AreHashes}

-- The fields that were set, with their keys, the latest first.
abbrev pub Entries : Type 0
Entries = List (String × String × String)

abbrev field_value : Entries → String → String → Option String
field_value [] k f = none
field_value ((key, field, value) ∷ es) k f =
    if same_text k key && same_text f field then some value else field_value es k f

abbrev erase : String → String → Entries → Entries
erase k f [] = []
erase k f ((key, field, value) ∷ es) =
    if same_text k key && same_text f field
    then erase k f es
    else (key, field, value) ∷ erase k f es

abbrev all_of : String → Entries → List (String × String)
all_of k [] = []
all_of k ((key, field, value) ∷ es) =
    if same_text k key then (field, value) ∷ all_of k es else all_of k es

abbrev pub memory : Hashes Entries
memory = record {
  hset = λ key field value es. (some tt, (key, field, value) ∷ es);
  hgetall = λ key es. (some (all_of key es), es);
  hdel = λ key field es. (some tt, erase key field es);
}

field_value-erase :
    (key field : String) (es : Entries) (k f : String)
    → field_value (erase key field es) k f
      ≡ (if same_text k key && same_text f field then none else field_value es k f)
field_value-erase key field [] k f = ground arith
field_value-erase key field ((a, b, v) ∷ es) k f = ground (
  arith,
  eq_iff key a,
  eq_iff k a,
  eq_iff k key,
  eq_iff field b,
  eq_iff f b,
  eq_iff f field,
  field_value-erase key field es k f,
)

lookup-all_of :
    (key : String) (es : Entries) (f : String) → lookup f (all_of key es) ≡ field_value es key f
lookup-all_of key [] f = refl
lookup-all_of key ((a, b, v) ∷ es) f =
    ground (arith, eq_iff b f, eq_iff f b, lookup-all_of key es f)

pub memory-AreHashes : AreHashes memory
memory-AreHashes = record {
  field_of = field_value;
  field_of-hset = λ key field value es h k f. refl;
  field_of-hdel = λ key field es h k f. field_value-erase key field es k f;
  field_of-hgetall = λ key es k f. refl;
  lookup-hgetall = λ key es entries h f. ground (arith, lookup-all_of key es f);
}
