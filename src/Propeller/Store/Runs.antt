-- ===== src/Propeller/Store/Runs.antt =====
-- Any calls of a store, against the same calls on a function.
use mathlib.Core.Path.{fun_ext}
use payment_processing.Common.{
  String, ◌≡◌, refl, sym, ap, ◌∙◌, ◌&&◌, List, [], ◌∷◌, any, Option, none, some, Result, ok, err,
  if◌then◌else◌,
}
use payment_processing.Common.Text.{◌==◌ as same_text}
use payment_processing.Propeller.Ports.{KeyValue}
use payment_processing.Propeller.Store.{Hashes, load, redis_kv}
use payment_processing.Propeller.Store.Refinement.{lookup, AreHashes, IsStore, redis_kv-IsStore}

-- The calls that change a store.
pub data Call : Type 0 where
  stores : String → String → String → Call
  deletes : String → List String → Call

-- The same on a function from keys and fields to values.
abbrev pub apply : Call → (String → String → Option String) → String → String → Option String
apply (stores key field value) m k f =
    if same_text k key && same_text f field then some value else m k f
apply (deletes key fields) m k f =
    if same_text k key && any (λ g. same_text f g) fields then none else m k f

abbrev pub replay : List Call → (String → String → Option String) → String → String → Option String
replay [] m = m
replay (call ∷ calls) m = replay calls (apply call m)

module _ {K : Type 0} (kv : KeyValue K) where
  abbrev pub perform : Call → K → Result String (Unit {0}) × K
  perform (stores key field value) = kv.store key field value
  perform (deletes key fields) = kv.delete key fields

  abbrev pub then_run :
      Result String (Unit {0}) × K
      → (K → Result String (Unit {0}) × K)
      → Result String (Unit {0}) × K
  then_run (ok u, s) rest = rest s
  then_run (err e, s) rest = (err e, s)

  -- The calls one after another, up to the first that fails.
  abbrev pub run : List Call → K → Result String (Unit {0}) × K
  run [] s = (ok tt, s)
  run (call ∷ calls) s = then_run (perform call s) (run calls)

  module _ (laws : IsStore kv) where
    perform-apply :
        (call : Call) (s : K)
        → (perform call s).0 ≡ ok tt
        → laws.value_of (perform call s).1 ≡ apply call (laws.value_of s)
    perform-apply (stores key field value) s h =
        fun_ext (λ k. fun_ext (λ f. laws.value_of-store key field value s h k f))
    perform-apply (deletes key fields) s h =
        fun_ext (λ k. fun_ext (λ f. laws.value_of-delete key fields s h k f))

    first_ok :
        (r : Result String (Unit {0}) × K) (rest : K → Result String (Unit {0}) × K)
        → (then_run r rest).0 ≡ ok tt
        → (r.0 ≡ ok tt) × (then_run r rest ≡ rest r.1)
    first_ok (ok u, s) rest h = (refl, refl)
    first_ok (err e, s) rest h = cc

    pub run-replay :
        (calls : List Call) (s : K)
        → (run calls s).0 ≡ ok tt
        → laws.value_of (run calls s).1 ≡ replay calls (laws.value_of s)
    run-replay [] s h = refl
    run-replay (call ∷ calls) s h =
        let (served, eq) = first_ok (perform call s) (run calls) h in
        ap (λ r. laws.value_of r.1) eq
        ∙ run-replay calls (perform call s).1 (ap (λ r. r.0) (sym eq) ∙ h)
        ∙ ap (replay calls) (perform-apply call s served)

-- After any calls of `RedisKV` that succeed, a `load` that succeeds gives each field of its key the
-- value that the same calls give it on a map of maps, and no other.
pub load_refines :
    {R : Type 0} (hashes : Hashes R) (redis : AreHashes hashes) (calls : List Call) (r : R)
    (key : String) (entries : List (String × String))
    → (run (redis_kv hashes) calls r).0 ≡ ok tt
    → (load hashes key (run (redis_kv hashes) calls r).1).0 ≡ ok entries
    → (f : String) → lookup f entries ≡ replay calls (redis.field_of r) key f
unfolding redis_kv-IsStore
load_refines hashes redis calls r key entries served loaded f =
    let laws = redis_kv-IsStore hashes redis in
    laws.lookup-load key (run (redis_kv hashes) calls r).1 entries loaded f
    ∙ ap (λ m. m key f) (run-replay (redis_kv hashes) laws calls r served)
