-- ===== src/Propeller/Store/Refinement.antt =====
-- The store as a map of maps: what its users rely on, and `RedisKV` as one such store.
use payment_processing.Common.{
  String, ◌≡◌, refl, sym, ap, ◌∙◌, Bool, ◌||◌, ◌&&◌, List, [], ◌∷◌, any, Option, none, some, Result,
  ok, arith, if◌then◌else◌,
}
use payment_processing.Common.Text.{◌==◌ as same_text}
use payment_processing.Propeller.Ports.{KeyValue}
use payment_processing.Propeller.Store.{Hashes, context, store, load, delete, deleted, redis_kv}

abbrev pub lookup : String → List (String × String) → Option String
lookup field [] = none
lookup field ((f, value) ∷ entries) = if same_text f field then some value else lookup field entries

-- What Redis documents of its hashes, for the commands that succeed: the fields of a key are a map.
pub record AreHashes {R : Type 0} (hashes : Hashes R) : Type 0 where
  pub field_of : R → String → String → Option String
  pub field_of-hset :
      (key field value : String) (r : R)
      → (hashes.hset key field value r).0 ≡ some tt
      → (k f : String)
      → field_of (hashes.hset key field value r).1 k f
        ≡ (if same_text k key && same_text f field then some value else field_of r k f)
  pub field_of-hdel :
      (key field : String) (r : R)
      → (hashes.hdel key field r).0 ≡ some tt
      → (k f : String)
      → field_of (hashes.hdel key field r).1 k f
        ≡ (if same_text k key && same_text f field then none else field_of r k f)
  pub field_of-hgetall :
      (key : String) (r : R) (k f : String) → field_of (hashes.hgetall key r).1 k f ≡ field_of r k f
  pub lookup-hgetall :
      (key : String) (r : R) (entries : List (String × String))
      → (hashes.hgetall key r).0 ≡ some entries
      → (f : String) → lookup f entries ≡ field_of r key f

-- What a user of `KeyValue` relies on, for the calls that succeed.
pub record IsStore {K : Type 0} (kv : KeyValue K) : Type 0 where
  pub value_of : K → String → String → Option String
  pub value_of-store :
      (key field value : String) (s : K)
      → (kv.store key field value s).0 ≡ ok tt
      → (k f : String)
      → value_of (kv.store key field value s).1 k f
        ≡ (if same_text k key && same_text f field then some value else value_of s k f)
  pub value_of-delete :
      (key : String) (fields : List String) (s : K)
      → (kv.delete key fields s).0 ≡ ok tt
      → (k f : String)
      → value_of (kv.delete key fields s).1 k f
        ≡ (if same_text k key && any (λ g. same_text f g) fields then none else value_of s k f)
  pub value_of-load :
      (key : String) (s : K) (k f : String) → value_of (kv.load key s).1 k f ≡ value_of s k f
  pub lookup-load :
      (key : String) (s : K) (entries : List (String × String))
      → (kv.load key s).0 ≡ ok entries
      → (f : String) → lookup f entries ≡ value_of s key f

module _ {R : Type 0} (hashes : Hashes R) (redis : AreHashes hashes) where
  pub context_ok :
      {A : Type 0} (text : String) (r : Option A × R) (a : A)
      → (context text r).0 ≡ ok a
      → r.0 ≡ some a
  context_ok text (none, r) a h = cc
  context_ok text (some b, r) a h = cc

  pub context-state : {A : Type 0} (text : String) (r : Option A × R) → (context text r).1 ≡ r.1
  context-state text (none, r) = refl
  context-state text (some a, r) = refl

  pub field_of-store :
      (key field value : String) (r : R)
      → (store hashes key field value r).0 ≡ ok tt
      → (k f : String)
      → redis.field_of (store hashes key field value r).1 k f
        ≡ (if same_text k key && same_text f field then some value else redis.field_of r k f)
  unfolding store
  field_of-store key field value r h k f =
      ap (λ s. redis.field_of s k f)
        (context-state "redis hset failed" (hashes.hset key field value r))
      ∙ redis.field_of-hset key field value r
          (context_ok "redis hset failed" (hashes.hset key field value r) tt h) k f

  delete_first :
      (key field : String) (fields : List String) (r : R) (reply : Option (Unit {0}) × R)
      (rest : R → Result String (Unit {0}) × R)
      → (deleted hashes (context "redis hdel failed" reply) rest).0 ≡ ok tt
      → (reply.0 ≡ some tt)
        × (deleted hashes (context "redis hdel failed" reply) rest ≡ rest reply.1)
  delete_first key field fields r (none, s) rest h = cc
  delete_first key field fields r (some u, s) rest h = (refl, refl)

  pub field_of-delete :
      (key : String) (fields : List String) (r : R)
      → (delete hashes key fields r).0 ≡ ok tt
      → (k f : String)
      → redis.field_of (delete hashes key fields r).1 k f ≡ (
          if same_text k key && any (λ g. same_text f g) fields then none else redis.field_of r k f)
  unfolding delete
  field_of-delete key [] r h k f = ground arith
  field_of-delete key (field ∷ fields) r h k f =
      let reply : Option (Unit {0}) × R = hashes.hdel key field r in
      let (served, eq) = delete_first key field fields r reply (delete hashes key fields) h in
      ap (λ s. redis.field_of s.1 k f) eq
      ∙ field_of-delete key fields reply.1 (ap (λ s. s.0) (sym eq) ∙ h) k f
      ∙ ap (λ v. if same_text k key && any (λ g. same_text f g) fields then none else v)
          (redis.field_of-hdel key field r served k f)
      ∙ merged (same_text k key) (any (λ g. same_text f g) fields) (same_text f field)
          (redis.field_of r k f)
    where
      merged :
          (a b c : Bool) (v : Option String)
          → (if a && b then none else (if a && c then none else v))
            ≡ (if a && (c || b) then none else v)
      merged a b c v = ground arith

  unfoldable pub redis_kv-IsStore : IsStore (redis_kv hashes)
  unfolding load
  redis_kv-IsStore = record {
    value_of = redis.field_of;
    value_of-store = field_of-store;
    value_of-delete = field_of-delete;
    value_of-load = λ key r k f.
        ap (λ s. redis.field_of s k f) (context-state "redis hgetall failed" (hashes.hgetall key r))
        ∙ redis.field_of-hgetall key r k f;
    lookup-load = λ key r entries h f.
        redis.lookup-hgetall key r entries
          (context_ok "redis hgetall failed" (hashes.hgetall key r) entries h) f;
  }
