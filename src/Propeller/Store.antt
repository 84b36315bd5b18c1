-- ===== src/Propeller/Store.antt =====
-- `RedisKV` of approach-2/src/kv/redis_kv.rs. The hash commands of the Redis server are a parameter;
-- `none` is a reply that is an error.
pub mod Refinement
pub mod Runs
pub mod Memory
mod Tests
use payment_processing.Common.{String, List, [], ◌∷◌, Option, none, some, Result, ok, err}
use payment_processing.Propeller.Ports.{KeyValue}

pub record Hashes (R : Type 0) : Type 0 where
  pub hset : String → String → String → R → Option (Unit {0}) × R
  pub hgetall : String → R → Option (List (String × String)) × R
  pub hdel : String → String → R → Option (Unit {0}) × R

-- `.context(…)?`
abbrev pub context : {A R : Type 0} → String → Option A × R → Result String A × R
context text (none, r) = (err text, r)
context text (some a, r) = (ok a, r)

module _ {R : Type 0} (hashes : Hashes R) where
  unfoldable pub store : String → String → String → R → Result String (Unit {0}) × R
  store key field value r = context "redis hset failed" (hashes.hset key field value r)

  unfoldable pub load : String → R → Result String (List (String × String)) × R
  load key r = context "redis hgetall failed" (hashes.hgetall key r)

  -- What follows the deletion of one field.
  abbrev pub deleted :
      Result String (Unit {0}) × R
      → (R → Result String (Unit {0}) × R)
      → Result String (Unit {0}) × R
  deleted (ok _, r) rest = rest r
  deleted (err e, r) rest = (err e, r)

  -- The loop over the fields, which the first failure ends.
  unfoldable pub delete : String → List String → R → Result String (Unit {0}) × R
  delete key [] r = (ok tt, r)
  delete key (field ∷ fields) r =
      deleted (context "redis hdel failed" (hashes.hdel key field r)) (delete key fields)

  abbrev pub redis_kv : KeyValue R
  redis_kv = record { store = store; load = load; delete = delete }
