-- ===== src/Payments/Worker/Stream.antt =====
-- The stream of approach-1/crates/adapters/src/queue.rs as Redis keeps it: numbered entries, of which
-- XREAD gives those behind an identifier.
pub mod Memory
use payment_processing.Common.{
  ℕ, zero, suc, ◌+◌, ◌-◌, ◌≤◌, String, ◌≡◌, ◌≢◌, refl, ap, sym, ◌∙◌, true, false, List, [], ◌∷◌,
  ◌++◌, Option, none, some, arith, length, take, drop, All,
}
use payment_processing.Payments.Redis.{Redis}
use payment_processing.Payments.Worker.{World, with_payload, handle_event, handle_all}

abbrev pub Entries : Type 0
Entries = List (String × Option String)

-- The identifier of the last entry, or what stands before them all.
abbrev pub last_of : String → Entries → String
last_of id [] = id
last_of id ((j, payload) ∷ entries) = last_of j entries

abbrev pub IsFresh : String → Entries → Type 0
IsFresh id [] = Unit
IsFresh id ((j, payload) ∷ entries) = (id ≢ j) × IsFresh id entries

-- No identifier, the one before them all included, stands twice.
abbrev pub IsNumbered : String → Entries → Type 0
IsNumbered id [] = Unit
IsNumbered id ((j, payload) ∷ entries) = IsFresh id ((j, payload) ∷ entries) × IsNumbered j entries

-- A Redis that answers each XREAD of the stream, and in which no command of the worker touches it.
pub record IsStream (redis : Redis) (stream : String) : Type 0 where
  pub entries : redis.Store → Entries
  pub xread_behind :
      (before behind : Entries) (n : ℕ) (s : redis.Store)
      → IsNumbered "0-0" (entries s)
      → entries s ≡ before ++ behind
      → redis.xread stream (last_of "0-0" before) n s ≡ (some (take n behind), s)
  pub set_nx_entries : (k v : String) (s : redis.Store) → entries (redis.set_nx k v s).1 ≡ entries s
  pub expire_entries :
      (k : String) (n : ℕ) (s : redis.Store) → entries (redis.expire k n s).1 ≡ entries s
  pub publish_entries :
      (c m : String) (s : redis.Store) → entries (redis.publish c m s).1 ≡ entries s

abbrev pub HasPayload : String × Option String → Type 0
HasPayload (id, none) = ⊥
HasPayload (id, some payload) = Unit

abbrev pub HasNone : String × Option String → Type 0
HasNone (id, none) = Unit
HasNone (id, some payload) = ⊥

pub last_of-append :
    (id : String) (xs ys : Entries) → last_of id (xs ++ ys) ≡ last_of (last_of id xs) ys
last_of-append id [] ys = refl
last_of-append id ((j, payload) ∷ xs) ys = last_of-append j xs ys

pub with_payload-append :
    (redis : Redis) (xs ys : Entries)
    → with_payload redis (xs ++ ys) ≡ with_payload redis xs ++ with_payload redis ys
unfolding with_payload
with_payload-append redis [] ys = refl
with_payload-append redis ((id, none) ∷ xs) ys = with_payload-append redis xs ys
with_payload-append redis ((id, some payload) ∷ xs) ys =
    ap (λ es. (id, payload) ∷ es) (with_payload-append redis xs ys)

pub with_payload-HasNone :
    (redis : Redis) (xs : Entries) → All HasNone xs → with_payload redis xs ≡ []
unfolding with_payload
with_payload-HasNone redis [] _ = refl
with_payload-HasNone redis ((id, none) ∷ xs) (_, h) = with_payload-HasNone redis xs h
with_payload-HasNone redis ((id, some payload) ∷ xs) (h, _) = absurd h

pub take-drop : (n : ℕ) (xs : Entries) → take n xs ++ drop n xs ≡ xs
take-drop zero xs = refl
take-drop (suc n) [] = refl
take-drop (suc n) (x ∷ xs) = ap (λ es. x ∷ es) (take-drop n xs)

pub length-drop-le : (n m : ℕ) (xs : Entries) → length xs ≤ n + m → length (drop n xs) ≤ m
length-drop-le zero m xs h = omega arith
length-drop-le (suc n) m [] h = omega arith
length-drop-le (suc n) m (x ∷ xs) h = length-drop-le n m xs (omega arith)

pub All-take :
    (P : String × Option String → Type 0) (n : ℕ) (xs : Entries) → All P xs → All P (take n xs)
All-take P zero xs h = tt
All-take P (suc n) [] h = tt
All-take P (suc n) (x ∷ xs) (p, h) = (p, All-take P n xs h)

pub All-drop :
    (P : String × Option String → Type 0) (n : ℕ) (xs : Entries) → All P xs → All P (drop n xs)
All-drop P zero xs h = h
All-drop P (suc n) [] h = tt
All-drop P (suc n) (x ∷ xs) (p, h) = All-drop P n xs h
