-- ===== src/Payments/Redis/Memory.antt =====
-- A Redis server in memory that answers every command: the laws of `Redis` can hold.
use payment_processing.Common.{
  ℕ, String, ◌≡◌, refl, Bool, true, false, not, List, [], ◌∷◌, ◌++◌, Option, some, arith, take,
  if◌then◌else◌, inl, inr, Bool-cases,
}
use payment_processing.Common.Text.{◌==◌, eq_refl, eq_iff}
use payment_processing.Payments.Redis.{Redis, Lifetime, absent, lasting, forever, is_held, elapse}

pub record Memory : Type 0 where
  pub keys : List (String × Lifetime)
  pub messages : List (String × String)
  pub entries : List (String × Option String)

abbrev pub find_key : String → List (String × Lifetime) → Lifetime
find_key k [] = absent
find_key k ((j, life) ∷ keys) = if j == k then life else find_key k keys

abbrev pub limit_key : String → ℕ → List (String × Lifetime) → List (String × Lifetime)
limit_key k n [] = []
limit_key k n ((j, life) ∷ keys) =
    if j == k then (j, lasting n) ∷ keys else (j, life) ∷ limit_key k n keys

abbrev pub age_keys : ℕ → List (String × Lifetime) → List (String × Lifetime)
age_keys t [] = []
age_keys t ((j, life) ∷ keys) = (j, elapse t life) ∷ age_keys t keys

abbrev set_key : String → String → Memory → Option Bool × Memory
set_key k v m =
    if is_held (find_key k m.keys)
    then (some false, m)
    else (some true, record m { keys = (k, forever) ∷ m.keys })

abbrev limit : String → ℕ → Memory → Option (Unit {0}) × Memory
limit k n m =
    (some tt, if is_held (find_key k m.keys) then record m { keys = limit_key k n m.keys } else m)

abbrev send : String → String → Memory → Option (Unit {0}) × Memory
send c p m = (some tt, record m { messages = (c, p) ∷ m.messages })

abbrev add_entry : String → String → Memory → Option (Unit {0}) × Memory
add_entry stream p m = (some tt, record m { entries = m.entries ++ ("1", some p) ∷ [] })

-- The entries behind an identifier.
abbrev pub past : String → List (String × Option String) → List (String × Option String)
past id [] = []
past id ((j, payload) ∷ entries) = if j == id then entries else past id entries

-- The same, from an identifier that stands before them.
abbrev pub seek : String → String → List (String × Option String) → List (String × Option String)
seek start id entries = if start == id then entries else past id entries

abbrev pub read_entries :
    String → String → ℕ → Memory → Option (List (String × Option String)) × Memory
read_entries stream id n m = (some (take n (seek "0-0" id m.entries)), m)

pub set_key_answer :
    (k v : String) (m : Memory) (b : Bool)
    → (set_key k v m).0 ≡ some b
    → b ≡ not (is_held (find_key k m.keys))
set_key_answer k v m b e = ground arith

pub set_key_sets :
    (k v : String) (m : Memory)
    → (set_key k v m).0 ≡ some true
    → find_key k (set_key k v m).1.keys ≡ forever
set_key_sets k v m e = ground (arith, eq_refl k)

pub set_key_keeps :
    (j k v : String) (m : Memory)
    → is_held (find_key j m.keys) ≡ true
    → find_key j (set_key k v m).1.keys ≡ find_key j m.keys
set_key_keeps j k v m h = ground (arith, eq_iff k j)

find_key-limit_key :
    (k : String) (n : ℕ) (keys : List (String × Lifetime))
    → is_held (find_key k keys) ≡ true
    → find_key k (limit_key k n keys) ≡ lasting n
find_key-limit_key k n [] h = cc
find_key-limit_key k n ((j, life) ∷ keys) h = ground (arith, find_key-limit_key k n keys)

pub limit_sets :
    (k : String) (n : ℕ) (m : Memory)
    → is_held (find_key k m.keys) ≡ true
    → find_key k (limit k n m).1.keys ≡ lasting n
limit_sets k n m h = rw h (find_key-limit_key k n m.keys h)

pub find_key-age_keys :
    (k : String) (t : ℕ) (keys : List (String × Lifetime))
    → find_key k (age_keys t keys) ≡ elapse t (find_key k keys)
find_key-age_keys k t [] = refl
find_key-age_keys k t ((j, life) ∷ keys) = elim (Bool-cases (j == k)) [
  | inl e ↦ rw e refl
  | inr e ↦ rw e (find_key-age_keys k t keys)
]

pub set_key_messages : (k v : String) (m : Memory) → (set_key k v m).1.messages ≡ m.messages
set_key_messages k v m = ground arith

pub limit_messages : (k : String) (n : ℕ) (m : Memory) → (limit k n m).1.messages ≡ m.messages
limit_messages k n m = ground arith

pub set_key_entries : (k v : String) (m : Memory) → (set_key k v m).1.entries ≡ m.entries
set_key_entries k v m = ground arith

pub limit_entries : (k : String) (n : ℕ) (m : Memory) → (limit k n m).1.entries ≡ m.entries
limit_entries k n m = ground arith

abbrev pub memory : Redis
memory = record {
  Store = Memory;
  set_nx = set_key;
  expire = limit;
  publish = send;
  xadd = add_entry;
  xread = read_entries;
  pass = λ t m. record m { keys = age_keys t m.keys };
  lifetime = λ k m. find_key k m.keys;
  published = λ m. m.messages;
  set_nx_answer = set_key_answer;
  set_nx_sets = set_key_sets;
  set_nx_keeps = set_key_keeps;
  set_nx_published = set_key_messages;
  expire_limits = λ k n m pos h. inr (limit_sets k n m h);
  expire_sets = λ k n m pos h e. limit_sets k n m h;
  expire_published = limit_messages;
  publish_lifetime = λ j c p m. refl;
  publish_published = λ c p m e. refl;
  pass_lifetime = λ j t m. find_key-age_keys j t m.keys;
  pass_published = λ t m. refl;
}
