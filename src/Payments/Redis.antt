-- ===== src/Payments/Redis.antt =====
-- The Redis server, of which approach-1/crates/adapters uses six commands, as a parameter.
pub mod Memory
use payment_processing.Common.{
  ℕ, ◌+◌, ◌-◌, ◌<◌, ltb, String, ◌≡◌, ◌⊎◌, refl, Bool, true, false, not, Option, some, List, ◌∷◌,
  arith, if◌then◌else◌,
}

-- How long a key stays, in seconds.
pub data Lifetime : Type 0 where
  absent : Lifetime
  lasting : ℕ → Lifetime
  forever : Lifetime

abbrev pub is_held : Lifetime → Bool
is_held absent = false
is_held (lasting n) = true
is_held forever = true

-- The same after some seconds.
abbrev pub elapse : ℕ → Lifetime → Lifetime
elapse t absent = absent
elapse t (lasting n) = if ltb t n then lasting (n - t) else absent
elapse t forever = forever

pub elapse-add : (t u : ℕ) (l : Lifetime) → elapse (t + u) l ≡ elapse u (elapse t l)
elapse-add t u absent = refl
elapse-add t u (lasting n) = ground arith
elapse-add t u forever = refl

pub is_held-before : (t : ℕ) (l : Lifetime) → is_held (elapse t l) ≡ true → is_held l ≡ true
is_held-before t absent h = h
is_held-before t (lasting n) h = refl
is_held-before t forever h = refl

-- A command answers or fails (`none`); a failed one may still have been carried out. `lifetime` says
-- whether a key is set and for how long, `pass` lets seconds pass, and `published` lists the messages
-- sent to channels, the latest first.
pub record Redis : Type 1 where
  pub Store : Type 0
  pub set_nx : String → String → Store → Option Bool × Store
  pub expire : String → ℕ → Store → Option (Unit {0}) × Store
  pub publish : String → String → Store → Option (Unit {0}) × Store
  pub xadd : String → String → Store → Option (Unit {0}) × Store
  pub xread : String → String → ℕ → Store → Option (List (String × Option String)) × Store
  pub pass : ℕ → Store → Store
  pub lifetime : String → Store → Lifetime
  pub published : Store → List (String × String)
  pub set_nx_answer :
      (k v : String) (s : Store) (b : Bool)
      → (set_nx k v s).0 ≡ some b
      → b ≡ not (is_held (lifetime k s))
  pub set_nx_sets :
      (k v : String) (s : Store)
      → (set_nx k v s).0 ≡ some true
      → lifetime k (set_nx k v s).1 ≡ forever
  pub set_nx_keeps :
      (j k v : String) (s : Store)
      → is_held (lifetime j s) ≡ true
      → lifetime j (set_nx k v s).1 ≡ lifetime j s
  pub set_nx_published : (k v : String) (s : Store) → published (set_nx k v s).1 ≡ published s
  pub expire_limits :
      (k : String) (n : ℕ) (s : Store)
      → 0 < n
      → is_held (lifetime k s) ≡ true
      → (lifetime k (expire k n s).1 ≡ lifetime k s) ⊎ (lifetime k (expire k n s).1 ≡ lasting n)
  pub expire_sets :
      (k : String) (n : ℕ) (s : Store)
      → 0 < n
      → is_held (lifetime k s) ≡ true
      → (expire k n s).0 ≡ some tt
      → lifetime k (expire k n s).1 ≡ lasting n
  pub expire_published : (k : String) (n : ℕ) (s : Store) → published (expire k n s).1 ≡ published s
  pub publish_lifetime : (j c m : String) (s : Store) → lifetime j (publish c m s).1 ≡ lifetime j s
  pub publish_published :
      (c m : String) (s : Store)
      → (publish c m s).0 ≡ some tt
      → published (publish c m s).1 ≡ (c, m) ∷ published s
  pub pass_lifetime :
      (j : String) (t : ℕ) (s : Store) → lifetime j (pass t s) ≡ elapse t (lifetime j s)
  pub pass_published : (t : ℕ) (s : Store) → published (pass t s) ≡ published s
