-- ===== src/Payments/Repository/Connection.antt =====
-- A connection to the database as the methods see it. Each round trip may be served, may fail
-- before the server acts, or may be carried out with its answer lost; the environment chooses.
use payment_processing.Common.{ℕ, suc, List, [], ◌∷◌, Result, ok, err}
use payment_processing.Payments.Models.{Uuid}
use payment_processing.Payments.Repository.Schema.{Tables}

pub data Outcome : Type 0 where
  served refused unanswered : Outcome

pub data DbError : Type 0 where
  connection unique_violation foreign_key_violation : DbError

-- `outcomes` are those of the round trips to come, all served when the list has run out;
-- `random` and `drawn` give the identifiers that `Uuid::new_v4` draws, `clock` is `now()`.
pub record Session : Type 0 where
  pub tables : Tables
  pub outcomes : List Outcome
  pub random : ℕ → Uuid
  pub drawn : ℕ
  pub clock : ℕ

abbrev pub Action : Type 0 → Type 0
Action A = Session → Result DbError A × Session

-- The `?` operator.
infixl 5 ◌>>=◌ ◌>>◌
abbrev pub ◌>>=◌ : {A B : Type 0} → Action A → (A → Action B) → Action B
◌>>=◌ m f s = let (r, s') = m s in elim r [ ok a ↦ f a s' | err e ↦ (err e, s') ]

abbrev pub ◌>>◌ : {A B : Type 0} → Action A → Action B → Action B
m >> k = m >>= λ _. k

abbrev pub pure : {A : Type 0} → A → Action A
pure a s = (ok a, s)

abbrev pub new_v4 : Action Uuid
new_v4 s = (ok (s.random s.drawn), record s { drawn = suc s.drawn })

abbrev pub current_time : Action ℕ
current_time s = (ok s.clock, s)

abbrev pub Statement : Type 0
Statement = Tables → Result DbError Tables

abbrev pub next_outcome : List Outcome → Outcome
next_outcome [] = served
next_outcome (o ∷ os) = o

abbrev pub later : List Outcome → List Outcome
later [] = []
later (o ∷ os) = os

abbrev pub apply : Outcome → Result DbError Tables → Session → Result DbError (Unit {0}) × Session
apply served (ok t) s = (ok tt, record s { tables = t })
apply served (err e) s = (err e, s)
apply refused _ s = (err connection, s)
apply unanswered (ok t) s = (err connection, record s { tables = t })
apply unanswered (err e) s = (err connection, s)

-- One statement outside a transaction.
unfoldable pub execute : Statement → Action (Unit {0})
execute statement s =
    apply (next_outcome s.outcomes) (statement s.tables) (record s { outcomes = later s.outcomes })

abbrev pub answer : {A : Type 0} → Outcome → A → Session → Result DbError A × Session
answer served a s = (ok a, s)
answer refused a s = (err connection, s)
answer unanswered a s = (err connection, s)

-- One query.
unfoldable pub fetch : {A : Type 0} → (Tables → A) → Action A
fetch query s =
    answer (next_outcome s.outcomes) (query s.tables) (record s { outcomes = later s.outcomes })

-- `begin`, a statement of the transaction, and `commit`. An error drops the copy: a rollback.
unfoldable pub begin : Action Tables
unfolding fetch
begin = fetch (λ t. t)

abbrev pub answer_in : Outcome → Result DbError Tables → Session → Result DbError Tables × Session
answer_in served r s = (r, s)
answer_in refused r s = (err connection, s)
answer_in unanswered r s = (err connection, s)

unfoldable pub execute_in : Statement → Tables → Action Tables
execute_in statement t s =
    answer_in (next_outcome s.outcomes) (statement t) (record s { outcomes = later s.outcomes })

unfoldable pub commit : Tables → Action (Unit {0})
unfolding execute
commit t = execute (λ _. ok t)
