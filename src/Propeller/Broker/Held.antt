-- ===== src/Propeller/Broker/Held.antt =====
-- The listeners that the subscriptions hold, when an entry changes, goes, or gives one up.
use payment_processing.Common.{
  ℕ, String, ◌≡◌, ◌⊎◌, inl, inr, sym, subst, List, [], ◌∷◌, ◌++◌, Option, none, some, ◌==◌, arith,
  Bool-cases,
}
use payment_processing.Common.Text.{◌==◌ as same_text}
use payment_processing.Propeller.Broker.{
  Controls, Subscriptions, find, put, without, take_out, tasks_of, behind,
}

abbrev pub In : ℕ → List ℕ → Type 0
In task [] = ⊥
In task (t ∷ tasks) = (t ≡ task) ⊎ In task tasks

-- The listeners that the subscriptions hold.
abbrev pub tasks : Subscriptions → List ℕ
tasks [] = []
tasks ((id, controls) ∷ subs) = tasks_of controls ++ tasks subs

pub In-left : (t : ℕ) (xs ys : List ℕ) → In t xs → In t (xs ++ ys)
In-left t [] ys h = absurd h
In-left t (x ∷ xs) ys (inl e) = inl e
In-left t (x ∷ xs) ys (inr h) = inr (In-left t xs ys h)

pub In-right : (t : ℕ) (xs ys : List ℕ) → In t ys → In t (xs ++ ys)
In-right t [] ys h = h
In-right t (x ∷ xs) ys h = inr (In-right t xs ys h)

In-append : (t : ℕ) (xs ys : List ℕ) → In t (xs ++ ys) → In t xs ⊎ In t ys
In-append t [] ys h = inr h
In-append t (x ∷ xs) ys (inl e) = inl (inl e)
In-append t (x ∷ xs) ys (inr h) = elim (In-append t xs ys h) [ inl l ↦ inl (inr l) | inr r ↦ inr r ]

-- A listener held before an entry changes is held after it, or was one of the entry's own.
pub In-put :
    (t sub : ℕ) (old controls : Controls) (subs : Subscriptions)
    → find sub subs ≡ some old
    → In t (tasks subs)
    → In t (tasks_of old) ⊎ In t (tasks (put sub controls subs))
In-put t sub old controls [] f h = absurd h
In-put t sub old controls ((id, cs) ∷ subs) f h = elim (Bool-cases (id == sub)) [
  | inl e ↦ rw e (elim (In-append t (tasks_of cs) (tasks subs) h) [
    | inl l ↦ inl (subst (λ c. In t (tasks_of c)) (ground arith) l)
    | inr r ↦ inr (In-right t (tasks_of controls) (tasks subs) r)
  ])
  | inr e ↦ rw e (elim (In-append t (tasks_of cs) (tasks subs) h) [
    | inl l ↦ inr (In-left t (tasks_of cs) (tasks (put sub controls subs)) l)
    | inr r ↦ elim (In-put t sub old controls subs (ground arith) r) [
      | inl o ↦ inl o
      | inr q ↦ inr (In-right t (tasks_of cs) (tasks (put sub controls subs)) q)
    ]
  ])
]

pub In-without :
    (t sub : ℕ) (old : Controls) (subs : Subscriptions)
    → find sub subs ≡ some old
    → In t (tasks subs)
    → In t (tasks_of old) ⊎ In t (tasks (without sub subs))
In-without t sub old [] f h = absurd h
In-without t sub old ((id, cs) ∷ subs) f h = elim (Bool-cases (id == sub)) [
  | inl e ↦ rw e (elim (In-append t (tasks_of cs) (tasks subs) h) [
    | inl l ↦ inl (subst (λ c. In t (tasks_of c)) (ground arith) l)
    | inr r ↦ inr r
  ])
  | inr e ↦ rw e (elim (In-append t (tasks_of cs) (tasks subs) h) [
    | inl l ↦ inr (In-left t (tasks_of cs) (tasks (without sub subs)) l)
    | inr r ↦ elim (In-without t sub old subs (ground arith) r) [
      | inl o ↦ inl o
      | inr q ↦ inr (In-right t (tasks_of cs) (tasks (without sub subs)) q)
    ]
  ])
]

-- The new controls of an entry are held.
pub In-put_new :
    (t sub : ℕ) (old controls : Controls) (subs : Subscriptions)
    → find sub subs ≡ some old
    → In t (tasks_of controls)
    → In t (tasks (put sub controls subs))
In-put_new t sub old controls [] f h = ground arith
In-put_new t sub old controls ((id, cs) ∷ subs) f h = elim (Bool-cases (id == sub)) [
  | inl e ↦ rw e (In-left t (tasks_of controls) (tasks subs) h)
  | inr e ↦ rw e (
      In-right t (tasks_of cs) (tasks (put sub controls subs))
        (In-put_new t sub old controls subs (ground arith) h))
]

behind-some :
    (entry : String × ℕ) (o : Option (ℕ × Controls)) (rest : Controls) (task : ℕ)
    → behind entry o ≡ some (task, rest)
    → (left : Controls) × (o ≡ some (task, left)) × (rest ≡ entry ∷ left)
behind-some entry none rest task e = cc
behind-some entry (some (k, left)) rest task e = (left, ground arith, ground arith)

taken_here :
    (t k : ℕ) (controls rest : Controls) (task : ℕ)
    → Path (ℕ × Controls) (k, controls) (task, rest)
    → (k ≡ t) ⊎ In t (tasks_of controls)
    → (task ≡ t) ⊎ In t (tasks_of rest)
taken_here t k controls rest task e h = subst (λ p. (p.0 ≡ t) ⊎ In t (tasks_of p.1)) e h

pub In-take_out :
    (t : ℕ) (topic : String) (controls rest : Controls) (task : ℕ)
    → take_out topic controls ≡ some (task, rest)
    → In t (tasks_of controls)
    → (task ≡ t) ⊎ In t (tasks_of rest)
In-take_out t topic [] rest task e h = absurd h
In-take_out t topic ((key, k) ∷ controls) rest task e h = elim (Bool-cases (same_text key topic)) [
  | inl same ↦ taken_here t k controls rest task (ground arith) h
  | inr other ↦
      let (left, found, shape) =
        behind-some (key, k) (take_out topic controls) rest task (ground arith) in
      subst (λ c. (task ≡ t) ⊎ In t (tasks_of c)) (sym shape)
        (elim h [
          | inl first ↦ inr (inl first)
          | inr m ↦ elim (In-take_out t topic controls left task found m) [
            | inl q ↦ inl q
            | inr q ↦ inr (inr q)
          ]
        ])
]
