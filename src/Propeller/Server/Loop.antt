-- ===== src/Propeller/Server/Loop.antt =====
-- The `loop` around `select!` that both handlers of approach-2/src/server have, over what it wakes up
-- for, and what stands behind it.
use payment_processing.Common.{
  ℕ, ◌≡◌, ◌↔◌, refl, sym, ap, ◌∙◌, subst, Bool, true, false, List, [], ◌∷◌, inl, inr, Bool-cases,
}

-- A number that each turn keeps, and that the end changes.
abbrev pub settled : (ℕ → ℕ) → Bool → ℕ → ℕ
settled at_end true n = n
settled at_end false n = at_end n

-- What holds of a loop that runs, and of one that has ended.
abbrev pub Either : {C : Type 0} → (C → Type 0) → (C → Type 0) → Bool × C → Type 0
Either Running Ended (true, c) = Running c
Either Running Ended (false, c) = Ended c

module _ {H C : Type 0} (turn : H → C → Bool × C) (leave : C → C) where
  -- Whether the loop still runs when all has happened, and the state.
  unfoldable pub loop : List H → C → Bool × C
  loop [] c = (true, c)
  loop (h ∷ hs) c =
      let (goes_on, c') = turn h c in elim goes_on [ true ↦ loop hs c' | false ↦ (false, leave c') ]

  pub loop_goes_on :
      (h : H) (hs : List H) (c : C) → (turn h c).0 ≡ true → loop (h ∷ hs) c ≡ loop hs (turn h c).1
  unfolding loop
  loop_goes_on h hs c e = rw (e, loop) refl

  pub loop_ends :
      (h : H) (hs : List H) (c : C)
      → (turn h c).0 ≡ false
      → loop (h ∷ hs) c ≡ (false, leave (turn h c).1)
  unfolding loop
  loop_ends h hs c e = rw (e, loop) refl

  pub loop_settles :
      (measure : C → ℕ) (at_end : ℕ → ℕ)
      → ((h : H) (c : C) → measure (turn h c).1 ≡ measure c)
      → ((c : C) → measure (leave c) ≡ at_end (measure c))
      → (hs : List H) (c : C) → measure (loop hs c).1 ≡ settled at_end (loop hs c).0 (measure c)
  unfolding loop
  loop_settles measure at_end keeps ends [] c = refl
  loop_settles measure at_end keeps ends (h ∷ hs) c = elim (Bool-cases (turn h c).0) [
    | inl e ↦
        rw (e, loop)
          (loop_settles measure at_end keeps ends hs (turn h c).1
            ∙ ap (settled at_end (loop hs (turn h c).1).0) (keeps h c))
    | inr e ↦ rw (e, loop) (ends (turn h c).1 ∙ ap at_end (keeps h c))
  ]

  pub loop_keeps :
      (Running Ended : C → Type 0)
      → ((h : H) (c : C) → Running c → Running (turn h c).1)
      → ((c : C) → Running c → Ended (leave c))
      → (hs : List H) (c : C) → Running c
      → Either Running Ended (loop hs c)
  unfolding loop
  loop_keeps Running Ended keeps ends [] c h = h
  loop_keeps Running Ended keeps ends (k ∷ hs) c h = elim (Bool-cases (turn k c).0) [
    | inl e ↦ rw (e, loop) (loop_keeps Running Ended keeps ends hs (turn k c).1 (keeps k c h))
    | inr e ↦ rw (e, loop) (ends (turn k c).1 (keeps k c h))
  ]

-- Each of the things that happen lets the loop run on, by what is known when it happens.
abbrev pub AllLet : {H T : Type 0} → (T → H → Type 0) → (T → H → T) → T → List H → Type 0
AllLet Lets known last [] = Unit
AllLet Lets known last (h ∷ hs) = Lets last h × AllLet Lets known (known last h) hs

false_is_not-true : false ≡ true → ⊥
false_is_not-true h = cc

module _ {H C T : Type 0} (turn : H → C → Bool × C) (leave : C → C) (view : C → T)
    (Lets : T → H → Type 0) (known : T → H → T)
    (turn_lets : (h : H) (c : C) → ((turn h c).0 ≡ true) ↔ Lets (view c) h)
    (view-turn : (h : H) (c : C) → view (turn h c).1 ≡ known (view c) h) where
  pub loop_runs_iff :
      (hs : List H) (c : C) → ((loop turn leave hs c).0 ≡ true) ↔ AllLet Lets known (view c) hs
  unfolding loop
  loop_runs_iff [] c = (λ _. tt, λ _. refl)
  loop_runs_iff (h ∷ hs) c =
      let (run, lets) = turn_lets h c in
      let (rest, rest_back) = loop_runs_iff hs (turn h c).1 in
      elim (Bool-cases (turn h c).0) [
        | inl e ↦
            rw (e, loop)
              (
                (λ r. (run e, subst (λ t. AllLet Lets known t hs) (view-turn h c) (rest r))),
                (λ all.
                    rest_back (subst (λ t. AllLet Lets known t hs) (sym (view-turn h c)) all.1)),
              )
        | inr e ↦
            rw (e, loop)
              (
                (λ r. absurd (false_is_not-true r)),
                (λ all. absurd (false_is_not-true (sym e ∙ lets all.0))),
              )
      ]
