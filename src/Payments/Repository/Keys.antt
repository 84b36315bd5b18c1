-- ===== src/Payments/Repository/Keys.antt =====
-- Unique keys and searches of a table under inserts and updates.
use payment_processing.Common.{◌≡◌, refl, Bool, true, false, List, [], ◌∷◌, map, any, All, arith}

-- No two rows agree at the key.
abbrev pub Distinct {ℓ} : {A : Type ℓ} → (A → A → Bool) → List A → Type 0
Distinct same [] = Unit
Distinct same (x ∷ xs) = (any (same x) xs ≡ false) × Distinct same xs

module _ {ℓ} {A : Type ℓ} where
  pub any-map_same :
      (p : A → Bool) (f : A → A) (xs : List A)
      → ((x : A) → p (f x) ≡ p x)
      → any p (map f xs) ≡ any p xs
  any-map_same p f [] h = refl
  any-map_same p f (x ∷ xs) h = ground (arith, h x, any-map_same p f xs h)

  pub any_mono :
      (p : A → Bool) (q : A → Bool) (f : A → A) (xs : List A)
      → ((x : A) → p x ≡ true → q (f x) ≡ true)
      → any p xs ≡ true
      → any q (map f xs) ≡ true
  any_mono p q f [] h e = e
  any_mono p q f (x ∷ xs) h e = ground (arith, h x, any_mono p q f xs h)

  pub any_ext : (p q : A → Bool) (xs : List A) → ((x : A) → p x ≡ q x) → any p xs ≡ any q xs
  any_ext p q [] h = refl
  any_ext p q (x ∷ xs) h = ground (arith, h x, any_ext p q xs h)

  pub Distinct-map :
      (same : A → A → Bool) (f : A → A) (xs : List A)
      → ((x y : A) → same (f x) (f y) ≡ same x y)
      → Distinct same xs
      → Distinct same (map f xs)
  Distinct-map same f [] h d = tt
  Distinct-map same f (x ∷ xs) h d = (fresh, Distinct-map same f xs h d.1)
    where
      fresh : any (same (f x)) (map f xs) ≡ false
      fresh = moved xs d.0
        where
          moved : (ys : List A) → any (same x) ys ≡ false → any (same (f x)) (map f ys) ≡ false
          moved [] e = e
          moved (y ∷ ys) e = ground (arith, h x y, moved ys)

module _ {ℓ κ μ} {A : Type ℓ} (P : A → Type κ) (Q : A → Type μ) where
  pub All-mono : (xs : List A) → ((x : A) → P x → Q x) → All P xs → All Q xs
  All-mono [] h a = tt
  All-mono (x ∷ xs) h a = (h x a.0, All-mono xs h a.1)

  pub All-map : (f : A → A) (xs : List A) → ((x : A) → P x → Q (f x)) → All P xs → All Q (map f xs)
  All-map f [] h a = tt
  All-map f (x ∷ xs) h a = (h x a.0, All-map f xs h a.1)
