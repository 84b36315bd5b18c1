-- ===== src/Propeller/Auth/Signature/Equality.antt =====
-- `constant_time_eq` is equality.
use Prim.Native.Nat.{bit_or, bit_xor}
use payment_processing.Common.{ℕ, ◌≡◌, refl, ◌↔◌, true, [], ◌∷◌, length, arith}
use payment_processing.Common.Bits.{bit_or-eq-zero, bit_xor-eq-zero, bit_xor_self}
use payment_processing.Propeller.Auth.Signature.{Bytes, accumulate, constant_time_eq}

accumulate-eq-zero :
    (xs ys : Bytes) (diff : ℕ)
    → length xs ≡ length ys
    → accumulate xs ys diff ≡ 0
    → (diff ≡ 0) × (xs ≡ ys)
unfolding accumulate
accumulate-eq-zero [] [] diff h e = (e, refl)
accumulate-eq-zero [] (y ∷ ys) diff h e = absurd (omega arith)
accumulate-eq-zero (x ∷ xs) [] diff h e = absurd (omega arith)
accumulate-eq-zero (x ∷ xs) (y ∷ ys) diff h e =
    let (now, rest) = accumulate-eq-zero xs ys (bit_or diff (bit_xor x y)) (omega arith) e in
    let (before, same) = bit_or-eq-zero diff (bit_xor x y) now in
    let same_head : x ≡ y = bit_xor-eq-zero x y same in (before, cc)

accumulate_self : (xs : Bytes) → accumulate xs xs 0 ≡ 0
unfolding accumulate
accumulate_self [] = refl
accumulate_self (x ∷ xs) = rw (bit_xor_self x) (accumulate_self xs)

-- The comparison that looks at every byte accepts exactly equal texts.
pub constant_time_eq_iff : (xs ys : Bytes) → (constant_time_eq xs ys ≡ true) ↔ (xs ≡ ys)
unfolding constant_time_eq
constant_time_eq_iff xs ys = (
  λ h. (accumulate-eq-zero xs ys 0 (ground arith) (ground arith)).1,
  λ e. rw (← e) (ground (arith, accumulate_self xs)),
)
