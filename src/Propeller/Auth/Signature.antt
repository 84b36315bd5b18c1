-- ===== src/Propeller/Auth/Signature.antt =====
-- `constant_time_eq` and `hmac_sha256` of approach-2/src/auth/mod.rs. Bytes are numbers; SHA-256 is
-- a parameter.
pub mod Equality
use Prim.Native.Nat.{bit_or, bit_xor}
use payment_processing.Common.{
  ℕ, zero, suc, ◌-◌, Bool, false, true, List, [], ◌∷◌, ◌++◌, ◌==◌, not, ltb, length, replicate,
  if◌then◌else◌,
}

abbrev pub Bytes : Type 0
Bytes = List ℕ

-- The loop over the zipped bytes, with `diff`.
accumulate : Bytes → Bytes → ℕ → ℕ
accumulate [] rhs diff = diff
accumulate (a ∷ lhs) [] diff = diff
accumulate (a ∷ lhs) (b ∷ rhs) diff = accumulate lhs rhs (bit_or diff (bit_xor a b))

unfoldable pub constant_time_eq : Bytes → Bytes → Bool
unfolding accumulate
constant_time_eq lhs rhs =
    if not (length lhs == length rhs) then false else accumulate lhs rhs 0 == 0

-- `pad[i] ^= key_block[i]` for each index of the arrays.
unfoldable pub xor_each : Bytes → Bytes → Bytes
xor_each [] key = []
xor_each (a ∷ pad) [] = a ∷ pad
xor_each (a ∷ pad) (k ∷ key) = bit_xor a k ∷ xor_each pad key

-- `block[..bytes.len()].copy_from_slice(bytes)` on a block of zeros.
abbrev pub zero_padded : ℕ → Bytes → Bytes
zero_padded size bytes = bytes ++ replicate (size - length bytes) 0

module _ (sha256 : Bytes → Bytes) where
  unfoldable pub key_block : Bytes → Bytes
  key_block key = if ltb 64 (length key) then zero_padded 64 (sha256 key) else zero_padded 64 key

  unfoldable pub hmac_sha256 : Bytes → Bytes → Bytes
  unfolding key_block xor_each
  hmac_sha256 key message =
      let ipad = xor_each (replicate 64 0x36) (key_block key) in
      let opad = xor_each (replicate 64 0x5c) (key_block key) in
      sha256 (opad ++ sha256 (ipad ++ message))
