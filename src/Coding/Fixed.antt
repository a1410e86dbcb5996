-- ===== src/Coding/Fixed.antt =====
-- The fixed-width integers of util/coding.h, in both directions.
use distributed_system_based.Base.{
  ℕ, ◌+◌, ◌*◌, ◌^◌, ◌≡◌, ◌∙◌, ap, refl, arith, bit_or, List, [], ◌∷◌, ◌++◌, some, length, All,
}
use distributed_system_based.Base.Bits.{bit_or-shifted}
use distributed_system_based.Coding.{
  IsByte, IsU32, IsU64, encode_fixed32, decode_fixed32, encode_fixed64, decode_fixed64,
}

-- The number that four bytes stand for, the lowest first.
abbrev le32 : ℕ → ℕ → ℕ → ℕ → ℕ
le32 b0 b1 b2 b3 = b0 + b1 * 2 ^ 8 + b2 * 2 ^ 16 + b3 * 2 ^ 24

or_low :
    (b0 b1 b2 b3 : ℕ)
    → IsByte b0
    → IsByte b1
    → IsByte b2
    → IsByte b3
    → bit_or (bit_or (bit_or b0 (b1 * 2 ^ 8)) (b2 * 2 ^ 16)) (b3 * 2 ^ 24) ≡ le32 b0 b1 b2 b3
or_low b0 b1 b2 b3 h0 h1 h2 h3 = rw (bit_or-shifted 8 b0 b1 (omega arith)) (
    rw (bit_or-shifted 16 (b0 + b1 * 2 ^ 8) b2 (omega arith))
      (bit_or-shifted 24 (b0 + b1 * 2 ^ 8 + b2 * 2 ^ 16) b3 (omega arith)))

decode32-bytes :
    (b0 b1 b2 b3 : ℕ) (rest : List ℕ)
    → IsByte b0
    → IsByte b1
    → IsByte b2
    → IsByte b3
    → decode_fixed32 (b0 ∷ b1 ∷ b2 ∷ b3 ∷ rest) ≡ some (le32 b0 b1 b2 b3)
unfolding decode_fixed32
decode32-bytes b0 b1 b2 b3 rest h0 h1 h2 h3 = ap some (or_low b0 b1 b2 b3 h0 h1 h2 h3)

-- Decoding the bytes of a `uint32_t` gives it back, whatever follows them in the buffer.
pub decode_fixed32-encode_fixed32 :
    (v : ℕ) (rest : List ℕ) → IsU32 v → decode_fixed32 (encode_fixed32 v ++ rest) ≡ some v
unfolding encode_fixed32
decode_fixed32-encode_fixed32 v rest h =
    decode32-bytes _ _ _ _ rest (omega arith) (omega arith) (omega arith) (omega arith)
    ∙ ap some (omega arith)

decode64-bytes :
    (b0 b1 b2 b3 b4 b5 b6 b7 : ℕ) (rest : List ℕ)
    → All IsByte (b0 ∷ b1 ∷ b2 ∷ b3 ∷ b4 ∷ b5 ∷ b6 ∷ b7 ∷ [])
    → decode_fixed64 (b0 ∷ b1 ∷ b2 ∷ b3 ∷ b4 ∷ b5 ∷ b6 ∷ b7 ∷ rest)
      ≡ some (le32 b0 b1 b2 b3 + b4 * 2 ^ 32 + b5 * 2 ^ 40 + b6 * 2 ^ 48 + b7 * 2 ^ 56)
unfolding decode_fixed64
decode64-bytes b0 b1 b2 b3 b4 b5 b6 b7 rest h =
    rw (or_low b0 b1 b2 b3 (omega arith) (omega arith) (omega arith) (omega arith)) (
      rw (bit_or-shifted 32 (le32 b0 b1 b2 b3) b4 (omega arith)) (
        rw (bit_or-shifted 40 (le32 b0 b1 b2 b3 + b4 * 2 ^ 32) b5 (omega arith)) (
          rw (bit_or-shifted 48 (le32 b0 b1 b2 b3 + b4 * 2 ^ 32 + b5 * 2 ^ 40) b6 (omega arith)) (
            ap some (
              bit_or-shifted 56 (le32 b0 b1 b2 b3 + b4 * 2 ^ 32 + b5 * 2 ^ 40 + b6 * 2 ^ 48) b7
                (omega arith))))))

-- Decoding the bytes of a `uint64_t` gives it back, whatever follows them in the buffer.
pub decode_fixed64-encode_fixed64 :
    (v : ℕ) (rest : List ℕ) → IsU64 v → decode_fixed64 (encode_fixed64 v ++ rest) ≡ some v
unfolding encode_fixed64
decode_fixed64-encode_fixed64 v rest h =
    decode64-bytes _ _ _ _ _ _ _ _ rest (omega arith) ∙ ap some (omega arith)

pub length-encode_fixed32 : (v : ℕ) → length (encode_fixed32 v) ≡ 4
unfolding encode_fixed32
length-encode_fixed32 v = refl

pub length-encode_fixed64 : (v : ℕ) → length (encode_fixed64 v) ≡ 8
unfolding encode_fixed64
length-encode_fixed64 v = refl
