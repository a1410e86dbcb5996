-- ===== src/Crc.antt =====
-- util/crc32c.h: the masking of stored checksums, and the interface of the checksum itself, which
-- the writers and the readers of records share.
mod Runs
use distributed_system_based.Base.{
  ℕ, ◌+◌, ◌-◌, ◌*◌, ◌/◌, ◌%◌, ◌^◌, ◌<◌, ◌≡◌, ap, refl, arith, bit_or, List, length,
}
use distributed_system_based.Base.Bits.{bit_or-shifted}
use distributed_system_based.Coding.{IsU32}

-- `crc32c::Value`: any function from bytes to a `uint32_t`.
pub record Checksum : Type 0 where
  pub value : List ℕ → ℕ
  pub value-lt : (bytes : List ℕ) → value bytes < 2 ^ 32

abbrev pub mask_delta : ℕ
mask_delta = 0xa282ead8

unfoldable pub mask : ℕ → ℕ
mask crc = (bit_or (crc / 2 ^ 15) (crc * 2 ^ 17 % 2 ^ 32) + mask_delta) % 2 ^ 32

unfoldable pub unmask : ℕ → ℕ
unmask masked_crc =
    let rot = (masked_crc + 2 ^ 32 - mask_delta) % 2 ^ 32 in
    bit_or (rot / 2 ^ 17) (rot * 2 ^ 15 % 2 ^ 32)

-- Both are rotations, written as sums.
rotate_right :
    (crc : ℕ)
    → IsU32 crc
    → bit_or (crc / 2 ^ 15) (crc * 2 ^ 17 % 2 ^ 32) ≡ crc / 2 ^ 15 + crc % 2 ^ 15 * 2 ^ 17
rotate_right crc h =
    let e : crc * 2 ^ 17 % 2 ^ 32 ≡ crc % 2 ^ 15 * 2 ^ 17 = omega arith in
    rw e (bit_or-shifted 17 (crc / 2 ^ 15) (crc % 2 ^ 15) (omega arith))

rotate_left :
    (rot : ℕ)
    → IsU32 rot
    → bit_or (rot / 2 ^ 17) (rot * 2 ^ 15 % 2 ^ 32) ≡ rot / 2 ^ 17 + rot % 2 ^ 17 * 2 ^ 15
rotate_left rot h =
    let e : rot * 2 ^ 15 % 2 ^ 32 ≡ rot % 2 ^ 17 * 2 ^ 15 = omega arith in
    rw e (bit_or-shifted 15 (rot / 2 ^ 17) (rot % 2 ^ 17) (omega arith))

pub mask-lt : (crc : ℕ) → IsU32 (mask crc)
unfolding mask
mask-lt crc = omega arith

-- Unmasking a masked checksum of 32 bits gives back the checksum.
pub unmask-mask : (crc : ℕ) → IsU32 crc → unmask (mask crc) ≡ crc
unfolding mask unmask
unmask-mask crc h =
    rw (rotate_right crc h) (rw e (rw (rotate_left rot (omega arith)) (omega arith)))
  where
    rot : ℕ
    rot = crc / 2 ^ 15 + crc % 2 ^ 15 * 2 ^ 17

    e : ((rot + mask_delta) % 2 ^ 32 + 2 ^ 32 - mask_delta) % 2 ^ 32 ≡ rot
    e = omega arith
