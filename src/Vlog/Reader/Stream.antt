-- ===== src/Vlog/Reader/Stream.antt =====
-- The reader as a stream: what is buffered and what the file still holds are one sequence of bytes,
-- and the records that the writer put there come out of its front.
use distributed_system_based.Base.{
  ℕ, min, zero, suc, ◌+◌, ◌-◌, ◌/◌, ◌≤◌, ◌≡◌, ◌∙◌, ap, refl, arith, List, [], ◌∷◌, ◌++◌, Option,
  some, Bool, true, false, not, ◌&&◌, ◌==◌, ltb, leb, length, take, drop, append_assoc, append-nil,
  length-append, length-take, take-append_exact, drop-append_exact, Bool-cases, inl, inr,
}
use distributed_system_based.Coding.{IsU64, encode_fixed32, encode_fixed64}
use distributed_system_based.Coding.Fixed.{
  decode_fixed32-encode_fixed32, decode_fixed64-encode_fixed64,
}
use distributed_system_based.Crc.{Checksum, mask, unmask-mask, mask-lt}
use distributed_system_based.Vlog.{header_size, record_header}
use distributed_system_based.Vlog.Reader.{
  VReader, block_size, refill, read_file, read_header, read_payload, after_direct, after_block,
  checked,
}

-- One list cut in two ways, the first cut of which is not behind the second.
module _ {ℓ} {A : Type ℓ} where
  pub cut_left :
      (xs ys us vs : List A)
      → xs ++ ys ≡ us ++ vs
      → length us ≤ length xs
      → (take (length us) xs ≡ us) × (drop (length us) xs ++ ys ≡ vs)
  cut_left xs ys [] vs e h = (refl, e)
  cut_left [] ys (u ∷ us) vs e h = absurd (omega arith)
  cut_left (x ∷ xs) ys (u ∷ us) vs e h =
      let rest : xs ++ ys ≡ us ++ vs = cc in
      let head : x ≡ u = cc in
      let (front, back) = cut_left xs ys us vs rest (omega arith) in (λ i. head i ∷ front i, back)

  cut_right :
      (n : ℕ) (xs ys us vs : List A)
      → xs ++ ys ≡ us ++ vs
      → length xs + n ≡ length us
      → (xs ++ take n ys ≡ us) × (drop n ys ≡ vs)
  cut_right n [] ys us vs e h = (
    rw e (take-append_exact n us vs (omega arith)),
    rw e (drop-append_exact n us vs (omega arith)),
  )
  cut_right n (x ∷ xs) ys [] vs e h = absurd (omega arith)
  cut_right n (x ∷ xs) ys (u ∷ us) vs e h =
      let rest : xs ++ ys ≡ us ++ vs = cc in
      let head : x ≡ u = cc in
      let (front, back) = cut_right n xs ys us vs rest (omega arith) in
      (λ i. head i ∷ front i, back)

pub take-drop {ℓ} : {A : Type ℓ} (n : ℕ) (xs : List A) → take n xs ++ drop n xs ≡ xs
take-drop zero xs = refl
take-drop (suc n) [] = refl
take-drop (suc n) (x ∷ xs) = ap (λ l. x ∷ l) (take-drop n xs)

-- A block is taken first, and then the front of the block.
take-take {ℓ} : {A : Type ℓ} (n m : ℕ) (xs : List A) → n ≤ m → take n (take m xs) ≡ take n xs
take-take zero m xs h = refl
take-take (suc n) zero xs h = absurd (omega arith)
take-take (suc n) (suc m) [] h = refl
take-take (suc n) (suc m) (x ∷ xs) h = ap (λ l. x ∷ l) (take-take n m xs (omega arith))

drop-take {ℓ} :
    {A : Type ℓ} (n m : ℕ) (xs : List A) → n ≤ m → drop n (take m xs) ++ drop m xs ≡ drop n xs
drop-take zero m xs h = take-drop m xs
drop-take (suc n) zero xs h = absurd (omega arith)
drop-take (suc n) (suc m) [] h = refl
drop-take (suc n) (suc m) (x ∷ xs) h = drop-take n m xs (omega arith)

drop_all {ℓ} : {A : Type ℓ} (n : ℕ) (xs : List A) → length xs ≤ n → drop n xs ≡ []
drop_all zero [] h = refl
drop_all zero (x ∷ xs) h = absurd (omega arith)
drop_all (suc n) [] h = refl
drop_all (suc n) (x ∷ xs) h = drop_all n xs (omega arith)

abbrev pub pending : VReader → List ℕ
pending r = r.buffer ++ r.file

-- No read fails, and the end that was seen is the end.
pub record IsReader (r : VReader) : Type 0 where
  pub no_fault : r.faults ≡ []
  pub ended : r.eof ≡ true → r.file ≡ []

-- What a read puts behind the buffer.
module _ (r : VReader) (n : ℕ) where
  filled-length : length (r.buffer ++ take n r.file) ≡ length r.buffer + min n (length r.file)
  filled-length = omega (arith, length-append r.buffer (take n r.file), length-take n r.file)

  filled-pending : (r.buffer ++ take n r.file) ++ drop n r.file ≡ pending r
  filled-pending =
      append_assoc r.buffer (take n r.file) (drop n r.file)
      ∙ ap (λ l. r.buffer ++ l) (take-drop n r.file)

pub refill_lem :
    (r : VReader)
    → IsReader r
    → header_size ≤ length (pending r)
    → ((refill r).0 ≡ true)
      × (pending (refill r).1 ≡ pending r)
      × IsReader (refill r).1
      × (header_size ≤ length (refill r).1.buffer)
      × ((refill r).1.checksum ≡ r.checksum)
unfolding refill read_file
refill_lem r v h = elim (Bool-cases (ltb (length r.buffer) header_size)) [
  | inr enough ↦ rw enough (refl, refl, v, ground arith, refl)
  | inl few ↦ rw few (elim (Bool-cases r.eof) [
    | inl e ↦ absurd (ground (arith, v.ended e, append-nil r.buffer))
    | inr e ↦ rw e (
        rw v.no_fault
          (elim (Bool-cases
            (ltb (length (r.buffer ++ take (block_size - length r.buffer) r.file)) block_size)) [
              | inl short ↦ rw short (
                ground (
                  arith,
                  filled-length r (block_size - length r.buffer),
                  length-append r.buffer r.file,
                ),
                filled-pending r (block_size - length r.buffer),
                record {
                  no_fault = refl;
                  ended = λ t.
                      drop_all _ r.file
                        (ground (arith, filled-length r (block_size - length r.buffer)));
                },
                ground (
                  arith,
                  filled-length r (block_size - length r.buffer),
                  length-append r.buffer r.file,
                ),
                refl,
              )
              | inr whole ↦ rw whole (
                refl,
                filled-pending r (block_size - length r.buffer),
                record { no_fault = refl; ended = λ t. ground arith },
                ground (
                  arith,
                  filled-length r (block_size - length r.buffer),
                  length-append r.buffer r.file,
                ),
                refl,
              )
            ]))
  ])
]

and_false : (b c : Bool) → c ≡ false → (b && c) ≡ false
and_false b c h = ground arith

short_file :
    {got size : ℕ} → got ≡ min block_size size → ltb got block_size ≡ true → size ≤ block_size
short_file e t = ground arith

not_short :
    {got size n : ℕ} → got ≡ min block_size size → n ≤ size → n ≤ block_size → ltb got n ≡ false
not_short e h b = ground arith

module _ (crc : Checksum) where
  -- The header of the front record.
  pub read_header_lem :
      (slice rest : List ℕ)
      → IsU64 (length slice)
      → read_header crc (record_header crc slice ++ rest) ≡ some (crc.value slice, length slice)
  unfolding read_header record_header encode_fixed32
  read_header_lem slice rest h =
      rw
        (decode_fixed32-encode_fixed32 (mask (crc.value slice))
          (encode_fixed64 (length slice) ++ rest) (mask-lt (crc.value slice)))
        (rw (decode_fixed64-encode_fixed64 (length slice) rest h)
          (rw (unmask-mask (crc.value slice) (crc.value-lt slice)) refl))

  -- The record comes out whole, and what stood behind it is left.
  pub record Comes (slice more : List ℕ) (result : Option (List ℕ) × VReader) : Type 0 where
    pub comes : result.0 ≡ some slice
    pub left : pending result.1 ≡ more
    pub reader : IsReader result.1

  module _ (slice more : List ℕ) (r : VReader) (v : IsReader r)
      (e : pending r ≡ slice ++ more) where
    checks : (b : Bool) → (b && not (crc.value slice == crc.value slice)) ≡ false
    checks b = ground arith

    abbrev n : ℕ
    n = length slice - length r.buffer

    module _ (part : leb (length slice) (length r.buffer) ≡ false) where
      enough : n ≤ length r.file
      enough = ground (arith, length-append r.buffer r.file, length-append slice more, ap length e)

      cut : (r.buffer ++ take n r.file ≡ slice) × (drop n r.file ≡ more)
      cut = cut_right n r.buffer r.file slice more e (ground arith)

      abbrev going : VReader
      going = record r { faults = []; eof = false }

      direct_lem : Comes slice more (
          after_direct crc
            (crc.value slice)
            n
            r.buffer
            going
            (some (take n r.file), drop n r.file, []))
      unfolding after_direct checked
      direct_lem = rw long (
          rw cut.0 (
            rw (checks r.checksum) (record {
              comes = refl;
              left = cut.1;
              reader = record { no_fault = refl; ended = λ t. ground arith };
            })))
        where
          long : ltb (length (take n r.file)) n ≡ false
          long = ground (arith, length-take n r.file, enough)

      block_lem :
          n ≤ block_size
          → Comes slice more (
              after_block crc
                (crc.value slice)
                n
                r.buffer
                going
                (some (take block_size r.file), drop block_size r.file, []))
      unfolding after_block checked
      block_lem h = rw long (
          rw (take-take n block_size r.file h) (
            rw cut.0 (
              rw (checks r.checksum) (record {
                comes = refl;
                left = drop-take n block_size r.file h ∙ cut.1;
                reader = record {
                  no_fault = refl;
                  ended = λ t.
                      drop_all block_size r.file (short_file (length-take block_size r.file) t);
                };
              }))))
        where
          long :
              (ltb (length (take block_size r.file)) block_size
                && ltb (length (take block_size r.file)) n)
              ≡ false
          long = and_false _ _ (not_short (length-take block_size r.file) enough h)

    pub read_payload_lem : Comes slice more (read_payload crc (crc.value slice) (length slice) r)
    unfolding read_payload checked read_file
    read_payload_lem = elim (Bool-cases (leb (length slice) (length r.buffer))) [
      | inl whole ↦
          let (front, back) = cut_left r.buffer r.file slice more e (ground arith) in
          rw whole (
            rw front (
              rw (checks r.checksum) (record {
                comes = refl;
                left = back;
                reader = record { no_fault = v.no_fault; ended = v.ended };
              })))
      | inr part ↦ rw part (elim (Bool-cases r.eof) [
        | inl ended ↦ absurd (ground (arith, enough part, v.ended ended))
        | inr going ↦ rw going (
            rw v.no_fault (elim (Bool-cases (ltb (block_size / 2) n)) [
              | inl large ↦ rw large (direct_lem part)
              | inr small ↦ rw small (block_lem part (ground arith))
            ]))
      ])
    ]
