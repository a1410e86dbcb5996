-- ===== src/Wire/Numbers.antt =====
-- The addresses of the protocol are read back as they were written.
use distributed_system_based.Base.{
  ℕ, ◌≡◌, sym, refl, List, [], ◌∷◌, ◌++◌, some, append_assoc, append-nil,
}
use distributed_system_based.Coding.{IsU64, put_varint64, encode_varint64}
use distributed_system_based.Coding.Varint.{get_varint64-encode_varint64}
use distributed_system_based.Text.{to_string}
use distributed_system_based.Text.Numbers.{EndsNumber, extract_u64-to_string, extract_u64-blank}
use distributed_system_based.Vlog.Manager.{encode_address}
use distributed_system_based.Master.{
  Address, decode_address, encoded, extract_address, show_address,
}

-- The three fields are `uint64_t`.
pub record FitsU64 (a : Address) : Type 0 where
  pub vlog_fits : IsU64 a.vlog_numb
  pub offset_fits : IsU64 a.offset
  pub size_fits : IsU64 a.size

-- An address that was written in its stored form decodes to itself.
pub decode_address-encoded : (a : Address) → FitsU64 a → decode_address (encoded a) ≡ some a
unfolding decode_address encode_address put_varint64
decode_address-encoded a h =
    rw
      (sym (
        append-nil
          ((encode_varint64 a.vlog_numb ++ encode_varint64 a.offset) ++ encode_varint64 a.size)))
      (simp (
        append_assoc,
        get_varint64-encode_varint64 a.vlog_numb
            (encode_varint64 a.offset ++ (encode_varint64 a.size ++ [])) h.vlog_fits,
        get_varint64-encode_varint64 a.offset (encode_varint64 a.size ++ []) h.offset_fits,
        get_varint64-encode_varint64 a.size [] h.size_fits,
      ))

-- `>>` reads the three numbers of a written address, each below 2^64, behind one blank, up to what
-- follows it, which does not begin with a digit.
pub extract_address-show_address :
    (a : Address) (rest : List ℕ)
    → FitsU64 a
    → EndsNumber rest
    → extract_address (32 ∷ (show_address a ++ rest)) ≡ some (a, rest)
unfolding extract_address show_address
extract_address-show_address a rest h ends = simp (
  append_assoc,
  extract_u64-blank,
  extract_u64-to_string a.vlog_numb (32 ∷ (to_string a.offset ++ (32 ∷ (to_string a.size ++ rest))))
      h.vlog_fits refl,
  extract_u64-to_string a.offset (32 ∷ (to_string a.size ++ rest)) h.offset_fits refl,
  extract_u64-to_string a.size rest h.size_fits ends,
)
