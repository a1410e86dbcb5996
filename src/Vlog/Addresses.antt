-- ===== src/Vlog/Addresses.antt =====
-- Addresses in the value logs, and what can be fetched through them over time.
use distributed_system_based.Base.{
  ℕ, ◌^◌, ◌<◌, ◌≡◌, ◌∙◌, arith, [], ◌++◌, some, append_assoc, append-nil,
}
use distributed_system_based.Base.Assoc.{lookup}
use distributed_system_based.Coding.{IsU64, put_varint64, encode_varint64}
use distributed_system_based.Coding.Varint.{get_varint64-encode_varint64}
use distributed_system_based.Vlog.{VlogInfo, get}
use distributed_system_based.Vlog.Manager.{
  VlogManager, fetch_value_from_vlog, encode_address, get_from,
}

address_shape :
    (n offset size : ℕ)
    → encode_address n offset size
      ≡ encode_varint64 n ++ (encode_varint64 offset ++ (encode_varint64 size ++ []))
unfolding encode_address put_varint64
address_shape n offset size = simp (append-nil, append_assoc)

-- An address of 64-bit numbers whose log is there leads to the fetcher of that log.
pub fetch-get_from :
    (m : VlogManager) (n offset size : ℕ) (info : VlogInfo)
    → IsU64 n
    → IsU64 offset
    → IsU64 size
    → lookup n m.logs ≡ some info
    → fetch_value_from_vlog m (encode_address n offset size) ≡ get_from m n info offset size
unfolding fetch_value_from_vlog
fetch-get_from m n offset size info hn ho hs e = rw (address_shape n offset size) (
    rw (get_varint64-encode_varint64 n (encode_varint64 offset ++ (encode_varint64 size ++ [])) hn)
      (rw (get_varint64-encode_varint64 offset (encode_varint64 size ++ []) ho)
        (rw (get_varint64-encode_varint64 size [] hs) (rw e))))

-- Where the number of the log has at most 32 bits, a fetch by the address is `Get` of that log at
-- the offset and the size.
pub fetch-encode_address :
    (m : VlogManager) (n offset size : ℕ) (info : VlogInfo)
    → n < 2 ^ 32
    → IsU64 offset
    → IsU64 size
    → lookup n m.logs ≡ some info
    → fetch_value_from_vlog m (encode_address n offset size) ≡ get info offset size
fetch-encode_address m n offset size info hn ho hs e =
    fetch-get_from m n offset size info (omega arith) ho hs e ∙ unfold get_from in ground arith
