-- ===== src/Status.antt =====
-- include/leveldb/status.h: the outcome of an operation. A null `state_` is `ok`; otherwise the
-- state holds a code and the bytes of a message.
use distributed_system_based.Base.{Bool, true, false}
use Prim.Native.String.{String}

pub data Code : Type 0 where
  not_found corruption not_supported invalid_argument io_error : Code

pub data Status : Type 0 where
  ok : Status
  error : Code → String → Status

abbrev pub is_ok : Status → Bool
is_ok ok = true
is_ok (error c msg) = false

abbrev pub is_not_found : Status → Bool
is_not_found (error not_found msg) = true
is_not_found _ = false
