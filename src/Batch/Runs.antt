-- ===== src/Batch/Runs.antt =====
-- Runs of small batches.
use distributed_system_based.Base.{◌+◌, length, ℕ, ◌≡◌, refl, arith, List, [], ◌∷◌, some}
use distributed_system_based.Coding.{encode_varint32, encode_fixed32}
use distributed_system_based.Coding.Slices.{length_prefixed}
use distributed_system_based.Text.{codes}
use distributed_system_based.Status.{ok}
use distributed_system_based.Batch.{
  Update, put, delete, cleared, batch_put, iterate, iterate_addresses,
}
use distributed_system_based.Batch.Contents.{
  record_body, IsBatch, cleared-IsBatch, batch_put-iterate,
}
use distributed_system_based.Batch.Addresses.{located, Standing, iterate_addresses-Standing}

two_updates : List Update
two_updates = put (codes "a") (codes "bc") ∷ delete (codes "d") ∷ []

-- The bytes of the two updates behind a blank sequence number.
two_records : List ℕ
two_records =
    0 ∷ 0 ∷ 0 ∷ 0 ∷ 0 ∷ 0 ∷ 0 ∷ 0 ∷ 2 ∷ 0 ∷ 0 ∷ 0 ∷ 1 ∷ 1 ∷ 97 ∷ 2 ∷ 98 ∷ 99 ∷ 0 ∷ 1 ∷ 100 ∷ []

batch_put-iterate_example :
    (rep' : List ℕ) × (batch_put cleared (codes "key") (codes "value") ≡ some rep')
    × (iterate rep'
        ≡ some (record { calls = put (codes "key") (codes "value") ∷ []; found = 1; status = ok }))
batch_put-iterate_example =
    batch_put-iterate cleared [] cleared-IsBatch (codes "key") (codes "value") (omega arith)
      (omega arith) (omega arith)

two_updates-IsBatch : IsBatch two_records two_updates
unfolding two_records two_updates record_body length_prefixed encode_varint32 encode_fixed32
two_updates-IsBatch = record {
  front = 0 ∷ 0 ∷ 0 ∷ 0 ∷ 0 ∷ 0 ∷ 0 ∷ 0 ∷ [];
  front_length = refl;
  shape = refl;
  few = omega arith;
  fits = omega arith;
}

iterate_addresses-Standing_example :
    (iterate_addresses 5 100 two_records
      ≡ some (
        record { calls = located 5 112 two_updates; found = 2; status = ok },
        100 + length two_records,
      ))
    × Standing two_records 12 two_updates
unfolding two_updates
iterate_addresses-Standing_example =
    iterate_addresses-Standing two_records two_updates 5 100 two_updates-IsBatch
