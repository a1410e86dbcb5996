-- ===== src/Master/Runs.antt =====
-- Runs of the commands over a small store.
use distributed_system_based.Base.{ℕ, ◌≡◌, ◌≢◌, ap, refl, arith, List, some}
use distributed_system_based.Text.{codes}
use distributed_system_based.Wire.{put_request, get_request, delete_request, update_request}
use distributed_system_based.Wire.Numbers.{FitsU64}
use distributed_system_based.Wire.Requests.{IsKey, process-update_request}
use distributed_system_based.Master.{Address, encoded, update_addr, process_worker_command}
use distributed_system_based.Master.Database.{hit}
use distributed_system_based.Lsm.AddressStore.{
  delete_key, make_room_for_write, put_address, add_next,
}
use distributed_system_based.Lsm.AddressStore.Fresh.{
  fresh_db, fresh_laws, fresh, fresh-Room_one, fresh-Healthy, fresh-miss, filled, filled-Room_one,
  filled-Healthy, filled-hit,
}
use distributed_system_based.Master.Commands.{
  length-encoded, address_reply, put-get, delete-get, update-refused, update-get, update-revives,
}

abbrev here : Address
here = record { vlog_numb = 1; offset = 12; size = 30 }

abbrev there : Address
there = record { vlog_numb = 2; offset = 4096; size = 30 }

here-FitsU64 : FitsU64 here
here-FitsU64 = omega arith

there-FitsU64 : FitsU64 there
there-FitsU64 = omega arith

a-IsKey : IsKey (codes "a")
a-IsKey = record { nonempty = ground arith; no_space = ground arith }

b-IsKey : IsKey (codes "b")
b-IsKey = record { nonempty = ground arith; no_space = ground arith }

a-b : codes "a" ≢ codes "b"
a-b = ground arith

here-there : here ≢ there
here-there e = ground (arith, ap (λ (a : Address). a.vlog_numb) e)

abbrev answer : fresh_db.State → List ℕ → List ℕ
answer s line = (process_worker_command fresh_db s line).0

abbrev after : fresh_db.State → List ℕ → fresh_db.State
after s line = (process_worker_command fresh_db s line).1

abbrev holds_a : fresh_db.State
holds_a = filled (codes "a") (encoded here)

a_room : fresh_laws.Room holds_a 1
a_room = filled-Room_one (codes "a") (encoded here) (omega arith) (length-encoded here)

a_healthy : fresh_laws.Healthy holds_a
a_healthy = filled-Healthy (codes "a") (encoded here) (omega arith) (length-encoded here)

a_known : fresh_db.get_address holds_a (codes "a") ≡ hit (encoded here)
a_known = filled-hit (codes "a") (encoded here) (omega arith) (length-encoded here)

process-update_request_example :
    process_worker_command fresh_db fresh (update_request (codes "a") here there)
    ≡ update_addr fresh_db fresh (some (codes "a", here, there))
process-update_request_example =
    process-update_request fresh_db fresh (codes "a") here there a-IsKey here-FitsU64 there-FitsU64

put-get_example :
    (answer fresh (put_request (codes "a") here) ≡ codes "STORED\r\n")
    × (answer (after fresh (put_request (codes "a") here)) (get_request (codes "a"))
        ≡ address_reply here)
    × (answer (after fresh (put_request (codes "a") here)) (get_request (codes "b"))
        ≡ answer fresh (get_request (codes "b")))
put-get_example =
    put-get fresh_db fresh fresh_laws fresh-Room_one (codes "a") (codes "b") here a-IsKey b-IsKey
      (omega arith) (omega arith) a-b here-FitsU64
      (fresh_laws.put-Healthy fresh (codes "a") (encoded here) fresh-Healthy).0

delete-get_example :
    (answer holds_a (delete_request (codes "a")) ≡ codes "DELETED\r\n")
    × (answer (after holds_a (delete_request (codes "a"))) (get_request (codes "a"))
        ≡ codes "NOT_FOUND\r\n")
    × (answer (after holds_a (delete_request (codes "a"))) (get_request (codes "b"))
        ≡ answer holds_a (get_request (codes "b")))
unfolding delete_key make_room_for_write put_address add_next
delete-get_example =
    delete-get fresh_db holds_a fresh_laws a_room (codes "a") (codes "b") a-IsKey b-IsKey
      (omega arith) (omega arith) a-b refl

update-refused_example :
    process_worker_command fresh_db holds_a (update_request (codes "a") there here)
    ≡ (codes "ERROR: Address changed, CAS failed\r\n", holds_a)
update-refused_example =
    update-refused fresh_db holds_a (codes "a") here there here a-IsKey here-FitsU64 there-FitsU64
      here-FitsU64 a_known here-there

update-get_example :
    (answer holds_a (update_request (codes "a") here there) ≡ codes "UPDATED\r\n")
    × (answer (after holds_a (update_request (codes "a") here there)) (get_request (codes "a"))
        ≡ address_reply there)
update-get_example =
    update-get fresh_db holds_a fresh_laws a_room (codes "a") here there a-IsKey (omega arith)
      here-FitsU64 there-FitsU64 a_known
      (fresh_laws.put-Healthy holds_a (codes "a") (encoded there) a_healthy).0

update-revives_example :
    (answer fresh (update_request (codes "a") here there) ≡ codes "UPDATED\r\n")
    × (answer (after fresh (update_request (codes "a") here there)) (get_request (codes "a"))
        ≡ address_reply there)
update-revives_example =
    update-revives fresh_db fresh fresh_laws fresh-Room_one (codes "a") here there a-IsKey
      (omega arith) here-FitsU64 there-FitsU64 (fresh-miss (codes "a") (omega arith))
      (fresh_laws.put-Healthy fresh (codes "a") (encoded there) fresh-Healthy).0
