-- ===== src/Wire.antt =====
-- The request lines that distributed/slave.cc sends to the master, without the line feed.
pub mod Numbers
pub mod Requests
use distributed_system_based.Base.{ℕ, List, [], ◌∷◌, ◌++◌}
use distributed_system_based.Text.{codes, to_string}
use distributed_system_based.Master.{Address, show_address}

unfoldable pub put_request : List ℕ → Address → List ℕ
put_request key a = codes "PUT_ADDR " ++ (key ++ (codes " " ++ show_address a))

unfoldable pub get_request : List ℕ → List ℕ
get_request key = codes "GET_ADDR " ++ key

unfoldable pub gc_get_request : List ℕ → List ℕ
gc_get_request key = codes "GCGET_ADDR " ++ key

unfoldable pub delete_request : List ℕ → List ℕ
delete_request key = codes "DELETE_ADDR " ++ key

unfoldable pub update_request : List ℕ → Address → Address → List ℕ
update_request key old new =
    codes "UPDATE_ADDR "
    ++ (key ++ (codes " " ++ (show_address old ++ (codes " " ++ show_address new))))

unfoldable pub scan_request : List ℕ → List ℕ → ℕ → List ℕ
scan_request start_key end_key worker_id =
    codes "SCAN_ADDR "
    ++ (start_key ++ (codes " " ++ (end_key ++ (codes " " ++ to_string worker_id))))
