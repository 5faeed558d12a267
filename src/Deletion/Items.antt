-- ===== src/Deletion/Items.antt =====
-- api/internal/domain/deletion/repository.go: the items that it writes, with their condition expressions,
-- and what the answers of the store mean to it. An item of another kind than it reads does not unmarshal.
use ctech_account.Common.{
  String, Bool, true, false, not, ◌&&◌, Option, none, some, List, [], ◌∷◌, str_eq, if◌then◌else◌,
}
use ctech_account.Action.{Result, ok, err}
use ctech_account.Dynamo.Contract.{Write, Outcome, committed, rejected, Reply, done}
use ctech_account.Deletion.Model.{
  State, is_open, same_state, Request, ServiceStatus, Status, same_status, DeletionError, not_found,
  failed,
}
use ctech_account.Deletion.Rows.{
  Key, request_key, marker_key, service_key, Row, request_row, marker_row, service_row,
}

abbrev pub is_absent : Option Row → Bool
is_absent none = true
is_absent (some r) = false

-- attribute_not_exists(pk)
abbrev pub put_new : Key → Row → Write Key Row
put_new k r = record { key = k; condition = is_absent; effect = λ _. some r }

unfoldable pub create_items : Request → List (Write Key Row)
create_items r =
    put_new (marker_key r.user_id) (marker_row r.id)
    ∷ put_new (request_key r.id) (request_row r)
    ∷ []

-- request_state = :from
abbrev pub in_state : State → Option Row → Bool
in_state from (some (request_row r)) = same_state r.state from
in_state from _ = false

-- request_id = :id
abbrev pub marks : String → Option Row → Bool
marks id (some (marker_row i)) = str_eq i id
marks id _ = false

unfoldable pub put_request : Request → State → Write Key Row
put_request r from = record {
  key = request_key r.id;
  condition = in_state from;
  effect = λ _. some (request_row r);
}

unfoldable pub delete_marker : Request → Write Key Row
delete_marker r = record { key = marker_key r.user_id; condition = marks r.id; effect = λ _. none }

abbrev pub closes : Request → State → Bool
closes r from = is_open from && not (is_open r.state)

unfoldable pub save_items : Request → State → List (Write Key Row)
unfolding put_request delete_marker
save_items r from = put_request r from ∷ (if closes r from then delete_marker r ∷ [] else [])

-- service_status = :from
abbrev pub has_status : Status → Option Row → Bool
has_status from (some (service_row st)) = same_status st.status from
has_status from _ = false

unfoldable pub put_status : ServiceStatus → Status → Write Key Row
put_status st from = record {
  key = service_key st.request_id st.service;
  condition = has_status from;
  effect = λ _. some (service_row st);
}

abbrev pub condition_error : DeletionError → Outcome → Result DeletionError (Unit {0})
condition_error e committed = ok tt
condition_error e (rejected bs) = err e
condition_error e _ = err failed

abbrev pub ignore_existing : Outcome → Result DeletionError (Unit {0})
ignore_existing committed = ok tt
ignore_existing (rejected bs) = ok tt
ignore_existing _ = err failed

abbrev pub found_request : Reply (Option Row) → Result DeletionError Request
found_request (done none) = err not_found
found_request (done (some (request_row r))) = ok r
found_request _ = err failed

abbrev pub found_marker : Reply (Option Row) → Result DeletionError String
found_marker (done none) = err not_found
found_marker (done (some (marker_row id))) = ok id
found_marker _ = err failed

abbrev pub ids_of : List Row → List String
ids_of [] = []
ids_of (request_row r ∷ rs) = r.id ∷ ids_of rs
ids_of (_ ∷ rs) = ids_of rs

abbrev pub found_ids : Reply (List Row) → Result DeletionError (List String)
found_ids (done rs) = ok (ids_of rs)
found_ids _ = err failed

abbrev add_to :
    ServiceStatus
    → Result DeletionError (List ServiceStatus)
    → Result DeletionError (List ServiceStatus)
add_to st (ok l) = ok (st ∷ l)
add_to st (err e) = err e

abbrev pub statuses_of : List Row → Result DeletionError (List ServiceStatus)
statuses_of [] = ok []
statuses_of (service_row st ∷ rs) = add_to st (statuses_of rs)
statuses_of (_ ∷ rs) = err failed

abbrev pub found_statuses : Reply (List Row) → Result DeletionError (List ServiceStatus)
found_statuses (done rs) = statuses_of rs
found_statuses _ = err failed
