-- ===== src/Deletion/Repository.antt =====
-- api/internal/domain/deletion/repository.go: the methods of the repository.
use ctech_account.Common.{ℕ, String, List, [], ◌∷◌}
use ctech_account.Action.{Action, return, ◌>>=◌, ◌>>◌}
use ctech_account.Dynamo.Calls.{read, ask, write}
use ctech_account.Deletion.Model.{
  Request, State, ServiceStatus, Status, unix, DeletionError, open_request, state_changed,
}
use ctech_account.Deletion.Rows.{
  request_key, marker_key, service_key, service_row, due, services_of,
}
use ctech_account.Deletion.Env.{Env}
use ctech_account.Deletion.Items.{
  put_new, create_items, save_items, put_status, condition_error, ignore_existing, found_request,
  found_marker, found_ids, found_statuses,
}

module _ (env : Env) where
  open env use {db}

  abbrev pub Op : Type 0 → Type 0
  Op A = Action db.World DeletionError A

  unfoldable pub create : Request → Op (Unit {0})
  create r = write db (condition_error open_request) (create_items r)

  unfoldable pub get : String → Op Request
  get id = read db found_request (request_key id)

  unfoldable pub get_open : String → Op Request
  get_open u = do id ← read db found_marker (marker_key u); get id

  unfoldable pub save : Request → State → Op (Unit {0})
  save r from = write db (condition_error state_changed) (save_items r from)

  unfoldable pub list_due : State → ℕ → ℕ → Op (List String)
  list_due state now limit = ask db found_ids (due state (unix now) limit)

  unfoldable pub put_services : List ServiceStatus → Op (Unit {0})
  put_services [] = return tt
  put_services (st ∷ sts) =
      write db ignore_existing
        (put_new (service_key st.request_id st.service) (service_row st) ∷ [])
      >> put_services sts

  unfoldable pub list_services : String → Op (List ServiceStatus)
  list_services id = ask db found_statuses (services_of id)

  unfoldable pub save_service : ServiceStatus → Status → Op (Unit {0})
  save_service st from = write db (condition_error state_changed) (put_status st from ∷ [])
