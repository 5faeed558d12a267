-- ===== src/Deletion/Rows.antt =====
-- The table account_deletion_requests of api/internal/domain/deletion/repository.go.
use ctech_account.Common.{
  ◌≡◌, ◌≢◌, ◌⊎◌, ℕ, String, Bool, true, false, ◌&&◌, Option, some, arith, str_eq, str_eq_iff, leb,
}
use ctech_account.Deletion.Model.{Request, ServiceStatus, State, same_state}

-- REQ#id/META, SUB#user/OPEN and REQ#id/SVC#service.
pub data Key : Type 0 where
  request_key : String → Key
  marker_key : String → Key
  service_key : String → String → Key

-- A marker holds the id of the user's open request.
pub data Row : Type 0 where
  request_row : Request → Row
  marker_row : String → Row
  service_row : ServiceStatus → Row

abbrev pub same_key : Key → Key → Bool
same_key (request_key i) (request_key j) = str_eq i j
same_key (marker_key u) (marker_key v) = str_eq u v
same_key (service_key i s) (service_key j t) = str_eq i j && str_eq s t
same_key _ _ = false

pub same_key_iff : (a b : Key) → (same_key a b ≡ true) × (a ≡ b) ⊎ (same_key a b ≡ false) × (a ≢ b)
same_key_iff (request_key i) (request_key j) = ground (arith, str_eq_iff i j)
same_key_iff (marker_key u) (marker_key v) = ground (arith, str_eq_iff u v)
same_key_iff (service_key i s) (service_key j t) = ground (arith, str_eq_iff i j, str_eq_iff s t)
same_key_iff _ _ = ground arith

-- The index gsi_state_due up to a second, and the status rows of a request.
pub data Query : Type 0 where
  due : State → ℕ → ℕ → Query
  services_of : String → Query

abbrev due_by : Option State → Option ℕ → State → ℕ → Bool
due_by (some s) (some at) state now = same_state s state && leb at now
due_by _ _ state now = false

abbrev pub select : Query → Key → Row → Bool
select (due state now limit) k (request_row r) = due_by r.due_state r.next_action_at state now
select (due state now limit) k _ = false
select (services_of id) (service_key i s) r = str_eq id i
select (services_of id) _ r = false
