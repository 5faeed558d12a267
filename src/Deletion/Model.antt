-- ===== src/Deletion/Model.antt =====
-- api/internal/domain/deletion/model.go. A clock reads nanoseconds since 1970; text of RFC 3339 stands
-- for the second that it names, and "" for `none`. pk and sk are the ids that they are built of.
use ctech_account.Common.{ℕ, ◌*◌, ◌/◌, String, Bool, true, false, Option, none, some, List, ltb}

abbrev pub second : ℕ
second = 1000000000

-- `.Unix()`
abbrev pub unix : ℕ → ℕ
unix t = t / second

-- 7 days
abbrev pub grace_period : ℕ
grace_period = 7 * 24 * 3600 * second

abbrev pub confirm_window : ℕ
confirm_window = 24 * 3600 * second

abbrev pub reminder_lead : ℕ
reminder_lead = 24 * 3600 * second

pub data Scope : Type 0 where
  account service : Scope

pub data State : Type 0 where
  awaiting_confirmation pending cancelled expired locked purging stalled blocked purged : State

abbrev pub same_state : State → State → Bool
same_state awaiting_confirmation awaiting_confirmation = true
same_state pending pending = true
same_state cancelled cancelled = true
same_state expired expired = true
same_state locked locked = true
same_state purging purging = true
same_state stalled stalled = true
same_state blocked blocked = true
same_state purged purged = true
same_state _ _ = false

-- Open
abbrev pub is_open : State → Bool
is_open cancelled = false
is_open expired = false
is_open purged = false
is_open _ = true

pub record Workspace : Type 0 where
  pub id : String
  pub kind : String

abbrev pub Stamp : Type 0
Stamp = Option ℕ

-- ts
abbrev pub ts : ℕ → Stamp
ts t = some (t / second)

-- parseTime: the zero time, which no text gives, lies before all that a clock reads; so does 0.
abbrev pub parse_time : Stamp → ℕ
parse_time none = 0
parse_time (some s) = s * second

-- `t.Before(u)`, where `u` is the time in a text.
abbrev pub before : ℕ → Stamp → Bool
before t u = ltb t (parse_time u)

pub record Request : Type 0 where
  pub id : String
  pub user_id : String
  pub scope : Scope
  pub product : String
  pub state : State
  pub confirm_token_hash : String
  pub cancel_token_hashes : List String
  pub lock_applied : Bool
  pub scheduled_sent : Bool
  pub reminded : Bool
  pub blocked_notified : Bool
  pub organizations : List String
  pub workspaces : List Workspace
  pub blockers : List String
  pub purged_at : Stamp
  pub legal_hold : Bool
  pub legal_hold_by : String
  pub requested_at : Stamp
  pub confirm_by : Stamp
  pub confirmed_at : Stamp
  pub grace_until : Stamp
  pub cancelled_at : Stamp
  pub locked_at : Stamp
  pub updated_at : Stamp
  pub due_state : Option State
  pub next_action_at : Stamp

unfoldable pub set_due : ℕ → Request → Request
set_due at r = record r { due_state = some r.state; next_action_at = ts at }

unfoldable pub clear_due : Request → Request
clear_due r = record r { due_state = none; next_action_at = none }

pub data Status : Type 0 where
  dispatched acked refused : Status

abbrev pub same_status : Status → Status → Bool
same_status dispatched dispatched = true
same_status acked acked = true
same_status refused refused = true
same_status _ _ = false

pub record ServiceStatus : Type 0 where
  pub request_id : String
  pub service : String
  pub status : Status
  pub attempts : ℕ
  pub first_dispatch_at : Stamp
  pub last_dispatch_at : Stamp
  pub acked_at : Stamp
  pub counts : List (String × ℕ)
  pub blockers : List String

-- A participant's message: the request, its result (blocked or not), what it erased, what stops it.
pub record Ack : Type 0 where
  pub request_id : String
  pub is_blocked : Bool
  pub counts : List (String × ℕ)
  pub blockers : List String

pub record User : Type 0 where
  pub email : String
  pub first_name : String
  pub cpf : String

-- The errors of model.go and service.go; `blocked_by` is BlockedError with the blockers' codes, `failed`
-- any other error.
pub data DeletionError : Type 0 where
  not_found open_request unknown_service eligibility_unavailable state_changed : DeletionError
  invalid_token not_cancellable hold_needs_second_admin failed : DeletionError
  blocked_by : List String → DeletionError
