-- ===== src/Deletion/Saga.antt =====
-- api/internal/domain/deletion/service.go: what the participants answer (Ack), how silent ones are asked
-- again (reconcile), and what support does (SetLegalHold, Redrive), with Subject and Services.
use ctech_account.Common.{
  ℕ, ◌+◌, ◌*◌, String, Bool, true, false, not, ◌&&◌, ◌||◌, Option, none, some, List, [], ◌∷◌, ◌++◌,
  map, ltb, ◌==◌, str_eq, if◌then◌else◌,
}
use ctech_account.Action.{Result, ok, err, return, fail, guard, ◌>>=◌, ◌>>◌}
use ctech_account.Dynamo.Calls.{call, try, answer}
use ctech_account.Deletion.Model.{
  Request, State, pending, purging, stalled, same_state, second, ts, parse_time, set_due, clear_due,
  ServiceStatus, dispatched, acked, refused, same_status, Ack, DeletionError, not_found,
  hold_needs_second_admin,
}
use ctech_account.Deletion.Env.{Env}
use ctech_account.Deletion.Repository.{Op, get, get_open, save, list_services, save_service}
use ctech_account.Deletion.Links.{is_state_changed}

abbrev pub ignore_changed : Result DeletionError (Unit {0}) → Result DeletionError (Unit {0})
ignore_changed (ok _) = ok tt
ignore_changed (err e) = if is_state_changed e then ok tt else err e

-- 15 minutes, 1 hour, 6 hours, 24 hours
abbrev pub ack_backoff : ℕ → ℕ
ack_backoff attempts =
    if attempts == 1
    then 900 * second
    else if attempts == 2
    then 3600 * second
    else if attempts == 3
    then 21600 * second
    else 86400 * second

-- `none` is the zero time: at once.
unfoldable pub next_dispatch : ServiceStatus → Option ℕ
next_dispatch st =
    if st.attempts == 0
    then none
    else some (parse_time st.last_dispatch_at + ack_backoff st.attempts)

-- `!now.Before(n)`
abbrev pub is_due : ℕ → Option ℕ → Bool
is_due now none = true
is_due now (some n) = not (ltb now n)

abbrev pub before_time : Option ℕ → Option ℕ → Bool
before_time none none = false
before_time none (some m) = true
before_time (some n) none = false
before_time (some n) (some m) = ltb n m

-- `next.IsZero() || n.Before(next)`
abbrev pub sooner : Option ℕ → Option ℕ → Option ℕ
sooner n none = n
sooner n (some m) = if before_time n (some m) then n else some m

-- What the status rows show: a participant refused; or who is silent, and when the next one is due.
pub data Progress : Type 0 where
  blocked_by_participant : Progress
  waiting : List ServiceStatus → Option ℕ → Progress

unfoldable pub scan : ℕ → List ServiceStatus → List ServiceStatus → Option ℕ → Progress
scan now [] silent next = waiting silent next
scan now (st ∷ sts) silent next = elim st.status [
  | acked ↦ scan now sts silent next
  | refused ↦ blocked_by_participant
  | dispatched ↦
      scan now sts (if is_due now (next_dispatch st) then silent ++ st ∷ [] else silent)
        (if is_due now (next_dispatch st) then next else sooner (next_dispatch st) next)
]

abbrev pub at_or_zero : Option ℕ → ℕ
at_or_zero none = 0
at_or_zero (some n) = n

abbrev pub recorded : Ack → ℕ → ServiceStatus → ServiceStatus
recorded a now st = record st {
  acked_at = ts now;
  counts = a.counts;
  status = if a.is_blocked then refused else acked;
  blockers = if a.is_blocked then st.blockers ++ a.blockers else st.blockers;
}

pub record ServiceOption : Type 0 where
  pub service : String
  pub can_leave : Bool

module _ (env : Env) where
  open env use {db}

  unfoldable pub resend : ℕ → List ServiceStatus → Option ℕ → Op env (Option ℕ)
  resend now [] next = return next
  resend now (st ∷ sts) next = do
    let st' = record st { attempts = st.attempts + 1; last_dispatch_at = ts now }
    saved ← try db (save_service env st' dispatched)
    answer db (ignore_changed saved)
    resend now sts (sooner (next_dispatch st') next)

  unfoldable pub ask_again : Request → ℕ → List ServiceStatus → Option ℕ → Op env (Option ℕ)
  ask_again r now [] next = return next
  ask_again r now (st ∷ silent) next = do
    env.erase r (map (λ (s : ServiceStatus). s.service) (st ∷ silent))
    resend now (st ∷ silent) next

  abbrev pub all_acked : List ServiceStatus → Option ℕ → Bool
  all_acked [] none = true
  all_acked _ _ = false

  unfoldable pub stall : Request → ℕ → Op env Bool
  stall r now = do
    save env (clear_due (record r { state = stalled; updated_at = ts now })) purging
    return false

  unfoldable pub wait_for : Request → ℕ → List ServiceStatus → Option ℕ → Op env Bool
  wait_for r now silent next = do
    later ← ask_again r now silent next
    save env (set_due (at_or_zero later) (record r { updated_at = ts now })) purging
    return false

  unfoldable pub settle : Request → ℕ → Progress → Op env Bool
  settle r now blocked_by_participant = stall r now
  settle r now (waiting silent next) =
      if all_acked silent next then return true else wait_for r now silent next

  -- Whether every participant has acknowledged.
  unfoldable pub reconcile : Request → ℕ → Op env Bool
  reconcile r now = do sts ← list_services env r.id; settle r now (scan now sts [] none)

  -- A lost race only delays to the next due time.
  unfoldable pub make_due : Request → Op env (Unit {0})
  make_due r = do
    due ← call db env.clock
    now ← call db env.clock
    saved ← try db (save env (record (set_due due r) { updated_at = ts now }) purging)
    return tt

  unfoldable pub nudge : Result DeletionError Request → Op env (Unit {0})
  nudge (err e) = return tt
  nudge (ok r) = if same_state r.state purging then make_due r else return tt

  unfoldable pub record_ack : Ack → ServiceStatus → Op env (Unit {0})
  record_ack a st = do
    now ← call db env.clock
    saved ← try db (save_service env (recorded a now st) dispatched)
    answer db (ignore_changed saved)
    r ← try db (get env a.request_id)
    nudge r

  unfoldable pub ack_row : Ack → ServiceStatus → Op env (Unit {0})
  ack_row a st = if not (same_status st.status dispatched) then return tt else record_ack a st

  unfoldable pub ack_in : String → Ack → List ServiceStatus → Op env (Unit {0})
  ack_in service a [] = fail not_found
  ack_in service a (st ∷ sts) =
      let rest = ack_in service a sts in if str_eq st.service service then ack_row a st else rest

  unfoldable pub ack : String → Ack → Op env (Unit {0})
  ack service a = do sts ← list_services env a.request_id; ack_in service a sts

  unfoldable pub subject : String → Op env String
  subject id = do
    r ← get env id
    guard (same_state r.state purging) not_found
    u ← env.user_by_id r.user_id
    return u.cpf

  abbrev pub held : Bool → String → ℕ → Request → Request
  held on admin_id now r = record r {
    legal_hold = on;
    updated_at = ts now;
    legal_hold_by = if on then admin_id else "";
  }

  unfoldable pub save_resumed : Request → State → Op env (Unit {0})
  save_resumed r from = do now ← call db env.clock; save env (set_due now r) from

  unfoldable pub save_hold : Bool → Request → State → Op env (Unit {0})
  save_hold on r from =
      if not on && (same_state r.state pending || same_state r.state purging)
      then save_resumed r from
      else save env r from

  unfoldable pub set_legal_hold : String → String → Bool → Op env (Unit {0})
  set_legal_hold id admin_id on = do
    r ← get env id
    guard (not (not on && (r.legal_hold && str_eq r.legal_hold_by admin_id)))
        hold_needs_second_admin
    now ← call db env.clock
    save_hold on (held on admin_id now r) r.state

  abbrev pub dispatched_again : ℕ → ServiceStatus → ServiceStatus
  dispatched_again now st = record st {
    status = dispatched;
    blockers = [];
    acked_at = none;
    attempts = 0;
    first_dispatch_at = ts now;
    last_dispatch_at = none;
  }

  unfoldable pub redrive_row : ServiceStatus → Bool → ℕ → Op env (Unit {0})
  redrive_row st again now =
      if again then save_service env (dispatched_again now st) refused else return tt

  unfoldable pub redrive_rows : String → ℕ → List ServiceStatus → Op env (Unit {0})
  redrive_rows service now [] = return tt
  redrive_rows service now (st ∷ sts) =
      redrive_row st (str_eq st.service service && same_status st.status refused) now
      >> redrive_rows service now sts

  unfoldable pub resume_purge : Request → ℕ → Op env (Unit {0})
  resume_purge r now =
      if same_state r.state stalled
      then save env (set_due now (record r { state = purging; updated_at = ts now })) stalled
      else return tt

  unfoldable pub redrive : String → String → String → Op env (Unit {0})
  redrive id service admin_id = do
    r ← get env id
    sts ← list_services env id
    now ← call db env.clock
    redrive_rows service now sts
    resume_purge r now

  -- `err != nil && !errors.Is(err, ErrNotFound)`, and whether a request is open.
  abbrev pub busy_if_open : Result DeletionError Request → Result DeletionError Bool
  busy_if_open (ok r) = ok true
  busy_if_open (err not_found) = ok false
  busy_if_open (err e) = err e

  unfoldable pub services_among : Option (List String) → String → Op env (List ServiceOption)
  services_among none u = return []
  services_among (some names) u = do
    found ← try db (get_open env u)
    busy ← answer db (busy_if_open found)
    return (map (λ name. record { service = name; can_leave = not busy }) names)

  unfoldable pub services : String → Op env (List ServiceOption)
  services u = services_among env.service_list u
