-- ===== src/Deletion/Worker.antt =====
-- api/internal/domain/deletion/service.go: ProcessDue, step, and who takes part.
use ctech_account.Common.{
  ℕ, ◌+◌, ◌*◌, String, Bool, true, false, not, ◌&&◌, Option, none, some, List, [], ◌∷◌, map,
  if◌then◌else◌,
}
use ctech_account.Action.{Result, ok, err, return, fail, ◌>>=◌, ◌>>◌}
use ctech_account.Dynamo.Calls.{call, try, answer}
use ctech_account.Deletion.Model.{
  Request, Scope, account, service, State, awaiting_confirmation, pending, cancelled, locked,
  purging, blocked, purged, same_state, second, ts, before, set_due, clear_due, Workspace,
  ServiceStatus, dispatched, DeletionError, unknown_service,
}
use ctech_account.Deletion.Env.{Env}
use ctech_account.Deletion.Repository.{Op, get, save, list_due, put_services}
use ctech_account.Deletion.Links.{
  link_scheduled, link_reminder, link_blocked, send_cancel_link, apply_lock,
}
use ctech_account.Deletion.Opening.{expired_at, is_empty, finish_cancel}
use ctech_account.Deletion.Saga.{reconcile}

abbrev pub due_batch : ℕ
due_batch = 25

-- 1 hour
abbrev pub legal_hold_recheck : ℕ
legal_hold_recheck = 3600 * second

abbrev pub first_dispatch : Request → ℕ → String → ServiceStatus
first_dispatch r now name = record {
  request_id = r.id;
  service = name;
  status = dispatched;
  attempts = 1;
  first_dispatch_at = ts now;
  last_dispatch_at = ts now;
  acked_at = none;
  counts = [];
  blockers = [];
}

abbrev pub due_in : Option State → State → Bool
due_in none state = false
due_in (some s) state = same_state s state

module _ (env : Env) where
  open env use {db}

  unfoldable pub participants_for : Request → List String
  participants_for r = elim r.scope [ service ↦ r.product ∷ [] | account ↦ env.participants ]

  unfoldable pub assess_with :
      Option (String → String → Op env (List String))
      → Request
      → Op env (List Workspace × List String)
  assess_with none r = fail unknown_service
  assess_with (some check) r = do blockers ← check r.user_id r.product; return ([], blockers)

  unfoldable pub assess_leaving : Request → Op env (List Workspace × List String)
  assess_leaving r = assess_with env.check_service r

  -- What stops the request at the end of grace, and which workspaces go with it.
  unfoldable pub assess_in : Scope → Request → Op env (List Workspace × List String)
  assess_in service r = assess_leaving r
  assess_in account r = env.assess_ownership r.user_id

  unfoldable pub hold_off : Request → ℕ → Op env (Unit {0})
  hold_off r now = save env (set_due (now + legal_hold_recheck) r) r.state

  unfoldable pub block : Request → ℕ → List String → Op env (Unit {0})
  block r now codes =
      save env (set_due now (record r { state = blocked; updated_at = ts now; blockers = codes }))
        pending

  unfoldable pub lock_in : Request → ℕ → List Workspace → Op env (Unit {0})
  lock_in r now sole =
      save env
        (set_due now (record r {
          state = locked;
          locked_at = ts now;
          updated_at = ts now;
          workspaces = sole;
          organizations = map (λ (w : Workspace). w.id) sole;
        }))
        pending

  unfoldable pub end_grace : Request → ℕ → Op env (Unit {0})
  end_grace r now = do
    found ← assess_in r.scope r
    if is_empty found.1 then lock_in r now found.0 else block r now found.1

  unfoldable pub grace_over : Request → ℕ → Op env (Unit {0})
  grace_over r now = if r.legal_hold then hold_off r now else end_grace r now

  -- The error of a method that also answers with the request as it leaves it.
  unfoldable pub error_of : Op env (Request × Result DeletionError (Unit {0})) → Op env (Unit {0})
  error_of m = do done ← m; answer db done.1

  unfoldable pub step_notified : Request → ℕ → Op env (Unit {0})
  step_notified r now =
      if not r.reminded && before now r.grace_until
      then error_of (send_cancel_link env r link_reminder)
      else if not (before now r.grace_until)
      then grace_over r now
      else return tt

  unfoldable pub step_pending : Request → ℕ → Op env (Unit {0})
  step_pending r now =
      if not r.lock_applied
      then error_of (apply_lock env r)
      else if not r.scheduled_sent
      then error_of (send_cancel_link env r link_scheduled)
      else step_notified r now

  unfoldable pub dispatch : Request → ℕ → List String → Op env (Unit {0})
  dispatch r now [] = return tt
  dispatch r now (p ∷ ps) = put_services env (map (first_dispatch r now) (p ∷ ps))

  abbrev pub is_some : {A : Type 0} → Option A → Bool
  is_some none = false
  is_some (some a) = true

  abbrev pub start_purging : Request → ℕ → Request
  start_purging r now =
      if not (not (is_some env.purge) && is_empty (participants_for r))
      then set_due now (record r { state = purging; updated_at = ts now })
      else clear_due (record r { state = purging; updated_at = ts now })

  -- The lock is asserted again: a cancel may have raced the end of grace.
  unfoldable pub step_locked : Request → ℕ → Op env (Unit {0})
  step_locked r now = do
    env.lock r
    env.erase r []
    dispatch r now (participants_for r)
    save env (start_purging r now) locked

  unfoldable pub purge_done : Request → ℕ → Op env (Unit {0})
  purge_done r now =
      save env (clear_due (record r { state = purged; purged_at = ts now; updated_at = ts now }))
        purging

  -- Without a purger or an unlinker the request rests.
  unfoldable pub finish_with :
      Option (Request → Op env (Unit {0})) → Request → ℕ → Op env (Unit {0})
  finish_with none r now = save env (clear_due r) purging
  finish_with (some finish) r now = finish r >> purge_done r now

  unfoldable pub finish_in : Scope → Request → ℕ → Op env (Unit {0})
  finish_in service r now = finish_with env.finish_unlink r now
  finish_in account r now = finish_with env.purge r now

  unfoldable pub all_done : Request → ℕ → Op env Bool
  all_done r now = if is_empty (participants_for r) then return true else reconcile env r now

  unfoldable pub purge_step : Request → ℕ → Op env (Unit {0})
  purge_step r now = do done ← all_done r now; if done then finish_in r.scope r now else return tt

  unfoldable pub step_purging : Request → ℕ → Op env (Unit {0})
  step_purging r now = if r.legal_hold then hold_off r now else purge_step r now

  unfoldable pub step_in : State → Request → ℕ → Op env (Unit {0})
  step_in awaiting_confirmation r now = do
    at ← call db env.clock
    save env (expired_at at r) awaiting_confirmation
  step_in cancelled r now = error_of (finish_cancel env r)
  step_in pending r now = step_pending r now
  step_in blocked r now = error_of (send_cancel_link env r link_blocked)
  step_in locked r now = step_locked r now
  step_in purging r now = step_purging r now
  step_in _ r now = return tt

  unfoldable pub step : Request → ℕ → Op env (Unit {0})
  step r now = step_in r.state r now

  -- The index is eventually consistent: the request is read again.
  unfoldable pub step_if_due : State → ℕ → Request → Op env (Unit {0})
  step_if_due state now r =
      if due_in r.due_state state && not (before now r.next_action_at)
      then step r now
      else return tt

  -- An error is only logged.
  unfoldable pub process_one : State → ℕ → String → Op env (Unit {0})
  process_one state now id = do r ← get env id; step_if_due state now r

  unfoldable pub process_ids : State → ℕ → List String → Op env (Unit {0})
  process_ids state now [] = return tt
  process_ids state now (id ∷ ids) = do
    done ← try db (process_one state now id)
    process_ids state now ids

  unfoldable pub process_listed : State → ℕ → Result DeletionError (List String) → Op env (Unit {0})
  process_listed state now (err e) = return tt
  process_listed state now (ok ids) = process_ids state now ids

  unfoldable pub process_states : ℕ → List State → Op env (Unit {0})
  process_states now [] = return tt
  process_states now (state ∷ states) = do
    ids ← try db (list_due env state now due_batch)
    process_listed state now ids
    process_states now states

  unfoldable pub process_due : Op env (Unit {0})
  process_due = do
    now ← call db env.clock
    process_states now
        (awaiting_confirmation ∷ pending ∷ blocked ∷ cancelled ∷ locked ∷ purging ∷ [])
