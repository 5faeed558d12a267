-- ===== src/Deletion/Lifecycle/Worker.antt =====
-- Proofs on ProcessDue and step of api/internal/domain/deletion/service.go.
use ctech_account.Common.{◌≡◌, refl, sym, ℕ, String, Option, none, some, List, [], ◌∷◌, arith}
use ctech_account.Action.{Result, ok, err}
use ctech_account.Action.Keeps.{keeps_rules}
use ctech_account.Dynamo.Tables
use ctech_account.Deletion.Model.{
  Request, Scope, account, service, State, awaiting_confirmation, pending, cancelled, expired,
  locked, purging, stalled, blocked, purged, set_due, clear_due, Workspace, DeletionError,
}
use ctech_account.Deletion.Env.{Env}
use ctech_account.Deletion.Repository.{Op, save}
use ctech_account.Deletion.Worker
use ctech_account.Deletion.Lifecycle.Diagram.{documented}
use ctech_account.Deletion.Lifecycle.Links.{send_cancel_link-Leads, apply_lock-Leads}
use ctech_account.Deletion.Lifecycle.Opening.{finish_cancel-Leads}
use ctech_account.Deletion.Lifecycle.Saga.{reconcile-Leads}
use ctech_account.Deletion.Lifecycle.Waiting.{hold_off-Leads, error_of-Leads}
use ctech_account.Deletion.Lifecycle.Methods.{
  K, save-Leads, save_same-Leads, get-Leads, list_due-Leads, put_services-Leads, clock-Leads,
  lock-Leads, erase-Leads, assess-Leads, try-Leads,
}

module _ (env : Env) (j : String) (s : Option State) where
  open env use {db}

  assess_with-Leads :
      (check : Option (String → String → Op env (List String))) (r : Request)
      → ((f : String → String → Op env (List String))
          → check ≡ some f
          → K env documented j s (f r.user_id r.product))
      → K env documented j s (Worker.assess_with env check r)
  unfolding Worker.assess_with
  assess_with-Leads none r k = search (keeps_rules)
  assess_with-Leads (some f) r k =
      let q : K env documented j s (f r.user_id r.product) = k f refl in search (keeps_rules)

  assess_in-Leads :
      (scope : Scope) (r : Request) → K env documented j s (Worker.assess_in env scope r)
  unfolding Worker.assess_in Worker.assess_leaving
  assess_in-Leads account r = assess-Leads env documented j s r.user_id
  assess_in-Leads service r =
      assess_with-Leads env.check_service r
        (λ f e. Tables.Keeps-Silent db _ _ (env.check_silent f e r.user_id r.product))

  block-Leads :
      (r : Request) (now : ℕ) (codes : List String)
      → K env documented j s (Worker.block env r now codes)
  unfolding Worker.block set_due
  block-Leads r now codes = save-Leads env documented j s _ pending refl

  lock_in-Leads :
      (r : Request) (now : ℕ) (sole : List Workspace)
      → K env documented j s (Worker.lock_in env r now sole)
  unfolding Worker.lock_in set_due
  lock_in-Leads r now sole = save-Leads env documented j s _ pending refl

  end_grace-Leads : (r : Request) (now : ℕ) → K env documented j s (Worker.end_grace env r now)
  unfolding Worker.end_grace
  end_grace-Leads r now = search (keeps_rules, assess_in-Leads, lock_in-Leads, block-Leads)

  grace_over-Leads : (r : Request) (now : ℕ) → K env documented j s (Worker.grace_over env r now)
  unfolding Worker.grace_over
  grace_over-Leads r now = search (keeps_rules, hold_off-Leads, end_grace-Leads)

  step_notified-Leads :
      (r : Request) (now : ℕ) → K env documented j s (Worker.step_notified env r now)
  unfolding Worker.step_notified
  step_notified-Leads r now =
      search (keeps_rules, error_of-Leads, send_cancel_link-Leads, grace_over-Leads)

  step_pending-Leads :
      (r : Request) (now : ℕ)
      → r.state ≡ pending
      → K env documented j s (Worker.step_pending env r now)
  unfolding Worker.step_pending
  step_pending-Leads r now e =
      search
        (keeps_rules, error_of-Leads, send_cancel_link-Leads, apply_lock-Leads, step_notified-Leads)

  dispatch-Leads :
      (r : Request) (now : ℕ) (ps : List String)
      → K env documented j s (Worker.dispatch env r now ps)
  unfolding Worker.dispatch
  dispatch-Leads r now [] = search (keeps_rules)
  dispatch-Leads r now (p ∷ ps) = put_services-Leads env documented j s _

  start_purging-state : (r : Request) (now : ℕ) → (Worker.start_purging env r now).state ≡ purging
  unfolding set_due clear_due
  start_purging-state r now = ground arith

  save_purging-Leads :
      (r : Request) (now : ℕ)
      → K env documented j s (save env (Worker.start_purging env r now) locked)
  save_purging-Leads r now =
      save-Leads env documented j s _ locked (rw (start_purging-state r now) refl)

  step_locked-Leads : (r : Request) (now : ℕ) → K env documented j s (Worker.step_locked env r now)
  unfolding Worker.step_locked
  step_locked-Leads r now =
      search (keeps_rules, lock-Leads, erase-Leads, dispatch-Leads, save_purging-Leads)

  purge_done-Leads : (r : Request) (now : ℕ) → K env documented j s (Worker.purge_done env r now)
  unfolding Worker.purge_done clear_due
  purge_done-Leads r now = save-Leads env documented j s _ purging refl

  finish_with-Leads :
      (finish : Option (Request → Op env (Unit {0}))) (r : Request) (now : ℕ)
      → r.state ≡ purging
      → ((f : Request → Op env (Unit {0})) → finish ≡ some f → K env documented j s (f r))
      → K env documented j s (Worker.finish_with env finish r now)
  unfolding Worker.finish_with clear_due
  finish_with-Leads none r now e k = save_same-Leads env documented j s _ purging (sym e)
  finish_with-Leads (some f) r now e k =
      let q : K env documented j s (f r) = k f refl in search (keeps_rules, purge_done-Leads)

  finish_in-Leads :
      (scope : Scope) (r : Request) (now : ℕ)
      → r.state ≡ purging
      → K env documented j s (Worker.finish_in env scope r now)
  unfolding Worker.finish_in
  finish_in-Leads account r now e =
      finish_with-Leads env.purge r now e
        (λ f p. Tables.Keeps-Silent db _ _ (env.purge_silent f p r))
  finish_in-Leads service r now e =
      finish_with-Leads env.finish_unlink r now e
        (λ f p. Tables.Keeps-Silent db _ _ (env.finish_silent f p r))

  all_done-Leads :
      (r : Request) (now : ℕ) → r.state ≡ purging → K env documented j s (Worker.all_done env r now)
  unfolding Worker.all_done
  all_done-Leads r now e = search (keeps_rules, reconcile-Leads env documented refl)

  purge_step-Leads :
      (r : Request) (now : ℕ)
      → r.state ≡ purging
      → K env documented j s (Worker.purge_step env r now)
  unfolding Worker.purge_step
  purge_step-Leads r now e = search (keeps_rules, all_done-Leads, finish_in-Leads)

  step_purging-Leads :
      (r : Request) (now : ℕ)
      → r.state ≡ purging
      → K env documented j s (Worker.step_purging env r now)
  unfolding Worker.step_purging
  step_purging-Leads r now e = search (keeps_rules, hold_off-Leads, purge_step-Leads)

  step_in-Leads :
      (t : State) (r : Request) (now : ℕ)
      → r.state ≡ t
      → K env documented j s (Worker.step_in env t r now)
  unfolding Worker.step_in clear_due
  step_in-Leads awaiting_confirmation r now e = search (keeps_rules, clock-Leads, save-Leads)
  step_in-Leads pending r now e = step_pending-Leads r now e
  step_in-Leads cancelled r now e = search (error_of-Leads, finish_cancel-Leads)
  step_in-Leads expired r now e = search (keeps_rules)
  step_in-Leads locked r now e = step_locked-Leads r now
  step_in-Leads purging r now e = step_purging-Leads r now e
  step_in-Leads stalled r now e = search (keeps_rules)
  step_in-Leads blocked r now e = search (error_of-Leads, send_cancel_link-Leads)
  step_in-Leads purged r now e = search (keeps_rules)

  step_if_due-Leads :
      (t : State) (now : ℕ) (r : Request) → K env documented j s (Worker.step_if_due env t now r)
  unfolding Worker.step_if_due Worker.step
  step_if_due-Leads t now r =
      let k : K env documented j s (Worker.step_in env r.state r now) =
        step_in-Leads r.state r now refl in
      search (keeps_rules)

  process_one-Leads :
      (t : State) (now : ℕ) (id : String) → K env documented j s (Worker.process_one env t now id)
  unfolding Worker.process_one
  process_one-Leads t now id = search (keeps_rules, get-Leads, step_if_due-Leads)

  process_ids-Leads :
      (t : State) (now : ℕ) (ids : List String)
      → K env documented j s (Worker.process_ids env t now ids)
  unfolding Worker.process_ids
  process_ids-Leads t now [] = search (keeps_rules)
  process_ids-Leads t now (id ∷ ids) =
      let rest : K env documented j s (Worker.process_ids env t now ids) =
        process_ids-Leads t now ids in
      search (keeps_rules, try-Leads, process_one-Leads)

  process_listed-Leads :
      (t : State) (now : ℕ) (ids : Result DeletionError (List String))
      → K env documented j s (Worker.process_listed env t now ids)
  unfolding Worker.process_listed
  process_listed-Leads t now (err e) = search (keeps_rules)
  process_listed-Leads t now (ok ids) = process_ids-Leads t now ids

  process_states-Leads :
      (now : ℕ) (ts : List State) → K env documented j s (Worker.process_states env now ts)
  unfolding Worker.process_states
  process_states-Leads now [] = search (keeps_rules)
  process_states-Leads now (t ∷ ts) =
      let rest : K env documented j s (Worker.process_states env now ts) =
        process_states-Leads now ts in
      search (keeps_rules, try-Leads, list_due-Leads, process_listed-Leads)

  pub process_due-Leads : K env documented j s (Worker.process_due env)
  unfolding Worker.process_due
  process_due-Leads = search (keeps_rules, clock-Leads, process_states-Leads)
