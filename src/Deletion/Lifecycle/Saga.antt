-- ===== src/Deletion/Lifecycle/Saga.antt =====
-- Proofs on Ack, reconcile, SetLegalHold, Redrive, Subject and Services of
-- api/internal/domain/deletion/service.go.
use ctech_account.Common.{◌≡◌, true, sym, ℕ, String, Bool, Option, none, some, List, [], ◌∷◌}
use ctech_account.Action.{Result, ok, err}
use ctech_account.Action.Keeps.{keeps_rules}
use ctech_account.Deletion.Model.{
  Request, State, ServiceStatus, Ack, DeletionError, purging, stalled, set_due, clear_due,
}
use ctech_account.Deletion.Env.{Env}
use ctech_account.Deletion.Saga
use ctech_account.Deletion.Saga.{Progress, blocked_by_participant, waiting}
use ctech_account.Deletion.Lifecycle.Diagram.{Moves, documented, same_state_lem}
use ctech_account.Deletion.Lifecycle.Methods.{
  K, save-Leads, save_same-Leads, get-Leads, get_open-Leads, list_services-Leads,
  save_service-Leads, clock-Leads, user-Leads, erase-Leads, try-Leads, answer-Leads,
}

-- Any rule of states by which a request that is purged may stall.
module _ (env : Env) (m : Moves) (stalls : m.may_move purging stalled ≡ true) (j : String)
    (s : Option State) where
  open env use {db}

  resend-Leads :
      (now : ℕ) (sts : List ServiceStatus) (next : Option ℕ)
      → K env m j s (Saga.resend env now sts next)
  unfolding Saga.resend
  resend-Leads now [] next = search (keeps_rules)
  resend-Leads now (st ∷ sts) next =
      let rest : (n : Option ℕ) → K env m j s (Saga.resend env now sts n) = resend-Leads now sts in
      search (keeps_rules, try-Leads, save_service-Leads, answer-Leads, rest)

  ask_again-Leads :
      (r : Request) (now : ℕ) (sts : List ServiceStatus) (next : Option ℕ)
      → K env m j s (Saga.ask_again env r now sts next)
  unfolding Saga.ask_again
  ask_again-Leads r now [] next = search (keeps_rules)
  ask_again-Leads r now (st ∷ sts) next = search (keeps_rules, erase-Leads, resend-Leads)

  stall-Leads : (r : Request) (now : ℕ) → K env m j s (Saga.stall env r now)
  unfolding Saga.stall clear_due
  stall-Leads r now = search (keeps_rules, save-Leads, stalls)

  wait_for-Leads :
      (r : Request) (now : ℕ) (silent : List ServiceStatus) (next : Option ℕ)
      → r.state ≡ purging
      → K env m j s (Saga.wait_for env r now silent next)
  unfolding Saga.wait_for set_due
  wait_for-Leads r now silent next e = search (keeps_rules, ask_again-Leads, save_same-Leads, sym e)

  settle-Leads :
      (r : Request) (now : ℕ) (p : Progress)
      → r.state ≡ purging
      → K env m j s (Saga.settle env r now p)
  unfolding Saga.settle
  settle-Leads r now blocked_by_participant e = stall-Leads r now
  settle-Leads r now (waiting silent next) e = search (keeps_rules, wait_for-Leads)

  pub reconcile-Leads :
      (r : Request) (now : ℕ) → r.state ≡ purging → K env m j s (Saga.reconcile env r now)
  unfolding Saga.reconcile
  reconcile-Leads r now e = search (keeps_rules, list_services-Leads, settle-Leads)

module _ (env : Env) (j : String) (s : Option State) where
  open env use {db}

  make_due-Leads : (r : Request) → r.state ≡ purging → K env documented j s (Saga.make_due env r)
  unfolding Saga.make_due set_due
  make_due-Leads r e = search (keeps_rules, clock-Leads, try-Leads, save_same-Leads, sym e) depth 8

  nudge-Leads : (r : Result DeletionError Request) → K env documented j s (Saga.nudge env r)
  unfolding Saga.nudge
  nudge-Leads (err e) = search (keeps_rules)
  nudge-Leads (ok r) = search (keeps_rules, make_due-Leads, same_state_lem r.state purging)

  record_ack-Leads :
      (a : Ack) (st : ServiceStatus) → K env documented j s (Saga.record_ack env a st)
  unfolding Saga.record_ack
  record_ack-Leads a st =
      search
        (
          keeps_rules, clock-Leads, try-Leads, save_service-Leads, answer-Leads, get-Leads,
          nudge-Leads,
        )
        depth 8

  ack_row-Leads : (a : Ack) (st : ServiceStatus) → K env documented j s (Saga.ack_row env a st)
  unfolding Saga.ack_row
  ack_row-Leads a st = search (keeps_rules, record_ack-Leads)

  ack_in-Leads :
      (service : String) (a : Ack) (sts : List ServiceStatus)
      → K env documented j s (Saga.ack_in env service a sts)
  unfolding Saga.ack_in
  ack_in-Leads service a [] = search (keeps_rules)
  ack_in-Leads service a (st ∷ sts) =
      let rest : K env documented j s (Saga.ack_in env service a sts) =
        ack_in-Leads service a sts in
      search (keeps_rules, ack_row-Leads)

  pub ack-Leads : (service : String) (a : Ack) → K env documented j s (Saga.ack env service a)
  unfolding Saga.ack
  ack-Leads service a = search (keeps_rules, list_services-Leads, ack_in-Leads)

  pub subject-Leads : (id : String) → K env documented j s (Saga.subject env id)
  unfolding Saga.subject
  subject-Leads id = search (keeps_rules, get-Leads, user-Leads)

  save_resumed-Leads :
      (r : Request) (from : State)
      → from ≡ r.state
      → K env documented j s (Saga.save_resumed env r from)
  unfolding Saga.save_resumed set_due
  save_resumed-Leads r from e = search (keeps_rules, clock-Leads, save_same-Leads)

  save_hold-Leads :
      (on : Bool) (r : Request) (from : State)
      → from ≡ r.state
      → K env documented j s (Saga.save_hold env on r from)
  unfolding Saga.save_hold
  save_hold-Leads on r from e = search (keeps_rules, save_resumed-Leads, save_same-Leads)

  pub set_legal_hold-Leads :
      (id admin_id : String) (on : Bool)
      → K env documented j s (Saga.set_legal_hold env id admin_id on)
  unfolding Saga.set_legal_hold
  set_legal_hold-Leads id admin_id on =
      search (keeps_rules, get-Leads, clock-Leads, save_hold-Leads) depth 8

  redrive_row-Leads :
      (st : ServiceStatus) (again : Bool) (now : ℕ)
      → K env documented j s (Saga.redrive_row env st again now)
  unfolding Saga.redrive_row
  redrive_row-Leads st again now = search (keeps_rules, save_service-Leads)

  redrive_rows-Leads :
      (service : String) (now : ℕ) (sts : List ServiceStatus)
      → K env documented j s (Saga.redrive_rows env service now sts)
  unfolding Saga.redrive_rows
  redrive_rows-Leads service now [] = search (keeps_rules)
  redrive_rows-Leads service now (st ∷ sts) =
      let rest : K env documented j s (Saga.redrive_rows env service now sts) =
        redrive_rows-Leads service now sts in
      search (keeps_rules, redrive_row-Leads)

  resume_purge-Leads : (r : Request) (now : ℕ) → K env documented j s (Saga.resume_purge env r now)
  unfolding Saga.resume_purge set_due
  resume_purge-Leads r now = search (keeps_rules, save-Leads)

  pub redrive-Leads :
      (id service admin_id : String) → K env documented j s (Saga.redrive env id service admin_id)
  unfolding Saga.redrive
  redrive-Leads id service admin_id =
      search
        (
          keeps_rules, get-Leads, list_services-Leads, clock-Leads, redrive_rows-Leads,
          resume_purge-Leads,
        )
        depth 8

  services_among-Leads :
      (names : Option (List String)) (u : String)
      → K env documented j s (Saga.services_among env names u)
  unfolding Saga.services_among
  services_among-Leads none u = search (keeps_rules)
  services_among-Leads (some names) u =
      search (keeps_rules, try-Leads, get_open-Leads, answer-Leads)

  pub services-Leads : (u : String) → K env documented j s (Saga.services env u)
  unfolding Saga.services
  services-Leads u = services_among-Leads env.service_list u
