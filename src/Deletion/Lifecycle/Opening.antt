-- ===== src/Deletion/Lifecycle/Opening.antt =====
-- Proofs on Request, RequestService, Confirm, Cancel and Status of
-- api/internal/domain/deletion/service.go.
use ctech_account.Common.{
  ◌≡◌, refl, sym, ℕ, String, Bool, true, ◌||◌, Option, none, some, List, arith,
}
use ctech_account.Action.{Result, ok, err}
use ctech_account.Action.Keeps.{keeps_rules}
use ctech_account.Dynamo.Tables
use ctech_account.Deletion.Model.{
  Request, State, Scope, account, service, User, DeletionError, open_request, pending, cancelled,
  blocked, awaiting_confirmation, same_state, set_due, clear_due,
}
use ctech_account.Deletion.Env.{Env}
use ctech_account.Deletion.Repository.{Op, save}
use ctech_account.Deletion.Opening
use ctech_account.Deletion.Opening.{expired_at, new_request}
use ctech_account.Deletion.Lifecycle.Diagram.{documented, edge}
use ctech_account.Deletion.Lifecycle.Links.{
  new_token-Leads, send_cancel_link-Leads, apply_lock-Leads,
}
use ctech_account.Deletion.Lifecycle.Methods.{
  K, save-Leads, save_same-Leads, create-Leads, get-Leads, get_open-Leads, clock-Leads,
  new_id-Leads, user-Leads, unlock-Leads, send-Leads, assess-Leads, try-Leads, answer-Leads,
}

cancellable_edge :
    (a : State) → same_state a pending || same_state a blocked ≡ true → edge a cancelled ≡ true
cancellable_edge a h = ground arith

module _ (env : Env) (j : String) (s : Option State) where
  open env use {db}

  relabel-Leads :
      {A B : Type 0} (f : Result DeletionError A → Result DeletionError B) (m : Op env A)
      → K env documented j s m
      → K env documented j s (Opening.relabel env f m)
  unfolding Opening.relabel
  relabel-Leads f m k = search (keeps_rules, try-Leads, answer-Leads)

  blockers_leaving-Leads :
      (can : Option (String → Bool)) (check : Option (String → String → Op env (List String)))
      (u product : String)
      → ((f : String → String → Op env (List String))
          → check ≡ some f
          → K env documented j s (f u product))
      → K env documented j s (Opening.blockers_leaving env can check u product)
  unfolding Opening.blockers_leaving
  blockers_leaving-Leads none check u product k = search (keeps_rules)
  blockers_leaving-Leads (some can) none u product k = search (keeps_rules)
  blockers_leaving-Leads (some can) (some f) u product k =
      let q : K env documented j s (f u product) = k f refl in search (keeps_rules, relabel-Leads)

  service_blockers-Leads :
      (u product : String) → K env documented j s (Opening.service_blockers env u product)
  unfolding Opening.service_blockers
  service_blockers-Leads u product =
      blockers_leaving-Leads env.leavable env.check_service u product
        (λ f e. Tables.Keeps-Silent db _ _ (env.check_silent f e u product))

  account_blockers-Leads : (u : String) → K env documented j s (Opening.account_blockers env u)
  unfolding Opening.account_blockers
  account_blockers-Leads u = search (keeps_rules, relabel-Leads, assess-Leads)

  blockers_of-Leads :
      (scope : Scope) (u product : String)
      → K env documented j s (Opening.blockers_of env scope u product)
  unfolding Opening.blockers_of
  blockers_of-Leads account u product = account_blockers-Leads u
  blockers_of-Leads service u product = service_blockers-Leads u product

  expire_awaiting-Leads : (r : Request) → K env documented j s (Opening.expire_awaiting env r)
  unfolding Opening.expire_awaiting clear_due
  expire_awaiting-Leads r = search (keeps_rules, clock-Leads, save-Leads)

  expire_unconfirmed-Leads : (u : String) → K env documented j s (Opening.expire_unconfirmed env u)
  unfolding Opening.expire_unconfirmed
  expire_unconfirmed-Leads u = search (keeps_rules, get_open-Leads, expire_awaiting-Leads)

  create_again-Leads :
      (r : Request) (c : Result DeletionError (Unit {0}))
      → r.state ≡ awaiting_confirmation
      → K env documented j s (Opening.create_again env r c)
  unfolding Opening.create_again
  create_again-Leads r (ok x) e = search (keeps_rules)
  create_again-Leads r (err open_request) e =
      search (keeps_rules, expire_unconfirmed-Leads, create-Leads)
  create_again-Leads r (err _) e = search (keeps_rules)

  create_or_replace-Leads :
      (r : Request)
      → r.state ≡ awaiting_confirmation
      → K env documented j s (Opening.create_or_replace env r)
  unfolding Opening.create_or_replace
  create_or_replace-Leads r e = search (keeps_rules, try-Leads, create-Leads, create_again-Leads)

  confirmable-Leads :
      (r : Request) (sent : Result DeletionError (Unit {0}))
      → K env documented j s (Opening.confirmable env r sent)
  unfolding Opening.confirmable
  confirmable-Leads r (ok x) = search (keeps_rules)
  confirmable-Leads r (err e) = search (keeps_rules, try-Leads, expire_awaiting-Leads)

  open_new-Leads :
      (u : User) (r : Request) (raw : String)
      → r.state ≡ awaiting_confirmation
      → K env documented j s (Opening.open_new env u r raw)
  unfolding Opening.open_new Opening.ask_to_confirm
  open_new-Leads u r raw e =
      search (keeps_rules, create_or_replace-Leads, try-Leads, send-Leads, confirmable-Leads)

  new_request-state :
      (id user_id : String) (scope : Scope) (product h : String) (now : ℕ)
      → (new_request id user_id scope product h now).state ≡ awaiting_confirmation
  unfolding set_due
  new_request-state id user_id scope product h now = refl

  open_request_for-Leads :
      (u : String) (scope : Scope) (product : String)
      → K env documented j s (Opening.open_request_for env u scope product)
  unfolding Opening.open_request_for
  open_request_for-Leads u scope product =
      search
        (
          keeps_rules, user-Leads, blockers_of-Leads, new_token-Leads, clock-Leads, new_id-Leads,
          open_new-Leads, new_request-state,
        )
        depth 12

  pub request-Leads : (u : String) → K env documented j s (Opening.request env u)
  unfolding Opening.request
  request-Leads u = open_request_for-Leads u account ""

  pub request_service-Leads :
      (u product : String) → K env documented j s (Opening.request_service env u product)
  unfolding Opening.request_service
  request_service-Leads u product = open_request_for-Leads u service product

  confirmed-state : (r : Request) (now : ℕ) → (Opening.confirmed env r now).state ≡ pending
  unfolding set_due
  confirmed-state r now = refl

  after_confirm-Leads :
      (r : Request) → r.state ≡ pending → K env documented j s (Opening.after_confirm env r)
  unfolding Opening.after_confirm
  after_confirm-Leads r e = search (keeps_rules, apply_lock-Leads, send_cancel_link-Leads)

  save_confirmed-Leads :
      (r : Request) (now : ℕ)
      → K env documented j s (save env (Opening.confirmed env r now) awaiting_confirmation)
  unfolding set_due
  save_confirmed-Leads r now = save-Leads env documented j s _ _ refl

  pub confirm-Leads : (id token : String) → K env documented j s (Opening.confirm env id token)
  unfolding Opening.confirm
  confirm-Leads id token =
      search
        (
          keeps_rules, relabel-Leads, get-Leads, clock-Leads, save_confirmed-Leads,
          after_confirm-Leads, confirmed-state,
        )
        depth 12

  tell_cancelled-Leads :
      (r : Request) (u : Result DeletionError User)
      → K env documented j s (Opening.tell_cancelled env r u)
  unfolding Opening.tell_cancelled
  tell_cancelled-Leads r (err e) = search (keeps_rules)
  tell_cancelled-Leads r (ok u) = search (keeps_rules, try-Leads, send-Leads)

  cancel_finished-Leads :
      (r : Request) (x : Result DeletionError (Unit {0}))
      → K env documented j s (Opening.cancel_finished env r x)
  unfolding Opening.cancel_finished
  cancel_finished-Leads r (err e) = search (keeps_rules)
  cancel_finished-Leads r (ok x) = search (keeps_rules, try-Leads, user-Leads, tell_cancelled-Leads)

  cancel_unlocked-Leads :
      (r : Request) (x : Result DeletionError (Unit {0}))
      → r.state ≡ cancelled
      → K env documented j s (Opening.cancel_unlocked env r x)
  unfolding Opening.cancel_unlocked clear_due
  cancel_unlocked-Leads r (err e) p = search (keeps_rules)
  cancel_unlocked-Leads r (ok x) p =
      search (keeps_rules, clock-Leads, try-Leads, save_same-Leads, sym p, cancel_finished-Leads)
        depth 8

  pub finish_cancel-Leads :
      (r : Request) → r.state ≡ cancelled → K env documented j s (Opening.finish_cancel env r)
  unfolding Opening.finish_cancel
  finish_cancel-Leads r p = search (keeps_rules, try-Leads, unlock-Leads, cancel_unlocked-Leads)

  cancelled-state :
      (r : Request) (now : ℕ) → (Opening.cancelled_request env r now).state ≡ cancelled
  unfolding set_due
  cancelled-state r now = refl

  save_cancelled-Leads :
      (r : Request) (now : ℕ)
      → Opening.cancellable env r ≡ true
      → K env documented j s (save env (Opening.cancelled_request env r now) r.state)
  unfolding set_due Opening.cancellable
  save_cancelled-Leads r now e = save-Leads env documented j s _ _ (cancellable_edge r.state e)

  cancel_request-Leads : (r : Request) → K env documented j s (Opening.cancel_request env r)
  unfolding Opening.cancel_request
  cancel_request-Leads r =
      search
        (
          keeps_rules, clock-Leads, relabel-Leads, save_cancelled-Leads, finish_cancel-Leads,
          cancelled-state,
        )
        depth 12

  pub cancel-Leads : (id token : String) → K env documented j s (Opening.cancel env id token)
  unfolding Opening.cancel
  cancel-Leads id token = search (keeps_rules, relabel-Leads, get-Leads, cancel_request-Leads)

  pub support_cancel-Leads :
      (id admin_id : String) → K env documented j s (Opening.support_cancel env id admin_id)
  unfolding Opening.support_cancel
  support_cancel-Leads id admin_id = search (keeps_rules, get-Leads, cancel_request-Leads)

  pub status-Leads : (u : String) → K env documented j s (Opening.status env u)
  unfolding Opening.status
  status-Leads u = get_open-Leads env documented j s u
