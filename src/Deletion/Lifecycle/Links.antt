-- ===== src/Deletion/Lifecycle/Links.antt =====
-- Proofs on tokens, locks and e-mails of api/internal/domain/deletion/service.go.
use ctech_account.Common.{◌≡◌, refl, sym, ◌∙◌, ℕ, String, Option}
use ctech_account.Action.{Result, ok, err}
use ctech_account.Action.Keeps.{
  Gives, Gives-bind, Gives-map, Gives-if, Gives-return, Keeps-bind, keeps_rules,
}
use ctech_account.Deletion.Model.{
  State, Request, User, DeletionError, pending, cancelled, blocked, same_state, set_due, clear_due,
}
use ctech_account.Deletion.Env.{Env}
use ctech_account.Deletion.Repository.{save}
use ctech_account.Deletion.Links
use ctech_account.Deletion.Links.{LinkKind, link_scheduled, link_reminder, link_blocked, flagged}
use ctech_account.Deletion.Lifecycle.Diagram.{Moves, same_state_lem}
use ctech_account.Deletion.Lifecycle.Methods.{
  P, K, save_same-Leads, get-Leads, clock-Leads, mint-Leads, user-Leads, lock-Leads, unlock-Leads,
  send-Leads, try-Leads, answer-Leads,
}

pub set_due-state : (at : ℕ) (r : Request) → (set_due at r).state ≡ r.state
unfolding set_due
set_due-state at r = refl

pub clear_due-state : (r : Request) → (clear_due r).state ≡ r.state
unfolding clear_due
clear_due-state r = refl

flagged-state : (kind : LinkKind) (r : Request) → (flagged kind r).state ≡ r.state
flagged-state link_scheduled r = refl
flagged-state link_reminder r = refl
flagged-state link_blocked r = refl

module _ (env : Env) (m : Moves) (j : String) (s : Option State) where
  open env use {db}

  pub new_token-Leads : K env m j s (Links.new_token env)
  unfolding Links.new_token
  new_token-Leads = search (keeps_rules, mint-Leads, answer-Leads)

  next_due-Leads : (r : Request) → K env m j s (Links.next_due env r)
  unfolding Links.next_due
  next_due-Leads r = search (keeps_rules, clock-Leads)

  abbrev SameState : Request → Request → Type 0
  SameState r n = r.state ≡ n.state

  schedule_blocked-state :
      (r : Request) → Gives (P env m j s) (SameState r) (Links.schedule_blocked env r)
  unfolding Links.schedule_blocked
  schedule_blocked-state r =
      Gives-if _ r.blocked_notified _ _ (Gives-return _ _ (sym (clear_due-state r))) (
        Gives-map _ _ (λ now. set_due now r) (clock-Leads env m j s)
          (λ now. sym (set_due-state now r)))

  schedule_next-state :
      (r : Request) → Gives (P env m j s) (SameState r) (Links.schedule_next env r)
  unfolding Links.schedule_next
  schedule_next-state r =
      Gives-if _ (same_state r.state blocked) _ _ (schedule_blocked-state r)
        (Gives-map _ _ (λ at. set_due at r) (next_due-Leads r) (λ at. sym (set_due-state at r)))

  link_mailed-Leads :
      (r : Request) (kind : LinkKind) (sent : Result DeletionError (Unit {0}))
      → K env m j s (Links.link_mailed env r kind sent)
  unfolding Links.link_mailed
  link_mailed-Leads r kind (err e) = search (keeps_rules)
  link_mailed-Leads r kind (ok x) = Keeps-bind _ _ (clock-Leads env m j s) (λ now.
      Gives-bind _ _ _ (schedule_next-state _) (λ next e.
        let k : K env m j s (save env next r.state) =
          save_same-Leads env m j s next r.state (sym (flagged-state kind _) ∙ e) in
        search (keeps_rules, try-Leads)))

  link_stored-Leads :
      (r : Request) (kind : LinkKind) (u : User) (raw : String)
      (stored : Result DeletionError (Unit {0}))
      → K env m j s (Links.link_stored env r kind u raw stored)
  unfolding Links.link_stored
  link_stored-Leads r kind u raw (err e) = search (keeps_rules)
  link_stored-Leads r kind u raw (ok x) =
      search (keeps_rules, try-Leads, send-Leads, link_mailed-Leads)

  link_with-Leads :
      (r : Request) (kind : LinkKind) (u : User) (token : Result DeletionError String)
      → K env m j s (Links.link_with env r kind u token)
  unfolding Links.link_with
  link_with-Leads r kind u (err e) = search (keeps_rules)
  link_with-Leads r kind u (ok raw) =
      search (keeps_rules, clock-Leads, try-Leads, save_same-Leads, link_stored-Leads) depth 8

  link_to-Leads :
      (r : Request) (kind : LinkKind) (u : Result DeletionError User)
      → K env m j s (Links.link_to env r kind u)
  unfolding Links.link_to
  link_to-Leads r kind (err e) = search (keeps_rules)
  link_to-Leads r kind (ok u) = search (keeps_rules, try-Leads, new_token-Leads, link_with-Leads)

  pub send_cancel_link-Leads :
      (r : Request) (kind : LinkKind) → K env m j s (Links.send_cancel_link env r kind)
  unfolding Links.send_cancel_link
  send_cancel_link-Leads r kind = search (keeps_rules, try-Leads, user-Leads, link_to-Leads)

  retry_unlock-Leads :
      (r cur : Request) (u : Result DeletionError (Unit {0}))
      → cur.state ≡ cancelled
      → K env m j s (Links.retry_unlock env r cur u)
  unfolding Links.retry_unlock set_due
  retry_unlock-Leads r cur (ok x) e = search (keeps_rules)
  retry_unlock-Leads r cur (err c) e =
      search (keeps_rules, clock-Leads, try-Leads, save_same-Leads, sym e) depth 8

  unlock_cancelled-Leads :
      (r cur : Request) → cur.state ≡ cancelled → K env m j s (Links.unlock_cancelled env r cur)
  unfolding Links.unlock_cancelled
  unlock_cancelled-Leads r cur e = search (keeps_rules, try-Leads, unlock-Leads, retry_unlock-Leads)

  undo_lock-Leads :
      (r : Request) (cur : Result DeletionError Request) → K env m j s (Links.undo_lock env r cur)
  unfolding Links.undo_lock
  undo_lock-Leads r (err e) = search (keeps_rules)
  undo_lock-Leads r (ok cur) =
      search (keeps_rules, unlock_cancelled-Leads, same_state_lem cur.state cancelled)

  lock_lost-Leads : (r : Request) → K env m j s (Links.lock_lost env r)
  unfolding Links.lock_lost
  lock_lost-Leads r = search (keeps_rules, try-Leads, get-Leads, undo_lock-Leads)

  lock_saved-Leads :
      (r : Request) (saved : Result DeletionError (Unit {0}))
      → K env m j s (Links.lock_saved env r saved)
  unfolding Links.lock_saved
  lock_saved-Leads r (ok x) = search (keeps_rules)
  lock_saved-Leads r (err e) = search (keeps_rules, lock_lost-Leads)

  lock_done-Leads :
      (r : Request) (locked : Result DeletionError (Unit {0}))
      → r.state ≡ pending
      → K env m j s (Links.lock_done env r locked)
  unfolding Links.lock_done
  lock_done-Leads r (err c) e = search (keeps_rules)
  lock_done-Leads r (ok x) e = Keeps-bind _ _ (clock-Leads env m j s) (λ now.
      Gives-bind _ _ _ (schedule_next-state _) (λ next q.
        let k : K env m j s (save env next pending) =
          save_same-Leads env m j s next pending (sym e ∙ q) in
        search (keeps_rules, try-Leads, lock_saved-Leads)))

  pub apply_lock-Leads : (r : Request) → r.state ≡ pending → K env m j s (Links.apply_lock env r)
  unfolding Links.apply_lock
  apply_lock-Leads r e = search (keeps_rules, try-Leads, lock-Leads, lock_done-Leads)
