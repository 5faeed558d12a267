-- ===== src/Deletion/Lifecycle/Waiting.antt =====
-- Proofs on the waiting of ProcessDue and step, api/internal/domain/deletion/service.go.
use ctech_account.Common.{
  ◌≡◌, refl, ap, subst, sym, ◌∙◌, ◌⊎◌, inl, inr, ℕ, String, Bool, true, false, not, ◌||◌, Option,
  none, some, arith,
}
use ctech_account.Action.{Result}
use ctech_account.Action.Keeps.{Keeps-if, keeps_rules}
use ctech_account.Deletion.Model.{Request, State, pending, purging, set_due, before, DeletionError}
use ctech_account.Deletion.Rows.{request_key}
use ctech_account.Deletion.Env.{Env}
use ctech_account.Deletion.Repository.{Op}
use ctech_account.Deletion.Worker
use ctech_account.Deletion.Lifecycle.Diagram.{
  Moves, unmoved, Reaches, still, made, moved, same_state_lem,
}
use ctech_account.Deletion.Lifecycle.Writes.{state_of}
use ctech_account.Deletion.Lifecycle.Links.{send_cancel_link-Leads, apply_lock-Leads}
use ctech_account.Deletion.Lifecycle.Methods.{K, save_same-Leads, answer-Leads}

Reaches-unmoved : (a : State) (o : Option State) → Reaches unmoved (some a) o → o ≡ some a
Reaches-unmoved a _ still = refl
Reaches-unmoved a _ (made p) = let q : none ≡ some a = Reaches-unmoved a none p in cc
Reaches-unmoved a _ (moved {a = x} {b = y} p e) =
    sym (ap some (same_state_lem x y e)) ∙ Reaches-unmoved a (some x) p

module _ (env : Env) (m : Moves) (j : String) (s : Option State) where
  pub hold_off-Leads : (r : Request) (now : ℕ) → K env m j s (Worker.hold_off env r now)
  unfolding Worker.hold_off set_due
  hold_off-Leads r now = save_same-Leads env m j s _ r.state refl

  pub error_of-Leads :
      (act : Op env (Request × Result DeletionError (Unit {0})))
      → K env m j s act
      → K env m j s (Worker.error_of env act)
  unfolding Worker.error_of
  error_of-Leads act k = search (keeps_rules, answer-Leads)

module _ (env : Env) where
  open env use {db}

  -- The grace period of the request lasts, or a legal hold is on it.
  abbrev pub waits : Request → ℕ → Bool
  waits r now = before now r.grace_until || r.legal_hold

  module _ (j : String) (s : Option State) where
    grace_over-waits :
        (r : Request) (now : ℕ)
        → r.legal_hold ≡ true
        → K env unmoved j s (Worker.grace_over env r now)
    unfolding Worker.grace_over
    grace_over-waits r now h =
        Keeps-if _ _ _ (λ _. hold_off-Leads env unmoved j s r now)
          (λ q. let c : true ≡ false = sym h ∙ q in cc)

    on_hold : (a b : Bool) → a || b ≡ true → not a ≡ true → b ≡ true
    on_hold a b h k = ground arith

    step_notified-waits :
        (r : Request) (now : ℕ)
        → waits r now ≡ true
        → K env unmoved j s (Worker.step_notified env r now)
    unfolding Worker.step_notified
    step_notified-waits r now h = search (
      keeps_rules,
      error_of-Leads,
      send_cancel_link-Leads,
      grace_over-waits,
      on_hold (before now r.grace_until) r.legal_hold h,
    )

    step_pending-waits :
        (r : Request) (now : ℕ)
        → r.state ≡ pending
        → waits r now ≡ true
        → K env unmoved j s (Worker.step_pending env r now)
    unfolding Worker.step_pending
    step_pending-waits r now e h =
        search (
          keeps_rules, error_of-Leads, send_cancel_link-Leads, apply_lock-Leads,
          step_notified-waits,
        )

    step_purging-waits :
        (r : Request) (now : ℕ)
        → r.legal_hold ≡ true
        → K env unmoved j s (Worker.step_purging env r now)
    unfolding Worker.step_purging
    step_purging-waits r now h =
        Keeps-if _ _ _ (λ _. hold_off-Leads env unmoved j s r now)
          (λ q. let c : true ≡ false = sym h ∙ q in cc)

    step-waits-Leads :
        (r : Request) (now : ℕ)
        → (r.state ≡ pending) × (waits r now ≡ true) ⊎ (r.state ≡ purging) × (r.legal_hold ≡ true)
        → K env unmoved j s (Worker.step env r now)
    unfolding Worker.step Worker.step_in
    step-waits-Leads r now (inl (e, h)) =
        subst (λ t. K env unmoved j s (Worker.step_in env t r now)) (sym e)
          (step_pending-waits r now e h)
    step-waits-Leads r now (inr (e, h)) =
        subst (λ t. K env unmoved j s (Worker.step_in env t r now)) (sym e)
          (step_purging-waits r now h)

  -- While the grace period lasts, and while a legal hold is on a request that is pending or purging, the
  -- worker's step for it, whatever the calls in it answer, leaves this and every other request in its
  -- state: nothing is locked, blocked, purged or stalled.
  pub step-waits :
      (r : Request) (now : ℕ)
      → (r.state ≡ pending) × (waits r now ≡ true) ⊎ (r.state ≡ purging) × (r.legal_hold ≡ true)
      → (id : String) (a : State) (w : db.World) → state_of (db.view w (request_key id)) ≡ some a
      → state_of (db.view (Worker.step env r now w).1 (request_key id)) ≡ some a
  step-waits r now h id a w e =
      Reaches-unmoved a _
        ((step-waits-Leads id (some a) r now h).at w
          (record { in_view = subst (Reaches unmoved (some a)) (sym e) still })).in_view
