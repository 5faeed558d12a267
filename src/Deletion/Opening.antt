-- ===== src/Deletion/Opening.antt =====
-- api/internal/domain/deletion/service.go: Request, RequestService, Confirm, Cancel and Status.
use ctech_account.Common.{
  ℕ, ◌+◌, String, Bool, true, false, ◌&&◌, ◌||◌, Option, none, some, List, [], ◌∷◌,
}
use ctech_account.Action.{Result, ok, err, return, fail, guard, ◌>>=◌, ◌>>◌}
use ctech_account.Dynamo.Calls.{call, try, answer}
use ctech_account.Deletion.Model.{
  Request, Scope, account, service, awaiting_confirmation, pending, cancelled, blocked, expired,
  same_state, ts, before, grace_period, confirm_window, set_due, clear_due, User, DeletionError,
  not_found, open_request, unknown_service, eligibility_unavailable, invalid_token, not_cancellable,
  state_changed, blocked_by,
}
use ctech_account.Deletion.Env.{Env, confirm_mail, cancelled_mail}
use ctech_account.Deletion.Repository.{Op, create, get, get_open, save}
use ctech_account.Deletion.Links.{
  token_matches, any_token_matches, new_token, send_cancel_link, apply_lock, link_scheduled,
}

-- Every error is ErrEligibilityUnavailable.
abbrev pub as_unavailable : {A : Type 0} → Result DeletionError A → Result DeletionError A
as_unavailable (ok a) = ok a
as_unavailable (err e) = err eligibility_unavailable

abbrev pub missing_as_invalid : {A : Type 0} → Result DeletionError A → Result DeletionError A
missing_as_invalid (err not_found) = err invalid_token
missing_as_invalid (err e) = err e
missing_as_invalid (ok a) = ok a

-- ErrStateChanged is answered with another error.
abbrev pub changed_as :
    {A : Type 0} → DeletionError → Result DeletionError A → Result DeletionError A
changed_as to (err state_changed) = err to
changed_as to (err e) = err e
changed_as to (ok a) = ok a

abbrev pub is_empty : List String → Bool
is_empty [] = true
is_empty (_ ∷ _) = false

abbrev pub expired_at : ℕ → Request → Request
expired_at now r =
    clear_due (record r { state = expired; confirm_token_hash = ""; updated_at = ts now })

abbrev pub new_request : String → String → Scope → String → String → ℕ → Request
new_request id user_id scope product hash now = set_due (now + confirm_window) (record {
  id = id;
  user_id = user_id;
  scope = scope;
  product = product;
  state = awaiting_confirmation;
  confirm_token_hash = hash;
  cancel_token_hashes = [];
  lock_applied = false;
  scheduled_sent = false;
  reminded = false;
  blocked_notified = false;
  organizations = [];
  workspaces = [];
  blockers = [];
  purged_at = none;
  legal_hold = false;
  legal_hold_by = "";
  requested_at = ts now;
  confirm_by = ts (now + confirm_window);
  confirmed_at = none;
  grace_until = none;
  cancelled_at = none;
  locked_at = none;
  updated_at = ts now;
  due_state = none;
  next_action_at = none;
})

module _ (env : Env) where
  open env use {db, hash}

  -- What an answer becomes, error or not.
  unfoldable pub relabel :
      {A B : Type 0} → (Result DeletionError A → Result DeletionError B) → Op env A → Op env B
  relabel f m = do r ← try db m; answer db (f r)

  unfoldable pub blockers_leaving :
      Option (String → Bool)
      → Option (String → String → Op env (List String))
      → String
      → String
      → Op env (List String)
  blockers_leaving (some can_leave) (some check) u product =
      guard (can_leave product) unknown_service >> relabel as_unavailable (check u product)
  blockers_leaving _ _ u product = fail unknown_service

  unfoldable pub service_blockers : String → String → Op env (List String)
  service_blockers u product = blockers_leaving env.leavable env.check_service u product

  unfoldable pub account_blockers : String → Op env (List String)
  account_blockers u = do found ← relabel as_unavailable (env.assess_ownership u); return found.1

  unfoldable pub blockers_of : Scope → String → String → Op env (List String)
  blockers_of service u product = service_blockers u product
  blockers_of account u product = account_blockers u

  unfoldable pub expire_awaiting : Request → Op env (Unit {0})
  expire_awaiting r = do now ← call db env.clock; save env (expired_at now r) awaiting_confirmation

  unfoldable pub expire_unconfirmed : String → Op env (Unit {0})
  expire_unconfirmed u = do
    r ← get_open env u
    guard (same_state r.state awaiting_confirmation) open_request
    expire_awaiting r

  -- An unconfirmed request is replaced.
  unfoldable pub create_again : Request → Result DeletionError (Unit {0}) → Op env (Unit {0})
  create_again r (ok _) = return tt
  create_again r (err open_request) = expire_unconfirmed r.user_id >> create env r
  create_again r (err e) = fail e

  unfoldable pub create_or_replace : Request → Op env (Unit {0})
  create_or_replace r = do c ← try db (create env r); create_again r c

  -- Without the e-mail the request can never be confirmed: it is released.
  unfoldable pub confirmable : Request → Result DeletionError (Unit {0}) → Op env Request
  confirmable r (ok _) = return r
  confirmable r (err e) = do x ← try db (expire_awaiting r); fail e

  unfoldable pub ask_to_confirm : Request → User → String → Op env Request
  ask_to_confirm r u raw = do
    sent ← try db (env.send u (confirm_mail r.id raw r.product))
    confirmable r sent

  unfoldable pub open_new : User → Request → String → Op env Request
  open_new u r raw = do create_or_replace r; ask_to_confirm r u raw

  unfoldable pub open_request_for : String → Scope → String → Op env Request
  open_request_for user_id scope product = do
    u ← env.user_by_id user_id
    blockers ← blockers_of scope user_id product
    guard (is_empty blockers) (blocked_by blockers)
    raw ← new_token env
    now ← call db env.clock
    id ← call db env.new_id
    open_new u (new_request id user_id scope product (hash raw) now) raw

  unfoldable pub request : String → Op env Request
  request u = open_request_for u account ""

  unfoldable pub request_service : String → String → Op env Request
  request_service u product = open_request_for u service product

  unfoldable pub confirmable_now : Request → ℕ → String → Bool
  confirmable_now r now token =
      same_state r.state awaiting_confirmation
      && (before now r.confirm_by && token_matches env token r.confirm_token_hash)

  abbrev pub confirmed : Request → ℕ → Request
  confirmed r now = set_due now (record r {
    state = pending;
    confirm_token_hash = "";
    confirmed_at = ts now;
    grace_until = ts (now + grace_period);
    updated_at = ts now;
  })

  -- A lock or an e-mail that fails is left to the worker.
  unfoldable pub after_confirm : Request → Op env Request
  after_confirm r = do
    locked ← apply_lock env r
    sent ← send_cancel_link env locked.0 link_scheduled
    return sent.0

  unfoldable pub confirm : String → String → Op env Request
  confirm id token = do
    r ← relabel missing_as_invalid (get env id)
    now ← call db env.clock
    guard (confirmable_now r now token) invalid_token
    relabel (changed_as invalid_token) (save env (confirmed r now) awaiting_confirmation)
    after_confirm (confirmed r now)

  unfoldable pub tell_cancelled : Request → Result DeletionError User → Op env (Unit {0})
  tell_cancelled r (err e) = return tt
  tell_cancelled r (ok u) = do sent ← try db (env.send u (cancelled_mail r.product)); return tt

  unfoldable pub cancel_finished :
      Request → Result DeletionError (Unit {0}) → Op env (Request × Result DeletionError (Unit {0}))
  cancel_finished r (err e) = return (r, err e)
  cancel_finished r (ok _) = do
    u ← try db (env.user_by_id r.user_id)
    tell_cancelled r u
    return (r, ok tt)

  unfoldable pub cancel_unlocked :
      Request → Result DeletionError (Unit {0}) → Op env (Request × Result DeletionError (Unit {0}))
  cancel_unlocked r (err e) = return (r, err e)
  cancel_unlocked r (ok _) = do
    now ← call db env.clock
    let r' = clear_due (record r { updated_at = ts now })
    saved ← try db (save env r' cancelled)
    cancel_finished r' saved

  unfoldable pub finish_cancel : Request → Op env (Request × Result DeletionError (Unit {0}))
  finish_cancel r = do u ← try db (env.unlock r); cancel_unlocked r u

  unfoldable pub cancellable : Request → Bool
  cancellable r = same_state r.state pending || same_state r.state blocked

  abbrev pub cancelled_request : Request → ℕ → Request
  cancelled_request r now =
      set_due now (record r { state = cancelled; cancelled_at = ts now; updated_at = ts now })

  unfoldable pub cancel_request : Request → Op env Request
  cancel_request r = do
    guard (cancellable r) not_cancellable
    now ← call db env.clock
    relabel (changed_as not_cancellable) (save env (cancelled_request r now) r.state)
    done ← finish_cancel (cancelled_request r now)
    return done.0

  unfoldable pub cancel : String → String → Op env Request
  cancel id token = do
    r ← relabel missing_as_invalid (get env id)
    guard (any_token_matches env token r.cancel_token_hashes) invalid_token
    cancel_request r

  unfoldable pub support_cancel : String → String → Op env Request
  support_cancel id admin_id = do r ← get env id; cancel_request r

  unfoldable pub status : String → Op env Request
  status u = get_open env u
