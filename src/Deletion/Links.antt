-- ===== src/Deletion/Links.antt =====
-- api/internal/domain/deletion/service.go: tokens, the lock, and the e-mails with a cancel link. The
-- source changes the request in place, also where it then returns an error: such a method answers with
-- the request as it leaves it, and its error as a value.
use ctech_account.Common.{
  ℕ, ◌-◌, String, Bool, true, false, not, ◌&&◌, ◌||◌, Option, none, some, List, [], ◌∷◌, ◌++◌, any,
  str_eq, if◌then◌else◌,
}
use ctech_account.Action.{Result, ok, err, return, ◌>>=◌}
use ctech_account.Dynamo.Calls.{call, try, answer}
use ctech_account.Deletion.Model.{
  Request, pending, cancelled, blocked, same_state, ts, parse_time, reminder_lead, set_due,
  clear_due, User, DeletionError, state_changed, failed,
}
use ctech_account.Deletion.Env.{Env, Mail, scheduled_mail, reminder_mail, blocked_mail}
use ctech_account.Deletion.Repository.{Op, get, save}

pub data LinkKind : Type 0 where
  link_scheduled link_reminder link_blocked : LinkKind

abbrev pub minted : Option String → Result DeletionError String
minted none = err failed
minted (some raw) = ok raw

abbrev pub flagged : LinkKind → Request → Request
flagged link_scheduled r = record r { scheduled_sent = true }
flagged link_reminder r = record r { reminded = true }
flagged link_blocked r = record r { blocked_notified = true }

abbrev pub mail_of : LinkKind → Request → String → Mail
mail_of link_scheduled r raw = scheduled_mail r.id raw r.grace_until r.product
mail_of link_reminder r raw = reminder_mail r.id raw r.grace_until r.product
mail_of link_blocked r raw = blocked_mail r.id raw r.blockers r.product

-- `errors.Is(err, from)` answered with `to`.
abbrev pub is_state_changed : DeletionError → Bool
is_state_changed state_changed = true
is_state_changed _ = false

module _ (env : Env) where
  open env use {db, hash}

  unfoldable pub token_matches : String → String → Bool
  token_matches raw h = not (str_eq h "") && str_eq (hash raw) h

  unfoldable pub any_token_matches : String → List String → Bool
  any_token_matches raw hs = any (token_matches raw) hs

  unfoldable pub new_token : Op env String
  new_token = do raw ← call db env.mint; answer db (minted raw)

  unfoldable pub next_due : Request → Op env ℕ
  next_due r =
      if not r.lock_applied || not r.scheduled_sent
      then call db env.clock
      else return (
          if not r.reminded
          then parse_time r.grace_until - reminder_lead
          else parse_time r.grace_until)

  unfoldable pub schedule_blocked : Request → Op env Request
  schedule_blocked r =
      if r.blocked_notified
      then return (clear_due r)
      else do now ← call db env.clock; return (set_due now r)

  unfoldable pub schedule_next : Request → Op env Request
  schedule_next r =
      if same_state r.state blocked
      then schedule_blocked r
      else do at ← next_due r; return (set_due at r)

  -- sendCancelLink, from its last call back to its first.
  unfoldable pub link_mailed :
      Request
      → LinkKind
      → Result DeletionError (Unit {0})
      → Op env (Request × Result DeletionError (Unit {0}))
  link_mailed r kind (err e) = return (r, err e)
  link_mailed r kind (ok _) = do
    now ← call db env.clock
    next ← schedule_next (flagged kind (record r { updated_at = ts now }))
    saved ← try db (save env next r.state)
    return (next, saved)

  unfoldable pub link_stored :
      Request
      → LinkKind
      → User
      → String
      → Result DeletionError (Unit {0})
      → Op env (Request × Result DeletionError (Unit {0}))
  link_stored r kind u raw (err e) = return (r, err e)
  link_stored r kind u raw (ok _) = do
    sent ← try db (env.send u (mail_of kind r raw))
    link_mailed r kind sent

  unfoldable pub link_with :
      Request
      → LinkKind
      → User
      → Result DeletionError String
      → Op env (Request × Result DeletionError (Unit {0}))
  link_with r kind u (err e) = return (r, err e)
  link_with r kind u (ok raw) = do
    now ← call db env.clock
    let r' = record r {
      cancel_token_hashes = r.cancel_token_hashes ++ hash raw ∷ [];
      updated_at = ts now;
    }
    saved ← try db (save env r' r.state)
    link_stored r' kind u raw saved

  unfoldable pub link_to :
      Request
      → LinkKind
      → Result DeletionError User
      → Op env (Request × Result DeletionError (Unit {0}))
  link_to r kind (err e) = return (r, err e)
  link_to r kind (ok u) = do raw ← try db new_token; link_with r kind u raw

  unfoldable pub send_cancel_link :
      Request → LinkKind → Op env (Request × Result DeletionError (Unit {0}))
  send_cancel_link r kind = do u ← try db (env.user_by_id r.user_id); link_to r kind u

  -- applyLock, from its last call back to its first.
  unfoldable pub retry_unlock :
      Request
      → Request
      → Result DeletionError (Unit {0})
      → Op env (Request × Result DeletionError (Unit {0}))
  retry_unlock r cur (ok _) = return (r, ok tt)
  retry_unlock r cur (err e) = do
    now ← call db env.clock
    due ← call db env.clock
    saved ← try db (save env (set_due due (record cur { updated_at = ts now })) cancelled)
    return (r, err e)

  unfoldable pub unlock_cancelled :
      Request → Request → Op env (Request × Result DeletionError (Unit {0}))
  unlock_cancelled r cur = do u ← try db (env.unlock cur); retry_unlock r cur u

  unfoldable pub undo_lock :
      Request → Result DeletionError Request → Op env (Request × Result DeletionError (Unit {0}))
  undo_lock r (err e) = return (r, err state_changed)
  undo_lock r (ok cur) =
      if same_state cur.state cancelled
      then unlock_cancelled r cur
      else return (r, err state_changed)

  unfoldable pub lock_lost : Request → Op env (Request × Result DeletionError (Unit {0}))
  lock_lost r = do cur ← try db (get env r.id); undo_lock r cur

  unfoldable pub lock_saved :
      Request → Result DeletionError (Unit {0}) → Op env (Request × Result DeletionError (Unit {0}))
  lock_saved r (ok _) = return (r, ok tt)
  lock_saved r (err e) = if is_state_changed e then lock_lost r else return (r, err e)

  unfoldable pub lock_done :
      Request → Result DeletionError (Unit {0}) → Op env (Request × Result DeletionError (Unit {0}))
  lock_done r (err e) = return (r, err e)
  lock_done r (ok _) = do
    now ← call db env.clock
    next ← schedule_next (record r { lock_applied = true; updated_at = ts now })
    saved ← try db (save env next pending)
    lock_saved next saved

  unfoldable pub apply_lock : Request → Op env (Request × Result DeletionError (Unit {0}))
  apply_lock r = do l ← try db (env.lock r); lock_done r l
