-- ===== src/Deletion/Env.antt =====
-- What the deletion service takes from outside its package: the table store, the clock, ids and tokens
-- (api/internal/crypto/token.go, GenerateMFAToken and HashToken), users, the Locker, the Mailer, who
-- owns what (Ownership), what stops leaving a product (ServiceEligibility), the Purger and the
-- ServiceUnlinker. None of these touches the table of the requests.
use ctech_account.Common.{ℕ, ◌≡◌, String, Bool, Option, some, List}
use ctech_account.Action.{Action}
use ctech_account.Dynamo.Contract.{Dynamo}
use ctech_account.Dynamo.Tables.{Silent}
use ctech_account.Deletion.Model.{Request, Workspace, User, Stamp, DeletionError}
use ctech_account.Deletion.Rows.{Key, Row, Query, same_key}

-- The e-mails, with the request's id, the token of the link and the product.
pub data Mail : Type 0 where
  confirm_mail : String → String → String → Mail
  scheduled_mail reminder_mail : String → String → Stamp → String → Mail
  blocked_mail : String → String → List String → String → Mail
  cancelled_mail : String → Mail

pub record Env : Type 1 where
  pub db : Dynamo Key Row Query same_key
  pub clock : db.World → ℕ × db.World
  pub new_id : db.World → String × db.World
  -- `none`: the random source failed.
  pub mint : db.World → Option String × db.World
  pub hash : String → String
  pub user_by_id : String → Action db.World DeletionError User
  pub lock : Request → Action db.World DeletionError (Unit {0})
  pub unlock : Request → Action db.World DeletionError (Unit {0})
  pub erase : Request → List String → Action db.World DeletionError (Unit {0})
  pub send : User → Mail → Action db.World DeletionError (Unit {0})
  -- The workspaces erased with the user, and the codes of the blockers.
  pub assess_ownership : String → Action db.World DeletionError (List Workspace × List String)
  -- `leavable` and `serviceElig` are nil together unless set; user, then product.
  pub leavable : Option (String → Bool)
  pub check_service : Option (String → String → Action db.World DeletionError (List String))
  pub finish_unlink : Option (Request → Action db.World DeletionError (Unit {0}))
  pub purge : Option (Request → Action db.World DeletionError (Unit {0}))
  pub participants : List String
  pub service_list : Option (List String)
  pub clock_silent : Silent db clock
  pub new_id_silent : Silent db new_id
  pub mint_silent : Silent db mint
  pub user_silent : (u : String) → Silent db (user_by_id u)
  pub lock_silent : (r : Request) → Silent db (lock r)
  pub unlock_silent : (r : Request) → Silent db (unlock r)
  pub erase_silent : (r : Request) (ss : List String) → Silent db (erase r ss)
  pub send_silent : (u : User) (m : Mail) → Silent db (send u m)
  pub assess_silent : (u : String) → Silent db (assess_ownership u)
  pub check_silent :
      (f : String → String → Action db.World DeletionError (List String))
      → check_service ≡ some f
      → (u s : String) → Silent db (f u s)
  pub finish_silent :
      (f : Request → Action db.World DeletionError (Unit {0}))
      → finish_unlink ≡ some f
      → (r : Request) → Silent db (f r)
  pub purge_silent :
      (f : Request → Action db.World DeletionError (Unit {0}))
      → purge ≡ some f
      → (r : Request) → Silent db (f r)
