-- ===== src/Organization/Env.antt =====
-- What the organization service takes from outside its package: the table store, the clock, ids and
-- random tokens, SHA-256, the text functions of Go's `strings`, billing (PlanLimits), the company grants
-- (ActorGranter) and the account of an address (EmailOwner).
use ctech_account.Common.{ℕ, String, ◌≡◌, Bool, Option}
use ctech_account.Action.{Result}
use ctech_account.Dynamo.Contract.{Dynamo}
use ctech_account.Organization.Model.{OrgError, Quotas}
use ctech_account.Organization.Rows.{Key, Row, Query, same_key}

-- A call that does not touch this package's tables.
pub record Quiet (d : Dynamo Key Row Query same_key) {A : Type 0} (f : d.World → A × d.World)
    : Type 0 where
  pub view_same : (w : d.World) → d.view (f w).1 ≡ d.view w
  pub seen_same : (w : d.World) (k : Key) (r : Row) → d.Seen (f w).1 k r → d.Seen w k r

pub record Env : Type 1 where
  pub db : Dynamo Key Row Query same_key
  pub clock : db.World → ℕ × db.World
  pub new_id : db.World → String × db.World
  -- `none`: the random source failed.
  pub mint : db.World → Option String × db.World
  pub hash : String → String
  pub trim : String → String
  pub lower : String → String
  -- `limits != nil && counters != nil`
  pub limited : Bool
  pub quotas : String → db.World → Result OrgError Quotas × db.World
  pub levels_changed : String → db.World → Unit {0} × db.World
  pub schedule_levels : String → ℕ → db.World → Unit {0} × db.World
  -- `granter != nil`, and the grant: organization, company, user, name, granted by.
  pub has_granter : Bool
  pub grant :
      String → String → String → String → String → db.World → Result OrgError (Unit {0}) × db.World
  -- `emailOwner != nil`, and the account of an address, "" when there is none.
  pub has_email_owner : Bool
  pub email_owner : String → db.World → Result OrgError String × db.World
  pub lower_idem : (s : String) → lower (lower s) ≡ lower s
  pub trim-lower-trim : (s : String) → trim (lower (trim s)) ≡ lower (trim s)
  pub clock_quiet : Quiet db clock
  pub new_id_quiet : Quiet db new_id
  pub mint_quiet : Quiet db mint
  pub quotas_quiet : (u : String) → Quiet db (quotas u)
  pub levels_changed_quiet : (u : String) → Quiet db (levels_changed u)
  pub schedule_levels_quiet : (u : String) (t : ℕ) → Quiet db (schedule_levels u t)
  pub grant_quiet : (o c u n b : String) → Quiet db (grant o c u n b)
  pub email_owner_quiet : (e : String) → Quiet db (email_owner e)
