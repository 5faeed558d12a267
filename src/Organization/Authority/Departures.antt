-- ===== src/Organization/Authority/Departures.antt =====
-- Proofs on Remove of api/internal/domain/organization/service.go: who takes out whom.
use ctech_account.Common.{◌≡◌, ◌⊎◌, String, true, false, none, some}
use ctech_account.Action.{◌>>=◌}
use ctech_account.Organization.Model.{Role, admin, is_owner, at_least, outranks, Organization}
use ctech_account.Organization.Env.{Env}
use ctech_account.Organization.Ownership.Writes.{View}
use ctech_account.Organization.Authority.Effects.{role_at}

-- Everybody has the role in `u` that they have in `v`, or none in both.
abbrev pub SameRoles : View → View → Type 0
SameRoles v u = (p x : String) → role_at u p x ≡ role_at v p x

-- `actor` had authority to take `target` out of the organization `o`, and did no more than that.
pub record Removal (v : View) (o actor target : String) (u : View) : Type 0 where
  pub target_role : Role
  pub held : role_at v o target ≡ some target_role
  pub not_owner : is_owner target_role ≡ false
  pub authority :
      (actor ≡ target)
      ⊎ ((actor_role : Role) × (role_at v o actor ≡ some actor_role)
          × (at_least actor_role admin ≡ true)
          × (outranks actor_role target_role ≡ true))
  pub gone : role_at u o target ≡ none
  pub others : (p x : String) → (p ≡ o) × (x ≡ target) ⊎ (role_at u p x ≡ role_at v p x)

-- What Remove leaves.
abbrev pub Departed : View → String → String → String → View → Type 0
Departed v o actor target u = SameRoles v u ⊎ Removal v o actor target u
