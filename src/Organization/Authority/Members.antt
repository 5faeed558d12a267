-- ===== src/Organization/Authority/Members.antt =====
-- Proofs on SetRole of api/internal/domain/organization/service.go: who changes which role.
use ctech_account.Common.{◌≡◌, ◌⊎◌, String, Bool, true, false, Option, none, some, str_eq}
use ctech_account.Organization.Model.{
  Role, Kind, admin, at_least, outranks, is_grantable_role, is_grantable_role_in,
}
use ctech_account.Organization.Rows.{Key, member_key}
use ctech_account.Organization.Env.{Env}
use ctech_account.Organization.Ownership.Writes.{View}
use ctech_account.Organization.Authority.Effects.{role_at, kind_at}

-- The tables `u` are `v` but for what stands under `k`.
abbrev pub Only : View → View → Key → Type 0
Only v u k = (j : Key) → (k ≡ j) ⊎ (u j ≡ v j)

abbrev pub suits : Option Kind → Role → Bool
suits none role = true
suits (some kind) role = is_grantable_role_in kind role

-- `actor` had authority to make `target` a `role` in the organization `o` with the tables `v`, and `u`
-- are those tables with that role and nothing else changed.
pub record RoleChange (v : View) (o actor target : String) (role : Role) (u : View) : Type 0 where
  pub actor_role : Role
  pub current_role : Role
  pub acts : role_at v o actor ≡ some actor_role
  pub held : role_at v o target ≡ some current_role
  pub apart : str_eq actor target ≡ false
  pub manages : at_least actor_role admin ≡ true
  pub above : outranks actor_role current_role ≡ true
  pub above_new : outranks actor_role role ≡ true
  pub grantable : is_grantable_role role ≡ true
  pub suited : suits (kind_at v o) role ≡ true
  pub changed : role_at u o target ≡ some role
  pub rest : Only v u (member_key o target)
