-- ===== src/Organization/Ladder.antt =====
-- Proofs on the role ladder of api/internal/domain/organization/model.go, and AssignableRoles.
use ctech_account.Common.{◌≡◌, Bool, true, false, arith, any, ◌&&◌}
use ctech_account.Organization.Model.{
  Role, viewer, member, admin, owner, other, role_rank, is_grantable_role, outranks, at_least,
  assignable_roles,
}

-- `role == r`
abbrev pub is_role : Role → Role → Bool
is_role viewer viewer = true
is_role member member = true
is_role admin admin = true
is_role owner owner = true
is_role _ _ = false

-- The ladder that the documents show: owner, admin, member, viewer, and below them any other word.
abbrev pub above : Role → Role → Bool
above owner admin = true
above owner member = true
above owner viewer = true
above admin member = true
above admin viewer = true
above member viewer = true
above owner (other name) = true
above admin (other name) = true
above member (other name) = true
above viewer (other name) = true
above _ _ = false

abbrev pub manages : Role → Bool
manages owner = true
manages admin = true
manages _ = false

-- Outranking is standing higher on the ladder owner, admin, member, viewer, any other word; and
-- AssignableRoles lists a role for a caller exactly when the caller is an admin or the owner, the role is
-- grantable, and the caller stands higher.
pub assignable_roles-exact :
    (caller role : Role)
    → (outranks caller role ≡ above caller role)
      × (any (is_role role) (assignable_roles caller)
          ≡ (manages caller && (is_grantable_role role && above caller role)))
unfolding assignable_roles at_least is_grantable_role outranks role_rank
assignable_roles-exact viewer role = (ground arith, ground arith)
assignable_roles-exact member role = (ground arith, ground arith)
assignable_roles-exact admin role = (ground arith, ground arith)
assignable_roles-exact owner role = (ground arith, ground arith)
assignable_roles-exact (other name) role = (ground arith, ground arith)
