-- ===== src/Organization/Access.antt =====
-- api/internal/domain/organization/service.go: who may ask (RoleOf, KindOf, MembershipOf, require,
-- requireGrantableIn), and the ways in which the service's methods are put together.
use ctech_account.Common.{String, not, if◌then◌else◌}
use ctech_account.Action.{Result, ok, err, return, guard, ◌>>=◌}
use ctech_account.Organization.Model.{
  Role, Kind, at_least, is_grantable_role_in, kind_of, OrgError, not_found, not_a_member, forbidden,
  not_grantable,
}
use ctech_account.Organization.Env.{Env}
use ctech_account.Organization.Repository.{Op, get, get_membership}

-- `if errors.Is(err, ErrNotFound) { return ErrNotAMember }`
abbrev pub as_stranger : {A : Type 0} → Result OrgError A → Result OrgError A
as_stranger (err not_found) = err not_a_member
as_stranger (err e) = err e
as_stranger (ok a) = ok a

abbrev pub grantable_answer : Role → Result OrgError Kind → Result OrgError (Unit {0})
grantable_answer role (err not_found) = ok tt
grantable_answer role (err e) = err e
grantable_answer role (ok kind) =
    if not (is_grantable_role_in kind role) then err not_grantable else ok tt

module _ (env : Env) where
  open env use {db}

  -- A call of something else than the store that returns no error.
  unfoldable pub call : {A : Type 0} → (db.World → A × db.World) → Op env A
  call f w = let (a, w') = f w in (ok a, w')

  -- The answer of a call, error or not, as a value.
  unfoldable pub try : {A : Type 0} → Op env A → Op env (Result OrgError A)
  try m w = let (r, w') = m w in (ok r, w')

  unfoldable pub answer : {A : Type 0} → Result OrgError A → Op env A
  answer r w = (r, w)

  unfoldable pub mapped :
      {A B : Type 0} → (Result OrgError A → Result OrgError B) → Op env A → Op env B
  mapped f m w = let (r, w') = m w in (f r, w')

  unfoldable pub role_of : String → String → Op env Role
  role_of o u = do m ← mapped as_stranger (get_membership env o u); return m.role

  unfoldable pub kind_of_workspace : String → Op env Kind
  kind_of_workspace o = do org ← get env o; return (kind_of org)

  unfoldable pub membership_of : String → String → Op env (Role × Kind)
  membership_of o u = do
    role ← role_of o u
    kind ← mapped as_stranger (kind_of_workspace o)
    return (role, kind)

  unfoldable pub require : String → String → Role → Op env (Unit {0})
  require o actor floor = do role ← role_of o actor; guard (at_least role floor) forbidden

  unfoldable pub require_grantable_in : String → Role → Op env (Unit {0})
  require_grantable_in o role = mapped (grantable_answer role) (kind_of_workspace o)
