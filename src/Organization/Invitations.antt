-- ===== src/Organization/Invitations.antt =====
-- api/internal/domain/organization/service.go: invitations, from the offer to the membership.
use text.Mathlib.Text.{find?}
use ctech_account.Common.{
  ℕ, ◌+◌, String, Bool, true, false, not, ◌&&◌, ◌||◌, Option, none, some, List, [], ◌∷◌, str_eq,
  if◌then◌else◌,
}
use ctech_account.Action.{Result, ok, err, return, guard, ◌>>=◌, ◌>>◌}
use ctech_account.Organization.Model.{
  Role, admin, is_grantable_role, at_least, outranks, Kind, is_personal, Organization, Membership,
  Invitation, invitation_ttl, invitation_live, second, OrgError, not_found, forbidden, invalid_name,
  not_grantable, outranked, invitation_invalid, wrong_invitee, no_companies_in_a_space, failed,
}
use ctech_account.Organization.Env.{Env}
use ctech_account.Organization.Repository.{
  Op, put_invitation, get_invitation_by_token, list_invitations, accept_invitation,
  delete_invitation, normalize_email,
}
use ctech_account.Organization.Counters.{get_invitation}
use ctech_account.Organization.Access.{
  call, try, answer, mapped, role_of, kind_of_workspace, require, require_grantable_in,
}
use ctech_account.Organization.Limits.{personal_space, invite_guarded, after_people_left, absent_ok}

abbrev pub is_empty {ℓ} : {A : Type ℓ} → List A → Bool
is_empty [] = true
is_empty (x ∷ xs) = false

-- strings.Contains(address, "@")
abbrev pub has_at : String → Bool
has_at s = elim (find? s "@") [ none ↦ false | some _ ↦ true ]

abbrev pub space_kind : Result OrgError Kind → Bool
space_kind (ok k) = is_personal k
space_kind (err e) = false

abbrev pub minted_or_error : Option String → Result OrgError String
minted_or_error none = err failed
minted_or_error (some t) = ok t

-- An unknown token answers as an invalid one.
abbrev pub as_invalid : Result OrgError Invitation → Result OrgError Invitation
as_invalid (err not_found) = err invitation_invalid
as_invalid r = r

-- expiryReportAt
abbrev pub expiry_report_at : Invitation → ℕ
expiry_report_at inv = elim inv.expires_at [ none ↦ 0 | some t ↦ t + second ]

abbrev pub accepted_membership : Invitation → String → String → ℕ → Membership
accepted_membership inv u name created = record {
  organization_id = inv.organization_id;
  user_id = u;
  name = name;
  role = inv.role;
  invited_by = inv.invited_by;
  created_at = created;
}

module _ (env : Env) where
  open env use {trim, hash}

  -- `if len(companyIDs) > 0 { if kind, err := ...; err == nil && kind == KindPersonal { ... } }`
  unfoldable pub no_companies_in_spaces : String → List String → Op env (Unit {0})
  no_companies_in_spaces o company_ids = if is_empty company_ids then return tt else do
    k ← try env (kind_of_workspace env o)
    guard (not (space_kind k)) no_companies_in_a_space

  -- The limits' side of Invite, or the plain write.
  unfoldable pub send_invitation : Option Organization → Invitation → Op env (Unit {0})
  send_invitation none inv = put_invitation env inv
  send_invitation (some space) inv =
      invite_guarded env space inv
      >> call env (env.levels_changed space.owner_user_id)
      >> call env (env.schedule_levels space.owner_user_id (expiry_report_at inv))

  abbrev pub new_invitation :
      String → String → Role → List String → String → String → ℕ → Invitation
  new_invitation o address role company_ids token actor now = record {
    organization_id = o;
    email = address;
    role = role;
    token_hash = hash token;
    company_ids = company_ids;
    invited_by = actor;
    created_at = now;
    expires_at = some (now + invitation_ttl);
  }

  -- Invite, from the checks on the workspace on.
  unfoldable pub offer : String → String → String → Role → List String → Op env String
  offer o actor address role company_ids = do
    require_grantable_in env o role
    no_companies_in_spaces o company_ids
    actor_role ← role_of env o actor
    guard (at_least actor_role admin) forbidden
    guard (outranks actor_role role) outranked
    minted ← call env env.mint
    token ← answer env (minted_or_error minted)
    now ← call env env.clock
    space ← personal_space env o
    send_invitation space (new_invitation o address role company_ids token actor now)
    return token

  unfoldable pub invite : String → String → String → Role → List String → Op env String
  invite o actor email role company_ids = do
    guard (is_grantable_role role) not_grantable
    let address = normalize_email env email
    guard (not (str_eq address "") && has_at address) invalid_name
    offer o actor address role company_ids

  -- The company grants of an accepted invitation: the first one that fails ends the loop.
  unfoldable pub grant_all : Invitation → String → String → List String → Op env (Unit {0})
  grant_all inv u name [] = return tt
  grant_all inv u name (c ∷ cs) =
      env.grant inv.organization_id c u name inv.invited_by >> grant_all inv u name cs

  unfoldable pub report_levels : Option Organization → Op env (Unit {0})
  report_levels none = return tt
  report_levels (some space) = call env (env.levels_changed space.owner_user_id)

  -- The company grants, where there is a granter: their error goes beside the membership.
  unfoldable pub granted :
      Invitation → Membership → Op env (Membership × Result OrgError (Unit {0}))
  granted inv m =
      if not env.has_granter
      then return (m, ok tt)
      else do r ← try env (grant_all inv m.user_id m.name inv.company_ids); return (m, r)

  unfoldable pub join : Invitation → Membership → Op env (Membership × Result OrgError (Unit {0}))
  join inv m = do
    accept_invitation env m inv.email
    space ← personal_space env inv.organization_id
    report_levels space
    granted inv m

  -- Accept, once the token has led to an invitation.
  unfoldable pub redeem :
      Invitation → String → String → String → Op env (Membership × Result OrgError (Unit {0}))
  redeem inv u email name = do
    now ← call env env.clock
    guard (invitation_live inv now) invitation_invalid
    guard (str_eq (normalize_email env email) (normalize_email env inv.email)) wrong_invitee
    created ← call env env.clock
    join inv (accepted_membership inv u (trim name) created)

  -- An error, or the membership beside the answer of the grants.
  unfoldable pub accept :
      String → String → String → String → Op env (Membership × Result OrgError (Unit {0}))
  accept token u email name = do
    guard (not (str_eq token "" || str_eq (trim u) "")) invitation_invalid
    inv ← mapped env as_invalid (get_invitation_by_token env (hash token))
    redeem inv u email name

  unfoldable pub list_invitations_for : String → String → Op env (List Invitation)
  list_invitations_for o actor = require env o actor admin >> list_invitations env o

  unfoldable pub live_now : Result OrgError Invitation → Op env Bool
  live_now (err e) = return false
  live_now (ok inv) = do now ← call env env.clock; return (invitation_live inv now)

  -- Whether the invitation to be withdrawn is one that the plan counts.
  unfoldable pub counted_before : Option Organization → String → String → Op env Bool
  counted_before none o email = return false
  counted_before (some space) o email = do
    existing ← try env (get_invitation env o email)
    absent_ok env existing
    live_now existing

  unfoldable pub after_revoke : Option Organization → Bool → Op env (Unit {0})
  after_revoke (some space) true = after_people_left env space
  after_revoke _ _ = return tt

  unfoldable pub revoke_invitation : String → String → String → Op env (Unit {0})
  revoke_invitation o actor email = do
    require env o actor admin
    space ← personal_space env o
    counted ← counted_before space o email
    delete_invitation env o email
    after_revoke space counted
