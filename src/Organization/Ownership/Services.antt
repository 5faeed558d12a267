-- ===== src/Organization/Ownership/Services.antt =====
-- The invariant of the tables for the methods of service.go on workspaces and members.
use ctech_account.Common.{String, ◌≡◌, false, Option, none, some, List, [], ◌∷◌, arith}
use ctech_account.Action.{Result, ok, err}
use ctech_account.Action.Keeps.{Keeps, Keeps-bind, keeps_rules}
use ctech_account.Organization.Model.{
  Role, Kind, is_owner, Organization, Membership, OrgError, not_found,
}
use ctech_account.Organization.Env.{Env}
use ctech_account.Organization.Repository.{Op}
use ctech_account.Organization.Access
use ctech_account.Organization.Service
use ctech_account.Organization.Service.{Workspace}
use ctech_account.Organization.Ownership.Invariant.{Inv, Keeps-call}
use ctech_account.Organization.Ownership.Methods.{
  create_with_owner-Inv, update_display_name-Inv, set_role-Inv, remove_membership-Inv,
  rename_member-Inv, transfer_ownership-Inv,
}
use ctech_account.Organization.Ownership.Limited.{
  call_rules, clock-Inv, levels_changed-Inv, create_guarded-Inv, transfer_guarded-Inv,
  personal_space-Inv, after_people_left-Inv,
}

module _ (env : Env) where
  open env use {db}

  pub role_of-Inv : (o u : String) → Keeps (Inv env) (Access.role_of env o u)
  unfolding Access.role_of
  role_of-Inv o u = search call_rules

  pub kind_of_workspace-Inv : (o : String) → Keeps (Inv env) (Access.kind_of_workspace env o)
  unfolding Access.kind_of_workspace
  kind_of_workspace-Inv o = search call_rules

  pub require-Inv : (o u : String) (r : Role) → Keeps (Inv env) (Access.require env o u r)
  unfolding Access.require
  require-Inv o u r = search (keeps_rules, role_of-Inv)

  pub require_grantable_in-Inv :
      (o : String) (r : Role) → Keeps (Inv env) (Access.require_grantable_in env o r)
  unfolding Access.require_grantable_in
  require_grantable_in-Inv o r = search (call_rules, kind_of_workspace-Inv)

  store_new-Inv :
      (k : Kind) (org : Organization) (name : String)
      → Keeps (Inv env) (Service.store_new env k org name)
  unfolding Service.store_new
  store_new-Inv k org name =
      search (keeps_rules, create_guarded-Inv, levels_changed-Inv, create_with_owner-Inv)

  new_id-Inv : Keeps (Inv env) (Access.call env env.new_id)
  new_id-Inv = Keeps-call env _ env.new_id_quiet

  pub create_of_kind-Inv :
      (k : Kind) (owner_id owner_name display_name : String)
      → Keeps (Inv env) (Service.create_of_kind env k owner_id owner_name display_name)
  unfolding Service.create_of_kind
  create_of_kind-Inv k owner_id owner_name display_name =
      search (call_rules, clock-Inv, new_id-Inv, store_new-Inv) depth 9

  pub get_for-Inv : (o u : String) → Keeps (Inv env) (Service.get_for env o u)
  unfolding Service.get_for
  get_for-Inv o u = search (call_rules, role_of-Inv)

  pub rename-Inv : (o u name : String) → Keeps (Inv env) (Service.rename env o u name)
  unfolding Service.rename
  rename-Inv o u name =
      search (keeps_rules, require-Inv, clock-Inv, update_display_name-Inv) depth 7

  pub list_members_for-Inv : (o u : String) → Keeps (Inv env) (Service.list_members_for env o u)
  unfolding Service.list_members_for
  list_members_for-Inv o u = search (call_rules, require-Inv)

  pub change_role-Inv :
      (o actor target : String) (r : Role)
      → Keeps (Inv env) (Service.change_role env o actor target r)
  unfolding Service.change_role
  change_role-Inv o actor target r =
      search (call_rules, require_grantable_in-Inv, role_of-Inv, set_role-Inv) depth 11

  after_space-Inv :
      (space : Option Organization) → Keeps (Inv env) (Service.after_removal env space)
  unfolding Service.after_removal
  after_space-Inv none = search keeps_rules
  after_space-Inv (some org) = after_people_left-Inv env org

  remove_counted-Inv : (o u : String) → Keeps (Inv env) (Service.remove_counted env o u)
  unfolding Service.remove_counted
  remove_counted-Inv o u =
      search (keeps_rules, remove_membership-Inv, personal_space-Inv, after_space-Inv)

  remove_other-Inv :
      (o actor target : String) (r : Role)
      → Keeps (Inv env) (Service.remove_other env o actor target r)
  unfolding Service.remove_other
  remove_other-Inv o actor target r = search (keeps_rules, role_of-Inv, remove_counted-Inv) depth 7

  pub remove-Inv : (o actor target : String) → Keeps (Inv env) (Service.remove env o actor target)
  unfolding Service.remove
  remove-Inv o actor target =
      search (keeps_rules, role_of-Inv, remove_counted-Inv, remove_other-Inv) depth 7

  demoted_not_owner : (k : Kind) → is_owner (Service.demoted k) ≡ false
  demoted_not_owner k = ground arith

  store_transfer-Inv :
      (k : Kind) (o from to : String) → Keeps (Inv env) (Service.store_transfer env k o from to)
  unfolding Service.store_transfer
  store_transfer-Inv k o from to =
      search
        (keeps_rules, transfer_guarded-Inv, demoted_not_owner, clock-Inv, transfer_ownership-Inv)

  pub transfer-Inv : (o actor to : String) → Keeps (Inv env) (Service.transfer env o actor to)
  unfolding Service.transfer
  transfer-Inv o actor to =
      search (call_rules, role_of-Inv, kind_of_workspace-Inv, store_transfer-Inv) depth 11

  pub rename_member_everywhere-Inv :
      (u name : String) → Keeps (Inv env) (Service.rename_member_everywhere env u name)
  unfolding Service.rename_member_everywhere
  rename_member_everywhere-Inv u name = search (keeps_rules, rename_member-Inv)

  add_workspace-Inv :
      (m : Membership) (r : Result OrgError Organization) (rest : Op env (List Workspace))
      → Keeps (Inv env) rest
      → Keeps (Inv env) (Service.add_workspace env m r rest)
  unfolding Service.add_workspace
  add_workspace-Inv m (err not_found) rest h = h
  add_workspace-Inv m (err e) rest h = search keeps_rules
  add_workspace-Inv m (ok org) rest h = search keeps_rules

  workspaces_of-Inv : (ms : List Membership) → Keeps (Inv env) (Service.workspaces_of env ms)
  unfolding Service.workspaces_of
  workspaces_of-Inv [] = search keeps_rules
  workspaces_of-Inv (m ∷ ms) =
      Keeps-bind _ _ (search call_rules) (λ r. add_workspace-Inv m r _ (workspaces_of-Inv ms))

  pub list_workspaces-Inv : (u : String) → Keeps (Inv env) (Service.list_workspaces env u)
  unfolding Service.list_workspaces
  list_workspaces-Inv u = search (call_rules, workspaces_of-Inv)
