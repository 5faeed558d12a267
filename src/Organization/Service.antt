-- ===== src/Organization/Service.antt =====
-- api/internal/domain/organization/service.go: the workspaces and their members.
use Prim.Native.String.{len, compare as compare_text}
use Prim.Native.Nat.{Ordering}
use ctech_account.Common.{
  ℕ, String, Bool, true, false, not, ◌&&◌, ◌||◌, Option, none, some, List, [], ◌∷◌, ltb, str_eq,
  if◌then◌else◌,
}
use ctech_account.Action.{Result, ok, err, return, fail, guard, ◌>>=◌, ◌>>◌}
use ctech_account.Organization.Model.{
  Role, viewer, member, admin, is_owner, is_member, is_grantable_role, at_least, outranks, Kind,
  organization, is_personal, normalize_kind, kind_of, Organization, Membership, OrgError, not_found,
  not_a_member, forbidden, invalid_name, not_grantable, own_role, outranked, invalid_kind,
  transfer_needs_full_access,
}
use ctech_account.Organization.Env.{Env}
use ctech_account.Organization.Repository.{
  Op, create_with_owner, get, update_display_name, list_members, list_for_user, set_role,
  remove_membership, rename_member, transfer_ownership,
}
use ctech_account.Organization.Access.{
  call, try, answer, role_of, kind_of_workspace, require, require_grantable_in,
}
use ctech_account.Organization.Limits.{
  create_guarded, transfer_guarded, personal_space, after_people_left,
}

abbrev pub max_display_name : ℕ
max_display_name = 120

-- `name == "" || len(name) > maxDisplayName`, in bytes
abbrev pub bad_name : String → Bool
bad_name name = str_eq name "" || ltb max_display_name (len name)

-- `if kind, err := NormalizeKind(kind); err != nil { return err }`
abbrev pub kind_or_error : Option Kind → Result OrgError Kind
kind_or_error none = err invalid_kind
kind_or_error (some k) = ok k

pub record Workspace : Type 0 where
  pub id : String
  pub display_name : String
  pub owner_user_id : String
  pub kind : Kind
  pub role : Role
  pub joined_at : ℕ

abbrev pub text_before : String → String → Bool
text_before a b = elim (compare_text a b) [ Ordering.lt ↦ true | _ ↦ false ]

-- By name, then by id.
abbrev pub workspace_before : Workspace → Workspace → Bool
workspace_before a b =
    if str_eq a.display_name b.display_name
    then text_before a.id b.id
    else text_before a.display_name b.display_name

abbrev insert_workspace : Workspace → List Workspace → List Workspace
insert_workspace x [] = x ∷ []
insert_workspace x (y ∷ ys) =
    let rest = insert_workspace x ys in if workspace_before y x then y ∷ rest else x ∷ y ∷ ys

unfoldable pub sort_workspaces : List Workspace → List Workspace
sort_workspaces [] = []
sort_workspaces (x ∷ xs) = insert_workspace x (sort_workspaces xs)

-- The rung that the old owner of a workspace of this kind keeps.
abbrev pub demoted : Kind → Role
demoted kind = if is_personal kind then member else admin

module _ (env : Env) where
  open env use {trim}

  abbrev pub new_organization : String → Kind → String → String → ℕ → Organization
  new_organization id kind owner_id name now = record {
    id = id;
    display_name = name;
    owner_user_id = owner_id;
    kind = kind;
    source_system = "";
    source_ref = "";
    created_at = now;
    updated_at = now;
  }

  -- A space is counted where plans limit it.
  unfoldable pub store_new : Kind → Organization → String → Op env (Unit {0})
  store_new k org owner_name =
      if is_personal k && env.limited
      then create_guarded env org owner_name >> call env (env.levels_changed org.owner_user_id)
      else create_with_owner env org owner_name

  unfoldable pub create_of_kind : Kind → String → String → String → Op env Organization
  create_of_kind kind owner_id owner_name display_name = do
    k ← answer env (kind_or_error (normalize_kind kind))
    let name = trim display_name
    guard (not (bad_name name)) invalid_name
    guard (not (str_eq (trim owner_id) "")) not_a_member
    now ← call env env.clock
    id ← call env env.new_id
    let org = new_organization id k owner_id name now
    store_new k org (trim owner_name)
    return org

  unfoldable pub create : String → String → String → Op env Organization
  create owner_id owner_name display_name =
      create_of_kind organization owner_id owner_name display_name

  unfoldable pub get_for : String → String → Op env Organization
  get_for o actor = role_of env o actor >> get env o

  unfoldable pub rename : String → String → String → Op env (Unit {0})
  rename o actor display_name = do
    let name = trim display_name
    guard (not (bad_name name)) invalid_name
    require env o actor admin
    now ← call env env.clock
    update_display_name env o name now

  unfoldable pub list_for : String → Op env (List Membership)
  list_for u = list_for_user env u

  unfoldable pub list_members_for : String → String → Op env (List Membership)
  list_members_for o actor = require env o actor viewer >> list_members env o

  unfoldable pub change_role : String → String → String → Role → Op env (Unit {0})
  change_role o actor target role = do
    guard (is_grantable_role role) not_grantable
    require_grantable_in env o role
    guard (not (str_eq actor target)) own_role
    actor_role ← role_of env o actor
    guard (at_least actor_role admin) forbidden
    current_role ← role_of env o target
    guard (outranks actor_role current_role) outranked
    guard (outranks actor_role role) outranked
    set_role env o target role

  unfoldable pub after_removal : Option Organization → Op env (Unit {0})
  after_removal none = return tt
  after_removal (some org) = after_people_left env org

  -- removeMembership
  unfoldable pub remove_counted : String → String → Op env (Unit {0})
  remove_counted o u = do
    remove_membership env o u
    space ← personal_space env o
    after_removal space

  unfoldable pub remove_other : String → String → String → Role → Op env (Unit {0})
  remove_other o actor target target_role = do
    actor_role ← role_of env o actor
    guard (at_least actor_role admin) forbidden
    guard (outranks actor_role target_role) outranked
    remove_counted o target

  unfoldable pub remove : String → String → String → Op env (Unit {0})
  remove o actor target = do
    target_role ← role_of env o target
    guard (not (is_owner target_role)) forbidden
    if str_eq actor target then remove_counted o target else remove_other o actor target target_role

  unfoldable pub store_transfer : Kind → String → String → String → Op env (Unit {0})
  store_transfer kind o from to =
      if is_personal kind && env.limited
      then transfer_guarded env o from to (demoted kind)
      else do now ← call env env.clock; transfer_ownership env o from to (demoted kind) now

  unfoldable pub transfer : String → String → String → Op env (Unit {0})
  transfer o actor to = do
    role ← role_of env o actor
    guard (is_owner role) forbidden
    guard (not (str_eq actor to)) forbidden
    to_role ← role_of env o to
    kind ← kind_of_workspace env o
    guard (not (is_personal kind) || is_member to_role) transfer_needs_full_access
    store_transfer kind o actor to

  unfoldable pub rename_member_everywhere : String → String → Op env (Unit {0})
  rename_member_everywhere u display_name =
      let name = trim display_name in
      if str_eq (trim u) "" || str_eq name "" then return tt else rename_member env u name

  -- One round of the loop of ListWorkspaces.
  unfoldable pub add_workspace :
      Membership → Result OrgError Organization → Op env (List Workspace) → Op env (List Workspace)
  add_workspace m (err not_found) rest = rest
  add_workspace m (err e) rest = fail e
  add_workspace m (ok org) rest = do
    l ← rest
    return (
        record {
          id = org.id;
          display_name = org.display_name;
          owner_user_id = org.owner_user_id;
          kind = kind_of org;
          role = m.role;
          joined_at = m.created_at;
        }
        ∷ l)

  unfoldable pub workspaces_of : List Membership → Op env (List Workspace)
  workspaces_of [] = return []
  workspaces_of (m ∷ ms) =
      let rest = workspaces_of ms in
      do r ← try env (get env m.organization_id); add_workspace m r rest

  unfoldable pub list_workspaces : String → Op env (List Workspace)
  list_workspaces u = do
    ms ← list_for_user env u
    out ← workspaces_of ms
    return (sort_workspaces out)
