-- ===== src/Organization/Ownership/Methods.antt =====
-- The invariant of the tables for the methods of the two repository interfaces.
use ctech_account.Common.{ℕ, String, ◌≡◌, inl, inr, true, false, List, [], ◌∷◌, arith, Bool-cases}
use ctech_account.Action.Keeps.{Keeps, Keeps-then, keeps_rules}
use ctech_account.Organization.Model.{
  Role, is_owner, is_grantable_role, Organization, Membership, Invitation,
}
use ctech_account.Organization.Env.{Env}
use ctech_account.Organization.Repository
use ctech_account.Organization.Counters
use ctech_account.Organization.Counters.{Counter, CounterWrite}
use ctech_account.Organization.Ownership.Writes.{
  set_role_item-IsSound, remove_item-IsSound, rename_item-IsSound, display_name_item-IsSound,
  put_invitation_item-IsSound, delete_invitation_item-IsSound, accept_items-IsSound,
  create_items-IsSound, transfer_items-IsSound,
}
use ctech_account.Organization.Ownership.Guards.{
  spaces_guard_item-IsSound, less_space_item-IsSound, less_people_item-IsSound,
  guarded_create-IsSound, guarded_transfer-IsSound, guarded_invitation-IsSound,
}
use ctech_account.Organization.Ownership.Invariant.{
  Inv, Keeps-write, Keeps-read, Keeps-read_base, Keeps-ask,
}

pub grantable_not_owner : (r : Role) → is_grantable_role r ≡ true → is_owner r ≡ false
unfolding is_grantable_role
grantable_not_owner r h = ground arith

module _ (env : Env) where
  pub get-Inv : (o : String) → Keeps (Inv env) (Repository.get env o)
  unfolding Repository.get
  get-Inv o = Keeps-read_base env _ _

  pub get_membership-Inv : (o u : String) → Keeps (Inv env) (Repository.get_membership env o u)
  unfolding Repository.get_membership
  get_membership-Inv o u = Keeps-read_base env _ _

  pub list_members-Inv : (o : String) → Keeps (Inv env) (Repository.list_members env o)
  unfolding Repository.list_members
  list_members-Inv o = Keeps-ask env _ _

  pub list_for_user-Inv : (u : String) → Keeps (Inv env) (Repository.list_for_user env u)
  unfolding Repository.list_for_user
  list_for_user-Inv u = Keeps-ask env _ _

  pub list_invitations-Inv : (o : String) → Keeps (Inv env) (Repository.list_invitations env o)
  unfolding Repository.list_invitations
  list_invitations-Inv o = Keeps-ask env _ _

  pub create_with_owner-Inv :
      (org : Organization) (name : String)
      → Keeps (Inv env) (Repository.create_with_owner env org name)
  unfolding Repository.create_with_owner
  create_with_owner-Inv org name = Keeps-write env _ _ (create_items-IsSound org name)

  pub update_display_name-Inv :
      (o name : String) (now : ℕ) → Keeps (Inv env) (Repository.update_display_name env o name now)
  unfolding Repository.update_display_name
  update_display_name-Inv o name now = Keeps-write env _ _ (display_name_item-IsSound o name now)

  pub set_role-Inv : (o u : String) (r : Role) → Keeps (Inv env) (Repository.set_role env o u r)
  unfolding Repository.set_role
  set_role-Inv o u r = elim (Bool-cases (is_grantable_role r)) [
    | inl g ↦ rw g (Keeps-write env _ _ (set_role_item-IsSound o u r (grantable_not_owner r g)))
    | inr g ↦ rw g (search keeps_rules)
  ]

  pub remove_membership-Inv :
      (o u : String) → Keeps (Inv env) (Repository.remove_membership env o u)
  unfolding Repository.remove_membership
  remove_membership-Inv o u = Keeps-write env _ _ (remove_item-IsSound o u)

  rename_all-Inv :
      (u name : String) (ms : List Membership)
      → Keeps (Inv env) (Repository.rename_all env u name ms)
  unfolding Repository.rename_all
  rename_all-Inv u name [] = search keeps_rules
  rename_all-Inv u name (m ∷ ms) =
      Keeps-then _ _ (Keeps-write env _ _ (rename_item-IsSound _ u name)) (rename_all-Inv u name ms)

  pub rename_member-Inv : (u name : String) → Keeps (Inv env) (Repository.rename_member env u name)
  unfolding Repository.rename_member
  rename_member-Inv u name = search (keeps_rules, list_for_user-Inv, rename_all-Inv)

  pub transfer_ownership-Inv :
      (o from to : String) (r : Role) (now : ℕ)
      → is_owner r ≡ false
      → Keeps (Inv env) (Repository.transfer_ownership env o from to r now)
  unfolding Repository.transfer_ownership
  transfer_ownership-Inv o from to r now h =
      Keeps-write env _ _ (transfer_items-IsSound o from to r now h)

  pub put_invitation-Inv :
      (inv : Invitation)
      → is_owner inv.role ≡ false
      → Keeps (Inv env) (Repository.put_invitation env inv)
  unfolding Repository.put_invitation
  put_invitation-Inv inv h = Keeps-write env _ _ (put_invitation_item-IsSound _ inv h)

  pub accept_invitation-Inv :
      (m : Membership) (email : String)
      → is_owner m.role ≡ false
      → Keeps (Inv env) (Repository.accept_invitation env m email)
  unfolding Repository.accept_invitation
  accept_invitation-Inv m email h = Keeps-write env _ _ (accept_items-IsSound m _ h)

  pub delete_invitation-Inv :
      (o email : String) → Keeps (Inv env) (Repository.delete_invitation env o email)
  unfolding Repository.delete_invitation
  delete_invitation-Inv o email = Keeps-write env _ _ (delete_invitation_item-IsSound o _)

  pub space_counter-Inv : (u : String) → Keeps (Inv env) (Counters.space_counter env u)
  unfolding Counters.space_counter
  space_counter-Inv u = Keeps-read env _ _

  pub people_counter-Inv : (o : String) → Keeps (Inv env) (Counters.people_counter env o)
  unfolding Counters.people_counter
  people_counter-Inv o = Keeps-read env _ _

  pub get_invitation-Inv :
      (o email : String) → Keeps (Inv env) (Counters.get_invitation env o email)
  unfolding Counters.get_invitation
  get_invitation-Inv o email = Keeps-read env _ _

  pub create_with_owner_guarded-Inv :
      (org : Organization) (name : String) (g : CounterWrite)
      → Keeps (Inv env) (Counters.create_with_owner_guarded env org name g)
  unfolding Counters.create_with_owner_guarded
  create_with_owner_guarded-Inv org name g = Keeps-write env _ _ (guarded_create-IsSound org name g)

  pub put_invitation_guarded-Inv :
      (inv : Invitation) (g : CounterWrite) (now : ℕ)
      → is_owner inv.role ≡ false
      → Keeps (Inv env) (Counters.put_invitation_guarded env inv g now)
  unfolding Counters.put_invitation_guarded
  put_invitation_guarded-Inv inv g now h =
      Keeps-write env _ _ (guarded_invitation-IsSound _ _ inv now g h)

  pub transfer_ownership_guarded-Inv :
      (o from to : String) (r : Role) (now : ℕ) (g : CounterWrite)
      → is_owner r ≡ false
      → Keeps (Inv env) (Counters.transfer_ownership_guarded env o from to r now g)
  unfolding Counters.transfer_ownership_guarded
  transfer_ownership_guarded-Inv o from to r now g h =
      Keeps-write env _ _ (guarded_transfer-IsSound o from to r now g h)

  pub decrement_space_counter-Inv :
      (u : String) → Keeps (Inv env) (Counters.decrement_space_counter env u)
  unfolding Counters.decrement_space_counter
  decrement_space_counter-Inv u = Keeps-write env _ _ (less_space_item-IsSound u)

  pub decrement_people_counter-Inv :
      (o : String) → Keeps (Inv env) (Counters.decrement_people_counter env o)
  unfolding Counters.decrement_people_counter
  decrement_people_counter-Inv o = Keeps-write env _ _ (less_people_item-IsSound o)

  pub reconcile_space_counter-Inv :
      (u : String) (seen : Counter) (real : ℕ)
      → Keeps (Inv env) (Counters.reconcile_space_counter env u seen real)
  unfolding Counters.reconcile_space_counter
  reconcile_space_counter-Inv u seen real = Keeps-write env _ _ (spaces_guard_item-IsSound u _)

pub ruleset reads_rules = (
  get-Inv, get_membership-Inv, list_members-Inv, list_for_user-Inv, list_invitations-Inv,
  space_counter-Inv, people_counter-Inv, get_invitation-Inv,
)
