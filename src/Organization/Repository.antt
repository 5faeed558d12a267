-- ===== src/Organization/Repository.antt =====
-- api/internal/domain/organization/repository.go: each method is an action on the store.
pub mod Items
use ctech_account.Common.{
  ℕ, ◌*◌, ◌/◌, String, Bool, true, false, not, ◌&&◌, Option, none, some, List, [], ◌∷◌,
  if◌then◌else◌,
}
use ctech_account.Action.{Action, Result, ok, err, return, fail, guard, ◌>>=◌, ◌>>◌}
use ctech_account.Dynamo.Contract.{Write, Outcome, committed, rejected, conflict, Reply, done}
use ctech_account.Organization.Model.{
  Role, owner, is_owner, is_grantable_role, Organization, Membership, Invitation, OrgError,
  not_found, already_member, failed,
}
use ctech_account.Organization.Rows.{
  Key, org_key, member_key, invite_key, Row, org_row, member_row, invite_row, members_of,
  invitations_of, memberships_of, invitation_with_hash, imported_from, Query,
}
use ctech_account.Organization.Env.{Env}
use Items.{
  create_items, put_membership_item, set_role_item, remove_item, rename_item, transfer_items,
  put_invitation_item, delete_invitation_item, display_name_item, accept_items,
}

-- What the answer of a transaction means to a caller that maps IsConditionFailed to `e`.
abbrev pub condition_error : OrgError → Outcome → Result OrgError (Unit {0})
condition_error e committed = ok tt
condition_error e (rejected bs) = err e
condition_error e conflict = err failed
condition_error e Outcome.failed = err failed

-- A conditional write whose caller does not mind that the condition failed.
abbrev pub ignore_absent : Outcome → Result OrgError (Unit {0})
ignore_absent committed = ok tt
ignore_absent (rejected bs) = ok tt
ignore_absent conflict = err failed
ignore_absent Outcome.failed = err failed

abbrev pub found_org : Reply (Option Row) → Result OrgError Organization
found_org Reply.failed = err failed
found_org (done none) = err not_found
found_org (done (some (org_row o n))) = ok o
found_org (done (some r)) = err failed

abbrev pub found_member : Reply (Option Row) → Result OrgError Membership
found_member Reply.failed = err failed
found_member (done none) = err not_found
found_member (done (some (member_row m))) = ok m
found_member (done (some r)) = err failed

abbrev pub found_invitation : Reply (Option Row) → Result OrgError Invitation
found_invitation Reply.failed = err failed
found_invitation (done none) = err not_found
found_invitation (done (some (invite_row i))) = ok i
found_invitation (done (some r)) = err failed

abbrev pub first_invitation : Reply (List Row) → Result OrgError Invitation
first_invitation Reply.failed = err failed
first_invitation (done []) = err not_found
first_invitation (done (invite_row i ∷ rs)) = ok i
first_invitation (done (r ∷ rs)) = err failed

abbrev pub first_org : Reply (List Row) → Result OrgError Organization
first_org Reply.failed = err failed
first_org (done []) = err not_found
first_org (done (org_row o n ∷ rs)) = ok o
first_org (done (r ∷ rs)) = err failed

-- collectMemberships, and the same loop in ListInvitations
abbrev pub add_to : {A : Type 0} → A → Result OrgError (List A) → Result OrgError (List A)
add_to a (ok l) = ok (a ∷ l)
add_to a (err e) = err e

abbrev pub collect_memberships : List Row → Result OrgError (List Membership)
collect_memberships [] = ok []
collect_memberships (member_row m ∷ rs) = add_to m (collect_memberships rs)
collect_memberships (r ∷ rs) = err failed

abbrev pub collect_invitations : List Row → Result OrgError (List Invitation)
collect_invitations [] = ok []
collect_invitations (invite_row i ∷ rs) = add_to i (collect_invitations rs)
collect_invitations (r ∷ rs) = err failed

abbrev pub listed :
    {A : Type 0}
    → (List Row → Result OrgError (List A))
    → Reply (List Row)
    → Result OrgError (List A)
listed f Reply.failed = err failed
listed f (done rs) = f rs

module _ (env : Env) where
  open env use {db, hash}

  abbrev pub Op : Type 0 → Type 0
  Op A = Action db.World OrgError A

  unfoldable pub read : {A : Type 0} → (Reply (Option Row) → Result OrgError A) → Key → Op A
  read f k w = let (r, w') = db.get_item k w in (f r, w')

  unfoldable pub read_base : {A : Type 0} → (Reply (Option Row) → Result OrgError A) → Key → Op A
  read_base f k w = let (r, w') = db.base_get k w in (f r, w')

  unfoldable pub ask : {A : Type 0} → (Reply (List Row) → Result OrgError A) → Query → Op A
  ask f q w = let (r, w') = db.query q w in (f r, w')

  unfoldable pub write :
      (Outcome → Result OrgError (Unit {0})) → List (Write Key Row) → Op (Unit {0})
  write f xs w = let (o, w') = db.transact xs w in (f o, w')

  unfoldable pub create_with_owner : Organization → String → Op (Unit {0})
  create_with_owner org name = write (condition_error already_member) (create_items org name)

  unfoldable pub get : String → Op Organization
  get id = read_base found_org (org_key id)

  unfoldable pub get_by_source_ref : String → String → Op Organization
  get_by_source_ref system ref = ask first_org (imported_from system ref)

  unfoldable pub update_display_name : String → String → ℕ → Op (Unit {0})
  update_display_name id name now =
      write (condition_error not_found) (display_name_item id name now ∷ [])

  unfoldable pub get_membership : String → String → Op Membership
  get_membership o u = read_base found_member (member_key o u)

  unfoldable pub list_members : String → Op (List Membership)
  list_members o = ask (listed collect_memberships) (members_of o)

  unfoldable pub list_for_user : String → Op (List Membership)
  list_for_user u = ask (listed collect_memberships) (memberships_of u)

  unfoldable pub put_membership : Membership → Op (Unit {0})
  put_membership m = write (condition_error already_member) (put_membership_item m ∷ [])

  unfoldable pub set_role : String → String → Role → Op (Unit {0})
  set_role o u role =
      if not (is_grantable_role role)
      then fail failed
      else write (condition_error not_found) (set_role_item o u role ∷ [])

  unfoldable pub remove_membership : String → String → Op (Unit {0})
  remove_membership o u = write (condition_error not_found) (remove_item o u ∷ [])

  unfoldable pub rename_all : String → String → List Membership → Op (Unit {0})
  rename_all u name [] = return tt
  rename_all u name (m ∷ ms) =
      write ignore_absent (rename_item m.organization_id u name ∷ []) >> rename_all u name ms

  unfoldable pub rename_member : String → String → Op (Unit {0})
  rename_member u name = do ms ← list_for_user u; rename_all u name ms

  unfoldable pub transfer_ownership : String → String → String → Role → ℕ → Op (Unit {0})
  transfer_ownership o from to demote_to now =
      write (condition_error not_found) (transfer_items o from to demote_to now)

  -- NormalizeEmail
  unfoldable pub normalize_email : String → String
  normalize_email email = env.lower (env.trim email)

  unfoldable pub put_invitation : Invitation → Op (Unit {0})
  put_invitation inv =
      write (condition_error failed) (put_invitation_item (normalize_email inv.email) inv ∷ [])

  unfoldable pub get_invitation_by_token : String → Op Invitation
  get_invitation_by_token token_hash = ask first_invitation (invitation_with_hash token_hash)

  unfoldable pub list_invitations : String → Op (List Invitation)
  list_invitations o = ask (listed collect_invitations) (invitations_of o)

  unfoldable pub accept_invitation : Membership → String → Op (Unit {0})
  accept_invitation m email =
      write (condition_error already_member) (accept_items m (normalize_email email))

  unfoldable pub delete_invitation : String → String → Op (Unit {0})
  delete_invitation o email =
      write (condition_error failed) (delete_invitation_item o (normalize_email email) ∷ [])
