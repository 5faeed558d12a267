-- ===== src/Organization/Ownership/Invites.antt =====
-- The invariant of the tables for the methods of service.go on invitations.
use ctech_account.Common.{String, ◌≡◌, Bool, true, false, Option, none, some, List, [], ◌∷◌}
use ctech_account.Action.{Result, ok, err}
use ctech_account.Action.Keeps.{Keeps, Keeps-then, Keeps-guard, Gives-bind, keeps_rules}
use ctech_account.Organization.Model.{
  Role, is_owner, Organization, Membership, Invitation, OrgError,
}
use ctech_account.Organization.Env.{Env}
use ctech_account.Organization.Access
use ctech_account.Organization.Invitations
use ctech_account.Organization.Ownership.Invariant.{Inv, Keeps-call, Keeps-Quiet, Gives-invitation}
use ctech_account.Organization.Ownership.Methods.{
  grantable_not_owner, put_invitation-Inv, accept_invitation-Inv, delete_invitation-Inv,
}
use ctech_account.Organization.Ownership.Limited.{
  call_rules, clock-Inv, levels_changed-Inv, schedule_levels-Inv, absent_ok-Inv, invite_guarded-Inv,
  personal_space-Inv, after_people_left-Inv,
}
use ctech_account.Organization.Ownership.Services.{
  role_of-Inv, kind_of_workspace-Inv, require-Inv, require_grantable_in-Inv,
}

module _ (env : Env) where
  open env use {db}

  no_companies_in_spaces-Inv :
      (o : String) (cs : List String)
      → Keeps (Inv env) (Invitations.no_companies_in_spaces env o cs)
  unfolding Invitations.no_companies_in_spaces
  no_companies_in_spaces-Inv o cs = search (call_rules, kind_of_workspace-Inv)

  send_invitation-Inv :
      (space : Option Organization) (inv : Invitation)
      → is_owner inv.role ≡ false
      → Keeps (Inv env) (Invitations.send_invitation env space inv)
  unfolding Invitations.send_invitation
  send_invitation-Inv none inv h = put_invitation-Inv env inv h
  send_invitation-Inv (some space) inv h =
      search (keeps_rules, invite_guarded-Inv, levels_changed-Inv, schedule_levels-Inv)

  mint-Inv : Keeps (Inv env) (Access.call env env.mint)
  mint-Inv = Keeps-call env _ env.mint_quiet

  -- What follows the first guard of Invite, at a grantable role.
  invite_rest-Inv :
      (o actor address : String) (role : Role) (cs : List String)
      → is_owner role ≡ false
      → Keeps (Inv env) (Invitations.offer env o actor address role cs)
  unfolding Invitations.offer
  invite_rest-Inv o actor address role cs h =
      search
        (
          call_rules, require_grantable_in-Inv, no_companies_in_spaces-Inv, role_of-Inv, mint-Inv,
          clock-Inv, personal_space-Inv, send_invitation-Inv,
        )
        depth 15

  pub invite-Inv :
      (o actor email : String) (role : Role) (cs : List String)
      → Keeps (Inv env) (Invitations.invite env o actor email role cs)
  unfolding Invitations.invite
  invite-Inv o actor email role cs =
      Keeps-guard _ _ _ (λ g.
        Keeps-guard _ _ _ (λ _. invite_rest-Inv o actor _ role cs (grantable_not_owner role g)))

  grant_all-Inv :
      (inv : Invitation) (u name : String) (cs : List String)
      → Keeps (Inv env) (Invitations.grant_all env inv u name cs)
  unfolding Invitations.grant_all
  grant_all-Inv inv u name [] = search keeps_rules
  grant_all-Inv inv u name (c ∷ cs) =
      Keeps-then _ _ (Keeps-Quiet env _ (env.grant_quiet _ c u name _))
        (grant_all-Inv inv u name cs)

  report_levels-Inv :
      (space : Option Organization) → Keeps (Inv env) (Invitations.report_levels env space)
  unfolding Invitations.report_levels
  report_levels-Inv none = search keeps_rules
  report_levels-Inv (some org) = levels_changed-Inv env _

  granted-Inv :
      (inv : Invitation) (m : Membership) → Keeps (Inv env) (Invitations.granted env inv m)
  unfolding Invitations.granted
  granted-Inv inv m = search (call_rules, grant_all-Inv)

  join-Inv :
      (inv : Invitation) (m : Membership)
      → is_owner m.role ≡ false
      → Keeps (Inv env) (Invitations.join env inv m)
  unfolding Invitations.join
  join-Inv inv m h =
      search
        (keeps_rules, accept_invitation-Inv, personal_space-Inv, report_levels-Inv, granted-Inv)

  redeem-Inv :
      (inv : Invitation) (u email name : String)
      → is_owner inv.role ≡ false
      → Keeps (Inv env) (Invitations.redeem env inv u email name)
  unfolding Invitations.redeem
  redeem-Inv inv u email name h = search (keeps_rules, clock-Inv, join-Inv) depth 9

  pub accept-Inv :
      (token u email name : String) → Keeps (Inv env) (Invitations.accept env token u email name)
  unfolding Invitations.accept
  accept-Inv token u email name = Keeps-guard _ _ _ (λ _.
      Gives-bind _ _ _ (Gives-invitation env _) (λ inv plain. redeem-Inv inv u email name plain))

  pub list_invitations_for-Inv :
      (o u : String) → Keeps (Inv env) (Invitations.list_invitations_for env o u)
  unfolding Invitations.list_invitations_for
  list_invitations_for-Inv o u = search (call_rules, require-Inv)

  live_now-Inv : (r : Result OrgError Invitation) → Keeps (Inv env) (Invitations.live_now env r)
  unfolding Invitations.live_now
  live_now-Inv (err e) = search keeps_rules
  live_now-Inv (ok inv) = search (keeps_rules, clock-Inv)

  counted_before-Inv :
      (space : Option Organization) (o email : String)
      → Keeps (Inv env) (Invitations.counted_before env space o email)
  unfolding Invitations.counted_before
  counted_before-Inv none o email = search keeps_rules
  counted_before-Inv (some s) o email = search (call_rules, absent_ok-Inv, live_now-Inv)

  after_revoke-Inv :
      (space : Option Organization) (b : Bool)
      → Keeps (Inv env) (Invitations.after_revoke env space b)
  unfolding Invitations.after_revoke
  after_revoke-Inv (some s) true = after_people_left-Inv env s
  after_revoke-Inv (some s) false = search keeps_rules
  after_revoke-Inv none b = search keeps_rules

  pub revoke_invitation-Inv :
      (o actor email : String) → Keeps (Inv env) (Invitations.revoke_invitation env o actor email)
  unfolding Invitations.revoke_invitation
  revoke_invitation-Inv o actor email =
      search
        (
          keeps_rules, require-Inv, personal_space-Inv, counted_before-Inv, delete_invitation-Inv,
          after_revoke-Inv,
        )
        depth 7
