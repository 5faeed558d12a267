-- ===== src/Organization/Ownership/History.antt =====
-- Any sequence of requests to the organization service, in any state of the store and of billing.
use ctech_account.Common.{String, List, [], ◌∷◌}
use ctech_account.Organization.Model.{Role, Kind}
use ctech_account.Organization.Env.{Env}
use ctech_account.Organization.Service
use ctech_account.Organization.Invitations
use ctech_account.Organization.Ownership.Invariant.{Inv}
use ctech_account.Organization.Ownership.Services.{
  create_of_kind-Inv, get_for-Inv, rename-Inv, list_members_for-Inv, change_role-Inv, remove-Inv,
  transfer-Inv, rename_member_everywhere-Inv, list_workspaces-Inv,
}
use ctech_account.Organization.Ownership.Invites.{
  invite-Inv, accept-Inv, list_invitations_for-Inv, revoke_invitation-Inv,
}

-- The methods of the service, each with its arguments in the order of the source.
pub data Request : Type 0 where
  create : Kind → String → String → String → Request
  get : String → String → Request
  rename : String → String → String → Request
  list_members : String → String → Request
  set_role : String → String → String → Role → Request
  remove : String → String → String → Request
  transfer : String → String → String → Request
  rename_member : String → String → Request
  list_workspaces : String → Request
  invite : String → String → String → Role → List String → Request
  accept : String → String → String → String → Request
  list_invitations : String → String → Request
  revoke : String → String → String → Request

module _ (env : Env) where
  open env use {db}

  -- The world that a request leaves, whatever it answers.
  unfoldable pub handle : Request → db.World → db.World
  handle (create k u n d) w = (Service.create_of_kind env k u n d w).1
  handle (get o u) w = (Service.get_for env o u w).1
  handle (rename o u n) w = (Service.rename env o u n w).1
  handle (list_members o u) w = (Service.list_members_for env o u w).1
  handle (set_role o a t r) w = (Service.change_role env o a t r w).1
  handle (remove o a t) w = (Service.remove env o a t w).1
  handle (transfer o a t) w = (Service.transfer env o a t w).1
  handle (rename_member u n) w = (Service.rename_member_everywhere env u n w).1
  handle (list_workspaces u) w = (Service.list_workspaces env u w).1
  handle (invite o a e r cs) w = (Invitations.invite env o a e r cs w).1
  handle (accept t u e n) w = (Invitations.accept env t u e n w).1
  handle (list_invitations o u) w = (Invitations.list_invitations_for env o u w).1
  handle (revoke o a e) w = (Invitations.revoke_invitation env o a e w).1

  unfoldable pub serve : List Request → db.World → db.World
  serve [] w = w
  serve (r ∷ rs) w = serve rs (handle r w)

  handle-Inv : (r : Request) (w : db.World) → Inv env w → Inv env (handle r w)
  unfolding handle
  handle-Inv (create k u n d) = (create_of_kind-Inv env k u n d).at
  handle-Inv (get o u) = (get_for-Inv env o u).at
  handle-Inv (rename o u n) = (rename-Inv env o u n).at
  handle-Inv (list_members o u) = (list_members_for-Inv env o u).at
  handle-Inv (set_role o a t r) = (change_role-Inv env o a t r).at
  handle-Inv (remove o a t) = (remove-Inv env o a t).at
  handle-Inv (transfer o a t) = (transfer-Inv env o a t).at
  handle-Inv (rename_member u n) = (rename_member_everywhere-Inv env u n).at
  handle-Inv (list_workspaces u) = (list_workspaces-Inv env u).at
  handle-Inv (invite o a e r cs) = (invite-Inv env o a e r cs).at
  handle-Inv (accept t u e n) = (accept-Inv env t u e n).at
  handle-Inv (list_invitations o u) = (list_invitations_for-Inv env o u).at
  handle-Inv (revoke o a e) = (revoke_invitation-Inv env o a e).at

  -- From tables in which each organization has its one owner and no invitation ever offered that role,
  -- any requests lead to such tables again: also where a call of the store failed, was applied with its
  -- answer lost, or read an index that lags, and with plan limits on or off.
  pub serve-Inv : (rs : List Request) (w : db.World) → Inv env w → Inv env (serve rs w)
  unfolding serve
  serve-Inv [] w h = h
  serve-Inv (r ∷ rs) w h = serve-Inv rs (handle r w) (handle-Inv r w h)
