-- ===== src/Organization/Model.antt =====
-- api/internal/domain/organization/model.go, kind.go and the plan quotas of planlimit.go. A role or a
-- kind that is none of the constants is `Role.other` or `Kind.unknown`. Times are nanoseconds since
-- 1970; `expires_at` is `none` for Go's zero time.
use ctech_account.Common.{
  ℕ, ◌*◌, String, Bool, true, false, not, ◌&&◌, ◌||◌, Option, none, some, List, [], ◌∷◌, leb, ltb,
  if◌then◌else◌,
}

pub data Role : Type 0 where
  viewer member admin owner : Role
  other : String → Role

pub data Kind : Type 0 where
  absent organization personal : Kind
  unknown : String → Kind

-- `rank[role]`: 0 for a role that the map lacks.
unfoldable pub role_rank : Role → ℕ
role_rank viewer = 1
role_rank member = 2
role_rank admin = 3
role_rank owner = 4
role_rank (other s) = 0

unfoldable pub is_grantable_role : Role → Bool
is_grantable_role admin = true
is_grantable_role member = true
is_grantable_role viewer = true
is_grantable_role owner = false
is_grantable_role (other s) = false

unfoldable pub outranks : Role → Role → Bool
outranks role peer = ltb (role_rank peer) (role_rank role) && ltb 0 (role_rank role)

unfoldable pub at_least : Role → Role → Bool
at_least role floor = leb (role_rank floor) (role_rank role) && ltb 0 (role_rank role)

-- The loop over the grantable roles, in the order of the source.
outranked_of : Role → List Role → List Role
outranked_of caller [] = []
outranked_of caller (r ∷ rs) =
    let rest = outranked_of caller rs in if outranks caller r then r ∷ rest else rest

unfoldable pub assignable_roles : Role → List Role
unfolding outranked_of
assignable_roles caller =
    if not (at_least caller admin) then [] else outranked_of caller (admin ∷ member ∷ viewer ∷ [])

-- `role == RoleOwner`
abbrev pub is_owner : Role → Bool
is_owner owner = true
is_owner _ = false

abbrev pub is_member : Role → Bool
is_member member = true
is_member _ = false

abbrev pub is_admin : Role → Bool
is_admin admin = true
is_admin _ = false

-- `kind == KindPersonal`
abbrev pub is_personal : Kind → Bool
is_personal personal = true
is_personal _ = false

-- `none` is ErrInvalidKind.
unfoldable pub normalize_kind : Kind → Option Kind
normalize_kind absent = some organization
normalize_kind organization = some organization
normalize_kind personal = some personal
normalize_kind (unknown s) = none

pub record Organization : Type 0 where
  pub id : String
  pub display_name : String
  pub owner_user_id : String
  pub kind : Kind
  pub source_system : String
  pub source_ref : String
  pub created_at : ℕ
  pub updated_at : ℕ

-- A kind that reached the table by an unplanned path reads as a space, which grants less.
unfoldable pub kind_of : Organization → Kind
unfolding normalize_kind
kind_of o = elim (normalize_kind o.kind) [ none ↦ personal | some k ↦ k ]

unfoldable pub is_grantable_role_in : Kind → Role → Bool
unfolding is_grantable_role
is_grantable_role_in kind role =
    if not (is_grantable_role role) then false else not (is_personal kind) || not (is_admin role)

pub record Membership : Type 0 where
  pub organization_id : String
  pub user_id : String
  pub name : String
  pub role : Role
  pub invited_by : String
  pub created_at : ℕ

pub record Invitation : Type 0 where
  pub organization_id : String
  pub email : String
  pub role : Role
  pub token_hash : String
  pub company_ids : List String
  pub invited_by : String
  pub created_at : ℕ
  pub expires_at : Option ℕ

abbrev pub second : ℕ
second = 1000000000

abbrev pub invitation_ttl : ℕ
invitation_ttl = 7 * 24 * 3600 * second

-- Spendable up to and including the instant of expiry.
unfoldable pub invitation_live : Invitation → ℕ → Bool
invitation_live inv now = elim inv.expires_at [ none ↦ true | some t ↦ not (ltb t now) ]

-- An int64 limit, with -1 for `unlimited`. A lower one admits nothing, as `at_most 0` does.
pub data Limit : Type 0 where
  unlimited : Limit
  at_most : ℕ → Limit

unfoldable pub allows : Limit → ℕ → Bool
allows unlimited used = true
allows (at_most limit) used = ltb used limit

pub record Quotas : Type 0 where
  pub plan : String
  pub spaces : Limit
  pub people_per_space : Limit

pub data Resource : Type 0 where
  spaces people : Resource

pub record PlanLimitError : Type 0 where
  pub resource : Resource
  pub limit : Limit
  pub used : ℕ
  pub plan : String
  pub hidden : Bool

-- The error values of service.go, repository.go, kind.go, planlimit.go and counters.go. `failed` is any
-- other error: a call of the store, of billing or of the random source that went wrong.
pub data OrgError : Type 0 where
  not_found already_member : OrgError
  not_a_member forbidden invalid_name not_grantable own_role outranked : OrgError
  invitation_invalid wrong_invitee : OrgError
  invalid_kind transfer_needs_full_access no_companies_in_a_space : OrgError
  plan_unavailable plan_busy not_a_space counter_moved : OrgError
  plan_limit : PlanLimitError → OrgError
  failed : OrgError
