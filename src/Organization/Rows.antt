-- ===== src/Organization/Rows.antt =====
-- The rows of the three tables of api/internal/domain/organization/repository.go and their keys, and the
-- guard counters of counters.go. A key stands for a table with a partition key and a sort key, each a
-- constant prefix before an id (orgPK, memberSK, inviteSK, ownerPK), so the ids determine it.
use ctech_account.Common.{
  ℕ, String, ◌≡◌, ◌≢◌, ◌⊎◌, Bool, true, false, ◌&&◌, Option, arith, str_eq, str_eq_iff,
}
use ctech_account.Organization.Model.{Organization, Membership, Invitation}

pub data Key : Type 0 where
  org_key : String → Key
  member_key : String → String → Key
  invite_key : String → String → Key
  spaces_key : String → Key

-- An organization's item also holds `people_n`, absent until the first counted invitation.
pub data Row : Type 0 where
  org_row : Organization → Option ℕ → Row
  member_row : Membership → Row
  invite_row : Invitation → Row
  spaces_row : ℕ → Row

abbrev pub same_key : Key → Key → Bool
same_key (org_key o) (org_key p) = str_eq o p
same_key (member_key o u) (member_key p v) = str_eq o p && str_eq u v
same_key (invite_key o e) (invite_key p f) = str_eq o p && str_eq e f
same_key (spaces_key u) (spaces_key v) = str_eq u v
same_key _ _ = false

pub same_key_iff : (a b : Key) → (same_key a b ≡ true) × (a ≡ b) ⊎ (same_key a b ≡ false) × (a ≢ b)
same_key_iff (org_key o) (org_key p) = ground (arith, str_eq_iff o p)
same_key_iff (member_key o u) (member_key p v) = ground (arith, str_eq_iff o p, str_eq_iff u v)
same_key_iff (invite_key o e) (invite_key p f) = ground (arith, str_eq_iff o p, str_eq_iff e f)
same_key_iff (spaces_key u) (spaces_key v) = ground (arith, str_eq_iff u v)
same_key_iff _ _ = ground arith

-- The queries: two of a partition of a table, three of the lookup index.
pub data Query : Type 0 where
  members_of : String → Query
  invitations_of : String → Query
  memberships_of : String → Query
  invitation_with_hash : String → Query
  imported_from : String → String → Query

pub select : Query → Key → Row → Bool
select (members_of o) (member_key p u) (member_row m) = str_eq o p
select (invitations_of o) (invite_key p e) (invite_row i) = str_eq o p
select (memberships_of u) (member_key o v) (member_row m) = str_eq u v
select (invitation_with_hash h) (invite_key o e) (invite_row i) = str_eq h i.token_hash
select (imported_from y r) (org_key o) (org_row g n) =
    str_eq y g.source_system && str_eq r g.source_ref
select _ _ _ = false
