-- ===== src/Organization/Repository/Items.antt =====
-- The writes that repository.go builds: the item, its condition expression and what it sets. On a key a
-- condition never meets a row of another table, which each of these refuses.
use ctech_account.Common.{
  ℕ, ◌*◌, ◌/◌, String, Bool, true, false, not, Option, none, some, List, [], ◌∷◌,
}
use ctech_account.Dynamo.Contract.{Write}
use ctech_account.Organization.Model.{
  Role, owner, is_owner, Organization, Membership, Invitation, second,
}
use ctech_account.Organization.Rows.{
  Key, org_key, member_key, invite_key, Row, org_row, member_row, invite_row,
}

-- BuildPutTxItemIfAbsent
unfoldable pub put_if_absent : Key → Row → Write Key Row
put_if_absent k r = record {
  key = k;
  condition = λ o. elim o [ none ↦ true | some _ ↦ false ];
  effect = λ _. some r;
}

abbrev put_always : Key → Row → Write Key Row
put_always k r = record { key = k; condition = λ _. true; effect = λ _. some r }

abbrev delete_always : Key → Write Key Row
delete_always k = record { key = k; condition = λ _. true; effect = λ _. none }

abbrev is_org : Option Row → Bool
is_org (some (org_row o n)) = true
is_org _ = false

abbrev is_membership : Option Row → Bool
is_membership (some (member_row m)) = true
is_membership _ = false

-- attribute_exists(pk) AND #role = :owner
abbrev holds_owner : Option Row → Bool
holds_owner (some (member_row m)) = is_owner m.role
holds_owner _ = false

-- attribute_exists(pk) AND #role <> :owner
abbrev holds_other_role : Option Row → Bool
holds_other_role (some (member_row m)) = not (is_owner m.role)
holds_other_role _ = false

abbrev map_member : (Membership → Membership) → Option Row → Option Row
map_member f (some (member_row m)) = some (member_row (f m))
map_member f r = r

abbrev map_org : (Organization → Organization) → Option Row → Option Row
map_org f (some (org_row o n)) = some (org_row (f o) n)
map_org f r = r

-- membershipItem: the row of a membership is addressed by its two ids.
unfoldable pub put_membership_item : Membership → Write Key Row
unfolding put_if_absent
put_membership_item m = put_if_absent (member_key m.organization_id m.user_id) (member_row m)

abbrev owner_membership : Organization → String → Membership
owner_membership org name = record {
  organization_id = org.id;
  user_id = org.owner_user_id;
  name = name;
  role = owner;
  invited_by = "";
  created_at = org.created_at;
}

unfoldable pub create_items : Organization → String → List (Write Key Row)
unfolding put_membership_item
create_items org name =
    put_if_absent (org_key org.id) (org_row org none)
    ∷ put_membership_item (owner_membership org name)
    ∷ []

unfoldable pub display_name_item : String → String → ℕ → Write Key Row
display_name_item id name now = record {
  key = org_key id;
  condition = is_org;
  effect = map_org (λ o. record o { display_name = name; updated_at = now });
}

unfoldable pub set_role_item : String → String → Role → Write Key Row
set_role_item o u role = record {
  key = member_key o u;
  condition = holds_other_role;
  effect = map_member (λ m. record m { role = role });
}

unfoldable pub remove_item : String → String → Write Key Row
remove_item o u = record { key = member_key o u; condition = holds_other_role; effect = λ _. none }

unfoldable pub rename_item : String → String → String → Write Key Row
rename_item o u name = record {
  key = member_key o u;
  condition = is_membership;
  effect = map_member (λ m. record m { name = name });
}

unfoldable pub transfer_items : String → String → String → Role → ℕ → List (Write Key Row)
transfer_items o from to demote_to now =
    record {
      key = member_key o from;
      condition = holds_owner;
      effect = map_member (λ m. record m { role = demote_to });
    }
    ∷ record {
      key = member_key o to;
      condition = holds_other_role;
      effect = map_member (λ m. record m { role = owner });
    }
    ∷ record {
      key = org_key o;
      condition = is_org;
      effect = map_org (λ g. record g { owner_user_id = to; updated_at = now });
    }
    ∷ []

-- invitationItem: keyed by the normalized address, which a read finds in the key; the expiry is kept in
-- seconds.
unfoldable pub stored_invitation : String → Invitation → Invitation
stored_invitation address inv = record inv {
  email = address;
  expires_at = elim inv.expires_at [ none ↦ none | some t ↦ some (t / second * second) ];
}

unfoldable pub put_invitation_item : String → Invitation → Write Key Row
unfolding stored_invitation
put_invitation_item address inv =
    put_always (invite_key inv.organization_id address) (invite_row (stored_invitation address inv))

unfoldable pub delete_invitation_item : String → String → Write Key Row
delete_invitation_item o address = delete_always (invite_key o address)

unfoldable pub accept_items : Membership → String → List (Write Key Row)
unfolding put_membership_item
accept_items m address =
    put_membership_item m ∷ delete_always (invite_key m.organization_id address) ∷ []
