-- ===== src/Organization/Ownership/Writes.antt =====
-- The invariant of the tables for the transactions of repository.go.
use ctech_account.Common.{
  ◌≡◌, refl, String, ℕ, Bool, true, false, Option, none, some, List, [], ◌∷◌, arith, str_eq,
  str_eq_iff, str_eq_refl, and_parts,
}
use ctech_account.Dynamo.Contract.{Write, holds, write_all, put_at}
use ctech_account.Organization.Model.{Role, is_owner, Organization, Membership, Invitation}
use ctech_account.Organization.Rows.{
  Key, org_key, member_key, invite_key, Row, org_row, member_row, invite_row, spaces_row, same_key,
  same_key_iff,
}
use ctech_account.Organization.Repository.Items.{
  create_items, set_role_item, remove_item, rename_item, transfer_items, put_invitation_item,
  delete_invitation_item, display_name_item, accept_items,
}

abbrev pub View : Type 0
View = Key → Option Row

-- The row is a membership with the role of owner.
abbrev pub owner_row : Option Row → Bool
owner_row (some (member_row m)) = is_owner m.role
owner_row _ = false

-- The row is an organization's, and names `u` as the owner.
abbrev pub names_owner : Option Row → String → Bool
names_owner (some (org_row g n)) u = str_eq g.owner_user_id u
names_owner _ u = false

-- Whoever holds the role of owner in an organization is the person that its row names, and that person
-- does hold it; without a row nobody does.
pub record OneOwner (v : View) : Type 0 where
  pub sole : (o u : String) → owner_row (v (member_key o u)) ≡ names_owner (v (org_key o)) u

abbrev pub offers_owner : Option Row → Bool
offers_owner (some (invite_row i)) = is_owner i.role
offers_owner _ = false

-- What a transaction has to satisfy to keep both invariants.
pub record IsSound (xs : List (Write Key Row)) : Type 0 where
  pub owners :
      (v : View) → OneOwner v → holds same_key xs v ≡ true → OneOwner (write_all same_key xs v)
  pub offers :
      (v : View) (k : Key)
      → offers_owner (v k) ≡ false
      → offers_owner (write_all same_key xs v k) ≡ false

names_owner_unique :
    (r : Option Row) (a b : String) → names_owner r a ≡ true → names_owner r b ≡ str_eq a b
names_owner_unique none a b h = cc
names_owner_unique (some (org_row g n)) a b h =
    ground (arith, str_eq_iff g.owner_user_id a, str_eq_iff g.owner_user_id b, str_eq_iff a b)
names_owner_unique (some (member_row m)) a b h = cc
names_owner_unique (some (invite_row i)) a b h = cc
names_owner_unique (some (spaces_row n)) a b h = cc

-- A write on one item is sound if it is so for what stands at that item.
pub single :
    (x : Write Key Row)
    → ((v : View)
        → OneOwner v
        → x.condition (v x.key) ≡ true
        → OneOwner (put_at same_key x.key (x.effect (v x.key)) v))
    → ((r : Option Row) → offers_owner r ≡ false → offers_owner (x.effect r) ≡ false)
    → IsSound (x ∷ [])
single x f g = record {
  owners = λ v s c. f v s (and_parts _ _ c).0;
  offers = λ v k e. ground (arith, same_key_iff x.key k, g (v x.key));
}

pub set_role_item-IsSound :
    (o u : String) (role : Role) → is_owner role ≡ false → IsSound (set_role_item o u role ∷ [])
unfolding set_role_item
set_role_item-IsSound o u role h =
    single _
      (λ v s c. record { sole = λ p w. ground (arith, s.sole p w, str_eq_iff o p, str_eq_iff u w) })
      (λ r e. ground arith)

pub remove_item-IsSound : (o u : String) → IsSound (remove_item o u ∷ [])
unfolding remove_item
remove_item-IsSound o u =
    single _
      (λ v s c. record { sole = λ p w. ground (arith, s.sole p w, str_eq_iff o p, str_eq_iff u w) })
      (λ r e. refl)

pub rename_item-IsSound : (o u name : String) → IsSound (rename_item o u name ∷ [])
unfolding rename_item
rename_item-IsSound o u name =
    single _
      (λ v s c. record { sole = λ p w. ground (arith, s.sole p w, str_eq_iff o p, str_eq_iff u w) })
      (λ r e. ground arith)

pub display_name_item-IsSound :
    (o name : String) (now : ℕ) → IsSound (display_name_item o name now ∷ [])
unfolding display_name_item
display_name_item-IsSound o name now =
    single _ (λ v s c. record { sole = λ p w. ground (arith, s.sole p w, str_eq_iff o p) })
      (λ r e. ground arith)

pub put_invitation_item-IsSound :
    (address : String) (inv : Invitation)
    → is_owner inv.role ≡ false
    → IsSound (put_invitation_item address inv ∷ [])
unfolding put_invitation_item
put_invitation_item-IsSound address inv h =
    single _ (λ v s c. record { sole = λ p w. s.sole p w }) (λ r e. h)

pub delete_invitation_item-IsSound :
    (o address : String) → IsSound (delete_invitation_item o address ∷ [])
unfolding delete_invitation_item
delete_invitation_item-IsSound o address =
    single _ (λ v s c. record { sole = λ p w. s.sole p w }) (λ r e. refl)

pub accept_items-IsSound :
    (m : Membership) (address : String) → is_owner m.role ≡ false → IsSound (accept_items m address)
unfolding accept_items
accept_items-IsSound m address h = record {
  owners = λ v s c. record {
    sole =
        λ p w. ground (arith, s.sole p w, str_eq_iff m.organization_id p, str_eq_iff m.user_id w);
  };
  offers = λ v k e. ground (
    arith,
    same_key_iff (member_key m.organization_id m.user_id) k,
    same_key_iff (invite_key m.organization_id address) k,
  );
}

pub create_items-IsSound : (org : Organization) (name : String) → IsSound (create_items org name)
unfolding create_items
create_items-IsSound org name = record {
  owners = λ v s c. record {
    sole = λ p w.
        ground
          (arith, s.sole p w, s.sole org.id w, str_eq_iff org.id p, str_eq_iff org.owner_user_id w);
  };
  offers = λ v k e. ground (
    arith,
    same_key_iff (org_key org.id) k,
    same_key_iff (member_key org.id org.owner_user_id) k,
  );
}

pub transfer_items-IsSound :
    (o from to : String) (role : Role) (now : ℕ)
    → is_owner role ≡ false
    → IsSound (transfer_items o from to role now)
unfolding transfer_items
transfer_items-IsSound o from to role now h = record {
  owners = λ v s c. record {
    sole = λ p w. ground (
      arith,
      s.sole p w,
      s.sole o from,
      s.sole o to,
      s.sole o w,
      str_eq_iff o p,
      str_eq_iff from w,
      str_eq_iff to w,
      str_eq_iff from to,
      str_eq_refl o,
      str_eq_refl to,
      str_eq_refl from,
      str_eq_iff from to,
      names_owner_unique (v (org_key o)) from w,
    );
  };
  offers = λ v k e. ground (
    arith,
    same_key_iff (member_key o from) k,
    same_key_iff (member_key o to) k,
    same_key_iff (org_key o) k,
    str_eq_iff from to,
  );
}
