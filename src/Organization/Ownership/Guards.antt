-- ===== src/Organization/Ownership/Guards.antt =====
-- The invariant of the tables for the writes of the guard counters of counters.go.
use ctech_account.Common.{
  ◌≡◌, refl, String, ℕ, true, false, List, [], ◌∷◌, ◌++◌, arith, str_eq_iff, and_parts,
}
use ctech_account.Dynamo.Contract.{Write, holds, write_all}
use ctech_account.Organization.Model.{Role, is_owner, Organization, Invitation}
use ctech_account.Organization.Rows.{Key, Row, same_key}
use ctech_account.Organization.Repository.Items.{create_items, transfer_items}
use ctech_account.Organization.Counters.{
  CounterWrite, spaces_guard_item, people_guard_item, guarded_invitation_item, less_space_item,
  less_people_item,
}
use ctech_account.Organization.Ownership.Writes.{
  View, IsSound, single, create_items-IsSound, transfer_items-IsSound,
}

write_all-append :
    (xs ys : List (Write Key Row)) (v : View)
    → write_all same_key (xs ++ ys) v ≡ write_all same_key ys (write_all same_key xs v)
write_all-append [] ys v = refl
write_all-append (x ∷ xs) ys v = write_all-append xs ys _

holds-append :
    (xs ys : List (Write Key Row)) (v : View)
    → holds same_key (xs ++ ys) v ≡ true
    → (holds same_key xs v ≡ true) × (holds same_key ys (write_all same_key xs v) ≡ true)
holds-append [] ys v h = (refl, h)
holds-append (x ∷ xs) ys v h =
    let (a, b) = and_parts (x.condition (v x.key)) _ h in
    let (c, d) = holds-append xs ys _ b in (ground (arith, a, c), d)

append-IsSound : (xs ys : List (Write Key Row)) → IsSound xs → IsSound ys → IsSound (xs ++ ys)
append-IsSound xs ys sx sy = record {
  owners = λ v s h.
      let (a, b) = holds-append xs ys v h in
      rw (write_all-append xs ys v) (sy.owners _ (sx.owners v s a) b);
  offers = λ v k e. rw (write_all-append xs ys v) (sy.offers _ k (sx.offers v k e));
}

pub spaces_guard_item-IsSound :
    (u : String) (g : CounterWrite) → IsSound (spaces_guard_item u g ∷ [])
unfolding spaces_guard_item
spaces_guard_item-IsSound u g =
    single _ (λ v s c. record { sole = λ p w. s.sole p w }) (λ r e. refl)

pub people_guard_item-IsSound :
    (o : String) (g : CounterWrite) → IsSound (people_guard_item o g ∷ [])
unfolding people_guard_item
people_guard_item-IsSound o g =
    single _ (λ v s c. record { sole = λ p w. ground (arith, s.sole p w, str_eq_iff o p) })
      (λ r e. ground arith)

pub guarded_invitation_item-IsSound :
    (address : String) (inv : Invitation) (now : ℕ)
    → is_owner inv.role ≡ false
    → IsSound (guarded_invitation_item address inv now ∷ [])
unfolding guarded_invitation_item
guarded_invitation_item-IsSound address inv now h =
    single _ (λ v s c. record { sole = λ p w. s.sole p w }) (λ r e. h)

pub less_space_item-IsSound : (u : String) → IsSound (less_space_item u ∷ [])
unfolding less_space_item
less_space_item-IsSound u =
    single _ (λ v s c. record { sole = λ p w. s.sole p w }) (λ r e. ground arith)

pub less_people_item-IsSound : (o : String) → IsSound (less_people_item o ∷ [])
unfolding less_people_item
less_people_item-IsSound o =
    single _ (λ v s c. record { sole = λ p w. ground (arith, s.sole p w, str_eq_iff o p) })
      (λ r e. ground arith)

pub guarded_create-IsSound :
    (org : Organization) (name : String) (g : CounterWrite)
    → IsSound (create_items org name ++ spaces_guard_item org.owner_user_id g ∷ [])
guarded_create-IsSound org name g =
    append-IsSound _ _ (create_items-IsSound org name) (spaces_guard_item-IsSound _ g)

pub guarded_transfer-IsSound :
    (o from to : String) (role : Role) (now : ℕ) (g : CounterWrite)
    → is_owner role ≡ false
    → IsSound (transfer_items o from to role now ++ spaces_guard_item to g ∷ [])
guarded_transfer-IsSound o from to role now g h =
    append-IsSound _ _ (transfer_items-IsSound o from to role now h)
      (spaces_guard_item-IsSound to g)

pub guarded_invitation-IsSound :
    (address o : String) (inv : Invitation) (now : ℕ) (g : CounterWrite)
    → is_owner inv.role ≡ false
    → IsSound (guarded_invitation_item address inv now ∷ people_guard_item o g ∷ [])
guarded_invitation-IsSound address o inv now g h =
    append-IsSound (guarded_invitation_item address inv now ∷ []) (people_guard_item o g ∷ [])
      (guarded_invitation_item-IsSound address inv now h) (people_guard_item-IsSound o g)
