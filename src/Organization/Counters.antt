-- ===== src/Organization/Counters.antt =====
-- api/internal/domain/organization/counters.go: the guard counters, and the guarded transactions.
use ctech_account.Common.{
  ℕ, ◌-◌, ◌/◌, String, Bool, true, false, ◌&&◌, Option, none, some, List, [], ◌∷◌, ◌++◌, ltb, ◌==◌,
  get_elem?, if◌then◌else◌,
}
use ctech_account.Action.{Result, ok, err}
use ctech_account.Dynamo.Contract.{Write, Outcome, committed, rejected, conflict, Reply, done}
use ctech_account.Organization.Model.{
  Role, Organization, Invitation, OrgError, already_member, not_found, counter_moved, failed,
  second,
}
use ctech_account.Organization.Rows.{
  Key, org_key, invite_key, spaces_key, Row, org_row, invite_row, spaces_row,
}
use ctech_account.Organization.Env.{Env}
use ctech_account.Organization.Repository.{
  Op, read, write, found_invitation, normalize_email, ignore_absent,
}
use ctech_account.Organization.Repository.Items.{create_items, transfer_items, stored_invitation}

-- Counter: `none` is Exists = false.
abbrev pub Counter : Type 0
Counter = Option ℕ

pub record CounterWrite : Type 0 where
  pub expect : Counter
  pub next : ℕ
  pub blind : Bool

abbrev counter_matches : Counter → Counter → Bool
counter_matches none none = true
counter_matches (some a) (some b) = a == b
counter_matches _ _ = false

-- guardExpr: the condition on the counter in place.
unfoldable pub guard_passes : CounterWrite → Counter → Bool
guard_passes g n = if g.blind then true else counter_matches g.expect n

abbrev spaces_of : Option Row → Counter
spaces_of (some (spaces_row n)) = some n
spaces_of _ = none

abbrev people_of : Option Row → Counter
people_of (some (org_row o n)) = n
people_of _ = none

abbrev has_people_attr : Option Row → Bool
has_people_attr (some (org_row o n)) = true
has_people_attr _ = false

abbrev set_people : ℕ → Option Row → Option Row
set_people n (some (org_row o m)) = some (org_row o (some n))
set_people n r = r

-- attribute_not_exists(pk) OR expires_at < :now, in seconds
abbrev absent_or_expired : ℕ → Option Row → Bool
absent_or_expired now none = true
absent_or_expired now (some (invite_row i)) = elim i.expires_at [
  | none ↦ false
  | some t ↦ ltb (t / second) (now / second)
]
absent_or_expired now (some r) = false

unfoldable pub spaces_guard_item : String → CounterWrite → Write Key Row
unfolding guard_passes
spaces_guard_item u g = record {
  key = spaces_key u;
  condition = λ r. guard_passes g (spaces_of r);
  effect = λ r. some (spaces_row g.next);
}

unfoldable pub people_guard_item : String → CounterWrite → Write Key Row
unfolding guard_passes
people_guard_item o g = record {
  key = org_key o;
  condition = λ r. has_people_attr r && guard_passes g (people_of r);
  effect = set_people g.next;
}

unfoldable pub guarded_invitation_item : String → Invitation → ℕ → Write Key Row
unfolding stored_invitation
guarded_invitation_item address inv now = record {
  key = invite_key inv.organization_id address;
  condition = absent_or_expired now;
  effect = λ _. some (invite_row (stored_invitation address inv));
}

abbrev positive : Counter → Bool
positive none = false
positive (some n) = ltb 0 n

unfoldable pub less_space_item : String → Write Key Row
less_space_item u = record {
  key = spaces_key u;
  condition = λ r. positive (spaces_of r);
  effect = λ r. elim (spaces_of r) [ none ↦ r | some n ↦ some (spaces_row (n - 1)) ];
}

unfoldable pub less_people_item : String → Write Key Row
less_people_item o = record {
  key = org_key o;
  condition = λ r. positive (people_of r);
  effect = λ r. elim (people_of r) [ none ↦ r | some n ↦ set_people (n - 1) r ];
}

-- cancelledAt(err, index, ConditionalCheckFailed)
abbrev pub cancelled_at : ℕ → List Bool → Bool
cancelled_at i bs = elim (get_elem? bs i) [ none ↦ false | some b ↦ b ]

abbrev pub guard_outcome : ℕ → OrgError → Outcome → Result OrgError (Unit {0})
guard_outcome i e committed = ok tt
guard_outcome i e conflict = err counter_moved
guard_outcome i e (rejected bs) = if cancelled_at i bs then err counter_moved else err e
guard_outcome i e Outcome.failed = err failed

-- PutInvitationGuarded: any condition or conflict is ErrCounterMoved.
abbrev invitation_outcome : Outcome → Result OrgError (Unit {0})
invitation_outcome committed = ok tt
invitation_outcome conflict = err counter_moved
invitation_outcome (rejected bs) = err counter_moved
invitation_outcome Outcome.failed = err failed

-- readCounter, for each of the two attributes
abbrev counter_in : (Option Row → Counter) → Reply (Option Row) → Result OrgError Counter
counter_in f Reply.failed = err failed
counter_in f (done r) = ok (f r)

module _ (env : Env) where
  unfoldable pub space_counter : String → Op env Counter
  space_counter u = read env (counter_in spaces_of) (spaces_key u)

  unfoldable pub people_counter : String → Op env Counter
  people_counter o = read env (counter_in people_of) (org_key o)

  unfoldable pub get_invitation : String → String → Op env Invitation
  get_invitation o email = read env found_invitation (invite_key o (normalize_email env email))

  unfoldable pub create_with_owner_guarded :
      Organization → String → CounterWrite → Op env (Unit {0})
  create_with_owner_guarded org name g =
      write env (guard_outcome 2 already_member)
        (create_items org name ++ spaces_guard_item org.owner_user_id g ∷ [])

  unfoldable pub put_invitation_guarded : Invitation → CounterWrite → ℕ → Op env (Unit {0})
  put_invitation_guarded inv g now = write env invitation_outcome (
      guarded_invitation_item (normalize_email env inv.email) inv now
      ∷ people_guard_item inv.organization_id g
      ∷ [])

  unfoldable pub transfer_ownership_guarded :
      String → String → String → Role → ℕ → CounterWrite → Op env (Unit {0})
  transfer_ownership_guarded o from to demote_to now g =
      write env (guard_outcome 3 not_found)
        (transfer_items o from to demote_to now ++ spaces_guard_item to g ∷ [])

  unfoldable pub decrement_space_counter : String → Op env (Unit {0})
  decrement_space_counter u = write env ignore_absent (less_space_item u ∷ [])

  unfoldable pub decrement_people_counter : String → Op env (Unit {0})
  decrement_people_counter o = write env ignore_absent (less_people_item o ∷ [])

  unfoldable pub reconcile_space_counter : String → Counter → ℕ → Op env (Unit {0})
  reconcile_space_counter u seen real =
      write env ignore_absent
        (spaces_guard_item u (record { expect = seen; next = real; blind = false }) ∷ [])
