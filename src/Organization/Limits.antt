-- ===== src/Organization/Limits.antt =====
-- api/internal/domain/organization/planlimit.go: the plan limits on personal spaces, counted before each
-- write and guarded by a counter in it.
use Prim.Native.Nat.{max}
use ctech_account.Common.{
  ℕ, zero, suc, ◌+◌, ◌*◌, String, Bool, true, false, not, ◌&&◌, ◌||◌, Option, none, some, List, [],
  ◌∷◌, length, str_eq, if◌then◌else◌,
}
use ctech_account.Action.{Result, ok, err, return, fail, guard, ◌>>=◌, ◌>>◌}
use ctech_account.Organization.Model.{
  Role, is_owner, is_personal, kind_of, Organization, Membership, Invitation, invitation_live,
  second, Limit, unlimited, allows, Quotas, spaces, people, OrgError, not_found, plan_busy,
  counter_moved, plan_limit,
}
use ctech_account.Organization.Env.{Env}
use ctech_account.Organization.Repository.{
  Op, get, list_for_user, list_members, list_invitations, put_invitation, normalize_email,
}
use ctech_account.Organization.Counters.{
  Counter, CounterWrite, space_counter, people_counter, get_invitation, create_with_owner_guarded,
  put_invitation_guarded, transfer_ownership_guarded, decrement_space_counter,
  decrement_people_counter,
}
use ctech_account.Organization.Access.{call, try, answer}

pub record SpacePeople : Type 0 where
  pub members : List String
  pub invited : List String

abbrev pub people_count : SpacePeople → ℕ
people_count p = length p.members + length p.invited

abbrev pub is_unlimited : Limit → Bool
is_unlimited unlimited = true
is_unlimited _ = false

-- used is max(real, counter)
abbrev pub used_spaces : ℕ → Counter → ℕ
used_spaces real none = real
used_spaces real (some n) = max real n

abbrev pub counted_member : Organization → Membership → Bool
counted_member org m = not (str_eq m.user_id org.owner_user_id || is_owner m.role)

unfoldable pub counted_members : Organization → List Membership → List String
counted_members org [] = []
counted_members org (m ∷ ms) =
    let rest = counted_members org ms in if counted_member org m then m.user_id ∷ rest else rest

abbrev pub is_owned_space : String → Organization → Bool
is_owned_space u org = is_personal (kind_of org) && str_eq org.owner_user_id u

-- A live invitation for the address is in place.
unfoldable pub still_live : Result OrgError Invitation → ℕ → Bool
still_live (ok inv) now = invitation_live inv now
still_live (err e) now = false

abbrev pub guard_attempts : ℕ
guard_attempts = 3

abbrev pub counter_settle : ℕ
counter_settle = 60 * second

module _ (env : Env) where
  open env use {db}

  unfoldable pub counted_invitations : ℕ → List Invitation → List String
  counted_invitations now [] = []
  counted_invitations now (inv ∷ invs) =
      let rest = counted_invitations now invs in
      if invitation_live inv now then normalize_email env inv.email ∷ rest else rest

  -- The loop of ownedSpaces, with the spaces that it found so far ahead of it.
  unfoldable pub add_owned :
      String
      → Result OrgError Organization
      → Op env (List Organization)
      → Op env (List Organization)
  add_owned u (err not_found) rest = rest
  add_owned u (err e) rest = fail e
  add_owned u (ok org) rest = do l ← rest; return (if is_owned_space u org then org ∷ l else l)

  unfoldable pub owned_round :
      String → Membership → Op env (List Organization) → Op env (List Organization)
  owned_round u m rest =
      if not (is_owner m.role)
      then rest
      else do r ← try env (get env m.organization_id); add_owned u r rest

  unfoldable pub owned_among : String → List Membership → Op env (List Organization)
  owned_among u [] = return []
  owned_among u (m ∷ ms) = owned_round u m (owned_among u ms)

  unfoldable pub owned_spaces : String → Op env (List Organization)
  owned_spaces u = do ms ← list_for_user env u; owned_among u ms

  unfoldable pub people_in : Organization → Op env SpacePeople
  people_in org = do
    ms ← list_members env org.id
    invs ← list_invitations env org.id
    now ← call env env.clock
    return (record { members = counted_members org ms; invited = counted_invitations now invs })

  unfoldable pub space_guard : String → Quotas → Bool → Op env CounterWrite
  space_guard u q hidden = do
    owned ← owned_spaces u
    seen ← space_counter env u
    let used = used_spaces (length owned) seen
    guard (allows q.spaces used) (
        plan_limit (record {
          resource = spaces;
          limit = q.spaces;
          used = used;
          plan = q.plan;
          hidden = hidden;
        }))
    return (record { expect = seen; next = used + 1; blind = is_unlimited q.spaces })

  -- `if !errors.Is(err, ErrCounterMoved) { return err }`, else the next attempt
  unfoldable pub unless_moved : Result OrgError (Unit {0}) → Op env (Unit {0}) → Op env (Unit {0})
  unless_moved (err counter_moved) next = next
  unless_moved r next = answer env r

  unfoldable pub create_attempt :
      Organization → String → Quotas → Op env (Unit {0}) → Op env (Unit {0})
  create_attempt org name q next = do
    g ← space_guard org.owner_user_id q false
    r ← try env (create_with_owner_guarded env org name g)
    unless_moved r next

  unfoldable pub create_attempts : ℕ → Organization → String → Quotas → Op env (Unit {0})
  create_attempts zero org name q = fail plan_busy
  create_attempts (suc n) org name q = create_attempt org name q (create_attempts n org name q)

  unfoldable pub create_guarded : Organization → String → Op env (Unit {0})
  create_guarded org name = do
    q ← env.quotas org.owner_user_id
    create_attempts guard_attempts org name q

  -- `if err != nil && !errors.Is(err, ErrNotFound) { return err }`
  unfoldable pub absent_ok : Result OrgError Invitation → Op env (Unit {0})
  absent_ok (ok inv) = return tt
  absent_ok (err not_found) = return tt
  absent_ok (err e) = fail e

  unfoldable pub invite_counted :
      Organization → Invitation → ℕ → Quotas → Op env (Result OrgError (Unit {0}))
  invite_counted org inv now q = do
    p ← people_in org
    seen ← people_counter env org.id
    let used = people_count p
    guard (allows q.people_per_space used) (
        plan_limit (record {
          resource = people;
          limit = q.people_per_space;
          used = used;
          plan = q.plan;
          hidden = false;
        }))
    try env (
        put_invitation_guarded env inv
          (record { expect = seen; next = used + 1; blind = is_unlimited q.people_per_space }) now)

  -- A live row for the address is replaced without counting: it is the same person.
  unfoldable pub replace_or_count :
      Bool → Organization → Invitation → ℕ → Quotas → Op env (Unit {0}) → Op env (Unit {0})
  replace_or_count live org inv now q next =
      if live
      then put_invitation env inv
      else do r ← invite_counted org inv now q; unless_moved r next

  unfoldable pub invite_attempt :
      Organization → Invitation → Quotas → Op env (Unit {0}) → Op env (Unit {0})
  invite_attempt org inv q next = do
    now ← call env env.clock
    existing ← try env (get_invitation env org.id inv.email)
    absent_ok existing
    replace_or_count (still_live existing now) org inv now q next

  unfoldable pub invite_attempts : ℕ → Organization → Invitation → Quotas → Op env (Unit {0})
  invite_attempts zero org inv q = fail plan_busy
  invite_attempts (suc n) org inv q = invite_attempt org inv q (invite_attempts n org inv q)

  unfoldable pub invite_guarded : Organization → Invitation → Op env (Unit {0})
  invite_guarded org inv = do
    q ← env.quotas org.owner_user_id
    invite_attempts guard_attempts org inv q

  -- What follows the guarded transfer: the old owner's counter, best effort, and the two reports.
  unfoldable pub settle_counter : String → Result OrgError (Unit {0}) → Op env (Unit {0})
  settle_counter from (ok _) = return tt
  settle_counter from (err e) = do
    now ← call env env.clock
    call env (env.schedule_levels from (now + counter_settle))

  unfoldable pub after_transfer : String → String → Op env (Unit {0})
  after_transfer from to = do
    r ← try env (decrement_space_counter env from)
    settle_counter from r
    call env (env.levels_changed from)
    call env (env.levels_changed to)

  unfoldable pub transfer_answer :
      Result OrgError (Unit {0}) → Op env (Unit {0}) → Op env (Unit {0}) → Op env (Unit {0})
  transfer_answer (err counter_moved) next rest = next
  transfer_answer (err e) next rest = fail e
  transfer_answer (ok _) next rest = rest

  unfoldable pub transfer_attempt :
      String → String → String → Role → Quotas → Op env (Unit {0}) → Op env (Unit {0})
  transfer_attempt o from to demote_to q next = do
    g ← space_guard to q true
    now ← call env env.clock
    r ← try env (transfer_ownership_guarded env o from to demote_to now g)
    transfer_answer r next (after_transfer from to)

  unfoldable pub transfer_attempts :
      ℕ → String → String → String → Role → Quotas → Op env (Unit {0})
  transfer_attempts zero o from to demote_to q = fail plan_busy
  transfer_attempts (suc n) o from to demote_to q =
      transfer_attempt o from to demote_to q (transfer_attempts n o from to demote_to q)

  unfoldable pub transfer_guarded : String → String → String → Role → Op env (Unit {0})
  transfer_guarded o from to demote_to = do
    q ← env.quotas to
    transfer_attempts guard_attempts o from to demote_to q

  abbrev pub space_of : Result OrgError Organization → Option Organization
  space_of (err e) = none
  space_of (ok org) = if not (is_personal (kind_of org)) then none else some org

  -- The workspace, when limits apply to it.
  unfoldable pub personal_space : String → Op env (Option Organization)
  personal_space o =
      if not env.limited then return none else do r ← try env (get env o); return (space_of r)

  unfoldable pub after_people_left : Organization → Op env (Unit {0})
  after_people_left org = do
    try env (decrement_people_counter env org.id)
    call env (env.levels_changed org.owner_user_id)
