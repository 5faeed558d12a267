-- ===== src/Organization/Ownership/Limited.antt =====
-- The invariant of the tables for the counting and guarded writes of planlimit.go.
use ctech_account.Common.{ℕ, zero, suc, String, ◌≡◌, Bool, true, false, List, [], ◌∷◌}
use ctech_account.Action.{Result, ok, err}
use ctech_account.Action.Keeps.{Keeps, Keeps-if, Keeps-bind, Keeps-then, keeps_rules}
use ctech_account.Organization.Model.{
  Role, is_owner, Organization, Membership, Invitation, Quotas, OrgError, not_found, counter_moved,
}
use ctech_account.Organization.Env.{Env}
use ctech_account.Organization.Repository.{Op}
use ctech_account.Organization.Access
use ctech_account.Organization.Limits
use ctech_account.Organization.Ownership.Invariant.{
  Inv, Keeps-call, Keeps-Quiet, Keeps-try, Keeps-answer, Keeps-mapped,
}
use ctech_account.Organization.Ownership.Methods.{
  get-Inv, reads_rules, create_with_owner_guarded-Inv, put_invitation-Inv,
  put_invitation_guarded-Inv, transfer_ownership_guarded-Inv, decrement_space_counter-Inv,
  decrement_people_counter-Inv,
}

pub ruleset call_rules =
    (keeps_rules, reads_rules, Keeps-call, Keeps-try, Keeps-answer, Keeps-mapped)

module _ (env : Env) where
  open env use {db}

  pub clock-Inv : Keeps (Inv env) (Access.call env env.clock)
  clock-Inv = Keeps-call env env.clock env.clock_quiet

  add_owned-Inv :
      (u : String) (r : Result OrgError Organization) (rest : Op env (List Organization))
      → Keeps (Inv env) rest
      → Keeps (Inv env) (Limits.add_owned env u r rest)
  unfolding Limits.add_owned
  add_owned-Inv u (err not_found) rest h = h
  add_owned-Inv u (err e) rest h = search keeps_rules
  add_owned-Inv u (ok org) rest h = search keeps_rules

  owned_round-Inv :
      (u : String) (m : Membership) (rest : Op env (List Organization))
      → Keeps (Inv env) rest
      → Keeps (Inv env) (Limits.owned_round env u m rest)
  unfolding Limits.owned_round
  owned_round-Inv u m rest h = search (call_rules, add_owned-Inv)

  owned_among-Inv :
      (u : String) (ms : List Membership) → Keeps (Inv env) (Limits.owned_among env u ms)
  unfolding Limits.owned_among
  owned_among-Inv u [] = search keeps_rules
  owned_among-Inv u (m ∷ ms) = owned_round-Inv u m _ (owned_among-Inv u ms)

  pub owned_spaces-Inv : (u : String) → Keeps (Inv env) (Limits.owned_spaces env u)
  unfolding Limits.owned_spaces
  owned_spaces-Inv u = search (call_rules, owned_among-Inv)

  pub people_in-Inv : (org : Organization) → Keeps (Inv env) (Limits.people_in env org)
  unfolding Limits.people_in
  people_in-Inv org = search (call_rules, clock-Inv)

  pub space_guard-Inv :
      (u : String) (q : Quotas) (hidden : Bool)
      → Keeps (Inv env) (Limits.space_guard env u q hidden)
  unfolding Limits.space_guard
  space_guard-Inv u q hidden = search (call_rules, owned_spaces-Inv)

  unless_moved-Inv :
      (r : Result OrgError (Unit {0})) (next : Op env (Unit {0}))
      → Keeps (Inv env) next
      → Keeps (Inv env) (Limits.unless_moved env r next)
  unfolding Limits.unless_moved
  unless_moved-Inv (err counter_moved) next h = h
  unless_moved-Inv (err e) next h = Keeps-answer env _
  unless_moved-Inv (ok a) next h = Keeps-answer env _

  create_attempt-Inv :
      (org : Organization) (name : String) (q : Quotas) (next : Op env (Unit {0}))
      → Keeps (Inv env) next
      → Keeps (Inv env) (Limits.create_attempt env org name q next)
  unfolding Limits.create_attempt
  create_attempt-Inv org name q next h =
      search (call_rules, space_guard-Inv, create_with_owner_guarded-Inv, unless_moved-Inv)

  create_attempts-Inv :
      (n : ℕ) (org : Organization) (name : String) (q : Quotas)
      → Keeps (Inv env) (Limits.create_attempts env n org name q)
  unfolding Limits.create_attempts
  create_attempts-Inv zero org name q = search keeps_rules
  create_attempts-Inv (suc n) org name q =
      create_attempt-Inv org name q _ (create_attempts-Inv n org name q)

  quotas-Inv : (u : String) → Keeps (Inv env) (env.quotas u)
  quotas-Inv u = Keeps-Quiet env _ (env.quotas_quiet u)

  pub levels_changed-Inv : (u : String) → Keeps (Inv env) (Access.call env (env.levels_changed u))
  levels_changed-Inv u = Keeps-call env _ (env.levels_changed_quiet u)

  pub schedule_levels-Inv :
      (u : String) (t : ℕ) → Keeps (Inv env) (Access.call env (env.schedule_levels u t))
  schedule_levels-Inv u t = Keeps-call env _ (env.schedule_levels_quiet u t)

  pub create_guarded-Inv :
      (org : Organization) (name : String) → Keeps (Inv env) (Limits.create_guarded env org name)
  unfolding Limits.create_guarded
  create_guarded-Inv org name = search (keeps_rules, quotas-Inv, create_attempts-Inv)

  pub absent_ok-Inv : (r : Result OrgError Invitation) → Keeps (Inv env) (Limits.absent_ok env r)
  unfolding Limits.absent_ok
  absent_ok-Inv (ok inv) = search keeps_rules
  absent_ok-Inv (err not_found) = search keeps_rules
  absent_ok-Inv (err e) = search keeps_rules

  module _ (org : Organization) (inv : Invitation) (plain : is_owner inv.role ≡ false) where
    invite_counted-Inv :
        (now : ℕ) (q : Quotas) → Keeps (Inv env) (Limits.invite_counted env org inv now q)
    unfolding Limits.invite_counted
    invite_counted-Inv now q = search (call_rules, people_in-Inv, put_invitation_guarded-Inv, plain)

    replace_or_count-Inv :
        (live : Bool) (now : ℕ) (q : Quotas) (next : Op env (Unit {0}))
        → Keeps (Inv env) next
        → Keeps (Inv env) (Limits.replace_or_count env live org inv now q next)
    unfolding Limits.replace_or_count
    replace_or_count-Inv true now q next h = put_invitation-Inv env inv plain
    replace_or_count-Inv false now q next h =
        Keeps-bind _ _ (invite_counted-Inv now q) (λ r. unless_moved-Inv r next h)

    invite_attempt-Inv :
        (q : Quotas) (next : Op env (Unit {0}))
        → Keeps (Inv env) next
        → Keeps (Inv env) (Limits.invite_attempt env org inv q next)
    unfolding Limits.invite_attempt
    invite_attempt-Inv q next h =
        search (call_rules, clock-Inv, absent_ok-Inv, replace_or_count-Inv)

    invite_attempts-Inv :
        (n : ℕ) (q : Quotas) → Keeps (Inv env) (Limits.invite_attempts env n org inv q)
    unfolding Limits.invite_attempts
    invite_attempts-Inv zero q = search keeps_rules
    invite_attempts-Inv (suc n) q = invite_attempt-Inv q _ (invite_attempts-Inv n q)

    pub invite_guarded-Inv : Keeps (Inv env) (Limits.invite_guarded env org inv)
    unfolding Limits.invite_guarded
    invite_guarded-Inv = search (keeps_rules, quotas-Inv, invite_attempts-Inv)

  settle_counter-Inv :
      (u : String) (r : Result OrgError (Unit {0}))
      → Keeps (Inv env) (Limits.settle_counter env u r)
  unfolding Limits.settle_counter
  settle_counter-Inv u (ok a) = search keeps_rules
  settle_counter-Inv u (err e) = search (keeps_rules, clock-Inv, schedule_levels-Inv)

  after_transfer-Inv : (from to : String) → Keeps (Inv env) (Limits.after_transfer env from to)
  unfolding Limits.after_transfer
  after_transfer-Inv from to =
      search (call_rules, decrement_space_counter-Inv, settle_counter-Inv, levels_changed-Inv) depth
        7

  transfer_answer-Inv :
      (r : Result OrgError (Unit {0})) (next rest : Op env (Unit {0}))
      → Keeps (Inv env) next
      → Keeps (Inv env) rest
      → Keeps (Inv env) (Limits.transfer_answer env r next rest)
  unfolding Limits.transfer_answer
  transfer_answer-Inv (err counter_moved) next rest h k = h
  transfer_answer-Inv (err e) next rest h k = search keeps_rules
  transfer_answer-Inv (ok a) next rest h k = k

  module _ (o from to : String) (r : Role) (plain : is_owner r ≡ false) where
    transfer_attempt-Inv :
        (q : Quotas) (next : Op env (Unit {0}))
        → Keeps (Inv env) next
        → Keeps (Inv env) (Limits.transfer_attempt env o from to r q next)
    unfolding Limits.transfer_attempt
    transfer_attempt-Inv q next h =
        search
          (
            call_rules, space_guard-Inv, clock-Inv, transfer_ownership_guarded-Inv, plain,
            transfer_answer-Inv, after_transfer-Inv,
          )
          depth 7

    transfer_attempts-Inv :
        (n : ℕ) (q : Quotas) → Keeps (Inv env) (Limits.transfer_attempts env n o from to r q)
    unfolding Limits.transfer_attempts
    transfer_attempts-Inv zero q = search keeps_rules
    transfer_attempts-Inv (suc n) q = transfer_attempt-Inv q _ (transfer_attempts-Inv n q)

    pub transfer_guarded-Inv : Keeps (Inv env) (Limits.transfer_guarded env o from to r)
    unfolding Limits.transfer_guarded
    transfer_guarded-Inv = search (keeps_rules, quotas-Inv, transfer_attempts-Inv)

  pub personal_space-Inv : (o : String) → Keeps (Inv env) (Limits.personal_space env o)
  unfolding Limits.personal_space
  personal_space-Inv o = search call_rules

  pub after_people_left-Inv :
      (org : Organization) → Keeps (Inv env) (Limits.after_people_left env org)
  unfolding Limits.after_people_left
  after_people_left-Inv org = search (call_rules, decrement_people_counter-Inv, levels_changed-Inv)
