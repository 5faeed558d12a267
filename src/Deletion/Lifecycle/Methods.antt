-- ===== src/Deletion/Lifecycle/Methods.antt =====
-- Proofs on the methods of api/internal/domain/deletion/repository.go, and on the calls of other things
-- than the store.
use ctech_account.Common.{◌≡◌, subst, ℕ, String, true, Option, List, [], ◌∷◌}
use ctech_account.Action.{Result}
use ctech_account.Action.Keeps.{Keeps, keeps_rules}
use ctech_account.Dynamo.Calls.{call, try, answer}
use ctech_account.Dynamo.Tables
use ctech_account.Dynamo.Tables.{Tables, Keeps-try, Keeps-answer}
use ctech_account.Deletion.Model.{
  State, awaiting_confirmation, Request, ServiceStatus, Status, User, DeletionError,
}
use ctech_account.Deletion.Env.{Env, Mail}
use ctech_account.Deletion.Repository
use ctech_account.Deletion.Lifecycle.Diagram.{Moves}
use ctech_account.Deletion.Lifecycle.Writes.{
  Leads, save-Sound, create-Sound, put_service-Sound, put_status-Sound,
}

module _ (env : Env) (m : Moves) (j : String) (s : Option State) where
  open env use {db}

  abbrev pub P : db.World → Type 0
  P = Tables db (Leads m j s)

  abbrev pub K : {A : Type 0} → Repository.Op env A → Type 0
  K act = Keeps P act

  pub save-Leads :
      (r : Request) (from : State) → m.may_move from r.state ≡ true → K (Repository.save env r from)
  unfolding Repository.save
  save-Leads r from e = Tables.Keeps-write db (Leads m j s) _ _ (save-Sound env m j s r from e)

  -- Save, without a new state.
  pub save_same-Leads :
      (r : Request) (from : State) → from ≡ r.state → K (Repository.save env r from)
  save_same-Leads r from e =
      save-Leads r from (subst (λ x. m.may_move from x ≡ true) e (m.may_stay from))

  pub create-Leads : (r : Request) → r.state ≡ awaiting_confirmation → K (Repository.create env r)
  unfolding Repository.create
  create-Leads r e = Tables.Keeps-write db (Leads m j s) _ _ (create-Sound env m j s r e)

  pub get-Leads : (id : String) → K (Repository.get env id)
  unfolding Repository.get
  get-Leads id = Tables.Keeps-read db (Leads m j s) _ _

  pub get_open-Leads : (u : String) → K (Repository.get_open env u)
  unfolding Repository.get_open
  get_open-Leads u = search (keeps_rules, Tables.Keeps-read, get-Leads)

  pub list_due-Leads : (st : State) (now limit : ℕ) → K (Repository.list_due env st now limit)
  unfolding Repository.list_due
  list_due-Leads st now limit = Tables.Keeps-ask db (Leads m j s) _ _

  pub put_services-Leads : (sts : List ServiceStatus) → K (Repository.put_services env sts)
  unfolding Repository.put_services
  put_services-Leads [] = search (keeps_rules)
  put_services-Leads (st ∷ sts) =
      let rest : K (Repository.put_services env sts) = put_services-Leads sts in
      search (keeps_rules, Tables.Keeps-write, put_service-Sound)

  pub list_services-Leads : (id : String) → K (Repository.list_services env id)
  unfolding Repository.list_services
  list_services-Leads id = Tables.Keeps-ask db (Leads m j s) _ _

  pub save_service-Leads :
      (st : ServiceStatus) (from : Status) → K (Repository.save_service env st from)
  unfolding Repository.save_service
  save_service-Leads st from =
      Tables.Keeps-write db (Leads m j s) _ _ (put_status-Sound env m j s st from)

  pub clock-Leads : K (call db env.clock)
  clock-Leads = Tables.Keeps-call db (Leads m j s) _ env.clock_silent

  pub new_id-Leads : K (call db env.new_id)
  new_id-Leads = Tables.Keeps-call db (Leads m j s) _ env.new_id_silent

  pub mint-Leads : K (call db env.mint)
  mint-Leads = Tables.Keeps-call db (Leads m j s) _ env.mint_silent

  pub user-Leads : (u : String) → K (env.user_by_id u)
  user-Leads u = Tables.Keeps-Silent db (Leads m j s) _ (env.user_silent u)

  pub lock-Leads : (r : Request) → K (env.lock r)
  lock-Leads r = Tables.Keeps-Silent db (Leads m j s) _ (env.lock_silent r)

  pub unlock-Leads : (r : Request) → K (env.unlock r)
  unlock-Leads r = Tables.Keeps-Silent db (Leads m j s) _ (env.unlock_silent r)

  pub erase-Leads : (r : Request) (ss : List String) → K (env.erase r ss)
  erase-Leads r ss = Tables.Keeps-Silent db (Leads m j s) _ (env.erase_silent r ss)

  pub send-Leads : (u : User) (x : Mail) → K (env.send u x)
  send-Leads u x = Tables.Keeps-Silent db (Leads m j s) _ (env.send_silent u x)

  pub assess-Leads : (u : String) → K (env.assess_ownership u)
  assess-Leads u = Tables.Keeps-Silent db (Leads m j s) _ (env.assess_silent u)

  pub try-Leads : {A : Type 0} (act : Repository.Op env A) → K act → K (try db act)
  try-Leads act k = Tables.Keeps-try db (Leads m j s) act k

  pub answer-Leads : {A : Type 0} (r : Result DeletionError A) → K (answer db r)
  answer-Leads r = Tables.Keeps-answer db (Leads m j s) r
