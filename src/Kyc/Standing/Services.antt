-- ===== src/Kyc/Standing/Services.antt =====
-- Proofs on SubmitBasic, SubmitEnhanced and ReviewBy of api/internal/domain/kyc/service.go.
use ctech_account.Common.{
  ◌≡◌, refl, String, Bool, true, false, not, Option, none, some, List, [], ◌∷◌, arith,
}
use ctech_account.Action.{Result, ok, err, ◌>>=◌}
use ctech_account.Action.Keeps.{keeps_rules}
use ctech_account.Action.Turns.{Turns-bind, Turns-then, Turns-guard}
use ctech_account.Dynamo.Contract.{IsCurrent}
use ctech_account.Dynamo.Tables
use ctech_account.Dynamo.Tables.{Tables}
use ctech_account.Kyc.Model.{
  User, Stamp, Document, Actor, Assessment, BasicSubmission, BasicRecord, KycError, Decision,
  approve, reject, other_decision,
}
use ctech_account.Kyc.Env.{Env}
use ctech_account.Kyc.Repository
use ctech_account.Kyc.Repository.{Op, get_user}
use ctech_account.Kyc.Service
use ctech_account.Kyc.Service.{is_basic_locked}
use ctech_account.Kyc.Standing.Ladder.{Stage}
use ctech_account.Kyc.Standing.Writes.{Stands}
use ctech_account.Kyc.Standing.Claims.{basic_items-Stands}
use ctech_account.Kyc.Standing.Updates.{
  Known, enhanced_item-Stands, verified_item-Stands, rejected_item-Stands, risk_item-Stands,
}
use ctech_account.Kyc.Standing.Calls.{
  clock-any, get_user-any, answer-any, try-any, answer_then, evaluate-any, K, T, forget, with_user,
}

negated : (b : Bool) → not b ≡ true → b ≡ false
negated b h = ground arith

module _ (env : Env) (j : String) (s : Stage) (current : IsCurrent env.db) where
  open env use {db}

  save_risk-Stands :
      (id : String) (a : Result KycError Assessment) → K env j s (Service.save_risk env id a)
  unfolding Service.save_risk Repository.save_risk_assessment
  save_risk-Stands id (err e) = search (keeps_rules)
  save_risk-Stands id (ok a) =
      let k : K env j s (Repository.save_risk_assessment env id a) =
        Tables.Keeps-write db (Stands j s) _ _
          (record { sound = λ v h c. risk_item-Stands j s id v a h }) in
      search (keeps_rules, try-any)

  evaluate_risk-Stands : (id ip : String) → K env j s (Service.evaluate_risk env id ip)
  unfolding Service.evaluate_risk
  evaluate_risk-Stands id ip = search (keeps_rules, try-any, evaluate-any, save_risk-Stands)

  save_basic-Turns :
      (id : String) (rec : BasicRecord) (u : User)
      → is_basic_locked u ≡ false
      → T env j s id u (Repository.save_basic_submission env id rec u.cpf)
  unfolding Repository.save_basic_submission
  save_basic-Turns id rec u l =
      Tables.Turns-write db (Known j s id u) (Stands j s) _ _ (λ v h. h.0)
        (λ v h c. basic_items-Stands j s id rec u v l h.0 h.1 c)

  submit_basic_of-Turns :
      (id ip : String) (sub : BasicSubmission) (u : User)
      → T env j s id u (Service.submit_basic_of env id ip sub u)
  unfolding Service.submit_basic_of
  submit_basic_of-Turns id ip sub u = Turns-guard (forget env j s id u) _ _ _ (λ l.
      Turns-bind (forget env j s id u) _ _ (clock-any env _) (λ now.
        Turns-then _ _ (save_basic-Turns id _ u (negated _ l)) (evaluate_risk-Stands id ip)))

  pub submit_basic-Stands :
      (id ip : String) (sub : BasicSubmission) → K env j s (Service.submit_basic env id ip sub)
  unfolding Service.submit_basic
  submit_basic-Stands id ip sub =
      let k : K env j s (get_user env id >>= Service.submit_basic_of env id ip sub) =
        with_user env j s current id (Service.submit_basic_of env id ip sub)
          (submit_basic_of-Turns id ip sub) in
      search (keeps_rules, answer-any, clock-any) depth 12

  save_enhanced-Turns :
      (id : String) (u : User) (at until : Stamp)
      → Service.may_submit env u ≡ ok tt
      → T env j s id u (Repository.save_enhanced_submission env id at until)
  unfolding Repository.save_enhanced_submission
  save_enhanced-Turns id u at until a =
      Tables.Turns-write db (Known j s id u) (Stands j s) _ _ (λ v h. h.0)
        (λ v h c. enhanced_item-Stands env j s id u at until v a h)

  submit_enhanced_of-Turns :
      (id ip : String) (u : User) → T env j s id u (Service.submit_enhanced_of env id ip u)
  unfolding Service.submit_enhanced_of
  submit_enhanced_of-Turns id ip u =
      answer_then env (Known j s id u) _ _ (λ v h. h.0)
        (λ x a.
          Turns-bind (forget env j s id u) _ _ (clock-any env _)
            (λ now. Turns-then _ _ (save_enhanced-Turns id u _ _ a) (evaluate_risk-Stands id ip)))

  pub submit_enhanced-Stands : (id ip : String) → K env j s (Service.submit_enhanced env id ip)
  unfolding Service.submit_enhanced
  submit_enhanced-Stands id ip =
      with_user env j s current id (Service.submit_enhanced_of env id ip)
        (submit_enhanced_of-Turns id ip)

  mark_verified-Stands :
      (id : String) (at : Stamp) (actor : Actor)
      → K env j s (Repository.mark_verified env id at actor)
  unfolding Repository.mark_verified
  mark_verified-Stands id at actor =
      Tables.Keeps-write db (Stands j s) _ _
        (record { sound = λ v h c. verified_item-Stands j s id v at actor h c })

  mark_rejected-Stands :
      (id code details : String) (at : Stamp) (actor : Actor)
      → K env j s (Repository.mark_rejected env id code details at actor)
  unfolding Repository.mark_rejected
  mark_rejected-Stands id code details at actor =
      Tables.Keeps-write db (Stands j s) _ _
        (record { sound = λ v h c. rejected_item-Stands j s id v code details at actor h c })

  delete_objects-Stands :
      (delete : Option (String → Op env (Unit {0}))) (docs : List Document)
      → ((f : String → Op env (Unit {0})) → delete ≡ some f → (k : String) → K env j s (f k))
      → K env j s (Service.delete_objects env delete docs)
  unfolding Service.delete_objects
  delete_objects-Stands none docs h = search (keeps_rules)
  delete_objects-Stands (some f) [] h = search (keeps_rules)
  delete_objects-Stands (some f) (d ∷ docs) h =
      let k : (x : String) → K env j s (f x) = h f refl in
      let rest : K env j s (Service.delete_objects env (some f) docs) =
        delete_objects-Stands (some f) docs h in
      search (keeps_rules, try-any, k)

  delete_all-Stands :
      (docs : List Document) → K env j s (Service.delete_objects env env.delete_object docs)
  delete_all-Stands docs =
      delete_objects-Stands env.delete_object docs
        (λ f e k. Tables.Keeps-Silent db _ _ (env.delete_silent f e k))

  decide-Stands :
      (id : String) (d : Decision) (code details : String) (actor : Actor) (u : User)
      → K env j s (Service.decide env id d code details actor u)
  unfolding Service.decide
  decide-Stands id approve code details actor u =
      search (keeps_rules, clock-any, mark_verified-Stands)
  decide-Stands id reject code details actor u =
      search (keeps_rules, clock-any, mark_rejected-Stands, delete_all-Stands) depth 8
  decide-Stands id (other_decision x) code details actor u = search (keeps_rules)

  pub review_by-Stands :
      (id : String) (d : Decision) (code details : String) (actor : Actor)
      → K env j s (Service.review_by env id d code details actor)
  unfolding Service.review_by
  review_by-Stands id d code details actor = search (keeps_rules, get_user-any, decide-Stands)
