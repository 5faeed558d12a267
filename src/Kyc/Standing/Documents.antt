-- ===== src/Kyc/Standing/Documents.antt =====
-- Proofs on PresignDocument and ConfirmDocument of api/internal/domain/kyc/service.go.
use ctech_account.Common.{◌≡◌, ℕ, String, true, ltb, length}
use ctech_account.Action.{Result, ok, return, ◌>>=◌}
use ctech_account.Action.Keeps.{keeps_rules}
use ctech_account.Action.Turns.{Turns-bind, Turns-then, Turns-guard}
use ctech_account.Dynamo.Calls.{call, try}
use ctech_account.Dynamo.Contract.{IsCurrent}
use ctech_account.Dynamo.Tables
use ctech_account.Dynamo.Tables.{Tables}
use ctech_account.Kyc.Model.{User, Document, PendingDocument, KycError, max_documents}
use ctech_account.Kyc.Env.{Env}
use ctech_account.Kyc.Repository
use ctech_account.Kyc.Repository.{Op, get_user}
use ctech_account.Kyc.Service
use ctech_account.Kyc.Service.{is_basic_locked}
use ctech_account.Kyc.Standing.Ladder.{Stage}
use ctech_account.Kyc.Standing.Writes.{Stands}
use ctech_account.Kyc.Standing.Updates.{
  Known, document_item-Stands, intent_item-Stands, drop_intent_item-Stands,
}
use ctech_account.Kyc.Standing.Calls.{
  clock-any, get_user-any, answer-any, try-any, answer_then, size-any, intent-any, K, T, forget,
  with_user,
}

module _ (env : Env) (j : String) (s : Stage) (current : IsCurrent env.db) where
  open env use {db}

  drop_intent-Stands : (d : String) → K env j s (Repository.delete_pending_document env d)
  unfolding Repository.delete_pending_document
  drop_intent-Stands d =
      Tables.Keeps-write db (Stands j s) _ _
        (record { sound = λ v h c. drop_intent_item-Stands j s d v h })

  save_intent-Stands :
      (d : String) (p : PendingDocument) → K env j s (Repository.save_pending_document env d p)
  unfolding Repository.save_pending_document
  save_intent-Stands d p =
      Tables.Keeps-write db (Stands j s) _ _
        (record { sound = λ v h c. intent_item-Stands j s d v p h })

  new_id-Stands : K env j s (call db env.new_id)
  new_id-Stands = Tables.Keeps-call db _ _ env.new_id_silent

  presign_put-Stands : (k t : String) → K env j s (env.presign_put k t)
  presign_put-Stands k t = Tables.Keeps-Silent db _ _ (env.presign_silent k t)

  presign_of-Stands :
      (id doc_type content_type : String) (u : User)
      → K env j s (Service.presign_of env id doc_type content_type u)
  unfolding Service.presign_of
  presign_of-Stands id doc_type content_type u =
      search (keeps_rules, answer-any, new_id-Stands, save_intent-Stands, presign_put-Stands) depth
        12

  pub presign_document-Stands :
      (id doc_type content_type : String)
      → K env j s (Service.presign_document env id doc_type content_type)
  unfolding Service.presign_document
  presign_document-Stands id doc_type content_type =
      search (keeps_rules, get_user-any, presign_of-Stands) depth 8

  add_document-Turns :
      (id : String) (u : User) (d : Document)
      → Service.accepts_documents env u ≡ ok tt
      → ltb (length u.documents) max_documents ≡ true
      → T env j s id u (Repository.add_document env id d)
  unfolding Repository.add_document
  add_document-Turns id u d a l =
      Tables.Turns-write db (Known j s id u) (Stands j s) _ _ (λ v h. h.0)
        (λ v h c. document_item-Stands env j s id u d v a l h)

  after_document-Stands :
      (d : String)
      → K env j s (try db (Repository.delete_pending_document env d) >>= (λ x. return tt))
  after_document-Stands d = search (keeps_rules, try-any, drop_intent-Stands)

  record_document-Turns :
      (id document_id doc_type : String) (u : User) (r : Result KycError ℕ)
      → Service.accepts_documents env u ≡ ok tt
      → ltb (length u.documents) max_documents ≡ true
      → T env j s id u (Service.record_document env id document_id doc_type r)
  unfolding Service.record_document
  record_document-Turns id document_id doc_type u r a l =
      Turns-bind (forget env j s id u) _ _ (answer-any env _ _) (λ size.
        Turns-guard (forget env j s id u) _ _ _ (λ e.
          Turns-bind (forget env j s id u) _ _ (clock-any env _) (λ now.
            Turns-then _ _ (add_document-Turns id u _ a l) (after_document-Stands document_id))))

  confirm_of-Turns :
      (id document_id doc_type : String) (u : User)
      → T env j s id u (Service.confirm_of env id document_id doc_type u)
  unfolding Service.confirm_of
  confirm_of-Turns id document_id doc_type u =
      answer_then env (Known j s id u) _ _ (λ v h. h.0)
        (λ x a. Turns-guard (forget env j s id u) _ _ _ (λ l.
          Turns-bind (forget env j s id u) _ _ (intent-any env _ document_id) (λ p.
            Turns-guard (forget env j s id u) _ _ _ (λ e.
              Turns-bind (forget env j s id u) _ _ (try-any env _ _ (size-any env _ _))
                (λ size. record_document-Turns id document_id doc_type u size a l)))))

  pub confirm_document-Stands :
      (id document_id doc_type : String)
      → K env j s (Service.confirm_document env id document_id doc_type)
  unfolding Service.confirm_document
  confirm_document-Stands id document_id doc_type =
      let k : K env j s (get_user env id >>= Service.confirm_of env id document_id doc_type) =
        with_user env j s current id (Service.confirm_of env id document_id doc_type)
          (confirm_of-Turns id document_id doc_type) in
      search (keeps_rules)
