-- ===== src/Kyc/Repository.antt =====
-- api/internal/domain/kyc/repository.go: the methods of the repository. A call that reads page after page
-- is one query.
use ctech_account.Common.{String, Option, List, [], ◌∷◌, take}
use ctech_account.Action.{Action, return, fail, ◌>>=◌}
use ctech_account.Dynamo.Calls.{read_base, ask, write}
use ctech_account.Kyc.Model.{
  Stamp, Document, PendingDocument, Actor, Assessment, User, BasicRecord, KycError,
  invalid_decision,
}
use ctech_account.Kyc.Rows.{user_key, in_review, reviewed, intent}
use ctech_account.Kyc.Env.{Env}
use ctech_account.Kyc.Items.{
  basic_items, document_item, intent_item, drop_intent_item, enhanced_item, verified_item,
  rejected_item, risk_item, or_failed, or_conflict, or_not_submitted, found_user, found_intent,
  found_users,
}

pub data Queue : Type 0 where
  pending_queue completed_queue : Queue
  other_queue : String → Queue

module _ (env : Env) where
  open env use {db}

  abbrev pub Op : Type 0 → Type 0
  Op A = Action db.World KycError A

  unfoldable pub get_user : String → Op User
  get_user id = read_base db found_user (user_key id)

  unfoldable pub save_basic_submission : String → BasicRecord → String → Op (Unit {0})
  save_basic_submission id rec old_cpf = write db or_conflict (basic_items id rec old_cpf)

  unfoldable pub add_document : String → Document → Op (Unit {0})
  add_document id doc = write db or_failed (document_item id doc ∷ [])

  unfoldable pub save_pending_document : String → PendingDocument → Op (Unit {0})
  save_pending_document document_id p = write db or_failed (intent_item document_id p ∷ [])

  unfoldable pub get_pending_document : String → Op (Option PendingDocument)
  get_pending_document document_id = ask db found_intent (intent document_id)

  unfoldable pub delete_pending_document : String → Op (Unit {0})
  delete_pending_document document_id = write db or_failed (drop_intent_item document_id ∷ [])

  unfoldable pub save_enhanced_submission : String → Stamp → Stamp → Op (Unit {0})
  save_enhanced_submission id submitted_at expires_at =
      write db or_failed (enhanced_item id submitted_at expires_at ∷ [])

  unfoldable pub mark_verified : String → Stamp → Actor → Op (Unit {0})
  mark_verified id at actor = write db or_not_submitted (verified_item id at actor ∷ [])

  unfoldable pub mark_rejected : String → String → String → Stamp → Actor → Op (Unit {0})
  mark_rejected id code details at actor =
      write db or_not_submitted (rejected_item id code details at actor ∷ [])

  unfoldable pub save_risk_assessment : String → Assessment → Op (Unit {0})
  save_risk_assessment id a = write db or_failed (risk_item id a ∷ [])

  unfoldable pub list_pending_kyc : Op (List User)
  list_pending_kyc = ask db found_users in_review

  unfoldable pub list_kyc_reviews : Queue → Op (List User)
  list_kyc_reviews pending_queue = do us ← ask db found_users in_review; return (take 100 us)
  list_kyc_reviews completed_queue = do us ← ask db found_users reviewed; return (take 100 us)
  list_kyc_reviews (other_queue q) = fail invalid_decision
