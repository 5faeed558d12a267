-- ===== src/Kyc/Service.antt =====
-- api/internal/domain/kyc/service.go.
use ctech_account.Common.{
  ℕ, ◌+◌, ◌*◌, String, Bool, false, not, ◌&&◌, ◌||◌, Option, none, some, List, [], ◌∷◌, length, all,
  any, str_eq, ltb, leb, ◌==◌, if◌then◌else◌,
}
use ctech_account.Action.{Result, ok, err, return, fail, guard, ◌>>=◌, ◌>>◌}
use ctech_account.Dynamo.Calls.{call, try, answer}
use ctech_account.Kyc.Model.{
  second, Stamp, stamp, is_basic, is_enhanced, is_pending, is_verified, is_rejected, State,
  not_started, basic_verified, under_review, state_rejected, state_verified, Decision, approve,
  reject, other_decision, is_valid_rejection_code, required_doc_types, is_valid_document_type,
  min_age, submission_ttl, max_document_bytes, max_documents, document_key, Document,
  PendingDocument, Actor, Assessment, User, BasicSubmission, BasicRecord, KycError, invalid_cpf,
  invalid_birth_date, underage, invalid_phone, invalid_address, already_verified, not_submitted,
  basic_required, basic_locked, invalid_method, submission_locked, invalid_document_type,
  invalid_content_type, document_not_uploaded, document_too_large, too_many_documents, no_documents,
  invalid_decision, invalid_rejection_reason, document_type_mismatch,
}
use ctech_account.Kyc.Env.{Env}
use ctech_account.Kyc.Address.{is_valid_phone, normalize_address, is_valid_address}
use ctech_account.Kyc.Repository.{
  Op, get_user, save_basic_submission, add_document, save_pending_document, get_pending_document,
  delete_pending_document, save_enhanced_submission, mark_verified, mark_rejected,
  save_risk_assessment,
}

abbrev pub is_basic_verified : User → Bool
is_basic_verified u = is_basic u.level && is_verified u.status

abbrev pub is_enhanced_rejected : User → Bool
is_enhanced_rejected u = is_enhanced u.level && is_rejected u.status

unfoldable pub is_basic_locked : User → Bool
is_basic_locked u = is_basic_verified u || is_enhanced u.level

abbrev pub has_type : String → List Document → Bool
has_type t docs = any (λ (d : Document). str_eq d.type t) docs

unfoldable pub has_required_documents : List Document → Bool
has_required_documents docs = all (λ t. has_type t docs) required_doc_types

-- `!now.Before(born.AddDate(years, 0, 0))`
abbrev pub has_reached : ℕ → ℕ → Bool
has_reached birthday now = not (ltb now birthday)

-- `s.now().After(exp)`
abbrev pub is_after : ℕ → Stamp → Bool
is_after now none = false
is_after now (some t) = ltb (t * second) now

abbrev pub parsed : Option ℕ → Result KycError ℕ
parsed none = err invalid_birth_date
parsed (some t) = ok t

abbrev pub allowed_content_types : List String
allowed_content_types = "image/jpeg" ∷ "image/png" ∷ "image/heic" ∷ "application/pdf" ∷ []

-- state, at a time; the branches in the order of the source.
unfoldable pub state : User → ℕ → State
state u now =
    if is_enhanced u.level && is_verified u.status
    then state_verified
    else if is_enhanced u.level && is_rejected u.status
    then state_rejected
    else if is_enhanced u.level && is_pending u.status && is_after now u.expires_at
    then basic_verified
    else if is_enhanced u.level && is_pending u.status
    then under_review
    else if is_basic_verified u
    then basic_verified
    else not_started

-- ErrDocumentTypeMismatch unless the intent is this user's, and for this type.
abbrev pub matches_intent : String → String → Option PendingDocument → Bool
matches_intent user_id doc_type none = false
matches_intent user_id doc_type (some p) = str_eq p.type doc_type && str_eq p.user_id user_id

abbrev pub uploaded : Result KycError ℕ → Result KycError ℕ
uploaded (err e) = err document_not_uploaded
uploaded (ok n) = if n == 0 then err document_not_uploaded else ok n

module _ (env : Env) where
  open env use {db}

  unfoldable pub is_valid_content_type : String → Bool
  is_valid_content_type ct = any (env.has_prefix ct) allowed_content_types

  unfoldable pub save_risk : String → Result KycError Assessment → Op env (Unit {0})
  save_risk id (err e) = return tt
  save_risk id (ok a) = do saved ← try db (save_risk_assessment env id a); return tt

  unfoldable pub evaluate_risk : String → String → Op env (Unit {0})
  evaluate_risk id ip = do a ← try db (env.evaluate id ip); save_risk id a

  abbrev pub basic_record : BasicSubmission → ℕ → BasicRecord
  basic_record sub now = record {
    cpf = sub.cpf;
    legal_name = env.trim sub.legal_name;
    birth_date = sub.birth_date;
    phone_number = sub.phone_number;
    address = normalize_address env.upper env.trim sub.address;
    submitted_at = stamp now;
  }

  -- SubmitBasic, once the user is read.
  unfoldable pub submit_basic_of : String → String → BasicSubmission → User → Op env (Unit {0})
  submit_basic_of id ip sub u = do
    guard (not (is_basic_locked u)) basic_locked
    now ← call db env.clock
    save_basic_submission env id (basic_record sub now) u.cpf
    evaluate_risk id ip

  unfoldable pub submit_basic : String → String → BasicSubmission → Op env (Unit {0})
  submit_basic id ip sub = do
    guard (length (env.bytes sub.cpf) == 11 && env.is_valid_cpf sub.cpf) invalid_cpf
    born ← answer db (parsed (env.parse_date sub.birth_date))
    now ← call db env.clock
    guard (has_reached (env.add_years born min_age) now) underage
    guard (is_valid_phone (env.bytes sub.phone_number)) invalid_phone
    guard (is_valid_address env.upper env.bytes (normalize_address env.upper env.trim sub.address))
        invalid_address
    u ← get_user env id
    submit_basic_of id ip sub u

  -- assertAcceptsDocuments
  unfoldable pub accepts_documents : User → Result KycError (Unit {0})
  accepts_documents u =
      if not env.has_presigner
      then err invalid_method
      else if is_basic_verified u || is_enhanced_rejected u
      then ok tt
      else if is_enhanced u.level
      then err submission_locked
      else err basic_required

  -- PresignDocument, once the user is read.
  unfoldable pub presign_of : String → String → String → User → Op env (String × String)
  presign_of id doc_type content_type u = do
    answer db (accepts_documents u)
    guard (ltb (length u.documents) max_documents) too_many_documents
    document_id ← call db env.new_id
    save_pending_document env document_id
        (record { user_id = id; type = doc_type; content_type = content_type })
    url ← env.presign_put (document_key id document_id) content_type
    return (document_id, url)

  unfoldable pub presign_document : String → String → String → Op env (String × String)
  presign_document id doc_type content_type = do
    guard (is_valid_document_type doc_type) invalid_document_type
    guard (is_valid_content_type content_type) invalid_content_type
    u ← get_user env id
    presign_of id doc_type content_type u

  -- ConfirmDocument, once the object's size is known.
  unfoldable pub record_document : String → String → String → Result KycError ℕ → Op env (Unit {0})
  record_document id document_id doc_type found = do
    size ← answer db (uploaded found)
    guard (leb size max_document_bytes) document_too_large
    now ← call db env.clock
    add_document env id (record {
      id = document_id;
      type = doc_type;
      key = document_key id document_id;
      uploaded_at = stamp now;
    })
    dropped ← try db (delete_pending_document env document_id)
    return tt

  -- ConfirmDocument, once the user is read.
  unfoldable pub confirm_of : String → String → String → User → Op env (Unit {0})
  confirm_of id document_id doc_type u = do
    answer db (accepts_documents u)
    guard (ltb (length u.documents) max_documents) too_many_documents
    p ← get_pending_document env document_id
    guard (matches_intent id doc_type p) document_type_mismatch
    size ← try db (env.size (document_key id document_id))
    record_document id document_id doc_type size

  unfoldable pub confirm_document : String → String → String → Op env (Unit {0})
  confirm_document id document_id doc_type = do
    guard (is_valid_document_type doc_type) invalid_document_type
    u ← get_user env id
    confirm_of id document_id doc_type u

  -- The switch of SubmitEnhanced and what follows it, before the write.
  unfoldable pub may_submit : User → Result KycError (Unit {0})
  may_submit u =
      if is_enhanced u.level && is_verified u.status
      then err already_verified
      else if is_enhanced u.level && is_pending u.status
      then err submission_locked
      else if not (is_basic_verified u) && not (is_enhanced_rejected u)
      then err basic_required
      else if not env.has_presigner
      then err invalid_method
      else if has_required_documents u.documents
      then ok tt
      else err no_documents

  -- SubmitEnhanced, once the user is read.
  unfoldable pub submit_enhanced_of : String → String → User → Op env (Unit {0})
  submit_enhanced_of id ip u = do
    answer db (may_submit u)
    now ← call db env.clock
    save_enhanced_submission env id (stamp now) (stamp (now + submission_ttl))
    evaluate_risk id ip

  unfoldable pub submit_enhanced : String → String → Op env (Unit {0})
  submit_enhanced id ip = do u ← get_user env id; submit_enhanced_of id ip u

  unfoldable pub delete_objects :
      Option (String → Op env (Unit {0})) → List Document → Op env (Unit {0})
  delete_objects none docs = return tt
  delete_objects (some delete) [] = return tt
  delete_objects (some delete) (d ∷ docs) = do
    deleted ← try db (delete d.key)
    delete_objects (some delete) docs

  unfoldable pub is_reason : String → String → Bool
  is_reason code details =
      is_valid_rejection_code code
      && (leb (env.rune_count details) 255 && not (str_eq code "other" && str_eq details ""))

  -- The source deletes the objects beside the answer.
  unfoldable pub decide : String → Decision → String → String → Actor → User → Op env (Unit {0})
  decide id approve code details actor u = do
    now ← call db env.clock
    mark_verified env id (stamp now) actor
  decide id reject code details actor u = do
    guard (is_reason code (env.trim details)) invalid_rejection_reason
    now ← call db env.clock
    mark_rejected env id code (env.trim details) (stamp now) actor
    delete_objects env.delete_object u.documents
  decide id (other_decision d) code details actor u = fail invalid_decision

  unfoldable pub review_by : String → Decision → String → String → Actor → Op env (Unit {0})
  review_by id decision code details actor = do
    u ← get_user env id
    guard (is_enhanced u.level && is_pending u.status) not_submitted
    decide id decision code details actor u

  abbrev pub code_of : Decision → String
  code_of reject = "other"
  code_of _ = ""

  unfoldable pub review : String → Decision → String → Op env (Unit {0})
  review id decision reason =
      review_by id decision (code_of decision) reason (record { id = "cli"; name = "CLI" })
