-- ===== src/Kyc/Model.antt =====
-- api/internal/domain/kyc/model.go, and the fields of api/internal/domain/user/model.go that the package
-- reads or writes. A clock reads nanoseconds since 1970; text of RFC 3339 stands for the second that it
-- names, and "" for `none`.
use ctech_account.Common.{
  ℕ, ◌*◌, ◌/◌, ◌^◌, String, Bool, true, false, Option, some, List, [], ◌∷◌, any, str_eq,
}
use Prim.Native.String.{◌++◌ as text_append}

abbrev pub second : ℕ
second = 1000000000

abbrev pub Stamp : Type 0
Stamp = Option ℕ

-- `.Format(TimeLayout)`
abbrev pub stamp : ℕ → Stamp
stamp t = some (t / second)

pub data Level : Type 0 where
  no_level basic enhanced : Level

pub data Status : Type 0 where
  no_status pending verified rejected : Status

abbrev pub is_basic : Level → Bool
is_basic basic = true
is_basic _ = false

abbrev pub is_enhanced : Level → Bool
is_enhanced enhanced = true
is_enhanced _ = false

abbrev pub is_pending : Status → Bool
is_pending pending = true
is_pending _ = false

abbrev pub is_verified : Status → Bool
is_verified verified = true
is_verified _ = false

abbrev pub is_rejected : Status → Bool
is_rejected rejected = true
is_rejected _ = false

pub data State : Type 0 where
  not_started basic_verified under_review state_rejected state_verified : State

pub data Decision : Type 0 where
  approve reject : Decision
  other_decision : String → Decision

abbrev pub rejection_codes : List String
rejection_codes =
    "document_unreadable" ∷ "document_incomplete" ∷ "document_mismatch" ∷ "selfie_mismatch"
    ∷ "data_mismatch" ∷ "suspected_fraud" ∷ "other" ∷ []

-- slices.Contains
abbrev pub contains : String → List String → Bool
contains s ss = any (λ t. str_eq t s) ss

unfoldable pub is_valid_rejection_code : String → Bool
is_valid_rejection_code code = contains code rejection_codes

abbrev pub required_doc_types : List String
required_doc_types = "id_front" ∷ "id_back" ∷ "selfie_with_document" ∷ []

unfoldable pub is_valid_document_type : String → Bool
is_valid_document_type t = contains t required_doc_types

abbrev pub min_age : ℕ
min_age = 18

abbrev pub submission_ttl : ℕ
submission_ttl = 30 * 24 * 3600 * second

-- 5 << 20
abbrev pub max_document_bytes : ℕ
max_document_bytes = 5 * 2 ^ 20

abbrev pub max_documents : ℕ
max_documents = 10

-- BuildDocumentKey
abbrev pub document_key : String → String → String
document_key user_id document_id =
    text_append "kyc/" (text_append user_id (text_append "/" document_id))

-- ClaimLevel
unfoldable pub claim_level : Level → Status → Level
claim_level enhanced verified = enhanced
claim_level basic verified = basic
claim_level enhanced _ = basic
claim_level _ _ = no_level

pub record Address : Type 0 where
  pub zip_code : String
  pub street : String
  pub number : String
  pub complement : String
  pub district : String
  pub city : String
  pub state : String

pub record Document : Type 0 where
  pub id : String
  pub type : String
  pub key : String
  pub uploaded_at : Stamp

pub record PendingDocument : Type 0 where
  pub user_id : String
  pub type : String
  pub content_type : String

pub record Actor : Type 0 where
  pub id : String
  pub name : String

-- An assessment of risk: its score, the names of its signals with their details, and its time.
pub record Assessment : Type 0 where
  pub score : ℕ
  pub signals : List (String × String)
  pub evaluated_at : String

pub record User : Type 0 where
  pub id : String
  pub cpf : String
  pub birth_date : String
  pub legal_name : String
  pub address : Address
  pub level : Level
  pub status : Status
  pub basic_verified_at : Stamp
  pub verified_at : Stamp
  pub rejection_code : String
  pub rejection_reason : String
  pub submitted_at : Stamp
  pub expires_at : Stamp
  pub documents : List Document
  pub phone_number : String
  pub phone_verified_at : Stamp
  pub risk : Option Assessment
  pub reviewed_at : Stamp
  pub reviewed_by : String
  pub reviewed_by_name : String
  pub review_decision : String

pub record BasicSubmission : Type 0 where
  pub cpf : String
  pub legal_name : String
  pub birth_date : String
  pub phone_number : String
  pub address : Address

pub record BasicRecord : Type 0 where
  pub cpf : String
  pub legal_name : String
  pub birth_date : String
  pub phone_number : String
  pub address : Address
  pub submitted_at : Stamp

pub data KycError : Type 0 where
  invalid_cpf invalid_birth_date underage cpf_conflict invalid_phone invalid_address : KycError
  already_verified not_submitted basic_required basic_locked invalid_method : KycError
  submission_locked invalid_document_type invalid_content_type document_not_uploaded : KycError
  document_too_large too_many_documents no_documents invalid_decision : KycError
  invalid_rejection_reason document_type_mismatch not_found failed : KycError
