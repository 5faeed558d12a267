-- ===== src/Kyc/Items.antt =====
-- api/internal/domain/kyc/repository.go: the items that it writes, and what the answers of the store mean
-- to it. An update of a user who is not there makes an item of the attributes that it sets.
use ctech_account.Common.{
  String, Bool, true, false, not, ◌&&◌, Option, none, some, List, [], ◌∷◌, ◌++◌, any, str_eq,
  if◌then◌else◌,
}
use ctech_account.Action.{Result, ok, err}
use ctech_account.Dynamo.Contract.{Write, Outcome, committed, rejected, Reply, done}
use ctech_account.Kyc.Model.{
  Stamp, no_level, basic, enhanced, no_status, pending, verified, rejected as is_refused,
  is_enhanced, is_pending, Document, PendingDocument, Actor, Assessment, User, BasicRecord,
  KycError, cpf_conflict, not_submitted, not_found, failed,
}
use ctech_account.Kyc.Rows.{
  Key, user_key, cpf_key, pending_key, Row, user_row, cpf_row, pending_row,
}

abbrev pub blank : String → User
blank id = record {
  id = id;
  cpf = "";
  birth_date = "";
  legal_name = "";
  address = record {
    zip_code = "";
    street = "";
    number = "";
    complement = "";
    district = "";
    city = "";
    state = "";
  };
  level = no_level;
  status = no_status;
  basic_verified_at = none;
  verified_at = none;
  rejection_code = "";
  rejection_reason = "";
  submitted_at = none;
  expires_at = none;
  documents = [];
  phone_number = "";
  phone_verified_at = none;
  risk = none;
  reviewed_at = none;
  reviewed_by = "";
  reviewed_by_name = "";
  review_decision = "";
}

abbrev pub user_of : String → Option Row → User
user_of id (some (user_row u)) = u
user_of id _ = blank id

abbrev pub anything : Option Row → Bool
anything o = true

abbrev pub update_user : String → (Option Row → Bool) → (User → User) → Write Key Row
update_user id c f = record {
  key = user_key id;
  condition = c;
  effect = λ o. some (user_row (f (user_of id o)));
}

-- attribute_not_exists(pk) OR user_id = :uid
abbrev pub free_for : String → Option Row → Bool
free_for id none = true
free_for id (some (cpf_row i)) = str_eq i id
free_for id (some _) = false

unfoldable pub claim_cpf : String → String → Write Key Row
claim_cpf id cpf = record {
  key = cpf_key cpf;
  condition = free_for id;
  effect = λ _. some (cpf_row id);
}

unfoldable pub release_cpf : String → Write Key Row
release_cpf cpf = record { key = cpf_key cpf; condition = anything; effect = λ _. none }

abbrev pub with_basic : BasicRecord → User → User
with_basic rec u = record u {
  cpf = rec.cpf;
  legal_name = rec.legal_name;
  birth_date = rec.birth_date;
  phone_number = rec.phone_number;
  address = rec.address;
  level = basic;
  status = verified;
  submitted_at = rec.submitted_at;
  basic_verified_at = rec.submitted_at;
  rejection_code = "";
  rejection_reason = "";
  phone_verified_at = none;
}

unfoldable pub basic_item : String → BasicRecord → Write Key Row
basic_item id rec = update_user id anything (with_basic rec)

unfoldable pub basic_items : String → BasicRecord → String → List (Write Key Row)
unfolding claim_cpf release_cpf basic_item
basic_items id rec old_cpf =
    claim_cpf id rec.cpf
    ∷ basic_item id rec
    ∷ (if not (str_eq old_cpf "") && not (str_eq old_cpf rec.cpf)
        then release_cpf old_cpf ∷ []
        else [])

abbrev pub with_document : Document → User → User
with_document doc u = record u { documents = u.documents ++ doc ∷ [] }

unfoldable pub document_item : String → Document → Write Key Row
document_item id doc = update_user id anything (with_document doc)

abbrev pub is_absent : Option Row → Bool
is_absent none = true
is_absent (some r) = false

unfoldable pub intent_item : String → PendingDocument → Write Key Row
intent_item document_id p = record {
  key = pending_key document_id;
  condition = is_absent;
  effect = λ _. some (pending_row p);
}

unfoldable pub drop_intent_item : String → Write Key Row
drop_intent_item document_id = record {
  key = pending_key document_id;
  condition = anything;
  effect = λ _. none;
}

abbrev pub with_submission : Stamp → Stamp → User → User
with_submission submitted_at expires_at u = record u {
  level = enhanced;
  status = pending;
  submitted_at = submitted_at;
  expires_at = expires_at;
  rejection_reason = "";
  rejection_code = "";
  reviewed_at = none;
  reviewed_by = "";
  reviewed_by_name = "";
  review_decision = "";
}

unfoldable pub enhanced_item : String → Stamp → Stamp → Write Key Row
enhanced_item id submitted_at expires_at =
    update_user id anything (with_submission submitted_at expires_at)

-- #kyc_level = :expected_level AND #kyc_status = :expected_status
abbrev pub in_review : Option Row → Bool
in_review (some (user_row u)) = is_enhanced u.level && is_pending u.status
in_review _ = false

abbrev pub with_approval : Stamp → Actor → User → User
with_approval at actor u = record u {
  status = verified;
  verified_at = at;
  rejection_reason = "";
  rejection_code = "";
  reviewed_at = at;
  reviewed_by = actor.id;
  reviewed_by_name = actor.name;
  review_decision = "approve";
}

unfoldable pub verified_item : String → Stamp → Actor → Write Key Row
verified_item id at actor = update_user id in_review (with_approval at actor)

abbrev pub with_rejection : String → String → Stamp → Actor → User → User
with_rejection code details at actor u = record u {
  status = is_refused;
  rejection_code = code;
  rejection_reason = details;
  reviewed_at = at;
  reviewed_by = actor.id;
  reviewed_by_name = actor.name;
  review_decision = "reject";
  documents = [];
}

unfoldable pub rejected_item : String → String → String → Stamp → Actor → Write Key Row
rejected_item id code details at actor =
    update_user id in_review (with_rejection code details at actor)

abbrev pub with_risk : Assessment → User → User
with_risk a u = record u { risk = some a }

unfoldable pub risk_item : String → Assessment → Write Key Row
risk_item id a = update_user id anything (with_risk a)

abbrev pub or_failed : Outcome → Result KycError (Unit {0})
or_failed committed = ok tt
or_failed _ = err failed

abbrev pub or_conflict : Outcome → Result KycError (Unit {0})
or_conflict committed = ok tt
or_conflict (rejected bs) = if any (λ b. b) bs then err cpf_conflict else err failed
or_conflict _ = err failed

abbrev pub or_not_submitted : Outcome → Result KycError (Unit {0})
or_not_submitted committed = ok tt
or_not_submitted (rejected bs) = err not_submitted
or_not_submitted _ = err failed

abbrev pub found_user : Reply (Option Row) → Result KycError User
found_user (done none) = err not_found
found_user (done (some (user_row u))) = ok u
found_user _ = err failed

abbrev pub found_intent : Reply (List Row) → Result KycError (Option PendingDocument)
found_intent (done []) = ok none
found_intent (done (pending_row p ∷ rs)) = ok (some p)
found_intent _ = err failed

abbrev pub users_among : List Row → List User
users_among [] = []
users_among (user_row u ∷ rs) = u ∷ users_among rs
users_among (_ ∷ rs) = users_among rs

abbrev pub found_users : Reply (List Row) → Result KycError (List User)
found_users (done rs) = ok (users_among rs)
found_users _ = err failed
