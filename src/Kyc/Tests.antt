-- ===== src/Kyc/Tests.antt =====
-- A verification service on the store in memory, and the theorems at it.
use ctech_account.Common.{
  ◌≡◌, refl, ◌*◌, String, true, false, none, some, List, [], ◌∷◌, str_eq, if◌then◌else◌,
}
use ctech_account.Action.{Action, ok}
use ctech_account.Dynamo.Memory.{Memory, memory}
use ctech_account.Dynamo.Tables.{Silent}
use ctech_account.Kyc.Model.{
  second, enhanced, pending, Document, Actor, User, BasicSubmission, approve, KycError,
}
use ctech_account.Kyc.Rows.{
  Key, user_key, cpf_key, pending_key, Row, user_row, cpf_row, Query, select, same_key,
  same_key_iff,
}
use ctech_account.Kyc.Env.{Env}
use ctech_account.Kyc.Items.{blank}
use ctech_account.Kyc.Service.{has_required_documents, submit_enhanced}
use ctech_account.Kyc.History.{Call, submit_basic, submit_enhanced as to_submit, review_by}

abbrev Mem : Type 0
Mem = Memory {K = Key} {R = Row} {Q = Query} same_key select

unset-Silent :
    (f : String → Action Mem KycError (Unit {0}))
    → none ≡ some f
    → (k : String) → Silent (memory same_key select same_key_iff false) (f k)
unset-Silent f e k = cc

abbrev demo : Env
demo = record {
  db = memory same_key select same_key_iff false;
  clock = λ w. (1000 * second, w);
  new_id = λ w. ("d9", w);
  evaluate = λ u ip w. (ok (record { score = 1; signals = []; evaluated_at = "" }), w);
  has_presigner = true;
  presign_put = λ k t w. (ok "url", w);
  size = λ k w. (ok 100, w);
  delete_object = none;
  trim = λ s. s;
  upper = λ s. s;
  bytes = λ s. [];
  rune_count = λ s. 0;
  has_prefix = λ s p. true;
  is_valid_cpf = λ s. true;
  parse_date = λ s. some 0;
  add_years = λ t n. t;
  clock_silent = record { view_same = λ w. refl };
  new_id_silent = record { view_same = λ w. refl };
  evaluate_silent = λ u ip. record { view_same = λ w. refl };
  presign_silent = λ k t. record { view_same = λ w. refl };
  size_silent = λ k. record { view_same = λ w. refl };
  delete_silent = unset-Silent;
}

abbrev paper : String → Document
paper t = record { id = t; type = t; key = t; uploaded_at = some 1 }

-- Ann's documents are under review since long.
abbrev ann : User
ann = record (blank "ann") {
  cpf = "52998224725";
  level = enhanced;
  status = pending;
  expires_at = some 10;
  documents = paper "id_front" ∷ paper "id_back" ∷ paper "selfie_with_document" ∷ [];
}

abbrev tables : Mem
tables = record {
  items = λ k. elim k [
    | user_key i ↦ if str_eq i "ann" then some (user_row ann) else none
    | cpf_key c ↦ if str_eq c "52998224725" then some (cpf_row "ann") else none
    | pending_key d ↦ none
  ];
  keys = user_key "ann" ∷ cpf_key "52998224725" ∷ [];
  past = [];
  faults = [];
}

papers_there : has_required_documents ann.documents ≡ true
unfolding has_required_documents
papers_there = refl

abbrev ann_again : BasicSubmission
ann_again = record {
  cpf = "52998224725";
  legal_name = "Ann";
  birth_date = "1990-01-01";
  phone_number = "+5541999999999";
  address = ann.address;
}

abbrev reviewer : Actor
reviewer = record { id = "bob"; name = "Bob" }

abbrev calls : List Call
calls =
    submit_basic "ann" "ip" ann_again
    ∷ to_submit "ann" "ip"
    ∷ review_by "ann" approve "" "" reviewer
    ∷ []

abbrev again : List Call
again = to_submit "ann" "ip" ∷ []
