-- ===== src/Kyc/History.antt =====
-- Sequences of calls of the methods of api/internal/domain/kyc/service.go.
use ctech_account.Common.{◌≡◌, ◌≢◌, String, true, some, List, [], ◌∷◌}
use ctech_account.Kyc.Model.{Actor, BasicSubmission, Decision}
use ctech_account.Kyc.Rows.{user_key, cpf_key, cpf_row}
use ctech_account.Kyc.Env.{Env}
use ctech_account.Kyc.Items.{user_of}
use ctech_account.Kyc.Service
use ctech_account.Kyc.Service.{has_required_documents}
use ctech_account.Kyc.Standing.Ladder.{Stage}
use ctech_account.Kyc.Standing.Writes.{View, stage, cpf_of, papers_of}
use ctech_account.Kyc.Standing.Services as Calls
use ctech_account.Kyc.Standing.Documents as Papers

pub data Call : Type 0 where
  submit_basic : String → String → BasicSubmission → Call
  presign_document : String → String → String → Call
  confirm_document : String → String → String → Call
  submit_enhanced : String → String → Call
  review_by : String → Decision → String → String → Actor → Call

-- Every tax id is claimed by the user who has it, and every user has the papers of the stage.
pub record Orderly (v : View) : Type 0 where
  pub claimed :
      (i c : String) → cpf_of (v (user_key i)) ≡ some c → c ≢ "" → v (cpf_key c) ≡ some (cpf_row i)
  pub documented : (i : String) → papers_of (v (user_key i)) ≡ true

module _ (env : Env) where
  open env use {db}

  -- The world that a call leaves, whatever it answers.
  unfoldable pub handle : Call → db.World → db.World
  handle (submit_basic id ip sub) w = (Service.submit_basic env id ip sub w).1
  handle (presign_document id t ct) w = (Service.presign_document env id t ct w).1
  handle (confirm_document id d t) w = (Service.confirm_document env id d t w).1
  handle (submit_enhanced id ip) w = (Service.submit_enhanced env id ip w).1
  handle (review_by id d code details actor) w = (Service.review_by env id d code details actor w).1

  unfoldable pub serve : List Call → db.World → db.World
  serve [] w = w
  serve (c ∷ cs) w = serve cs (handle c w)

  -- The stage of a user; one who is not there is at the first.
  abbrev pub stage_in : db.World → String → Stage
  stage_in w id = stage (user_of id (db.view w (user_key id)))
