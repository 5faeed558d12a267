-- ===== src/Kyc/Env.antt =====
-- What the service of api/internal/domain/kyc takes from outside its package: the table store, the clock
-- and ids, the risk evaluator, the presigner, Go's text and time functions, and the check of a CPF
-- (api-commons/validation). None of these touches the table of the users.
use ctech_account.Common.{◌≡◌, ℕ, String, Bool, Option, some, List}
use ctech_account.Action.{Action}
use ctech_account.Dynamo.Contract.{Dynamo}
use ctech_account.Dynamo.Tables.{Silent}
use ctech_account.Kyc.Model.{Assessment, KycError}
use ctech_account.Kyc.Rows.{Key, Row, Query, same_key}

pub record Env : Type 1 where
  pub db : Dynamo Key Row Query same_key
  pub clock : db.World → ℕ × db.World
  pub new_id : db.World → String × db.World
  pub evaluate : String → String → Action db.World KycError Assessment
  -- `presigner != nil`, PresignPut and Size.
  pub has_presigner : Bool
  pub presign_put : String → String → Action db.World KycError String
  pub size : String → Action db.World KycError ℕ
  -- DeleteObject, where the presigner has it.
  pub delete_object : Option (String → Action db.World KycError (Unit {0}))
  pub trim : String → String
  pub upper : String → String
  pub bytes : String → List ℕ
  pub rune_count : String → ℕ
  pub has_prefix : String → String → Bool
  pub is_valid_cpf : String → Bool
  -- time.Parse of a date, and AddDate of years.
  pub parse_date : String → Option ℕ
  pub add_years : ℕ → ℕ → ℕ
  pub clock_silent : Silent db clock
  pub new_id_silent : Silent db new_id
  pub evaluate_silent : (u ip : String) → Silent db (evaluate u ip)
  pub presign_silent : (k t : String) → Silent db (presign_put k t)
  pub size_silent : (k : String) → Silent db (size k)
  pub delete_silent :
      (f : String → Action db.World KycError (Unit {0}))
      → delete_object ≡ some f
      → (k : String) → Silent db (f k)
