-- ===== src/Session/Env.antt =====
-- What the session service takes from outside its package: the table store, the clock, ids, random
-- tokens and SHA-256 (api/internal/crypto/token.go, GenerateRefreshToken and HashToken), and what
-- UpdateItem of the store's client does on a missing item.
use ctech_account.Common.{ℕ, String, ◌≡◌, Bool, Option, some, List, All}
use ctech_account.Dynamo.Contract.{Dynamo, done}
use ctech_account.Session.Model.{Session}
use ctech_account.Session.Rows.{Key, Row, Query, by_token_hash, same_key, hash_of}

pub record Env : Type 1 where
  pub db : Dynamo Key Row Query same_key
  pub clock : db.World → ℕ × db.World
  pub new_id : db.World → String × db.World
  -- `none`: the random source failed.
  pub mint : db.World → Option String × db.World
  pub hash : String → String
  pub updatable : Option Row → Bool
  pub blank_session : String → String → List String → ℕ → Session
  pub clock_view : (w : db.World) → db.view (clock w).1 ≡ db.view w
  pub new_id_view : (w : db.World) → db.view (new_id w).1 ≡ db.view w
  pub mint_view : (w : db.World) → db.view (mint w).1 ≡ db.view w
  -- An index answers with items that have the value asked for.
  pub index_hash :
      (h : String) (w : db.World) (rs : List Row)
      → (db.query (by_token_hash h) w).0 ≡ done rs
      → All (λ r. hash_of r ≡ some h) rs
