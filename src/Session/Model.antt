-- ===== src/Session/Model.antt =====
-- api/internal/domain/session/model.go. Times are nanoseconds since 1970 where a clock is read, and
-- seconds where the source stores Unix time or text of RFC 3339. PK and SK are the ids they are built of;
-- the coordinates of GeoData, which nothing reads, are left out.
use ctech_account.Common.{ℕ, ◌*◌, ◌/◌, String, Bool, ◌||◌, List, ltb, str_eq}

abbrev pub second : ℕ
second = 1000000000

-- `.Unix()`
abbrev pub unix : ℕ → ℕ
unix t = t / second

-- 90 days
abbrev pub session_ttl : ℕ
session_ttl = 90 * 24 * 3600 * second

pub record GeoData : Type 0 where
  pub city : String
  pub region : String
  pub country : String

pub record Session : Type 0 where
  pub user_id : String
  pub id : String
  pub refresh_token_hash : String
  pub device_name : String
  pub ip_address : String
  pub user_agent : String
  pub created_at : ℕ
  pub last_used_at : ℕ
  pub expires_at : ℕ
  pub geo : GeoData
  pub auth_time : ℕ
  pub amr : List String
  pub last_mfa_at : ℕ

-- RFC 8176: one-time password and WebAuthn.
unfoldable pub is_mfa_method : String → Bool
is_mfa_method m = str_eq m "otp" || str_eq m "webauthn"

pub record RefreshToken : Type 0 where
  pub user_id : String
  pub session_id : String
  pub client_id : String
  pub refresh_token_hash : String
  pub scopes : List String
  pub created_at : ℕ
  pub last_used_at : ℕ
  pub expires_at : ℕ

pub data LookupState : Type 0 where
  active consumed : LookupState

pub record TokenLookup : Type 0 where
  pub state : LookupState
  pub user_id : String
  pub session_id : String
  pub client_id : String
  pub expires_at : ℕ

pub record ConsumedToken : Type 0 where
  pub refresh_token_hash : String
  pub user_id : String
  pub session_id : String
  pub client_id : String
  pub expires_at : ℕ

-- `time.Now().Unix() > s.ExpiresAt`, of sessions and of refresh tokens.
unfoldable pub is_expired : ℕ → ℕ → Bool
is_expired now expires_at = ltb expires_at (unix now)

-- The sentinel errors of the package; `failed` is any other error.
pub data SessionError : Type 0 where
  not_found refresh_token_not_found token_reuse session_expired client_mismatch failed :
      SessionError
