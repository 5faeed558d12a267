-- ===== src/Kyc/Rows.antt =====
-- The items of the table of users that api/internal/domain/kyc/repository.go reads and writes: users,
-- the markers of tax ids and the intents to upload.
use ctech_account.Common.{
  ◌≡◌, ◌≢◌, ◌⊎◌, String, Bool, true, false, ◌&&◌, ◌||◌, arith, str_eq, str_eq_iff,
}
use ctech_account.Kyc.Model.{
  User, PendingDocument, is_enhanced, is_pending, is_verified, is_rejected,
}

pub data Key : Type 0 where
  user_key : String → Key
  cpf_key : String → Key
  pending_key : String → Key

-- `cpf_row` is the id of the user who holds the tax id.
pub data Row : Type 0 where
  user_row : User → Row
  cpf_row : String → Row
  pending_row : PendingDocument → Row

abbrev pub same_key : Key → Key → Bool
same_key (user_key i) (user_key j) = str_eq i j
same_key (cpf_key c) (cpf_key d) = str_eq c d
same_key (pending_key i) (pending_key j) = str_eq i j
same_key _ _ = false

pub same_key_iff : (a b : Key) → (same_key a b ≡ true) × (a ≡ b) ⊎ (same_key a b ≡ false) × (a ≢ b)
same_key_iff (user_key i) (user_key j) = ground (arith, str_eq_iff i j)
same_key_iff (cpf_key c) (cpf_key d) = ground (arith, str_eq_iff c d)
same_key_iff (pending_key i) (pending_key j) = ground (arith, str_eq_iff i j)
same_key_iff _ _ = ground arith

-- Reads that may lag: the scan and the index of reviews, and an intent by its document.
pub data Query : Type 0 where
  in_review : Query
  reviewed : Query
  intent : String → Query

abbrev pub select : Query → Key → Row → Bool
select in_review k (user_row u) = is_enhanced u.level && is_pending u.status
select reviewed k (user_row u) =
    is_enhanced u.level && (is_verified u.status || is_rejected u.status)
select (intent id) (pending_key i) (pending_row p) = str_eq i id
select _ k r = false
