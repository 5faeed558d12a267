-- ===== src/Session/Rows.antt =====
-- The table account_sessions: api/internal/domain/session/model.go (the keys) and repository.go.
use ctech_account.Common.{
  ◌≡◌, ◌≢◌, ◌⊎◌, String, Bool, true, false, ◌&&◌, Option, none, some, arith, str_eq, str_eq_iff,
}
use ctech_account.Session.Model.{Session, RefreshToken, TokenLookup, ConsumedToken}

-- USER_u/SESSION_s, USER_u/REFRESH_s#c, TOKEN#h/META and USER_u/CONSUMED_h.
pub data Key : Type 0 where
  session_key : String → String → Key
  refresh_key : String → String → String → Key
  lookup_key : String → Key
  consumed_key : String → String → Key

pub data Row : Type 0 where
  session_row : Session → Row
  refresh_row : RefreshToken → Row
  lookup_row : TokenLookup → Row
  consumed_row : ConsumedToken → Row

abbrev pub same_key : Key → Key → Bool
same_key (session_key u s) (session_key v t) = str_eq u v && str_eq s t
same_key (refresh_key u s c) (refresh_key v t d) = str_eq u v && (str_eq s t && str_eq c d)
same_key (lookup_key h) (lookup_key g) = str_eq h g
same_key (consumed_key u h) (consumed_key v g) = str_eq u v && str_eq h g
same_key _ _ = false

pub same_key_iff : (a b : Key) → (same_key a b ≡ true) × (a ≡ b) ⊎ (same_key a b ≡ false) × (a ≢ b)
same_key_iff (session_key u s) (session_key v t) = ground (arith, str_eq_iff u v, str_eq_iff s t)
same_key_iff (refresh_key u s c) (refresh_key v t d) =
    ground (arith, str_eq_iff u v, str_eq_iff s t, str_eq_iff c d)
same_key_iff (lookup_key h) (lookup_key g) = ground (arith, str_eq_iff h g)
same_key_iff (consumed_key u h) (consumed_key v g) = ground (arith, str_eq_iff u v, str_eq_iff h g)
same_key_iff _ _ = ground arith

-- The index token-hash-index, and two queries of a user's partition.
pub data Query : Type 0 where
  by_token_hash : String → Query
  refresh_tokens_of : String → String → Query
  sessions_of : String → Query

-- The hash that the index has an item under: the attribute refresh_token_hash.
abbrev pub hash_of : Row → Option String
hash_of (session_row s) = some s.refresh_token_hash
hash_of (refresh_row t) = some t.refresh_token_hash
hash_of (lookup_row l) = none
hash_of (consumed_row c) = some c.refresh_token_hash

-- Which items a query finds.
abbrev pub select : Query → Key → Row → Bool
select (by_token_hash h) k (session_row s) = str_eq s.refresh_token_hash h
select (by_token_hash h) k (refresh_row t) = str_eq t.refresh_token_hash h
select (by_token_hash h) k (consumed_row c) = str_eq c.refresh_token_hash h
select (by_token_hash h) k (lookup_row l) = false
select (refresh_tokens_of u s) (refresh_key v t c) r = str_eq u v && str_eq s t
select (refresh_tokens_of u s) _ r = false
select (sessions_of u) (session_key v s) r = str_eq u v
select (sessions_of u) _ r = false
