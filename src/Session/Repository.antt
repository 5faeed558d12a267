-- ===== src/Session/Repository.antt =====
-- api/internal/domain/session/repository.go: the methods of the repository.
use ctech_account.Common.{ℕ, String, not, Option, none, some, List, [], ◌∷◌, str_eq, if◌then◌else◌}
use ctech_account.Action.{Action, Result, ok, return, fail, ◌>>=◌}
use ctech_account.Dynamo.Contract.{Write, Outcome, Reply}
use ctech_account.Session.Model.{
  Session, RefreshToken, TokenLookup, ConsumedToken, is_expired, SessionError,
  refresh_token_not_found,
}
use ctech_account.Session.Rows.{
  Key, session_key, refresh_key, lookup_key, Row, session_row, Query, by_token_hash,
  refresh_tokens_of, sessions_of,
}
use ctech_account.Session.Env.{Env}
use ctech_account.Session.Items.{
  put, delete, is_absent, is_active_state, put_refresh_items, rotate_items, token_transaction_error,
  any_error, found_session, found_lookup, found_refresh, first_session, first_refresh,
  first_consumed, indexed, listed, collect_tokens, collect_sessions, map_mfa,
}

module _ (env : Env) where
  open env use {db}

  abbrev pub Op : Type 0 → Type 0
  Op A = Action db.World SessionError A

  unfoldable pub read : {A : Type 0} → (Reply (Option Row) → Result SessionError A) → Key → Op A
  read f k w = let (r, w') = db.get_item k w in (f r, w')

  unfoldable pub read_base :
      {A : Type 0} → (Reply (Option Row) → Result SessionError A) → Key → Op A
  read_base f k w = let (r, w') = db.base_get k w in (f r, w')

  unfoldable pub ask : {A : Type 0} → (Reply (List Row) → Result SessionError A) → Query → Op A
  ask f q w = let (r, w') = db.query q w in (f r, w')

  unfoldable pub write :
      (Outcome → Result SessionError (Unit {0})) → List (Write Key Row) → Op (Unit {0})
  write f xs w = let (o, w') = db.transact xs w in (f o, w')

  -- A call of something else than the store that returns no error.
  unfoldable pub call : {A : Type 0} → (db.World → A × db.World) → Op A
  call f w = let (a, w') = f w in (ok a, w')

  unfoldable pub try : {A : Type 0} → Op A → Op (Result SessionError A)
  try m w = let (r, w') = m w in (ok r, w')

  unfoldable pub answer : {A : Type 0} → Result SessionError A → Op A
  answer r w = (r, w)

  unfoldable pub create : Session → Op (Unit {0})
  create s = write any_error (put (session_key s.user_id s.id) (session_row s) ∷ [])

  unfoldable pub get_by_id : String → String → Op Session
  get_by_id u s = read_base found_session (session_key u s)

  unfoldable pub get_by_token_hash : String → Op Session
  get_by_token_hash hash = ask (indexed first_session) (by_token_hash hash)

  unfoldable pub put_refresh_token : RefreshToken → Op (Unit {0})
  put_refresh_token t = write token_transaction_error (put_refresh_items t)

  unfoldable pub get_token_lookup : String → Op (Option TokenLookup)
  get_token_lookup hash = read found_lookup (lookup_key hash)

  abbrev pub same_hash : String → RefreshToken → Op RefreshToken
  same_hash hash t =
      if not (str_eq t.refresh_token_hash hash) then fail refresh_token_not_found else return t

  unfoldable pub active_token : String → TokenLookup → Op RefreshToken
  active_token hash l = do
    t ← read found_refresh (refresh_key l.user_id l.session_id l.client_id)
    same_hash hash t

  -- Tokens issued before lookup records existed are found through the index.
  unfoldable pub refresh_by_lookup : String → Option TokenLookup → Op RefreshToken
  refresh_by_lookup hash none = ask (indexed first_refresh) (by_token_hash hash)
  refresh_by_lookup hash (some l) =
      if not (is_active_state l.state) then fail refresh_token_not_found else active_token hash l

  unfoldable pub get_refresh_token_by_hash : String → Op RefreshToken
  get_refresh_token_by_hash hash = do l ← get_token_lookup hash; refresh_by_lookup hash l

  unfoldable pub rotate_refresh_token : RefreshToken → RefreshToken → ℕ → Op (Unit {0})
  rotate_refresh_token old next consumed_until =
      write token_transaction_error (rotate_items old next consumed_until)

  unfoldable pub consumed_by_lookup : String → Option TokenLookup → Op ConsumedToken
  consumed_by_lookup hash none = ask (indexed first_consumed) (by_token_hash hash)
  consumed_by_lookup hash (some l) =
      if is_active_state l.state
      then fail refresh_token_not_found
      else return (record {
        refresh_token_hash = hash;
        user_id = l.user_id;
        session_id = l.session_id;
        client_id = l.client_id;
        expires_at = l.expires_at;
      })

  unfoldable pub get_consumed_by_hash : String → Op ConsumedToken
  get_consumed_by_hash hash = do l ← get_token_lookup hash; consumed_by_lookup hash l

  unfoldable pub mfa_item : String → String → List String → ℕ → Write Key Row
  mfa_item u s amr t = record {
    key = session_key u s;
    condition = env.updatable;
    effect = λ r.
        if is_absent r then some (session_row (env.blank_session u s amr t)) else map_mfa amr t r;
  }

  unfoldable pub update_mfa : String → String → List String → ℕ → Op (Unit {0})
  update_mfa u s amr t = write any_error (mfa_item u s amr t ∷ [])

  unfoldable pub list_refresh_tokens_by_session : String → String → Op (List RefreshToken)
  list_refresh_tokens_by_session u s = ask (listed collect_tokens) (refresh_tokens_of u s)

  unfoldable pub delete_refresh_token : String → String → String → Op (Unit {0})
  delete_refresh_token u s c = write any_error (delete (refresh_key u s c) ∷ [])

  -- The clock is read once for each session of the list.
  unfoldable pub keep_live : List Session → Op (List Session)
  keep_live [] = return []
  keep_live (s ∷ ss) = do
    now ← call env.clock
    rest ← keep_live ss
    return (if not (is_expired now s.expires_at) then s ∷ rest else rest)

  unfoldable pub list_by_user_id : String → Op (List Session)
  list_by_user_id u = do ss ← ask (listed collect_sessions) (sessions_of u); keep_live ss

  unfoldable pub delete_session : String → String → Op (Unit {0})
  delete_session u s = write any_error (delete (session_key u s) ∷ [])
