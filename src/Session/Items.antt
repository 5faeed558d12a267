-- ===== src/Session/Items.antt =====
-- api/internal/domain/session/repository.go: the items that it writes, with their condition expressions,
-- and what the answers of the store mean to it. An item of another kind than it reads does not unmarshal.
use ctech_account.Common.{ℕ, String, Bool, true, false, Option, none, some, List, [], ◌∷◌, str_eq}
use ctech_account.Action.{Result, ok, err}
use ctech_account.Dynamo.Contract.{Write, Outcome, committed, rejected, conflict, Reply, done}
use ctech_account.Session.Model.{
  Session, RefreshToken, LookupState, active, consumed, TokenLookup, ConsumedToken, SessionError,
  not_found, refresh_token_not_found, token_reuse, failed,
}
use ctech_account.Session.Rows.{
  Key, refresh_key, lookup_key, Row, session_row, refresh_row, lookup_row, consumed_row,
}

abbrev pub put : Key → Row → Write Key Row
put k r = record { key = k; condition = λ _. true; effect = λ _. some r }

abbrev pub delete : Key → Write Key Row
delete k = record { key = k; condition = λ _. true; effect = λ _. none }

abbrev pub is_absent : Option Row → Bool
is_absent none = true
is_absent (some r) = false

-- attribute_not_exists(pk)
unfoldable pub put_new_lookup : String → TokenLookup → Write Key Row
put_new_lookup hash l = record {
  key = lookup_key hash;
  condition = is_absent;
  effect = λ _. some (lookup_row l);
}

abbrev pub is_active_state : LookupState → Bool
is_active_state active = true
is_active_state consumed = false

-- attribute_not_exists(pk) OR #state = :active
abbrev pub absent_or_active : Option Row → Bool
absent_or_active none = true
absent_or_active (some (lookup_row l)) = is_active_state l.state
absent_or_active (some r) = false

unfoldable pub put_consumed_lookup : String → TokenLookup → Write Key Row
put_consumed_lookup hash l = record {
  key = lookup_key hash;
  condition = absent_or_active;
  effect = λ _. some (lookup_row l);
}

abbrev pub lookup_of : LookupState → RefreshToken → ℕ → TokenLookup
lookup_of state t until = record {
  state = state;
  user_id = t.user_id;
  session_id = t.session_id;
  client_id = t.client_id;
  expires_at = until;
}

abbrev pub key_of : RefreshToken → Key
key_of t = refresh_key t.user_id t.session_id t.client_id

unfoldable pub put_refresh_items : RefreshToken → List (Write Key Row)
unfolding put_new_lookup
put_refresh_items t =
    put (key_of t) (refresh_row t)
    ∷ put_new_lookup t.refresh_token_hash (lookup_of active t t.expires_at)
    ∷ []

-- refresh_token_hash = :old_hash
abbrev pub holds_hash : String → Option Row → Bool
holds_hash hash (some (refresh_row t)) = str_eq t.refresh_token_hash hash
holds_hash hash _ = false

abbrev pub replace_token : RefreshToken → Option Row → Option Row
replace_token next (some (refresh_row t)) = some (
    refresh_row (record t {
      refresh_token_hash = next.refresh_token_hash;
      created_at = next.created_at;
      last_used_at = next.last_used_at;
      expires_at = next.expires_at;
    }))
replace_token next r = r

unfoldable pub update_token_item : RefreshToken → RefreshToken → Write Key Row
update_token_item old next = record {
  key = key_of old;
  condition = holds_hash old.refresh_token_hash;
  effect = replace_token next;
}

unfoldable pub rotate_items : RefreshToken → RefreshToken → ℕ → List (Write Key Row)
unfolding update_token_item put_consumed_lookup put_new_lookup
rotate_items old next consumed_until =
    update_token_item old next
    ∷ put_consumed_lookup old.refresh_token_hash (lookup_of consumed old consumed_until)
    ∷ put_new_lookup next.refresh_token_hash (lookup_of active next next.expires_at)
    ∷ []

-- translateTokenTransactionError
abbrev pub token_transaction_error : Outcome → Result SessionError (Unit {0})
token_transaction_error committed = ok tt
token_transaction_error (rejected bs) = err token_reuse
token_transaction_error conflict = err failed
token_transaction_error Outcome.failed = err failed

abbrev pub any_error : Outcome → Result SessionError (Unit {0})
any_error committed = ok tt
any_error _ = err failed

abbrev pub found_session : Reply (Option Row) → Result SessionError Session
found_session (done none) = err not_found
found_session (done (some (session_row s))) = ok s
found_session _ = err failed

abbrev pub found_lookup : Reply (Option Row) → Result SessionError (Option TokenLookup)
found_lookup (done none) = ok none
found_lookup (done (some (lookup_row l))) = ok (some l)
found_lookup _ = err failed

abbrev pub found_refresh : Reply (Option Row) → Result SessionError RefreshToken
found_refresh (done none) = err refresh_token_not_found
found_refresh (done (some (refresh_row t))) = ok t
found_refresh _ = err failed

-- The first two items of an index's answer.
abbrev pub two : List Row → List Row
two [] = []
two (r ∷ []) = r ∷ []
two (r ∷ s ∷ rs) = r ∷ s ∷ []

abbrev pub first_session : List Row → Result SessionError Session
first_session [] = err not_found
first_session (session_row s ∷ rs) = ok s
first_session (_ ∷ rs) = first_session rs

abbrev pub first_refresh : List Row → Result SessionError RefreshToken
first_refresh [] = err refresh_token_not_found
first_refresh (refresh_row t ∷ rs) = ok t
first_refresh (_ ∷ rs) = first_refresh rs

abbrev pub first_consumed : List Row → Result SessionError ConsumedToken
first_consumed [] = err refresh_token_not_found
first_consumed (consumed_row c ∷ rs) = ok c
first_consumed (_ ∷ rs) = first_consumed rs

abbrev pub indexed :
    {A : Type 0} → (List Row → Result SessionError A) → Reply (List Row) → Result SessionError A
indexed f (done rs) = f (two rs)
indexed f _ = err failed

abbrev pub listed :
    {A : Type 0} → (List Row → Result SessionError A) → Reply (List Row) → Result SessionError A
listed f (done rs) = f rs
listed f _ = err failed

abbrev pub add_to : {A : Type 0} → A → Result SessionError (List A) → Result SessionError (List A)
add_to a (ok l) = ok (a ∷ l)
add_to a (err e) = err e

abbrev pub collect_tokens : List Row → Result SessionError (List RefreshToken)
collect_tokens [] = ok []
collect_tokens (refresh_row t ∷ rs) = add_to t (collect_tokens rs)
collect_tokens (_ ∷ rs) = err failed

abbrev pub collect_sessions : List Row → Result SessionError (List Session)
collect_sessions [] = ok []
collect_sessions (session_row s ∷ rs) = add_to s (collect_sessions rs)
collect_sessions (_ ∷ rs) = err failed

abbrev pub map_mfa : List String → ℕ → Option Row → Option Row
map_mfa amr t (some (session_row s)) = some (session_row (record s { amr = amr; last_mfa_at = t }))
map_mfa amr t r = r
