-- ===== src/Session/Rotation/Scopes.antt =====
-- Proofs on what RotateRefreshToken of api/internal/domain/session/repository.go leaves of a token's row.
use ctech_account.Common.{◌≡◌, refl, ◌∙◌, ap, inl, inr, ℕ, String, Option, none, some, List}
use ctech_account.Dynamo.Contract.{write_all, transact_atomic}
use ctech_account.Session.Model.{RefreshToken}
use ctech_account.Session.Rows.{
  Key, refresh_key, Row, session_row, refresh_row, lookup_row, consumed_row, same_key, same_key_iff,
}
use ctech_account.Session.Env.{Env}
use ctech_account.Session.Items.{
  key_of, replace_token, rotate_items, update_token_item, put_consumed_lookup, put_new_lookup,
}
use ctech_account.Session.Repository.{rotate_refresh_token, write}

-- To whom a row of a token grants what.
abbrev pub grant : Option Row → Option (String × String × List String)
grant (some (refresh_row t)) = some (t.user_id, t.client_id, t.scopes)
grant _ = none

replace_token-grant :
    (next : RefreshToken) (r : Option Row) → grant (replace_token next r) ≡ grant r
replace_token-grant next none = refl
replace_token-grant next (some (refresh_row t)) = refl
replace_token-grant next (some (session_row t)) = refl
replace_token-grant next (some (lookup_row t)) = refl
replace_token-grant next (some (consumed_row t)) = refl

rotate_items-grant :
    (old next : RefreshToken) (until : ℕ) (v : Key → Option Row) (u s c : String)
    → grant (write_all same_key (rotate_items old next until) v (refresh_key u s c))
      ≡ grant (v (refresh_key u s c))
unfolding rotate_items update_token_item put_consumed_lookup put_new_lookup
rotate_items-grant old next until v u s c = elim (same_key_iff (key_of old) (refresh_key u s c)) [
  | inl (b, e) ↦ rw b (replace_token-grant next (v (key_of old)) ∙ ap (λ (k : Key). grant (v k)) e)
  | inr (b, n) ↦ rw b refl
]

-- RotateRefreshToken, whatever tokens it is given and whatever the store answers, leaves every row of a
-- refresh token to the same user and client and with the same scopes, and makes none: a rotation renews
-- what was granted and never widens it.
pub rotate_refresh_token-grant :
    (env : Env) (old next : RefreshToken) (until : ℕ) (w : env.db.World) (u s c : String)
    → grant (env.db.view (rotate_refresh_token env old next until w).1 (refresh_key u s c))
      ≡ grant (env.db.view w (refresh_key u s c))
unfolding rotate_refresh_token write
rotate_refresh_token-grant env old next until w u s c =
    elim (transact_atomic env.db (rotate_items old next until) w) [
      | inl e ↦ ap (λ (v : Key → Option Row). grant (v (refresh_key u s c))) e
      | inr (h, e) ↦
          ap (λ (v : Key → Option Row). grant (v (refresh_key u s c))) e
          ∙ rotate_items-grant old next until (env.db.view w) u s c
    ]
