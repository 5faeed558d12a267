-- ===== src/Session/Rotation/History.antt =====
-- Sequences of requests to api/internal/domain/session/service.go.
use ctech_account.Common.{
  ◌≡◌, refl, sym, ◌∙◌, ap, ◌⊎◌, inl, inr, String, true, false, Option, none, some, List, [], ◌∷◌,
  arith,
}
use ctech_account.Action.{Result, ok, err, resume, ◌>>=◌}
use ctech_account.Dynamo.Contract.{Reply, done}
use ctech_account.Session.Model.{
  GeoData, Session, RefreshToken, TokenLookup, SessionError, refresh_token_not_found, token_reuse,
  failed,
}
use ctech_account.Session.Rows.{lookup_key, Row, session_row, refresh_row, lookup_row, consumed_row}
use ctech_account.Session.Env.{Env}
use ctech_account.Session.Items.{is_active_state, found_lookup}
use ctech_account.Session.Repository.{
  try, read, refresh_by_lookup, get_refresh_token_by_hash, get_token_lookup,
}
use ctech_account.Session.Service
use ctech_account.Session.Service.{
  detect_reuse, drop_and_refuse, rotate_by_token, rotate_client_token,
}
use ctech_account.Session.Rotation.Spent.{is_spent, Spent}
use ctech_account.Session.Rotation.Services
use ctech_account.Session.Rotation.Replay

pub data Request : Type 0 where
  start : String → String → String → String → List String → GeoData → Request
  record_mfa : String → String → String → Request
  issue : String → String → String → List String → Request
  rotate : String → String → Request
  revoke_token : String → Request
  validate : String → Request
  list : String → Request
  seen_device : String → String → String → Request
  revoke : String → String → Request
  revoke_all : String → String → Request
  revoke_clients : String → List String → String → Request

inactive :
    (l : TokenLookup) → is_spent (some (lookup_row l)) ≡ true → is_active_state l.state ≡ false
inactive l h = ground arith

module _ (env : Env) where
  open env use {db, hash}

  -- The world that a request leaves, whatever it answers.
  unfoldable pub handle : Request → db.World → db.World
  handle (start u d i a amr g) w = (Service.start env u d i a amr g w).1
  handle (record_mfa u s m) w = (Service.record_mfa env u s m w).1
  handle (issue u s c scopes) w = (Service.issue_client_token env u s c scopes w).1
  handle (rotate raw c) w = (rotate_client_token env raw c w).1
  handle (revoke_token raw) w = (Service.revoke_client_token env raw w).1
  handle (validate raw) w = (Service.validate_token env raw w).1
  handle (list u) w = (Service.list env u w).1
  handle (seen_device u d c) w = (Service.has_seen_device env u d c w).1
  handle (revoke u s) w = (Service.revoke env u s w).1
  handle (revoke_all u e) w = (Service.revoke_all env u e w).1
  handle (revoke_clients u cs service) w = (Service.revoke_clients env u cs service w).1

  unfoldable pub serve : List Request → db.World → db.World
  serve [] w = w
  serve (r ∷ rs) w = serve rs (handle r w)

  handle-Spent :
      (h : String) (r : Request) (w : db.World) → Spent env h w → Spent env h (handle r w)
  unfolding handle
  handle-Spent h (start u d i a amr g) = (Services.start-Spent env h u d i a amr g).at
  handle-Spent h (record_mfa u s m) = (Services.record_mfa-Spent env h u s m).at
  handle-Spent h (issue u s c scopes) = (Services.issue_client_token-Spent env h u s c scopes).at
  handle-Spent h (rotate raw c) = (Services.rotate_client_token-Spent env h raw c).at
  handle-Spent h (revoke_token raw) = (Services.revoke_client_token-Spent env h raw).at
  handle-Spent h (validate raw) = (Services.validate_token-Spent env h raw).at
  handle-Spent h (list u) = (Services.list-Spent env h u).at
  handle-Spent h (seen_device u d c) = (Services.has_seen_device-Spent env h u d c).at
  handle-Spent h (revoke u s) = (Services.revoke-Spent env h u s).at
  handle-Spent h (revoke_all u e) = (Services.revoke_all-Spent env h u e).at
  handle-Spent h (revoke_clients u cs service) =
      (Services.revoke_clients-Spent env h u cs service).at

  -- A consumed hash stays consumed over any requests to the service, whatever the store, the clock and
  -- the random source do.
  pub serve-Spent :
      (h : String) (rs : List Request) (w : db.World) → Spent env h w → Spent env h (serve rs w)
  unfolding serve
  serve-Spent h [] w s = s
  serve-Spent h (r ∷ rs) w s = serve-Spent h rs (handle r w) (handle-Spent h r w s)

  abbrev pub Refused : {A : Type 0} → SessionError → Result SessionError A → Type 0
  Refused e r = (r ≡ err e) ⊎ (r ≡ err failed)

  spent_lookup :
      (h : String) (r : Reply (Option Row)) (x : Option Row) (w : db.World)
      → ((y : Option Row) → r ≡ done y → x ≡ y)
      → is_spent x ≡ true
      → Refused refresh_token_not_found (resume (found_lookup r) (refresh_by_lookup env h) w).0
  unfolding refresh_by_lookup
  spent_lookup h Reply.failed x w f s = inr refl
  spent_lookup h (done none) x w f s = let e = f _ refl in cc
  spent_lookup h (done (some (lookup_row l))) x w f s =
      rw (inactive l (ap is_spent (sym (f _ refl)) ∙ s)) (inl refl)
  spent_lookup h (done (some (session_row y))) x w f s = let e = f _ refl in cc
  spent_lookup h (done (some (refresh_row y))) x w f s = let e = f _ refl in cc
  spent_lookup h (done (some (consumed_row y))) x w f s = let e = f _ refl in cc

  -- A consumed hash is no current token's.
  get_refresh_token_by_hash-Refused :
      (h : String) (w : db.World)
      → Spent env h w
      → Refused refresh_token_not_found (get_refresh_token_by_hash env h w).0
  unfolding get_refresh_token_by_hash get_token_lookup read ◌>>=◌
  get_refresh_token_by_hash-Refused h w s =
      spent_lookup h (db.get_item (lookup_key h) w).0 (db.view w (lookup_key h)) _
        (λ y e. db.get_value (lookup_key h) w y e) s.marked

  refused :
      (h c : String) (r : Result SessionError RefreshToken) (w : db.World)
      → Refused refresh_token_not_found r
      → Refused token_reuse (rotate_by_token env h c r w).0
  unfolding rotate_by_token detect_reuse drop_and_refuse try ◌>>=◌
  refused h c r w (inl e) = rw e (inl refl)
  refused h c r w (inr e) = rw e (inr refl)

  -- A token whose hash is consumed is refused.
  rotate_client_token-Refused :
      (raw c : String) (w : db.World)
      → Spent env (hash raw) w
      → Refused token_reuse (rotate_client_token env raw c w).0
  unfolding rotate_client_token try ◌>>=◌
  rotate_client_token-Refused raw c w s =
      refused (hash raw) c _ _ (get_refresh_token_by_hash-Refused (hash raw) w s)

  -- A refresh token is accepted at most once: after a rotation that returned a new token for `raw`, and
  -- any further requests to the service, presenting `raw` again, as whichever client, is answered with
  -- ErrTokenReuse, or with the error of a call of the store that failed. It holds whatever the store
  -- does, also where an index lags or an answer is lost.
  pub rotate_client_token-once :
      (raw client_id replayed_by : String) (rs : List Request) (w : db.World)
      (a : Session × String × List String)
      → (rotate_client_token env raw client_id w).0 ≡ ok a
      → Refused token_reuse
          (rotate_client_token env raw replayed_by
            (serve rs (rotate_client_token env raw client_id w).1)).0
  rotate_client_token-once raw client_id replayed_by rs w a e =
      rotate_client_token-Refused raw replayed_by _ (
        serve-Spent (hash raw) rs _ ((Replay.rotate_client_token-Spent env raw client_id).at w a e))
