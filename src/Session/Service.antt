-- ===== src/Session/Service.antt =====
-- api/internal/domain/session/service.go. An error that the source only logs is dropped.
use text.Mathlib.Text.{starts_with}
use Prim.Native.String.{◌++◌ as append}
use ctech_account.Common.{
  ℕ, ◌+◌, String, Bool, true, false, not, ◌&&◌, ◌||◌, Option, none, some, List, [], ◌∷◌, ◌++◌, any,
  str_eq, if◌then◌else◌,
}
use ctech_account.Action.{Result, ok, err, return, fail, guard, ◌>>=◌, ◌>>◌}
use ctech_account.Session.Model.{
  GeoData, Session, RefreshToken, ConsumedToken, is_expired, is_mfa_method, unix, session_ttl,
  SessionError, not_found, refresh_token_not_found, token_reuse, session_expired, client_mismatch,
  failed,
}
use ctech_account.Session.Env.{Env}
use ctech_account.Session.Repository.{
  Op, call, try, answer, create, get_by_id, get_by_token_hash, put_refresh_token,
  get_refresh_token_by_hash, rotate_refresh_token, get_consumed_by_hash, update_mfa,
  list_refresh_tokens_by_session, delete_refresh_token, list_by_user_id, delete_session,
}

-- api/internal/scopes/scopes.go, BelongsToService
unfoldable pub belongs_to_service : String → String → Bool
belongs_to_service scope service =
    not (str_eq service "")
    && (starts_with scope (append service ":")
        || starts_with scope (append "internal:" (append service ":")))

abbrev pub minted : Option String → Result SessionError String
minted none = err failed
minted (some raw) = ok raw

abbrev pub has_method : String → List String → Bool
has_method method amr = any (λ m. str_eq m method) amr

module _ (env : Env) where
  open env use {hash}

  -- crypto.GenerateRefreshToken; the hash is that of HashToken.
  unfoldable pub generate_refresh_token : Op env String
  generate_refresh_token = do raw ← call env env.mint; answer env (minted raw)

  unfoldable pub new_session :
      String → String → String → String → List String → GeoData → String → String → ℕ → Session
  new_session user_id device_name ip user_agent amr geo raw id now = record {
    user_id = user_id;
    id = id;
    refresh_token_hash = hash raw;
    device_name = device_name;
    ip_address = ip;
    user_agent = user_agent;
    created_at = unix now;
    last_used_at = unix now;
    expires_at = unix (now + session_ttl);
    geo = geo;
    auth_time = unix now;
    amr = amr;
    last_mfa_at = if any is_mfa_method amr then unix now else 0;
  }

  unfoldable pub start :
      String → String → String → String → List String → GeoData → Op env (Session × String)
  start user_id device_name ip user_agent amr geo = do
    raw ← generate_refresh_token
    id ← call env env.new_id
    now ← call env env.clock
    let s = new_session user_id device_name ip user_agent amr geo raw id now
    create env s
    return (s, raw)

  unfoldable pub get : String → String → Op env Session
  get u s = get_by_id env u s

  unfoldable pub record_mfa : String → String → String → Op env (Unit {0})
  record_mfa u s method = do
    session ← get_by_id env u s
    let amr = session.amr
    now ← call env env.clock
    update_mfa env u s (if has_method method amr then amr else amr ++ method ∷ []) (unix now)

  -- `IsExpired` of a session or a token: the clock is read at the call.
  unfoldable pub expired : ℕ → Op env Bool
  expired expires_at = do now ← call env env.clock; return (is_expired now expires_at)

  -- A clean-up whose error is only logged, and the answer that follows it.
  unfoldable pub drop_and_refuse : {A : Type 0} → Op env (Unit {0}) → SessionError → Op env A
  drop_and_refuse clean e = do r ← try env clean; fail e

  unfoldable pub issue_live : Session → String → String → String → List String → Op env String
  issue_live session u s client_id scopes = do
    raw ← generate_refresh_token
    now ← call env env.clock
    put_refresh_token env (record {
      user_id = u;
      session_id = s;
      client_id = client_id;
      refresh_token_hash = hash raw;
      scopes = scopes;
      created_at = unix now;
      last_used_at = unix now;
      expires_at = session.expires_at;
    })
    return raw

  unfoldable pub issue_client_token : String → String → String → List String → Op env String
  issue_client_token u s client_id scopes = do
    session ← get_by_id env u s
    gone ← expired session.expires_at
    if gone
        then drop_and_refuse (delete_session env u s) session_expired
        else issue_live session u s client_id scopes

  unfoldable pub delete_tokens : String → List RefreshToken → Op env (Unit {0})
  delete_tokens u [] = return tt
  delete_tokens u (t ∷ ts) =
      delete_refresh_token env u t.session_id t.client_id >> delete_tokens u ts

  unfoldable pub revoke : String → String → Op env (Unit {0})
  revoke u s = do
    tokens ← list_refresh_tokens_by_session env u s
    delete_tokens u tokens
    delete_session env u s

  -- The hash is not a current one: a marker that it was one revokes the session.
  unfoldable pub revoke_consumed : Result SessionError ConsumedToken → Op env (Unit {0})
  revoke_consumed (ok c) = revoke c.user_id c.session_id
  revoke_consumed (err e) = return tt

  unfoldable pub detect_reuse : {A : Type 0} → String → Op env A
  detect_reuse h = do
    c ← try env (get_consumed_by_hash env h)
    drop_and_refuse (revoke_consumed c) token_reuse

  abbrev pub next_token : RefreshToken → String → ℕ → RefreshToken
  next_token t raw now = record {
    user_id = t.user_id;
    session_id = t.session_id;
    client_id = t.client_id;
    refresh_token_hash = hash raw;
    scopes = t.scopes;
    created_at = unix now;
    last_used_at = unix now;
    expires_at = unix (now + session_ttl);
  }

  -- What follows RotateRefreshToken.
  unfoldable pub after_rotation :
      Session
      → String
      → RefreshToken
      → Result SessionError (Unit {0})
      → Op env (Session × String × List String)
  after_rotation session raw t (ok _) = return (session, raw, t.scopes)
  after_rotation session raw t (err token_reuse) =
      drop_and_refuse (revoke t.user_id t.session_id) token_reuse
  after_rotation session raw t (err e) = fail e

  unfoldable pub replace : RefreshToken → Session → Op env (Session × String × List String)
  replace t session = do
    raw ← generate_refresh_token
    now ← call env env.clock
    r ← try env (rotate_refresh_token env t (next_token t raw now) session.expires_at)
    after_rotation session raw t r

  abbrev pub delete_token_of : RefreshToken → Op env (Unit {0})
  delete_token_of t = delete_refresh_token env t.user_id t.session_id t.client_id

  unfoldable pub rotate_in_session :
      RefreshToken → Session → Op env (Session × String × List String)
  rotate_in_session t session = do
    gone ← expired session.expires_at
    if gone
        then drop_and_refuse (delete_session env session.user_id session.id) session_expired
        else replace t session

  -- The token dies with its parent session.
  unfoldable pub rotate_with_parent :
      RefreshToken → Result SessionError Session → Op env (Session × String × List String)
  rotate_with_parent t (ok session) = rotate_in_session t session
  rotate_with_parent t (err not_found) = drop_and_refuse (delete_token_of t) session_expired
  rotate_with_parent t (err e) = fail e

  unfoldable pub rotate_live : RefreshToken → Op env (Session × String × List String)
  rotate_live t = do
    parent ← try env (get_by_id env t.user_id t.session_id)
    rotate_with_parent t parent

  unfoldable pub rotate_found : String → RefreshToken → Op env (Session × String × List String)
  rotate_found client_id t = do
    guard (str_eq t.client_id client_id) client_mismatch
    gone ← expired t.expires_at
    if gone then drop_and_refuse (delete_token_of t) session_expired else rotate_live t

  unfoldable pub rotate_by_token :
      String → String → Result SessionError RefreshToken → Op env (Session × String × List String)
  rotate_by_token h client_id (ok t) = rotate_found client_id t
  rotate_by_token h client_id (err refresh_token_not_found) = detect_reuse h
  rotate_by_token h client_id (err e) = fail e

  unfoldable pub rotate_client_token : String → String → Op env (Session × String × List String)
  rotate_client_token raw client_id = do
    t ← try env (get_refresh_token_by_hash env (hash raw))
    rotate_by_token (hash raw) client_id t

  unfoldable pub revoke_client_token : String → Op env (Unit {0})
  revoke_client_token raw = do t ← get_refresh_token_by_hash env (hash raw); delete_token_of t

  -- `errors.New("session not found")` is another error than ErrNotFound.
  abbrev pub hide_missing : Result SessionError Session → Result SessionError Session
  hide_missing (ok s) = ok s
  hide_missing (err e) = err failed

  unfoldable pub validate_token : String → Op env Session
  validate_token raw = do
    found ← try env (get_by_token_hash env (hash raw))
    s ← answer env (hide_missing found)
    gone ← expired s.expires_at
    if gone then drop_and_refuse (delete_session env s.user_id s.id) session_expired else return s

  unfoldable pub list : String → Op env (List Session)
  list u = list_by_user_id env u

  unfoldable pub has_seen_device : String → String → String → Op env Bool
  has_seen_device u device_name country = do
    ss ← list_by_user_id env u
    return
        (any (λ (s : Session). str_eq s.device_name device_name && str_eq s.geo.country country) ss)

  abbrev pub revoke_unless : Bool → String → String → Op env (Unit {0})
  revoke_unless keep u s = if keep then return tt else revoke u s

  unfoldable pub revoke_others : String → String → List Session → Op env (Unit {0})
  revoke_others u except [] = return tt
  revoke_others u except (s ∷ ss) =
      revoke_unless (str_eq s.id except) u s.id >> revoke_others u except ss

  unfoldable pub revoke_all : String → String → Op env (Unit {0})
  revoke_all u except = do ss ← list_by_user_id env u; revoke_others u except ss

  -- The token gives access to the product.
  abbrev pub serves : List String → String → RefreshToken → Bool
  serves client_ids service t =
      has_method t.client_id client_ids || any (λ sc. belongs_to_service sc service) t.scopes

  unfoldable pub delete_serving :
      String → List String → String → List RefreshToken → Op env (Unit {0})
  delete_serving u client_ids service [] = return tt
  delete_serving u client_ids service (t ∷ ts) =
      (if serves client_ids service t
        then delete_refresh_token env u t.session_id t.client_id
        else return tt)
      >> delete_serving u client_ids service ts

  unfoldable pub revoke_in_sessions :
      String → List String → String → List Session → Op env (Unit {0})
  revoke_in_sessions u client_ids service [] = return tt
  revoke_in_sessions u client_ids service (s ∷ ss) = do
    tokens ← list_refresh_tokens_by_session env u s.id
    delete_serving u client_ids service tokens
    revoke_in_sessions u client_ids service ss

  abbrev pub is_empty : List String → Bool
  is_empty [] = true
  is_empty (_ ∷ _) = false

  unfoldable pub revoke_clients : String → List String → String → Op env (Unit {0})
  revoke_clients u client_ids service =
      if is_empty client_ids && str_eq service ""
      then return tt
      else do ss ← list_by_user_id env u; revoke_in_sessions u client_ids service ss
