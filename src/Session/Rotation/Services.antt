-- ===== src/Session/Rotation/Services.antt =====
-- Consumed hashes under the methods of api/internal/domain/session/service.go.
use ctech_account.Common.{ℕ, String, Bool, List, [], ◌∷◌}
use ctech_account.Action.{Result, ok, err}
use ctech_account.Action.Keeps.{keeps_rules}
use ctech_account.Session.Model.{
  GeoData, Session, RefreshToken, ConsumedToken, SessionError, not_found, refresh_token_not_found,
  token_reuse,
}
use ctech_account.Session.Env.{Env}
use ctech_account.Session.Repository
use ctech_account.Session.Service
use ctech_account.Session.Rotation.Spent.{Keeps-try, Keeps-answer}
use ctech_account.Session.Rotation.Methods.{
  K, clock-Spent, new_id-Spent, mint-Spent, create-Spent, get_by_id-Spent, get_by_token_hash-Spent,
  put_refresh_token-Spent, rotate_refresh_token-Spent, get_refresh_token_by_hash-Spent,
  get_consumed_by_hash-Spent, update_mfa-Spent, list_refresh_tokens-Spent,
  delete_refresh_token-Spent, delete_session-Spent, list_by_user_id-Spent,
}

module _ (env : Env) (h : String) where
  generate-Spent : K env h (Service.generate_refresh_token env)
  unfolding Service.generate_refresh_token
  generate-Spent = search (keeps_rules, mint-Spent, Keeps-answer)

  pub start-Spent :
      (u d i a : String) (amr : List String) (g : GeoData)
      → K env h (Service.start env u d i a amr g)
  unfolding Service.start
  start-Spent u d i a amr g =
      search (keeps_rules, generate-Spent, new_id-Spent, clock-Spent, create-Spent) depth 8

  pub record_mfa-Spent : (u s m : String) → K env h (Service.record_mfa env u s m)
  unfolding Service.record_mfa
  record_mfa-Spent u s m = search (keeps_rules, get_by_id-Spent, clock-Spent, update_mfa-Spent)

  expired-Spent : (t : ℕ) → K env h (Service.expired env t)
  unfolding Service.expired
  expired-Spent t = search (keeps_rules, clock-Spent)

  drop_and_refuse-Spent :
      {A : Type 0} (m : Repository.Op env (Unit {0})) (e : SessionError)
      → K env h m
      → K env h (Service.drop_and_refuse env {A = A} m e)
  unfolding Service.drop_and_refuse
  drop_and_refuse-Spent m e k = search (keeps_rules, Keeps-try)

  issue_live-Spent :
      (s : Session) (u i c : String) (scopes : List String)
      → K env h (Service.issue_live env s u i c scopes)
  unfolding Service.issue_live
  issue_live-Spent s u i c scopes =
      search (keeps_rules, generate-Spent, clock-Spent, put_refresh_token-Spent) depth 8

  pub issue_client_token-Spent :
      (u s c : String) (scopes : List String)
      → K env h (Service.issue_client_token env u s c scopes)
  unfolding Service.issue_client_token
  issue_client_token-Spent u s c scopes =
      search
        (
          keeps_rules, get_by_id-Spent, expired-Spent, drop_and_refuse-Spent, delete_session-Spent,
          issue_live-Spent,
        )
        depth 8

  delete_tokens-Spent :
      (u : String) (ts : List RefreshToken) → K env h (Service.delete_tokens env u ts)
  unfolding Service.delete_tokens
  delete_tokens-Spent u [] = search (keeps_rules)
  delete_tokens-Spent u (t ∷ ts) =
      let rest : K env h (Service.delete_tokens env u ts) = delete_tokens-Spent u ts in
      search (keeps_rules, delete_refresh_token-Spent)

  pub revoke-Spent : (u s : String) → K env h (Service.revoke env u s)
  unfolding Service.revoke
  revoke-Spent u s =
      search (keeps_rules, list_refresh_tokens-Spent, delete_tokens-Spent, delete_session-Spent)

  revoke_consumed-Spent :
      (r : Result SessionError ConsumedToken) → K env h (Service.revoke_consumed env r)
  unfolding Service.revoke_consumed
  revoke_consumed-Spent (ok c) = revoke-Spent _ _
  revoke_consumed-Spent (err e) = search (keeps_rules)

  detect_reuse-Spent : {A : Type 0} (g : String) → K env h (Service.detect_reuse env {A = A} g)
  unfolding Service.detect_reuse
  detect_reuse-Spent g = search (
    keeps_rules, Keeps-try, get_consumed_by_hash-Spent, drop_and_refuse-Spent,
    revoke_consumed-Spent,
  )

  after_rotation-Spent :
      (s : Session) (raw : String) (t : RefreshToken) (r : Result SessionError (Unit {0}))
      → K env h (Service.after_rotation env s raw t r)
  unfolding Service.after_rotation
  after_rotation-Spent s raw t (ok x) = search (keeps_rules)
  after_rotation-Spent s raw t (err token_reuse) = search (drop_and_refuse-Spent, revoke-Spent)
  after_rotation-Spent s raw t (err _) = search (keeps_rules)

  replace-Spent : (t : RefreshToken) (s : Session) → K env h (Service.replace env t s)
  unfolding Service.replace
  replace-Spent t s =
      search
        (
          keeps_rules, generate-Spent, clock-Spent, Keeps-try, rotate_refresh_token-Spent,
          after_rotation-Spent,
        )
        depth 8

  rotate_in_session-Spent :
      (t : RefreshToken) (s : Session) → K env h (Service.rotate_in_session env t s)
  unfolding Service.rotate_in_session
  rotate_in_session-Spent t s =
      search
        (keeps_rules, expired-Spent, drop_and_refuse-Spent, delete_session-Spent, replace-Spent)

  rotate_with_parent-Spent :
      (t : RefreshToken) (r : Result SessionError Session)
      → K env h (Service.rotate_with_parent env t r)
  unfolding Service.rotate_with_parent
  rotate_with_parent-Spent t (ok s) = rotate_in_session-Spent t s
  rotate_with_parent-Spent t (err not_found) =
      search (drop_and_refuse-Spent, delete_refresh_token-Spent)
  rotate_with_parent-Spent t (err _) = search (keeps_rules)

  rotate_live-Spent : (t : RefreshToken) → K env h (Service.rotate_live env t)
  unfolding Service.rotate_live
  rotate_live-Spent t = search (keeps_rules, Keeps-try, get_by_id-Spent, rotate_with_parent-Spent)

  rotate_found-Spent : (c : String) (t : RefreshToken) → K env h (Service.rotate_found env c t)
  unfolding Service.rotate_found
  rotate_found-Spent c t =
      search
        (
          keeps_rules, expired-Spent, drop_and_refuse-Spent, delete_refresh_token-Spent,
          rotate_live-Spent,
        )
        depth 8

  rotate_by_token-Spent :
      (g c : String) (r : Result SessionError RefreshToken)
      → K env h (Service.rotate_by_token env g c r)
  unfolding Service.rotate_by_token
  rotate_by_token-Spent g c (ok t) = rotate_found-Spent c t
  rotate_by_token-Spent g c (err refresh_token_not_found) = detect_reuse-Spent g
  rotate_by_token-Spent g c (err _) = search (keeps_rules)

  pub rotate_client_token-Spent : (raw c : String) → K env h (Service.rotate_client_token env raw c)
  unfolding Service.rotate_client_token
  rotate_client_token-Spent raw c =
      search (keeps_rules, Keeps-try, get_refresh_token_by_hash-Spent, rotate_by_token-Spent)

  pub revoke_client_token-Spent : (raw : String) → K env h (Service.revoke_client_token env raw)
  unfolding Service.revoke_client_token
  revoke_client_token-Spent raw =
      search (keeps_rules, get_refresh_token_by_hash-Spent, delete_refresh_token-Spent)

  pub validate_token-Spent : (raw : String) → K env h (Service.validate_token env raw)
  unfolding Service.validate_token
  validate_token-Spent raw =
      search
        (
          keeps_rules, Keeps-try, Keeps-answer, get_by_token_hash-Spent, expired-Spent,
          drop_and_refuse-Spent, delete_session-Spent,
        )
        depth 8

  pub list-Spent : (u : String) → K env h (Service.list env u)
  unfolding Service.list
  list-Spent u = list_by_user_id-Spent env h u

  pub has_seen_device-Spent : (u d c : String) → K env h (Service.has_seen_device env u d c)
  unfolding Service.has_seen_device
  has_seen_device-Spent u d c = search (keeps_rules, list_by_user_id-Spent)

  revoke_unless-Spent : (b : Bool) (u s : String) → K env h (Service.revoke_unless env b u s)
  revoke_unless-Spent b u s = search (keeps_rules, revoke-Spent)

  revoke_others-Spent :
      (u e : String) (ss : List Session) → K env h (Service.revoke_others env u e ss)
  unfolding Service.revoke_others
  revoke_others-Spent u e [] = search (keeps_rules)
  revoke_others-Spent u e (s ∷ ss) =
      let rest : K env h (Service.revoke_others env u e ss) = revoke_others-Spent u e ss in
      search (keeps_rules, revoke-Spent)

  pub revoke_all-Spent : (u e : String) → K env h (Service.revoke_all env u e)
  unfolding Service.revoke_all
  revoke_all-Spent u e = search (keeps_rules, list_by_user_id-Spent, revoke_others-Spent)

  delete_serving-Spent :
      (u : String) (cs : List String) (service : String) (ts : List RefreshToken)
      → K env h (Service.delete_serving env u cs service ts)
  unfolding Service.delete_serving
  delete_serving-Spent u cs service [] = search (keeps_rules)
  delete_serving-Spent u cs service (t ∷ ts) =
      let rest : K env h (Service.delete_serving env u cs service ts) =
        delete_serving-Spent u cs service ts in
      search (keeps_rules, delete_refresh_token-Spent)

  revoke_in_sessions-Spent :
      (u : String) (cs : List String) (service : String) (ss : List Session)
      → K env h (Service.revoke_in_sessions env u cs service ss)
  unfolding Service.revoke_in_sessions
  revoke_in_sessions-Spent u cs service [] = search (keeps_rules)
  revoke_in_sessions-Spent u cs service (s ∷ ss) =
      let rest : K env h (Service.revoke_in_sessions env u cs service ss) =
        revoke_in_sessions-Spent u cs service ss in
      search (keeps_rules, list_refresh_tokens-Spent, delete_serving-Spent)

  pub revoke_clients-Spent :
      (u : String) (cs : List String) (service : String)
      → K env h (Service.revoke_clients env u cs service)
  unfolding Service.revoke_clients
  revoke_clients-Spent u cs service =
      search (keeps_rules, list_by_user_id-Spent, revoke_in_sessions-Spent)
