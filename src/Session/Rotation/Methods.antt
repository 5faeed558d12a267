-- ===== src/Session/Rotation/Methods.antt =====
-- Consumed hashes under the methods of api/internal/domain/session/repository.go.
use ctech_account.Common.{ℕ, String, refl, Option, none, some, List, [], ◌∷◌}
use ctech_account.Action.Keeps.{Keeps, keeps_rules}
use ctech_account.Session.Model.{Session, RefreshToken, TokenLookup}
use ctech_account.Session.Env.{Env}
use ctech_account.Session.Repository
use ctech_account.Session.Rotation.Spent.{
  Spent, other_item, put_refresh_items-SparesSpent, rotate_items-SparesSpent, Keeps-write,
  Keeps-read, Keeps-read_base, Keeps-ask, Keeps-call,
}

module _ (env : Env) (h : String) where
  abbrev pub K : {A : Type 0} → Repository.Op env A → Type 0
  K m = Keeps (Spent env h) m

  pub clock-Spent : K (Repository.call env env.clock)
  clock-Spent = Keeps-call env _ env.clock_view

  pub new_id-Spent : K (Repository.call env env.new_id)
  new_id-Spent = Keeps-call env _ env.new_id_view

  pub mint-Spent : K (Repository.call env env.mint)
  mint-Spent = Keeps-call env _ env.mint_view

  pub create-Spent : (s : Session) → K (Repository.create env s)
  unfolding Repository.create
  create-Spent s = Keeps-write env _ _ (other_item _ (λ g. refl))

  pub get_by_id-Spent : (u s : String) → K (Repository.get_by_id env u s)
  unfolding Repository.get_by_id
  get_by_id-Spent u s = Keeps-read_base env _ _

  pub get_by_token_hash-Spent : (g : String) → K (Repository.get_by_token_hash env g)
  unfolding Repository.get_by_token_hash
  get_by_token_hash-Spent g = Keeps-ask env _ _

  pub put_refresh_token-Spent : (t : RefreshToken) → K (Repository.put_refresh_token env t)
  unfolding Repository.put_refresh_token
  put_refresh_token-Spent t = Keeps-write env _ _ (put_refresh_items-SparesSpent t)

  pub rotate_refresh_token-Spent :
      (t n : RefreshToken) (e : ℕ) → K (Repository.rotate_refresh_token env t n e)
  unfolding Repository.rotate_refresh_token
  rotate_refresh_token-Spent t n e = Keeps-write env _ _ (rotate_items-SparesSpent t n e)

  pub refresh_by_lookup-Spent :
      (g : String) (l : Option TokenLookup) → K (Repository.refresh_by_lookup env g l)
  unfolding Repository.refresh_by_lookup Repository.active_token
  refresh_by_lookup-Spent g none = Keeps-ask env _ _
  refresh_by_lookup-Spent g (some l) = search (keeps_rules, Keeps-read)

  pub get_refresh_token_by_hash-Spent :
      (g : String) → K (Repository.get_refresh_token_by_hash env g)
  unfolding Repository.get_refresh_token_by_hash Repository.get_token_lookup
  get_refresh_token_by_hash-Spent g = search (keeps_rules, Keeps-read, refresh_by_lookup-Spent)

  pub consumed_by_lookup-Spent :
      (g : String) (l : Option TokenLookup) → K (Repository.consumed_by_lookup env g l)
  unfolding Repository.consumed_by_lookup
  consumed_by_lookup-Spent g none = Keeps-ask env _ _
  consumed_by_lookup-Spent g (some l) = search (keeps_rules)

  pub get_consumed_by_hash-Spent : (g : String) → K (Repository.get_consumed_by_hash env g)
  unfolding Repository.get_consumed_by_hash Repository.get_token_lookup
  get_consumed_by_hash-Spent g = search (keeps_rules, Keeps-read, consumed_by_lookup-Spent)

  pub update_mfa-Spent :
      (u s : String) (amr : List String) (t : ℕ) → K (Repository.update_mfa env u s amr t)
  unfolding Repository.update_mfa Repository.mfa_item
  update_mfa-Spent u s amr t = Keeps-write env _ _ (other_item _ (λ g. refl))

  pub list_refresh_tokens-Spent :
      (u s : String) → K (Repository.list_refresh_tokens_by_session env u s)
  unfolding Repository.list_refresh_tokens_by_session
  list_refresh_tokens-Spent u s = Keeps-ask env _ _

  pub delete_refresh_token-Spent : (u s c : String) → K (Repository.delete_refresh_token env u s c)
  unfolding Repository.delete_refresh_token
  delete_refresh_token-Spent u s c = Keeps-write env _ _ (other_item _ (λ g. refl))

  pub delete_session-Spent : (u s : String) → K (Repository.delete_session env u s)
  unfolding Repository.delete_session
  delete_session-Spent u s = Keeps-write env _ _ (other_item _ (λ g. refl))

  pub keep_live-Spent : (ss : List Session) → K (Repository.keep_live env ss)
  unfolding Repository.keep_live
  keep_live-Spent [] = search (keeps_rules)
  keep_live-Spent (s ∷ ss) =
      let rest : K (Repository.keep_live env ss) = keep_live-Spent ss in
      search (keeps_rules, clock-Spent)

  pub list_by_user_id-Spent : (u : String) → K (Repository.list_by_user_id env u)
  unfolding Repository.list_by_user_id
  list_by_user_id-Spent u = search (keeps_rules, Keeps-ask, keep_live-Spent)
