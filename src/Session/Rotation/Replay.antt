-- ===== src/Session/Rotation/Replay.antt =====
-- The state of the presented hash after RotateClientToken of api/internal/domain/session/service.go.
use ctech_account.Common.{
  ◌≡◌, refl, sym, ◌∙◌, ap, subst, String, ℕ, Bool, true, false, not, Option, none, some, List, [],
  ◌∷◌, All, arith, str_eq, str_eq_iff, if◌then◌else◌,
}
use ctech_account.Action.{Result, ok, err, return, fail, ◌>>=◌}
use ctech_account.Dynamo.Contract.{Outcome, committed, rejected, conflict, Reply, done}
use ctech_account.Session.Model.{
  RefreshToken, TokenLookup, Session, SessionError, refresh_token_not_found, not_found,
}
use ctech_account.Session.Rows.{
  Row, session_row, refresh_row, lookup_row, consumed_row, by_token_hash, hash_of,
}
use ctech_account.Session.Env.{Env}
use ctech_account.Session.Items.{two, first_refresh, indexed, rotate_items, token_transaction_error}
use ctech_account.Session.Repository.{
  ask, try, same_hash, active_token, refresh_by_lookup, get_refresh_token_by_hash,
  rotate_refresh_token, write,
}
use ctech_account.Session.Service.{
  rotate_client_token, rotate_by_token, rotate_found, rotate_live, rotate_with_parent,
  rotate_in_session, replace, after_rotation, detect_reuse,
}
use ctech_account.Session.Rotation.Spent.{Spent, rotate_items-spend}
use ctech_account.Session.Rotation.Rules.{
  Ensures, Yields, Yields-any, Yields-try, Yields-if, Yields-fail, Yields-bind, Ensures-bind,
  Ensures-fail, Ensures-refuse, Ensures-if, Ensures-guard,
}

pub two-All : (P : Row → Type 0) (rs : List Row) → All P rs → All P (two rs)
two-All P [] a = a
two-All P (r ∷ []) a = a
two-All P (r ∷ s ∷ rs) (p, a) = let (q, b) = a in (p, (q, tt))

first_refresh-hash :
    (h : String) (rs : List Row)
    → All (λ r. hash_of r ≡ some h) rs
    → (t : RefreshToken) → first_refresh rs ≡ ok t
    → t.refresh_token_hash ≡ h
first_refresh-hash h [] a t e = cc
first_refresh-hash h (refresh_row u ∷ rs) (p, a) t e =
    let q : u ≡ t = cc in
    let p' : u.refresh_token_hash ≡ h = cc in
    ap (λ (k : RefreshToken). k.refresh_token_hash) (sym q) ∙ p'
first_refresh-hash h (session_row s ∷ rs) (p, a) t e = first_refresh-hash h rs a t e
first_refresh-hash h (lookup_row s ∷ rs) (p, a) t e = first_refresh-hash h rs a t e
first_refresh-hash h (consumed_row s ∷ rs) (p, a) t e = first_refresh-hash h rs a t e

module _ (env : Env) where
  open env use {db, hash}

  indexed_refresh-hash :
      (h : String)
      → Yields env
          (λ (t : RefreshToken). t.refresh_token_hash ≡ h)
          (ask env (indexed first_refresh) (by_token_hash h))
  unfolding ask
  indexed_refresh-hash h = record {
    at = λ w t e. go w (db.query (by_token_hash h) w).0 (env.index_hash h w) t e;
  }
    where
      go :
          (w : db.World) (r : Reply (List Row))
          → ((rs : List Row) → r ≡ done rs → All (λ r. hash_of r ≡ some h) rs)
          → (t : RefreshToken) → indexed first_refresh r ≡ ok t
          → t.refresh_token_hash ≡ h
      go w (done rs) f t e = first_refresh-hash h (two rs) (two-All _ rs (f rs refl)) t e
      go w Reply.failed f t e = cc

  -- What the comparison of the hashes lets through.
  pub same_hash-Kept :
      (h : String) (t : RefreshToken) (w : db.World) (u : RefreshToken)
      → (same_hash env h t w).0 ≡ ok u
      → (str_eq t.refresh_token_hash h ≡ true) × (t ≡ u)
  same_hash-Kept h t w u = go (str_eq t.refresh_token_hash h)
    where
      go :
          (b : Bool)
          → ((if not b then fail refresh_token_not_found else return t) w).0 ≡ ok u
          → (b ≡ true) × (t ≡ u)
      go true e = (refl, cc)
      go false e = cc

  same_hash-Yields :
      (h : String) (t : RefreshToken)
      → Yields env (λ (u : RefreshToken). u.refresh_token_hash ≡ h) (same_hash env h t)
  same_hash-Yields h t = record {
    at = λ w u e.
        let (p, q) = same_hash-Kept h t w u e in
        ap (λ (k : RefreshToken). k.refresh_token_hash) (sym q)
        ∙ ground (arith, str_eq_iff t.refresh_token_hash h);
  }

  refresh_by_lookup-hash :
      (h : String) (l : Option TokenLookup)
      → Yields env (λ (t : RefreshToken). t.refresh_token_hash ≡ h) (refresh_by_lookup env h l)
  unfolding refresh_by_lookup active_token
  refresh_by_lookup-hash h none = indexed_refresh-hash h
  refresh_by_lookup-hash h (some l) =
      Yields-if env _ _ _ (Yields-fail env _)
        (Yields-bind env _ _ _ (Yields-any env _) (λ t _. same_hash-Yields h t))

  pub get_refresh_token_by_hash-hash :
      (h : String)
      → Yields env
          (λ (t : RefreshToken). t.refresh_token_hash ≡ h)
          (get_refresh_token_by_hash env h)
  unfolding get_refresh_token_by_hash
  get_refresh_token_by_hash-hash h =
      Yields-bind env _ _ _ (Yields-any env _) (λ l _. refresh_by_lookup-hash h l)

  after_rotation-Ensures :
      (t : RefreshToken) (session : Session) (raw : String) (T : db.World → Type 0) (o : Outcome)
      (w : db.World)
      → (o ≡ committed → T w)
      → (b : Session × String × List String)
      → (after_rotation env session raw t (token_transaction_error o) w).0 ≡ ok b
      → T (after_rotation env session raw t (token_transaction_error o) w).1
  unfolding after_rotation
  after_rotation-Ensures t session raw T committed w h b p = h refl
  after_rotation-Ensures t session raw T (rejected bs) w h b p =
      (Ensures-refuse env {T = T} _ _).at w b p
  after_rotation-Ensures t session raw T conflict w h b p = cc
  after_rotation-Ensures t session raw T Outcome.failed w h b p = cc

  rotation-Ensures :
      (t next : RefreshToken) (until : ℕ) (session : Session) (raw : String)
      → Ensures env
          (Spent env t.refresh_token_hash)
          (try env (rotate_refresh_token env t next until) >>= after_rotation env session raw t)
  unfolding try ◌>>=◌ rotate_refresh_token write
  rotation-Ensures t next until session raw = record {
    at = λ w b p.
        after_rotation-Ensures t session raw (Spent env t.refresh_token_hash)
          (db.transact (rotate_items t next until) w).0
          (db.transact (rotate_items t next until) w).1
          (λ e.
            let (c, v) = db.transact_committed (rotate_items t next until) w e in
            record { marked = rw v (rotate_items-spend t next until (db.view w) c) })
          b p;
  }

  replace-Ensures :
      (t : RefreshToken) (session : Session)
      → Ensures env (Spent env t.refresh_token_hash) (replace env t session)
  unfolding replace
  replace-Ensures t session = Ensures-bind env _ _ _ (Yields-any env _) (λ raw _.
      Ensures-bind env _ _ _ (Yields-any env _) (λ now _. rotation-Ensures t _ _ session raw))

  rotate_with_parent-Ensures :
      (t : RefreshToken) (parent : Result SessionError Session)
      → Ensures env (Spent env t.refresh_token_hash) (rotate_with_parent env t parent)
  unfolding rotate_with_parent rotate_in_session
  rotate_with_parent-Ensures t (ok session) =
      Ensures-bind env _ _ _ (Yields-any env _)
        (λ gone _. Ensures-if env _ _ _ (Ensures-refuse env _ _) (replace-Ensures t session))
  rotate_with_parent-Ensures t (err not_found) = Ensures-refuse env _ _
  rotate_with_parent-Ensures t (err _) = Ensures-fail env _

  rotate_found-Ensures :
      (client_id : String) (t : RefreshToken)
      → Ensures env (Spent env t.refresh_token_hash) (rotate_found env client_id t)
  unfolding rotate_found rotate_live
  rotate_found-Ensures client_id t = Ensures-guard env _ _ _ (
      Ensures-bind env _ _ _ (Yields-any env _) (λ gone _.
        Ensures-if env _ _ _ (Ensures-refuse env _ _) (
          Ensures-bind env _ _ _ (Yields-any env _)
            (λ parent _. rotate_with_parent-Ensures t parent))))

  rotate_by_token-Ensures :
      (h client_id : String) (r : Result SessionError RefreshToken)
      → ((t : RefreshToken) → r ≡ ok t → t.refresh_token_hash ≡ h)
      → Ensures env (Spent env h) (rotate_by_token env h client_id r)
  unfolding rotate_by_token detect_reuse
  rotate_by_token-Ensures h client_id (ok t) f =
      subst (λ g. Ensures env (Spent env g) (rotate_found env client_id t)) (f t refl)
        (rotate_found-Ensures client_id t)
  rotate_by_token-Ensures h client_id (err refresh_token_not_found) f =
      Ensures-bind env _ _ _ (Yields-any env _) (λ c _. Ensures-refuse env _ _)
  rotate_by_token-Ensures h client_id (err _) f = Ensures-fail env _

  -- A rotation that returns a new token leaves the hash of the presented one consumed.
  pub rotate_client_token-Spent :
      (raw client_id : String)
      → Ensures env (Spent env (hash raw)) (rotate_client_token env raw client_id)
  unfolding rotate_client_token
  rotate_client_token-Spent raw client_id =
      Ensures-bind env _ _ _ (Yields-try env _ _ (get_refresh_token_by_hash-hash (hash raw)))
        (λ r f. rotate_by_token-Ensures (hash raw) client_id r f)
