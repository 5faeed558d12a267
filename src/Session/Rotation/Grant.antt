-- ===== src/Session/Rotation/Grant.antt =====
-- Proofs on what RotateClientToken of api/internal/domain/session/service.go grants, and to whom.
use ctech_account.Common.{
  ◌≡◌, refl, sym, ap, subst, String, Bool, true, false, not, Option, none, some, List, [], ◌∷◌, All,
  arith, str_eq_iff, if◌then◌else◌,
}
use ctech_account.Action.{Result, ok, err, resume, fail, ◌>>=◌}
use ctech_account.Dynamo.Contract.{Reply, done}
use ctech_account.Session.Model.{
  RefreshToken, TokenLookup, Session, SessionError, refresh_token_not_found, token_reuse, not_found,
}
use ctech_account.Session.Rows.{
  Key, refresh_key, lookup_key, Row, session_row, refresh_row, lookup_row, consumed_row,
  by_token_hash,
}
use ctech_account.Session.Env.{Env}
use ctech_account.Session.Items.{
  two, first_refresh, indexed, is_active_state, found_refresh, found_lookup,
}
use ctech_account.Session.Repository.{
  ask, try, read, same_hash, active_token, refresh_by_lookup, get_refresh_token_by_hash,
  get_token_lookup,
}
use ctech_account.Session.Service.{
  rotate_client_token, rotate_by_token, rotate_found, rotate_live, rotate_with_parent,
  rotate_in_session, replace, after_rotation, detect_reuse,
}
use ctech_account.Session.Rotation.Rules.{
  Yields, Yields-any, Yields-bind, Yields-fail, Yields-if, Yields-guard, Yields-refuse,
}
use ctech_account.Session.Rotation.Replay.{two-All, same_hash-Kept, get_refresh_token_by_hash-hash}

first_refresh-All :
    (P : Row → Type 0) (rs : List Row)
    → All P rs
    → (t : RefreshToken) → first_refresh rs ≡ ok t
    → P (refresh_row t)
first_refresh-All P [] a t e = cc
first_refresh-All P (refresh_row u ∷ rs) (p, a) t e =
    let q : u ≡ t = cc in subst (λ (k : RefreshToken). P (refresh_row k)) q p
first_refresh-All P (session_row s ∷ rs) (p, a) t e = first_refresh-All P rs a t e
first_refresh-All P (lookup_row s ∷ rs) (p, a) t e = first_refresh-All P rs a t e
first_refresh-All P (consumed_row s ∷ rs) (p, a) t e = first_refresh-All P rs a t e

found_refresh-row :
    (r : Reply (Option Row)) (t : RefreshToken)
    → found_refresh r ≡ ok t
    → r ≡ done (some (refresh_row t))
found_refresh-row Reply.failed t e = cc
found_refresh-row (done none) t e = cc
found_refresh-row (done (some (refresh_row u))) t e = let q : u ≡ t = cc in rw q refl
found_refresh-row (done (some (session_row u))) t e = cc
found_refresh-row (done (some (lookup_row u))) t e = cc
found_refresh-row (done (some (consumed_row u))) t e = cc

module _ (env : Env) where
  open env use {db, hash}

  -- The token has been in the tables at some time.
  abbrev pub WasIssued : db.World → RefreshToken → Type 0
  WasIssued w t = (k : Key) × db.Seen w k (refresh_row t)

  indexed-WasIssued :
      (h : String) (w : db.World) (t : RefreshToken)
      → (ask env (indexed first_refresh) (by_token_hash h) w).0 ≡ ok t
      → WasIssued w t
  unfolding ask
  indexed-WasIssued h w t e =
      go (db.query (by_token_hash h) w).0 (db.query_value (by_token_hash h) w) e
    where
      go :
          (r : Reply (List Row))
          → ((rs : List Row) → r ≡ done rs → All (λ r. (k : Key) × db.Seen w k r) rs)
          → indexed first_refresh r ≡ ok t
          → WasIssued w t
      go (done rs) f p = first_refresh-All _ (two rs) (two-All _ rs (f rs refl)) t p
      go Reply.failed f p = cc

  read-WasIssued :
      (k : Key) (w : db.World) (t : RefreshToken)
      → (read env found_refresh k w).0 ≡ ok t
      → WasIssued w t
  unfolding read
  read-WasIssued k w t e =
      (k, db.seen_now w k _ (db.get_value k w _ (found_refresh-row (db.get_item k w).0 t e)))

  active_token-WasIssued :
      (h : String) (l : TokenLookup) (w : db.World) (t : RefreshToken)
      → (active_token env h l w).0 ≡ ok t
      → WasIssued w t
  unfolding active_token ◌>>=◌
  active_token-WasIssued h l w t e = go (read env found_refresh k w).0 (read-WasIssued k w) _ e
    where
      k : Key
      k = refresh_key l.user_id l.session_id l.client_id

      go :
          (r : Result SessionError RefreshToken)
          → ((u : RefreshToken) → r ≡ ok u → WasIssued w u)
          → (w' : db.World) → (resume r (same_hash env h) w').0 ≡ ok t
          → WasIssued w t
      go (ok u) f w' p = subst (WasIssued w) (same_hash-Kept env h u w' t p).1 (f u refl)
      go (err c) f w' p = cc

  refresh_by_lookup-WasIssued :
      (h : String) (l : Option TokenLookup) (w : db.World) (t : RefreshToken)
      → (refresh_by_lookup env h l w).0 ≡ ok t
      → WasIssued w t
  unfolding refresh_by_lookup
  refresh_by_lookup-WasIssued h none w t e = indexed-WasIssued h w t e
  refresh_by_lookup-WasIssued h (some l) w t e = go (is_active_state l.state) e
    where
      go :
          (b : Bool)
          → ((if not b then fail refresh_token_not_found else active_token env h l) w).0 ≡ ok t
          → WasIssued w t
      go true p = active_token-WasIssued h l w t p
      go false p = cc

  get_refresh_token_by_hash-WasIssued :
      (h : String) (w : db.World) (t : RefreshToken)
      → (get_refresh_token_by_hash env h w).0 ≡ ok t
      → WasIssued w t
  unfolding get_refresh_token_by_hash get_token_lookup read ◌>>=◌
  get_refresh_token_by_hash-WasIssued h w t e = go (found_lookup (db.get_item (lookup_key h) w).0) e
    where
      go :
          (r : Result SessionError (Option TokenLookup))
          → (resume r (refresh_by_lookup env h) (db.get_item (lookup_key h) w).1).0 ≡ ok t
          → WasIssued w t
      go (ok l) p =
          let (k, s) = refresh_by_lookup-WasIssued h l (db.get_item (lookup_key h) w).1 t p in
          (k, db.get_seen (lookup_key h) w k (refresh_row t) s)
      go (err c) p = cc

  -- The answer of a rotation for the client, with the scopes of `t`.
  Grants : String → RefreshToken → Session × String × List String → Type 0
  Grants client_id t a = (t.client_id ≡ client_id) × (a.2 ≡ t.scopes)

  after_rotation-Grants :
      (client_id : String) (session : Session) (raw : String) (t : RefreshToken)
      (r : Result SessionError (Unit {0}))
      → t.client_id ≡ client_id
      → Yields env (Grants client_id t) (after_rotation env session raw t r)
  unfolding after_rotation Grants
  after_rotation-Grants client_id session raw t (ok x) h = record {
    at = λ w a e.
        let q : ◌≡◌ {A = Session × String × List String} (session, raw, t.scopes) a = cc in
        (h, ap (λ (x : Session × String × List String). x.2) (sym q));
  }
  after_rotation-Grants client_id session raw t (err token_reuse) h = Yields-refuse env _ _
  after_rotation-Grants client_id session raw t (err _) h = Yields-fail env _

  rotate_with_parent-Grants :
      (client_id : String) (t : RefreshToken) (parent : Result SessionError Session)
      → t.client_id ≡ client_id
      → Yields env (Grants client_id t) (rotate_with_parent env t parent)
  unfolding rotate_with_parent rotate_in_session replace
  rotate_with_parent-Grants client_id t (ok session) h =
      Yields-bind env _ _ _ (Yields-any env _) (λ gone _.
        Yields-if env _ _ _ (Yields-refuse env _ _) (
          Yields-bind env _ _ _ (Yields-any env _) (λ raw _.
            Yields-bind env _ _ _ (Yields-any env _) (λ now _.
              Yields-bind env _ _ _ (Yields-any env _)
                (λ r _. after_rotation-Grants client_id session raw t r h)))))
  rotate_with_parent-Grants client_id t (err not_found) h = Yields-refuse env _ _
  rotate_with_parent-Grants client_id t (err _) h = Yields-fail env _

  rotate_found-Grants :
      (client_id : String) (t : RefreshToken)
      → Yields env (Grants client_id t) (rotate_found env client_id t)
  unfolding rotate_found rotate_live
  rotate_found-Grants client_id t = Yields-guard env _ _ _ (λ g.
      Yields-bind env _ _ _ (Yields-any env _) (λ gone _.
        Yields-if env _ _ _ (Yields-refuse env _ _) (
          Yields-bind env _ _ _ (Yields-any env _) (λ parent _.
            rotate_with_parent-Grants client_id t parent
              (ground (arith, str_eq_iff t.client_id client_id))))))

  rotate_by_token-Grants :
      (h client_id : String) (r : Result SessionError RefreshToken) (w : db.World)
      (a : Session × String × List String)
      → (rotate_by_token env h client_id r w).0 ≡ ok a
      → (t : RefreshToken) × (r ≡ ok t) × Grants client_id t a
  unfolding rotate_by_token detect_reuse
  rotate_by_token-Grants h client_id (ok t) w a e =
      (t, refl, (rotate_found-Grants client_id t).at w a e)
  rotate_by_token-Grants h client_id (err refresh_token_not_found) w a e = absurd (
      (Yields-bind env {R = λ _. ⊥} _ _ _ (Yields-any env _) (λ c _. Yields-refuse env _ _)).at w a
        e)
  rotate_by_token-Grants h client_id (err _) w a e = cc

  -- A rotation gives a new token only for one that was issued: some refresh token that has been in the
  -- tables has the hash of the presented one and was issued to the client that presents it, and the scopes
  -- that the answer lists, for the access token that goes with it, are exactly its scopes.
  pub rotate_client_token-granted :
      (raw client_id : String) (w : db.World) (a : Session × String × List String)
      → (rotate_client_token env raw client_id w).0 ≡ ok a
      → (t : RefreshToken) × WasIssued w t
        × (t.refresh_token_hash ≡ hash raw)
        × (t.client_id ≡ client_id)
        × (a.2 ≡ t.scopes)
  unfolding rotate_client_token try ◌>>=◌ Grants
  rotate_client_token-granted raw client_id w a e =
      let (t, r, (c, s)) = rotate_by_token-Grants (hash raw) client_id _ _ a e in
      (
        t,
        get_refresh_token_by_hash-WasIssued (hash raw) w t r,
        (get_refresh_token_by_hash-hash env (hash raw)).at w t r,
        c,
        s,
      )
