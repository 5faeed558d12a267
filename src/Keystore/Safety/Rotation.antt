-- ===== src/Keystore/Safety/Rotation.antt =====
-- The rotation of the signing key, api/internal/keystore/ssm.go and rotator.go.
use ctech_account.Common.{
  ◌≡◌, refl, sym, ◌∙◌, ap, subst, ◌⊎◌, inl, inr, ℕ, Bool, true, false, Option, some,
}
use ctech_account.Action.{Result, ok, err, resume, return, ◌>>=◌, ◌>>◌}
use ctech_account.Keystore.Key.{Alg, Key, KeyJson, StoreError, parse_key, to_json}
use ctech_account.Keystore.Env.{Env, Name, active_path, previous_path}
use ctech_account.Keystore.Store.{
  Instance, written, generated, outside_call, get_key, attempt, answer, none_if_missing, load,
  put_key, save, generate,
}
use ctech_account.Keystore.Safety.RoundTrip.{parsed-to_json}
use ctech_account.Keystore.Safety.Reads.{Holds, IsCoherent, Kept, moved, Kept-trans, get_key-Reads}

-- The key is one that the instance signs or verifies with.
abbrev pub Serves : Key → Option (Key × Option Key) → Type 0
Serves k l = ((p : Option Key) × (l ≡ some (k, p))) ⊎ ((a : Key) × (l ≡ some (a, some k)))

abbrev active_or : Key → Result StoreError (Key × Option Key) → Key
active_or k (ok ks) = ks.0
active_or k (err e) = k

module _ (env : Env) where
  open env use {World, parameter}

  -- The key is stored as the active or the previous one, and every change of the live keys keeps it.
  pub record Published (k : Key) (i i' : Instance World) : Type 0 where
    pub there : Holds env i'.outside active_path k ⊎ Holds env i'.outside previous_path k
    pub served : (i'.live ≡ i.live) ⊎ Serves k i'.live

  pub stored_same :
      (w w' : World) (n : Name) (k : Key)
      → parameter w' n ≡ parameter w n
      → Holds env w n k
      → Holds env w' n k
  stored_same w w' n k e (v, j, p, q) = (v, j, e ∙ p, q)

  same_key :
      (v u : ℕ) (j h : KeyJson) (k l : Key) (o : Option (ℕ × KeyJson))
      → o ≡ some (v, j)
      → o ≡ some (u, h)
      → parse_key j ≡ ok k
      → parse_key h ≡ ok l
      → k ≡ l
  same_key v u j h k l o p r q s = cc

  pub stored_one : (w : World) (n : Name) (k l : Key) → Holds env w n k → Holds env w n l → k ≡ l
  stored_one w n k l (v, j, p, q) (u, h, r, s) = same_key v u j h k l _ p r q s

  pub Kept-Published :
      (k : Key) (i i' : Instance World)
      → Holds env i.outside active_path k
      → Kept env i i'
      → Published k i i'
  Kept-Published k i i' h c = record {
    there = inl (
        stored_same i.outside i'.outside active_path k
          (ap (λ (f : Name → Option (ℕ × KeyJson)). f active_path) c.same_parameters) h);
    served = inl c.same_live;
  }

  pub unchanged-Published :
      (k : Key) (i : Instance World) → Holds env i.outside active_path k → Published k i i
  unchanged-Published k i h = record { there = inl h; served = inl refl }

  abbrev pub At : Key → Instance World → Type 0
  At k i = IsCoherent env i × Holds env i.outside active_path k

  -- A load: nothing but the cache changes, and the active key is the one that is stored.
  abbrev pub Loads :
      Instance World → (Result StoreError (Key × Option Key) × Instance World) → Type 0
  Loads i x =
      Kept env i x.1
      × ((ks : Key × Option Key) → x.0 ≡ ok ks → Holds env i.outside active_path ks.0)

  pub loaded : (i : Instance World) → IsCoherent env i → Loads i (load env i)
  unfolding load attempt answer ◌>>=◌
  loaded i c = go (get_key env active_path i).0 refl
    where
      i1 : Instance World
      i1 = (get_key env active_path i).1

      first : Kept env i i1
      first = (get_key-Reads env active_path i c).0

      x : Result StoreError Key × Instance World
      x = get_key env previous_path i1

      both : Kept env i x.1
      both = Kept-trans env i i1 x.1 first (get_key-Reads env previous_path i1 first.coherent).0

      last :
          (a : Key) (y : Result StoreError (Option Key))
          → Holds env i.outside active_path a
          → Loads i (resume y (λ previous w'. (ok (a, previous), w')) x.1)
      last a (ok p) h =
          (both, λ ks q. subst (Holds env i.outside active_path) (ap (active_or a) q) h)
      last a (err e) h = (both, λ ks q. cc)

      go :
          (y : Result StoreError Key)
          → (get_key env active_path i).0 ≡ y
          → Loads i (
              resume y
                (λ a w.
                  resume
                    (none_if_missing env (get_key env previous_path w).0)
                    (λ previous w'. (ok (a, previous), w'))
                    (get_key env previous_path w).1)
                i1)
      go (ok a) e = last a (none_if_missing env x.0) ((get_key-Reads env active_path i c).1 a e)
      go (err e') e = (first, λ ks q. cc)

  put_new :
      (i : Instance World) (k new : Key)
      → Holds env i.outside previous_path k
      → Holds env (put_key env active_path new i).1.outside previous_path k
  unfolding put_key outside_call
  put_new i k new h =
      stored_same i.outside _ previous_path k
        (env.put_other active_path (to_json new) i.outside previous_path refl) h

  pub save-Published :
      (i : Instance World) (k new : Key)
      → Holds env i.outside active_path k
      → Published k i (save env new (some k) i).1
  unfolding save put_key outside_call ◌>>◌ ◌>>=◌
  save-Published i k new (v, j, e, p) = go (env.put previous_path (to_json k) i.outside).0 refl
    where
      i1 : Instance World
      i1 = record i { outside = (env.put previous_path (to_json k) i.outside).1 }

      go :
          (b : Bool)
          → (env.put previous_path (to_json k) i.outside).0 ≡ b
          → Published k i (resume (written b) (λ _. put_key env active_path new) i1).1
      go false q = record {
        there = inl (
            stored_same i.outside i1.outside active_path k
              (env.put_other previous_path (to_json k) i.outside active_path refl) (v, j, e, p));
        served = inl refl;
      }
      go true q =
          let (u, r) = env.put_done previous_path (to_json k) i.outside q in
          record {
            there = inr (put_new i1 k new (u, to_json k, r, parsed-to_json j k p));
            served = inl refl;
          }

  pub Kept-At : (k : Key) (i i' : Instance World) → At k i → Kept env i i' → At k i'
  Kept-At k i i' (c, h) x = (
    x.coherent,
    stored_same i.outside i'.outside active_path k
        (ap (λ (f : Name → Option (ℕ × KeyJson)). f active_path) x.same_parameters) h,
  )

  pub after :
      (k : Key) (i i' i'' : Instance World) → Kept env i i' → Published k i' i'' → Published k i i''
  after k i i' i'' x p = record {
    there = p.there;
    served = elim p.served [ inl e ↦ inl (e ∙ x.same_live) | inr e ↦ inr e ];
  }

  -- A call that does not touch the parameters.
  pub called :
      {A B : Type 0} (f : A → Result StoreError B) (g : World → A × World) (i : Instance World)
      → IsCoherent env i
      → parameter (g i.outside).1 ≡ parameter i.outside
      → Kept env i (outside_call env f g i).1
  unfolding outside_call
  called f g i c e = moved env i (g i.outside).1 c e

  -- What follows a load of the active key.
  pub save_new-Published :
      (k : Key) (i : Instance World) (now : ℕ) (alg : Alg) (ks : Key × Option Key)
      → At k i
      → ks.0 ≡ k
      → Published k i ((generate env now alg >>= (λ n. save env n (some ks.0) >> return n)) i).1
  unfolding generate ◌>>◌ ◌>>=◌
  save_new-Published k i now alg ks a e =
      let x = called generated (env.generate now alg) i a.0 (env.generate_same now alg i.outside) in
      after k i _ _ x
        (go (outside_call env generated (env.generate now alg) i).0 _ (Kept-At k i _ a x))
    where
      saved :
          (n : Key) (i : Instance World) (r : Result StoreError (Unit {0}))
          → (resume r (λ _. return n) i).1 ≡ i
      saved n i (ok t) = refl
      saved n i (err c) = refl

      go :
          (r : Result StoreError Key) (i : Instance World)
          → At k i
          → Published k i
              (resume r
                (λ n w.
                  resume (save env n (some ks.0) w).0 (λ _. return n) (save env n (some ks.0) w).1)
                i).1
      go (err c) i a = unchanged-Published k i a.1
      go (ok n) i a =
          subst (Published k i) (sym (saved n _ (save env n (some ks.0) i).0)) (
            subst (λ t. Published k i (save env n (some t) i).1) (sym e) (save-Published i k n a.1))
