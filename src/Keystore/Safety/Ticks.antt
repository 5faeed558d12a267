-- ===== src/Keystore/Safety/Ticks.antt =====
-- A tick of the rotation, api/internal/keystore/rotator.go.
use ctech_account.Common.{
  ◌≡◌, refl, sym, ap, subst, ◌⊎◌, inl, inr, ℕ, Bool, true, false, Option, none, some, if◌then◌else◌,
  ltb, ◌+◌,
}
use ctech_account.Action.{Result, ok, err, resume, return, ◌>>=◌, ◌>>◌}
use ctech_account.Keystore.Key.{Alg, Key, KeyJson, StoreError}
use ctech_account.Keystore.Env.{Env, Name, active_path, previous_path}
use ctech_account.Keystore.Store.{Instance, outside_call, load, save, generate, rotate}
use ctech_account.Keystore.Rotator.{clock, release, reload, rotate_if_won, try_rotate, renew, tick}
use ctech_account.Keystore.Safety.Reads.{Holds, IsCoherent, Kept, moved}
use ctech_account.Keystore.Safety.Rotation.{
  Serves, Published, At, Loads, stored_same, stored_one, Kept-Published, loaded, Kept-At, after,
  save_new-Published,
}

module _ (env : Env) where
  open env use {World, parameter}

  rotate-Published :
      (k : Key) (i : Instance World) (now : ℕ) (alg : Alg)
      → At env k i
      → Published env k i (rotate env now alg i).1
  unfolding rotate ◌>>=◌
  rotate-Published k i now alg a = go (load env i).0 refl
    where
      x : Loads env i (load env i)
      x = loaded env i a.0

      go :
          (r : Result StoreError (Key × Option Key))
          → (load env i).0 ≡ r
          → Published env k i
              (resume r
                (λ ks. generate env now alg >>= (λ n. save env n (some ks.0) >> return n))
                (load env i).1).1
      go (err c) e = Kept-Published env k i (load env i).1 a.1 x.0
      go (ok ks) e = after env k i _ _ x.0 (
          save_new-Published env k (load env i).1 now alg ks (Kept-At env k i _ a x.0)
            (stored_one env i.outside active_path ks.0 k (x.1 ks e) a.1))

  reload-Published :
      (k : Key) (i : Instance World) (active : Key) (previous : Option Key)
      → Holds env i.outside active_path k ⊎ Holds env i.outside previous_path k
      → Serves k (some (active, previous))
      → Published env k i (reload env active previous i).1
  unfolding reload
  reload-Published k i active previous h s = record { there = h; served = inr s }

  -- The end of a tick that rotated.
  released :
      (k n : Key) (i i' : Instance World)
      → Published env k i i'
      → Published env k i ((release env >> reload env n (some k)) i').1
  unfolding release reload outside_call ◌>>◌ ◌>>=◌
  released k n i i' p = record {
    there = elim p.there [
      | inl h ↦ inl (stored_same env i'.outside _ active_path k (same_at active_path) h)
      | inr h ↦ inr (stored_same env i'.outside _ previous_path k (same_at previous_path) h)
    ];
    served = inr (inr (n, refl));
  }
    where
      same_at : (m : Name) → parameter (env.unlock i'.outside).1 m ≡ parameter i'.outside m
      same_at m = ap (λ (f : Name → Option (ℕ × KeyJson)). f m) (env.unlock_same i'.outside)

  rotate_if_won-Published :
      (k : Key) (i : Instance World) (previous : Option Key) (won : Option Bool)
      → At env k i
      → Published env k i (rotate_if_won env k previous won i).1
  unfolding rotate_if_won clock outside_call ◌>>=◌
  rotate_if_won-Published k i previous (some false) a =
      reload-Published k i k previous (inl a.1) (inl (previous, refl))
  rotate_if_won-Published k i previous none a =
      reload-Published k i k previous (inl a.1) (inl (previous, refl))
  rotate_if_won-Published k i previous (some true) a =
      after env k i i1 _ x (go (rotate env now k.material.alg i1).0)
    where
      i1 : Instance World
      i1 = record i { outside = (env.clock i.outside).1 }

      now : ℕ
      now = (env.clock i.outside).0

      x : Kept env i i1
      x = moved env i (env.clock i.outside).1 a.0 (env.clock_same i.outside)

      rotated : Published env k i1 (rotate env now k.material.alg i1).1
      rotated = rotate-Published k i1 now k.material.alg (Kept-At env k i i1 a x)

      go :
          (r : Result StoreError Key)
          → Published env k i1
              (resume r
                (λ n. release env >> reload env n (some k))
                (rotate env now k.material.alg i1).1).1
      go (ok n) = released k n i1 _ rotated
      go (err c) = rotated

  try_rotate-Published :
      (k : Key) (i : Instance World) (previous : Option Key)
      → At env k i
      → Published env k i (try_rotate env k previous i).1
  unfolding try_rotate outside_call ◌>>=◌
  try_rotate-Published k i previous a =
      let x = moved env i (env.try_lock i.outside).1 a.0 (env.lock_same i.outside) in
      after env k i _ _ x
        (rotate_if_won-Published k _ previous (env.try_lock i.outside).0 (Kept-At env k i _ a x))

  renew-Published :
      (k : Key) (i : Instance World) (max_age : ℕ) (previous : Option Key)
      → At env k i
      → Published env k i (renew env max_age (k, previous) i).1
  unfolding renew clock outside_call ◌>>=◌
  renew-Published k i max_age previous a =
      let x = moved env i (env.clock i.outside).1 a.0 (env.clock_same i.outside) in
      let b = Kept-At env k i _ a x in
      after env k i _ _ x (go (ltb (k.created_at + max_age) (env.clock i.outside).0) _ b)
    where
      go :
          (t : Bool) (i : Instance World)
          → At env k i
          → Published env k i ((if t then try_rotate env k previous else reload env k previous) i).1
      go true i b = try_rotate-Published k i previous b
      go false i b = reload-Published k i k previous (inl b.1) (inl (previous, refl))

  -- The key that is active when a tick starts can be verified after it: the store holds it as the active
  -- or the previous key, and the keys that the instance then uses are either those that it used before
  -- or have it among them. It holds whatever calls fail, also between the two writes of a rotation, as
  -- long as no other instance writes during the tick; the cache starts with what the store held.
  pub tick-Published :
      (k : Key) (i : Instance World) (max_age : ℕ)
      → IsCoherent env i
      → Holds env i.outside active_path k
      → Published env k i (tick env max_age i).1
  unfolding tick ◌>>=◌
  tick-Published k i max_age c h = go (load env i).0 refl
    where
      x : Loads env i (load env i)
      x = loaded env i c

      go :
          (r : Result StoreError (Key × Option Key))
          → (load env i).0 ≡ r
          → Published env k i (resume r (renew env max_age) (load env i).1).1
      go (err e) q = Kept-Published env k i (load env i).1 h x.0
      go (ok ks) q =
          let same : ks.0 ≡ k = stored_one env i.outside active_path ks.0 k (x.1 ks q) h in
          after env k i _ _ x.0 (
            subst
              (λ t. Published env k (load env i).1 (renew env max_age (t, ks.1) (load env i).1).1)
              (sym same)
              (renew-Published k (load env i).1 max_age ks.1 (Kept-At env k i _ (c, h) x.0)))
