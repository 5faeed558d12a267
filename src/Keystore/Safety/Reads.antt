-- ===== src/Keystore/Safety/Reads.antt =====
-- Reads of the keys through the cache, api/internal/keystore/ssm.go.
use ctech_account.Common.{
  ◌≡◌, refl, sym, ◌∙◌, ap, subst, inl, inr, ℕ, ◌==◌, Option, none, some, if◌then◌else◌, Bool-cases,
  ==_iff,
}
use ctech_account.Action.{Result, ok, err, resume, return, ◌>>=◌, ◌>>◌}
use ctech_account.Dynamo.Contract.{Reply, done}
use ctech_account.Keystore.Key.{Key, KeyJson, StoreError, parse_key}
use ctech_account.Keystore.Env.{Env, Name, active_path, previous_path, same_name}
use ctech_account.Keystore.Store.{
  Instance, found, outside_call, get_parameter, cached, remember, answer, refresh, known_or_refresh,
  get_key,
}

module _ (env : Env) where
  open env use {World, parameter}

  -- The parameter holds the key.
  abbrev pub Holds : World → Name → Key → Type 0
  Holds w n k = (v : ℕ) × (j : KeyJson) × (parameter w n ≡ some (v, j)) × (parse_key j ≡ ok k)

  -- What the cache remembers of a version is what the parameter held in it.
  pub record IsCoherent (i : Instance World) : Type 0 where
    pub agrees :
        (n : Name) (v : ℕ) (k : Key) (j : KeyJson)
        → i.cache n ≡ some (v, k)
        → parameter i.outside n ≡ some (v, j)
        → parse_key j ≡ ok k

  -- An instance in which no call has touched the parameters or the live keys.
  pub record Kept (i i' : Instance World) : Type 0 where
    pub coherent : IsCoherent i'
    pub same_parameters : parameter i'.outside ≡ parameter i.outside
    pub same_live : i'.live ≡ i.live

  pub moved :
      (i : Instance World) (w : World)
      → IsCoherent i
      → parameter w ≡ parameter i.outside
      → Kept i (record i { outside = w })
  moved i w c e = record {
    coherent = record {
      agrees = λ n v k j p q.
          c.agrees n v k j p (ap (λ (f : Name → Option (ℕ × KeyJson)). f n) (sym e) ∙ q);
    };
    same_parameters = e;
    same_live = refl;
  }

  -- A read of a key: nothing but the cache changes, and a key that is returned is the parameter's.
  abbrev pub Reads : Name → Instance World → (Result StoreError Key × Instance World) → Type 0
  Reads n i x = Kept i x.1 × ((k : Key) → x.0 ≡ ok k → Holds i.outside n k)

  remembered :
      (i : Instance World) (n : Name) (v : ℕ) (k : Key) (j : KeyJson)
      → IsCoherent i
      → parameter i.outside n ≡ some (v, j)
      → parse_key j ≡ ok k
      → Kept i (remember env n v k i).1
  unfolding remember
  remembered i n v k j c e p = record {
    coherent = record { agrees = λ m u k' j' q r. agree n m u k' j' e q r };
    same_parameters = refl;
    same_live = refl;
  }
    where
      same_key :
          (v u : ℕ) (k k' : Key) (j j' : KeyJson) (x : Option (ℕ × KeyJson))
          → x ≡ some (v, j)
          → parse_key j ≡ ok k
          → ◌≡◌ {A = Option (ℕ × Key)} (some (v, k)) (some (u, k'))
          → x ≡ some (u, j')
          → parse_key j' ≡ ok k'
      same_key v u k k' j j' x e p q r = cc

      agree :
          (n m : Name) (u : ℕ) (k' : Key) (j' : KeyJson)
          → parameter i.outside n ≡ some (v, j)
          → ◌≡◌ {A = Option (ℕ × Key)}
              (if same_name n m then some (v, k) else i.cache m)
              (some (u, k'))
          → parameter i.outside m ≡ some (u, j')
          → parse_key j' ≡ ok k'
      agree active_path active_path u k' j' e q r = same_key v u k k' j j' _ e p q r
      agree previous_path previous_path u k' j' e q r = same_key v u k k' j j' _ e p q r
      agree active_path previous_path u k' j' e q r = c.agrees previous_path u k' j' q r
      agree previous_path active_path u k' j' e q r = c.agrees active_path u k' j' q r

  pub Kept-trans : (i i' i'' : Instance World) → Kept i i' → Kept i' i'' → Kept i i''
  Kept-trans i i' i'' a b = record {
    coherent = b.coherent;
    same_parameters = b.same_parameters ∙ a.same_parameters;
    same_live = b.same_live ∙ a.same_live;
  }

  -- What follows the second read.
  refreshed :
      (n : Name) (i i1 : Instance World) (q : ℕ × KeyJson)
      → Kept i i1
      → parameter i.outside n ≡ some q
      → Reads n i ((answer env (parse_key q.1) >>= (λ k. remember env n q.0 k >> return k)) i1)
  unfolding answer remember ◌>>=◌ ◌>>◌
  refreshed n i i1 q h e = go (parse_key q.1) refl
    where
      there : parameter i1.outside n ≡ some (q.0, q.1)
      there = ap (λ (f : Name → Option (ℕ × KeyJson)). f n) h.same_parameters ∙ e

      go :
          (y : Result StoreError Key)
          → parse_key q.1 ≡ y
          → Reads n i (resume y (λ k. remember env n q.0 k >> return k) i1)
      go (ok k) p = (
        Kept-trans i i1 _ h (remembered i1 n q.0 k q.1 h.coherent there p),
        λ k' x. let y : k ≡ k' = cc in (q.0, q.1, e, p ∙ ap ok y),
      )
      go (err x) p = (h, λ k' y. cc)

  refresh-Reads : (n : Name) (i : Instance World) → IsCoherent i → Reads n i (refresh env n i)
  unfolding refresh get_parameter outside_call ◌>>=◌
  refresh-Reads n i c = go (env.get n i.outside).0 refl
    where
      i1 : Instance World
      i1 = record i { outside = (env.get n i.outside).1 }

      still_there : Kept i i1
      still_there = moved i (env.get n i.outside).1 c (env.get_same n i.outside)

      go :
          (x : Reply (Option (ℕ × KeyJson)))
          → (env.get n i.outside).0 ≡ x
          → Reads n i (
              resume
                (found x)
                (λ p. answer env (parse_key p.1) >>= (λ k. remember env n p.0 k >> return k))
                i1)
      go Reply.failed e = (still_there, λ k y. cc)
      go (done none) e = (still_there, λ k y. cc)
      go (done (some q)) e = refreshed n i i1 q still_there (env.get_value n i.outside (some q) e)

  pub get_key-Reads : (n : Name) (i : Instance World) → IsCoherent i → Reads n i (get_key env n i)
  unfolding get_key get_parameter outside_call cached known_or_refresh ◌>>=◌
  get_key-Reads n i c = go (env.get n i.outside).0 refl
    where
      i1 : Instance World
      i1 = record i { outside = (env.get n i.outside).1 }

      still_there : Kept i i1
      still_there = moved i (env.get n i.outside).1 c (env.get_same n i.outside)

      again : Reads n i (refresh env n i1)
      again =
          let (k, r) = refresh-Reads n i1 still_there.coherent in
          (
            Kept-trans i i1 _ still_there k,
            λ x y.
                subst
                  (λ (f : Name → Option (ℕ × KeyJson)).
                    (v : ℕ) × (j : KeyJson) × (f n ≡ some (v, j)) × (parse_key j ≡ ok x))
                  still_there.same_parameters (r x y),
          )

      known :
          (head : ℕ × KeyJson) (o : Option (ℕ × Key))
          → parameter i.outside n ≡ some head
          → i.cache n ≡ o
          → Reads n i (known_or_refresh env n head.0 o i1)
      known head none e p = again
      known head (some x) e p = elim (Bool-cases (x.0 == head.0)) [
        | inl b ↦
            let q : x.0 ≡ head.0 = (==_iff x.0 head.0).0 b in
            let held : i.cache n ≡ some (head.0, x.1) = p ∙ ap (λ t. some (t, x.1)) q in
            rw b (
              still_there,
              λ k y.
                  let z : x.1 ≡ k = cc in
                  (head.0, head.1, e, c.agrees n head.0 x.1 head.1 held e ∙ ap ok z),
            )
        | inr b ↦ rw b again
      ]

      go :
          (x : Reply (Option (ℕ × KeyJson)))
          → (env.get n i.outside).0 ≡ x
          → Reads n i (resume (found x) (λ head. cached env n >>= known_or_refresh env n head.0) i1)
      go Reply.failed e = (still_there, λ k y. cc)
      go (done none) e = (still_there, λ k y. cc)
      go (done (some q)) e = known q (i.cache n) (env.get_value n i.outside (some q) e) refl
