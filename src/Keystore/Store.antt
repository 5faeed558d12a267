-- ===== src/Keystore/Store.antt =====
-- api/internal/keystore/ssm.go: Store, with its cache, and Rotate.
use ctech_account.Common.{ℕ, Bool, true, false, Option, none, some, ◌==◌, if◌then◌else◌}
use ctech_account.Action.{Action, Result, ok, err, return, ◌>>=◌, ◌>>◌}
use ctech_account.Dynamo.Contract.{Reply, done}
use ctech_account.Keystore.Key.{
  Alg, Key, KeyJson, StoreError, parameter_not_found, failed, parse_key, to_json,
}
use ctech_account.Keystore.Env.{Env, Name, active_path, previous_path, same_name}

abbrev pub found : Reply (Option (ℕ × KeyJson)) → Result StoreError (ℕ × KeyJson)
found (done (some p)) = ok p
found (done none) = err parameter_not_found
found _ = err failed

abbrev pub written : Bool → Result StoreError (Unit {0})
written true = ok tt
written false = err failed

abbrev pub generated : Option Key → Result StoreError Key
generated (some k) = ok k
generated none = err failed

-- One instance of the service: what lies outside, the cache of its store by name (a version and the key
-- that it held), and the keys that it signs and verifies with, active and previous.
pub record Instance (W : Type 0) : Type 0 where
  pub outside : W
  pub cache : Name → Option (ℕ × Key)
  pub live : Option (Key × Option Key)

module _ (env : Env) where
  open env use {World}

  abbrev pub Op : Type 0 → Type 0
  Op A = Action (Instance World) StoreError A

  -- A call of what lies outside.
  unfoldable pub outside_call :
      {A B : Type 0} → (A → Result StoreError B) → (World → A × World) → Op B
  outside_call f g i = let (a, w) = g i.outside in (f a, record i { outside = w })

  unfoldable pub get_parameter : Name → Op (ℕ × KeyJson)
  get_parameter n = outside_call found (env.get n)

  unfoldable pub cached : Name → Op (Option (ℕ × Key))
  cached n i = (ok (i.cache n), i)

  unfoldable pub remember : Name → ℕ → Key → Op (Unit {0})
  remember n v k i =
      (ok tt, record i { cache = λ m. if same_name n m then some (v, k) else i.cache m })

  unfoldable pub answer : {A : Type 0} → Result StoreError A → Op A
  answer r i = (r, i)

  -- The second read of getKey, with decryption.
  unfoldable pub refresh : Name → Op Key
  refresh n = do p ← get_parameter n; k ← answer (parse_key p.1); remember n p.0 k; return k

  unfoldable pub known_or_refresh : Name → ℕ → Option (ℕ × Key) → Op Key
  known_or_refresh n version none = refresh n
  known_or_refresh n version (some c) = if c.0 == version then return c.1 else refresh n

  unfoldable pub get_key : Name → Op Key
  get_key n = do head ← get_parameter n; c ← cached n; known_or_refresh n head.0 c

  unfoldable pub attempt : {A : Type 0} → Op A → Op (Result StoreError A)
  attempt m i = let (r, i') = m i in (ok r, i')

  abbrev pub none_if_missing : Result StoreError Key → Result StoreError (Option Key)
  none_if_missing (ok k) = ok (some k)
  none_if_missing (err parameter_not_found) = ok none
  none_if_missing (err failed) = err failed

  unfoldable pub load : Op (Key × Option Key)
  load = do
    a ← get_key active_path
    p ← attempt (get_key previous_path)
    previous ← answer (none_if_missing p)
    return (a, previous)

  unfoldable pub put_key : Name → Key → Op (Unit {0})
  put_key n k = outside_call written (env.put n (to_json k))

  unfoldable pub save : Key → Option Key → Op (Unit {0})
  save a none = put_key active_path a
  save a (some p) = put_key previous_path p >> put_key active_path a

  unfoldable pub generate : ℕ → Alg → Op Key
  generate now alg = outside_call generated (env.generate now alg)

  unfoldable pub rotate : ℕ → Alg → Op Key
  rotate now alg = do
    keys ← load
    new_key ← generate now alg
    save new_key (some keys.0)
    return new_key
