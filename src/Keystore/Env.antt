-- ===== src/Keystore/Env.antt =====
-- What api/internal/keystore takes from outside: the parameter store (SSM), the generator of keys, the clock and the lock in Valkey.
use ctech_account.Common.{◌≡◌, ℕ, Bool, true, false, Option, some}
use ctech_account.Dynamo.Contract.{Reply, done}
use ctech_account.Keystore.Key.{Alg, Key, KeyJson}

pub data Name : Type 0 where
  active_path previous_path : Name

abbrev pub same_name : Name → Name → Bool
same_name active_path active_path = true
same_name previous_path previous_path = true
same_name _ _ = false

-- A parameter has a version, which every write raises. A call may fail at any time; a write that fails
-- may have been applied or not.
pub record Env : Type 1 where
  pub World : Type 0
  pub parameter : World → Name → Option (ℕ × KeyJson)
  pub get : Name → World → Reply (Option (ℕ × KeyJson)) × World
  pub put : Name → KeyJson → World → Bool × World
  pub generate : ℕ → Alg → World → Option Key × World
  pub clock : World → ℕ × World
  -- `none`: the attempt failed.
  pub try_lock : World → Option Bool × World
  pub unlock : World → Bool × World
  pub get_value :
      (n : Name) (w : World) (o : Option (ℕ × KeyJson)) → (get n w).0 ≡ done o → parameter w n ≡ o
  pub get_same : (n : Name) (w : World) → parameter (get n w).1 ≡ parameter w
  pub put_other :
      (n : Name) (j : KeyJson) (w : World) (m : Name)
      → same_name n m ≡ false
      → parameter (put n j w).1 m ≡ parameter w m
  pub put_done :
      (n : Name) (j : KeyJson) (w : World)
      → (put n j w).0 ≡ true
      → (v : ℕ) × (parameter (put n j w).1 n ≡ some (v, j))
  pub generate_same : (t : ℕ) (a : Alg) (w : World) → parameter (generate t a w).1 ≡ parameter w
  pub clock_same : (w : World) → parameter (clock w).1 ≡ parameter w
  pub lock_same : (w : World) → parameter (try_lock w).1 ≡ parameter w
  pub unlock_same : (w : World) → parameter (unlock w).1 ≡ parameter w
