-- ===== src/Keystore/Rotator.antt =====
-- api/internal/keystore/rotator.go: one tick of the rotation.
use ctech_account.Common.{ℕ, ◌+◌, ◌*◌, Bool, true, false, Option, none, some, ltb, if◌then◌else◌}
use ctech_account.Action.{ok, ◌>>=◌, ◌>>◌}
use ctech_account.Keystore.Key.{second, Key}
use ctech_account.Keystore.Env.{Env}
use ctech_account.Keystore.Store.{Op, outside_call, load, rotate}

-- 90 days
abbrev pub key_max_age : ℕ
key_max_age = 90 * 24 * 3600 * second

module _ (env : Env) where
  open env use {World}

  -- `cfg.Reload(active, previous)`
  unfoldable pub reload : Key → Option Key → Op env (Unit {0})
  reload active previous i = (ok tt, record i { live = some (active, previous) })

  unfoldable pub clock : Op env ℕ
  clock = outside_call env ok env.clock

  -- The lock is released; an error of that is only logged.
  unfoldable pub release : Op env (Unit {0})
  release = outside_call env (λ b. ok tt) env.unlock

  -- What follows the attempt at the lock: `some true` where it was won, `none` where it failed.
  unfoldable pub rotate_if_won : Key → Option Key → Option Bool → Op env (Unit {0})
  rotate_if_won active previous (some true) = do
    now ← clock
    new_key ← rotate env now active.material.alg
    release
    reload new_key (some active)
  rotate_if_won active previous (some false) = reload active previous
  rotate_if_won active previous none = reload active previous

  unfoldable pub try_rotate : Key → Option Key → Op env (Unit {0})
  try_rotate active previous = do
    won ← outside_call env ok env.try_lock
    rotate_if_won active previous won

  -- `cfg.Now().Sub(active.CreatedAt) > cfg.MaxAge`
  unfoldable pub renew : ℕ → Key × Option Key → Op env (Unit {0})
  renew max_age keys = do
    now ← clock
    if ltb (keys.0.created_at + max_age) now then try_rotate keys.0 keys.1 else reload keys.0 keys.1

  unfoldable pub tick : ℕ → Op env (Unit {0})
  tick max_age = do keys ← load env; renew max_age keys
