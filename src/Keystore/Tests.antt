-- ===== src/Keystore/Tests.antt =====
-- A parameter store in memory, and the theorems on the rotation at it.
use ctech_account.Common.{
  ◌≡◌, refl, ℕ, zero, suc, ◌*◌, ◌+◌, String, Bool, true, false, Option, none, some, if◌then◌else◌,
}
use ctech_account.Action.{ok, ◌>>=◌, ◌>>◌}
use ctech_account.Dynamo.Contract.{Reply, done}
use ctech_account.Keystore.Key.{second, es256, Key, KeyJson, parse_key, to_json}
use ctech_account.Keystore.Env.{Env, Name, active_path, previous_path, same_name}
use ctech_account.Keystore.Store.{
  Instance, outside_call, get_parameter, cached, remember, answer, refresh, known_or_refresh,
  get_key, attempt, load, put_key, save, generate, rotate,
}
use ctech_account.Keystore.Rotator.{
  key_max_age, clock, release, reload, rotate_if_won, try_rotate, renew, tick,
}
use ctech_account.Keystore.Safety.RoundTrip.{parse_key-to_json}
use ctech_account.Keystore.Safety.Reads.{IsCoherent}
use ctech_account.Keystore.Safety.Rotation.{Published}
use ctech_account.Keystore.Safety.Ticks.{tick-Published}

-- Both parameters with their versions, and how many keys were made.
abbrev Params : Type 0
Params = (Name → Option (ℕ × KeyJson)) × ℕ

abbrev kid_of : ℕ → String
kid_of zero = "k2"
kid_of (suc n) = "k3"

abbrev version_of : Option (ℕ × KeyJson) → ℕ
version_of none = 0
version_of (some p) = p.0

-- 1000 days.
abbrev today : ℕ
today = 1000 * 24 * 3600 * second

abbrev put_in : Name → KeyJson → Params → Bool × Params
put_in n j w =
    (true, ((λ m. if same_name n m then some (version_of (w.0 n) + 1, j) else w.0 m), w.1))

put_in-other :
    (n : Name) (j : KeyJson) (w : Params) (m : Name)
    → same_name n m ≡ false
    → (put_in n j w).1.0 m ≡ w.0 m
put_in-other n j w m h = rw h refl

put_in-done :
    (n : Name) (j : KeyJson) (w : Params)
    → (put_in n j w).0 ≡ true
    → (v : ℕ) × ((put_in n j w).1.0 n ≡ some (v, j))
put_in-done active_path j w h = (version_of (w.0 active_path) + 1, refl)
put_in-done previous_path j w h = (version_of (w.0 previous_path) + 1, refl)

got :
    (x y : Option (ℕ × KeyJson)) → ◌≡◌ {A = Reply (Option (ℕ × KeyJson))} (done x) (done y) → x ≡ y
got x y e = cc

abbrev demo : Env
demo = record {
  World = Params;
  parameter = λ w. w.0;
  get = λ n w. (done (w.0 n), w);
  put = put_in;
  generate = λ t a w. (
    some (record {
      kid = kid_of w.1;
      material = record { alg = a; secret = kid_of w.1 };
      created_at = t;
    }),
    (w.0, w.1 + 1),
  );
  clock = λ w. (today, w);
  try_lock = λ w. (some true, w);
  unlock = λ w. (true, w);
  get_value = λ n w o e. got _ _ e;
  get_same = λ n w. refl;
  put_other = put_in-other;
  put_done = put_in-done;
  generate_same = λ t a w. refl;
  clock_same = λ w. refl;
  lock_same = λ w. refl;
  unlock_same = λ w. refl;
}

abbrev k1 : Key
k1 = record { kid = "k1"; material = record { alg = es256; secret = "k1" }; created_at = second }

abbrev k1_json : KeyJson
k1_json = to_json k1

abbrev begun : Params
begun = ((λ n. elim n [ active_path ↦ some (1, k1_json) | previous_path ↦ none ]), 0)

abbrev started : Params → Instance Params
started w = record { outside = w; cache = λ n. none; live = some (k1, none) }

absent : {A P : Type 0} → (x : A) → none ≡ some x → P
absent x e = cc

begun-IsCoherent : IsCoherent demo (started begun)
begun-IsCoherent = record { agrees = λ n v k j e p. absent (v, k) e }

k1_parses : parse_key k1_json ≡ ok k1
unfolding parse_key to_json
k1_parses = refl

tick-Published_example : Published demo k1 (started begun) (tick demo key_max_age (started begun)).1
tick-Published_example =
    tick-Published demo k1 (started begun) key_max_age begun-IsCoherent
      (1, k1_json, refl, k1_parses)

parse_key-to_json_example : parse_key (to_json k1) ≡ ok k1
parse_key-to_json_example = parse_key-to_json k1

-- The tables that the tick of one instance leaves.
abbrev after_first : Params
after_first = (tick demo key_max_age (started begun)).1.outside

-- Another instance had loaded its keys before that tick, and wins the lock after it: the second rotation
-- drops the key that signed until now.
abbrev kid_at : Params → Name → Option String
kid_at w n = elim (w.0 n) [ none ↦ none | some p ↦ some p.1.kid ]

second_rotation :
    (kid_at (rotate_if_won demo k1 none (some true) (started after_first)).1.outside active_path
      ≡ some "k3")
    × (kid_at (rotate_if_won demo k1 none (some true) (started after_first)).1.outside previous_path
        ≡ some "k2")
unfolding parse_key to_json outside_call get_parameter cached remember answer refresh
    known_or_refresh get_key attempt load put_key save generate rotate clock release reload
    rotate_if_won try_rotate renew tick ◌>>=◌ ◌>>◌
second_rotation = (refl, refl)
