-- ===== src/Keystore/Safety/RoundTrip.antt =====
-- The stored form of a key, api/internal/keystore/key.go.
use ctech_account.Common.{
  ◌≡◌, refl, sym, ◌∙◌, ap, ℕ, ◌*◌, ◌/◌, String, Bool, true, false, Option, none, some, arith,
  if◌then◌else◌,
}
use ctech_account.Action.{Result, ok, err}
use ctech_account.Keystore.Key.{
  second, Alg, rs256, es256, Material, Key, KeyJson, StoreError, failed, parse_key, to_json,
  checked, dated, contradicts, material_of, pem_of,
}

own_alg : (a : Alg) → contradicts (some a) a ≡ false
own_alg rs256 = refl
own_alg es256 = refl

written_material : (m : Material) → material_of (pem_of m.alg m.secret) ≡ some m
written_material m = ground arith

-- A key that is written and read again is the same key, created at the second in which it was.
pub parse_key-to_json :
    (k : Key)
    → parse_key (to_json k) ≡ ok (record k { created_at = k.created_at / second * second })
unfolding parse_key to_json
parse_key-to_json k = rw (written_material k.material, own_alg k.material.alg) refl

whole : (t : ℕ) → t * second / second * second ≡ t * second
whole t = omega arith

abbrev time_of : Result StoreError Key → ℕ
time_of (ok k) = k.created_at
time_of (err e) = 0

created :
    (kid : String) (m : Material) (o : Option ℕ) (k : Key)
    → dated kid m o ≡ ok k
    → k.created_at / second * second ≡ k.created_at
created kid m none k e = cc
created kid m (some t) k e =
    let p : t * second ≡ k.created_at = ap time_of e in
    ap (λ x. x / second * second) (sym p) ∙ whole t ∙ p

checked-created :
    (j : KeyJson) (o : Option Material) (k : Key)
    → checked j o ≡ ok k
    → k.created_at / second * second ≡ k.created_at
checked-created j none k e = cc
checked-created j (some m) k e = go (contradicts j.alg m.alg) e
  where
    go :
        (b : Bool)
        → (if b then err failed else dated j.kid m j.created_at) ≡ ok k
        → k.created_at / second * second ≡ k.created_at
    go true q = cc
    go false q = created j.kid m j.created_at k q

read-created :
    (j : KeyJson) (k : Key) → parse_key j ≡ ok k → k.created_at / second * second ≡ k.created_at
unfolding parse_key
read-created j k e = checked-created j (material_of j.pem) k e

-- A key that was read is written and read again as it is.
pub parsed-to_json : (j : KeyJson) (k : Key) → parse_key j ≡ ok k → parse_key (to_json k) ≡ ok k
parsed-to_json j k e =
    parse_key-to_json k ∙ ap (λ t. ok (record k { created_at = t })) (read-created j k e)
