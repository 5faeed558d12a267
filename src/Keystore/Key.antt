-- ===== src/Keystore/Key.antt =====
-- api/internal/keystore/key.go: the keys and their stored form. A PEM text stands for what its
-- block holds: Go's crypto reads back what it wrote.
use ctech_account.Common.{
  ℕ, ◌*◌, ◌/◌, String, Bool, true, false, not, Option, none, some, if◌then◌else◌,
}
use ctech_account.Action.{Result, ok, err}

abbrev pub second : ℕ
second = 1000000000

pub data Alg : Type 0 where
  rs256 es256 : Alg

abbrev pub same_alg : Alg → Alg → Bool
same_alg rs256 rs256 = true
same_alg es256 es256 = true
same_alg _ _ = false

-- A private key: its algorithm, and a text that stands for its numbers.
pub record Material : Type 0 where
  pub alg : Alg
  pub secret : String

-- `unreadable` is no PEM, or a block whose bytes do not parse.
pub data Pem : Type 0 where
  unreadable other_block pkcs8_other : Pem
  pkcs1_rsa pkcs8_rsa pkcs8_ec : String → Pem

-- Nanoseconds since 1970.
pub record Key : Type 0 where
  pub kid : String
  pub material : Material
  pub created_at : ℕ

-- `alg` is `none` where it is absent; `created_at` is the second that the text names, `none` where it
-- does not parse.
pub record KeyJson : Type 0 where
  pub kid : String
  pub alg : Option Alg
  pub pem : Pem
  pub created_at : Option ℕ

pub data StoreError : Type 0 where
  parameter_not_found failed : StoreError

-- `j.Alg != "" && j.Alg != alg`
abbrev pub contradicts : Option Alg → Alg → Bool
contradicts none a = false
contradicts (some b) a = not (same_alg b a)

abbrev pub dated : String → Material → Option ℕ → Result StoreError Key
dated kid m none = err failed
dated kid m (some t) = ok (record { kid = kid; material = m; created_at = t * second })

abbrev pub checked : KeyJson → Option Material → Result StoreError Key
checked j none = err failed
checked j (some m) = if contradicts j.alg m.alg then err failed else dated j.kid m j.created_at

-- The switch of ParseKey on the block and on the key in it.
abbrev pub material_of : Pem → Option Material
material_of (pkcs1_rsa n) = some (record { alg = rs256; secret = n })
material_of (pkcs8_rsa n) = some (record { alg = rs256; secret = n })
material_of (pkcs8_ec n) = some (record { alg = es256; secret = n })
material_of _ = none

unfoldable pub parse_key : KeyJson → Result StoreError Key
parse_key j = checked j (material_of j.pem)

abbrev pub pem_of : Alg → String → Pem
pem_of rs256 n = pkcs8_rsa n
pem_of es256 n = pkcs8_ec n

unfoldable pub to_json : Key → KeyJson
to_json k = record {
  kid = k.kid;
  alg = some k.material.alg;
  pem = pem_of k.material.alg k.material.secret;
  created_at = some (k.created_at / second);
}
