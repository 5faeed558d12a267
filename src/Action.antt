-- ===== src/Action.antt =====
-- Go methods that read and write a shared store and return an error value: an action takes the world
-- and returns the result with the world it left, also beside an error.
pub mod Keeps
pub mod Turns
use ctech_account.Common.{◌≡◌, refl, Bool, true, false}

pub data Result {ℓ} (E A : Type ℓ) : Type ℓ where
  ok : A → Result E A
  err : E → Result E A

abbrev pub Action {ℓ} : Type ℓ → Type ℓ → Type ℓ → Type ℓ
Action W E A = W → Result E A × W

module _ {ℓ} {W E A : Type ℓ} where
  abbrev pub return : A → Action W E A
  return a w = (ok a, w)

  abbrev pub fail : E → Action W E A
  fail e w = (err e, w)

module _ {ℓ} {W E A B : Type ℓ} where
  -- What follows a call: its continuation, or `return err`.
  abbrev pub resume : Result E A → (A → Action W E B) → Action W E B
  resume (ok a) f w = f a w
  resume (err e) f w = (err e, w)

  infixl 5 ◌>>=◌ ◌>>◌
  unfoldable pub ◌>>=◌ : Action W E A → (A → Action W E B) → Action W E B
  ◌>>=◌ m f w = let (r, w') = m w in resume r f w'

  unfoldable pub ◌>>◌ : Action W E A → Action W E B → Action W E B
  unfolding ◌>>=◌
  m >> n = m >>= λ _. n

-- `if !b { return e }`
unfoldable pub guard {ℓ} : {W E : Type ℓ} → Bool → E → Action W E (Unit {ℓ})
guard true e w = (ok tt, w)
guard false e w = (err e, w)
