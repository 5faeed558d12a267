-- ===== src/Action/Turns.antt =====
-- Actions that start in one property of the world and end in a weaker one.
use ctech_account.Common.{◌≡◌, refl, Bool, true, false}
use ctech_account.Action.{Action, Result, ok, err, resume, guard, ◌>>=◌, ◌>>◌}
use ctech_account.Action.Keeps.{Keeps}

-- From a world with `P` the action leaves one with `Q`, whatever it returns.
pub record Turns {W E A : Type 0} (P Q : W → Type 0) (m : Action W E A) : Type 0 where
  pub at : (w : W) → P w → Q (m w).1

module _ {W E A B : Type 0} {P Q : W → Type 0} (weaken : (w : W) → P w → Q w) where
  -- First an action that keeps `P`.
  pub Turns-bind :
      (m : Action W E A) (f : A → Action W E B)
      → Keeps P m
      → ((a : A) → Turns P Q (f a))
      → Turns P Q (m >>= f)
  unfolding ◌>>=◌
  Turns-bind m f hm hf = record { at = λ w h. let (r, w') = m w in go r w' (hm.at w h) }
    where
      go : (r : Result E A) (w' : W) → P w' → Q (resume r f w').1
      go (ok a) w' h = (hf a).at w' h
      go (err e) w' h = weaken w' h

module _ {W E A B : Type 0} {P Q : W → Type 0} where
  -- What follows may only use `Q`.
  pub Turns-then :
      (m : Action W E A) (n : Action W E B) → Turns P Q m → Keeps Q n → Turns P Q (m >> n)
  unfolding ◌>>◌ ◌>>=◌
  Turns-then m n hm hn = record { at = λ w h. let (r, w') = m w in go r w' (hm.at w h) }
    where
      go : (r : Result E A) (w' : W) → Q w' → Q (resume r (λ _. n) w').1
      go (ok a) w' h = hn.at w' h
      go (err e) w' h = h

module _ {W E A B : Type 0} {Q : W → Type 0} where
  -- An action whose value tells that `L` holds, and what follows from `L`.
  pub Keeps-Turns :
      (L : A → W → Type 0) (m : Action W E A) (f : A → Action W E B)
      → Keeps Q m
      → ((w : W) → Q w → (a : A) → (m w).0 ≡ ok a → L a (m w).1)
      → ((a : A) → Turns (L a) Q (f a))
      → Keeps Q (m >>= f)
  unfolding ◌>>=◌
  Keeps-Turns L m f keep learn hf = record {
    at = λ w h. let (r, w') = m w in go r w' (keep.at w h) (learn w h);
  }
    where
      go : (r : Result E A) (w' : W) → Q w' → ((a : A) → r ≡ ok a → L a w') → Q (resume r f w').1
      go (ok a) w' h l = (hf a).at w' (l a refl)
      go (err e) w' h l = h

module _ {W E B : Type 0} {P Q : W → Type 0} (weaken : (w : W) → P w → Q w) where
  pub Turns-guard :
      (b : Bool) (e : E) (n : Action W E B) → (b ≡ true → Turns P Q n) → Turns P Q (guard b e >> n)
  unfolding ◌>>◌ ◌>>=◌ guard
  Turns-guard true e n hn = hn refl
  Turns-guard false e n hn = record { at = weaken }
