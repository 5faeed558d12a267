-- ===== src/Action/Keeps.antt =====
-- Invariants of actions, a rule for each way to build one.
use ctech_account.Common.{◌≡◌, refl, subst, Bool, true, false, if◌then◌else◌}
use ctech_account.Action.{Action, Result, ok, err, resume, return, fail, guard, ◌>>=◌, ◌>>◌}

-- The world that the action leaves satisfies `P`, whatever it returns.
pub record Keeps {W E A : Type 0} (P : W → Type 0) (m : Action W E A) : Type 0 where
  pub at : (w : W) → P w → P (m w).1

module _ {W E A : Type 0} {P : W → Type 0} where
  pub Keeps-return : (a : A) → Keeps {E = E} P (return a)
  Keeps-return a = record { at = λ w h. h }

  pub Keeps-fail : (e : E) → Keeps {A = A} P (fail e)
  Keeps-fail e = record { at = λ w h. h }

  pub Keeps-if :
      (b : Bool) (m n : Action W E A)
      → (b ≡ true → Keeps P m)
      → (b ≡ false → Keeps P n)
      → Keeps P (if b then m else n)
  Keeps-if true m n hm hn = hm refl
  Keeps-if false m n hm hn = hn refl

module _ {W E A B : Type 0} {P : W → Type 0} where
  Keeps-resume :
      (r : Result E A) (f : A → Action W E B)
      → ((a : A) → Keeps P (f a))
      → (w : W) → P w
      → P (resume r f w).1
  Keeps-resume (ok a) f hf w h = (hf a).at w h
  Keeps-resume (err e) f hf w h = h

  pub Keeps-bind :
      (m : Action W E A) (f : A → Action W E B)
      → Keeps P m
      → ((a : A) → Keeps P (f a))
      → Keeps P (m >>= f)
  unfolding ◌>>=◌
  Keeps-bind m f hm hf = record {
    at = λ w h. let (r, w') = m w in Keeps-resume r f hf w' (hm.at w h);
  }

  pub Keeps-then : (m : Action W E A) (n : Action W E B) → Keeps P m → Keeps P n → Keeps P (m >> n)
  unfolding ◌>>◌
  Keeps-then m n hm hn = Keeps-bind m (λ _. n) hm (λ _. hn)

module _ {W E B : Type 0} {P : W → Type 0} where
  -- What follows a guard may use that its test passed.
  pub Keeps-guard :
      (b : Bool) (e : E) (n : Action W E B) → (b ≡ true → Keeps P n) → Keeps P (guard b e >> n)
  unfolding ◌>>◌ guard
  Keeps-guard true e n hn = record { at = λ w h. (hn refl).at w h }
  Keeps-guard false e n hn = record { at = λ w h. h }

-- The action keeps `P`, and what it returns without an error satisfies `Q`.
pub record Gives {W E A : Type 0} (P : W → Type 0) (Q : A → Type 0) (m : Action W E A)
    : Type 0 where
  pub keeps : (w : W) → P w → P (m w).1
  pub gives : (w : W) → P w → (a : A) → (m w).0 ≡ ok a → Q a

module _ {W E A B : Type 0} {P : W → Type 0} where
  give_resume :
      (Q : A → Type 0) (r : Result E A) (f : A → Action W E B)
      → ((a : A) → r ≡ ok a → Q a)
      → ((a : A) → Q a → Keeps P (f a))
      → (w : W) → P w
      → P (resume r f w).1
  give_resume Q (ok a) f hq hf w h = (hf a (hq a refl)).at w h
  give_resume Q (err e) f hq hf w h = h

  pub Gives-bind :
      (Q : A → Type 0) (m : Action W E A) (f : A → Action W E B)
      → Gives P Q m
      → ((a : A) → Q a → Keeps P (f a))
      → Keeps P (m >>= f)
  unfolding ◌>>=◌
  Gives-bind Q m f hm hf = record {
    at = λ w h. let (r, w') = m w in give_resume Q r f (hm.gives w h) hf w' (hm.keeps w h);
  }

pub Keeps-check :
    {W E : Type 0} {P : W → Type 0} (b : Bool) (e : E) → Keeps {A = Unit {0}} P (guard b e)
unfolding guard
Keeps-check true e = record { at = λ w h. h }
Keeps-check false e = record { at = λ w h. h }

pub ruleset keeps_rules =
    (Keeps-check, Keeps-return, Keeps-fail, Keeps-if, Keeps-guard, Keeps-then, Keeps-bind)

module _ {W E B : Type 0} {P : W → Type 0} where
  pub Gives-return : (Q : B → Type 0) (b : B) → Q b → Gives {E = E} P Q (return b)
  Gives-return Q b q = record {
    keeps = λ w h. h;
    gives = λ w h a e. let p : b ≡ a = cc in subst Q p q;
  }

  pub Gives-if :
      (Q : B → Type 0) (b : Bool) (m n : Action W E B)
      → Gives P Q m
      → Gives P Q n
      → Gives P Q (if b then m else n)
  Gives-if Q true m n x y = x
  Gives-if Q false m n x y = y

module _ {W E A B : Type 0} {P : W → Type 0} where
  -- The last step of a chain computes a value of which `Q` holds.
  pub Gives-map :
      (Q : B → Type 0) (m : Action W E A) (f : A → B)
      → Keeps P m
      → ((a : A) → Q (f a))
      → Gives P Q (m >>= (λ a. return (f a)))
  unfolding ◌>>=◌
  Gives-map Q m f k q = record {
    keeps = λ w h. let (r, w') = m w in kept r w' (k.at w h);
    gives = λ w h b e. let (r, w') = m w in given r w' b e;
  }
    where
      kept : (r : Result E A) (w' : W) → P w' → P (resume r (λ a. return (f a)) w').1
      kept (ok a) w' h = h
      kept (err e) w' h = h

      given : (r : Result E A) (w' : W) (b : B) → (resume r (λ a. return (f a)) w').0 ≡ ok b → Q b
      given (ok a) w' b e = let p : f a ≡ b = cc in subst Q p (q a)
      given (err c) w' b e = cc
