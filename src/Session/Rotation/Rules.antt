-- ===== src/Session/Rotation/Rules.antt =====
-- Rules for what a call has achieved when it returns no error.
use ctech_account.Common.{◌≡◌, refl, Bool, true, false, if◌then◌else◌}
use ctech_account.Action.{Result, ok, err, resume, guard, fail, ◌>>=◌, ◌>>◌}
use ctech_account.Session.Model.{SessionError}
use ctech_account.Session.Env.{Env}
use ctech_account.Session.Repository.{Op, try}
use ctech_account.Session.Service.{drop_and_refuse}

module _ (env : Env) where
  open env use {db}

  -- When the call returns no error, the world it leaves satisfies `T`.
  pub record Ensures {A : Type 0} (T : db.World → Type 0) (m : Op env A) : Type 0 where
    pub at : (w : db.World) (a : A) → (m w).0 ≡ ok a → T (m w).1

  -- What the call returns without an error satisfies `Q`.
  pub record Yields {A : Type 0} (Q : A → Type 0) (m : Op env A) : Type 0 where
    pub at : (w : db.World) (a : A) → (m w).0 ≡ ok a → Q a

  pub Yields-any : {A : Type 0} (m : Op env A) → Yields (λ _. Unit {0}) m
  Yields-any m = record { at = λ w a e. tt }

  pub Yields-try :
      {A : Type 0} (Q : A → Type 0) (m : Op env A)
      → Yields Q m
      → Yields (λ (r : Result SessionError A). (a : A) → r ≡ ok a → Q a) (try env m)
  unfolding try
  Yields-try Q m y = record { at = λ w r e a p. y.at w a cc }

  pub Yields-bind :
      {A B : Type 0} {R : B → Type 0} (Q : A → Type 0) (m : Op env A) (f : A → Op env B)
      → Yields Q m
      → ((a : A) → Q a → Yields R (f a))
      → Yields R (m >>= f)
  unfolding ◌>>=◌
  Yields-bind {R} Q m f y g = record { at = λ w b p. go (m w).0 (m w).1 (y.at w) b p }
    where
      go :
          (x : Result SessionError _) (w' : db.World)
          → ((a : _) → x ≡ ok a → Q a)
          → (b : _) → (resume x f w').0 ≡ ok b
          → R b
      go (ok a) w' q b p = (g a (q a refl)).at w' b p
      go (err c) w' q b p = cc

  pub Yields-fail : {A : Type 0} {Q : A → Type 0} (e : SessionError) → Yields Q (fail e)
  Yields-fail e = record { at = λ w a p. cc }

  pub Yields-if :
      {A : Type 0} {Q : A → Type 0} (b : Bool) (m n : Op env A)
      → Yields Q m
      → Yields Q n
      → Yields Q (if b then m else n)
  Yields-if true m n x y = x
  Yields-if false m n x y = y

  pub Yields-refuse :
      {A : Type 0} {Q : A → Type 0} (m : Op env (Unit {0})) (e : SessionError)
      → Yields Q (drop_and_refuse env m e)
  unfolding drop_and_refuse try ◌>>=◌
  Yields-refuse m e = record { at = λ w a p. cc }

  pub Yields-guard :
      {B : Type 0} {Q : B → Type 0} (b : Bool) (c : SessionError) (n : Op env B)
      → (b ≡ true → Yields Q n)
      → Yields Q (guard b c >> n)
  unfolding ◌>>◌ guard ◌>>=◌
  Yields-guard true c n g = g refl
  Yields-guard false c n g = record { at = λ w a p. cc }

  module _ {T : db.World → Type 0} where
    pub Ensures-bind :
        {A B : Type 0} (Q : A → Type 0) (m : Op env A) (f : A → Op env B)
        → Yields Q m
        → ((a : A) → Q a → Ensures T (f a))
        → Ensures T (m >>= f)
    unfolding ◌>>=◌
    Ensures-bind Q m f y g = record { at = λ w b p. go (m w).0 (m w).1 (y.at w) b p }
      where
        go :
            (x : Result SessionError _) (w' : db.World)
            → ((a : _) → x ≡ ok a → Q a)
            → (b : _) → (resume x f w').0 ≡ ok b
            → T (resume x f w').1
        go (ok a) w' q b p = (g a (q a refl)).at w' b p
        go (err c) w' q b p = cc

    pub Ensures-fail : {A : Type 0} (e : SessionError) → Ensures {A = A} T (fail e)
    Ensures-fail e = record { at = λ w a p. cc }

    pub Ensures-refuse :
        {A : Type 0} (m : Op env (Unit {0})) (e : SessionError)
        → Ensures {A = A} T (drop_and_refuse env m e)
    unfolding drop_and_refuse try ◌>>=◌
    Ensures-refuse m e = record { at = λ w a p. cc }

    pub Ensures-if :
        {A : Type 0} (b : Bool) (m n : Op env A)
        → Ensures T m
        → Ensures T n
        → Ensures T (if b then m else n)
    Ensures-if true m n x y = x
    Ensures-if false m n x y = y

    pub Ensures-guard :
        {B : Type 0} (b : Bool) (c : SessionError) (n : Op env B)
        → Ensures T n
        → Ensures T (guard b c >> n)
    unfolding ◌>>◌ guard ◌>>=◌
    Ensures-guard true c n g = g
    Ensures-guard false c n g = record { at = λ w a p. cc }
