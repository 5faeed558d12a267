-- ===== src/Dynamo/Tables.antt =====
-- Properties of the tables under the calls of a repository and of others than the store.
use ctech_account.Common.{◌≡◌, sym, subst, inl, inr, Bool, true, Option, List}
use ctech_account.Action.{Action, Result}
use ctech_account.Action.Keeps.{Keeps}
use ctech_account.Action.Turns.{Turns}
use ctech_account.Dynamo.Contract.{Write, Outcome, Reply, Dynamo, holds, write_all, transact_atomic}
use ctech_account.Dynamo.Calls.{read, read_base, ask, write, call, try, answer}

module _ {K R Q : Type 0} {same : K → K → Bool} (d : Dynamo K R Q same) where
  open d use {World, view}

  -- The call does not touch the tables.
  pub record Silent {A : Type 0} (f : World → A × World) : Type 0 where
    pub view_same : (w : World) → view (f w).1 ≡ view w

  -- A property of the tables.
  module _ (P : (K → Option R) → Type 0) where
    pub record Tables (w : World) : Type 0 where
      pub in_view : P (view w)

    same_view : (w w' : World) → view w' ≡ view w → Tables w → Tables w'
    same_view w w' e h = record { in_view = subst P (sym e) h.in_view }

    -- The transaction keeps the property.
    pub record Sound (xs : List (Write K R)) : Type 0 where
      pub sound : (v : K → Option R) → P v → holds same xs v ≡ true → P (write_all same xs v)

    pub Keeps-write :
        {E : Type 0} (f : Outcome → Result E (Unit {0})) (xs : List (Write K R))
        → Sound xs
        → Keeps Tables (write d f xs)
    unfolding write
    Keeps-write f xs s = record {
      at = λ w h. elim (transact_atomic d xs w) [
        | inl e ↦ same_view w (d.transact xs w).1 e h
        | inr (c, e) ↦ record { in_view = subst P (sym e) (s.sound (view w) h.in_view c) }
      ];
    }

    pub Keeps-read :
        {E A : Type 0} (f : Reply (Option R) → Result E A) (k : K) → Keeps Tables (read d f k)
    unfolding read
    Keeps-read f k = record { at = λ w h. same_view w (d.get_item k w).1 (d.get_view k w) h }

    pub Keeps-read_base :
        {E A : Type 0} (f : Reply (Option R) → Result E A) (k : K) → Keeps Tables (read_base d f k)
    unfolding read_base
    Keeps-read_base f k = record { at = λ w h. same_view w (d.base_get k w).1 (d.base_view k w) h }

    pub Keeps-ask :
        {E A : Type 0} (f : Reply (List R) → Result E A) (q : Q) → Keeps Tables (ask d f q)
    unfolding ask
    Keeps-ask f q = record { at = λ w h. same_view w (d.query q w).1 (d.query_view q w) h }

    pub Keeps-call :
        {E A : Type 0} (f : World → A × World) → Silent f → Keeps {E = E} Tables (call d f)
    unfolding call
    Keeps-call f q = record { at = λ w h. same_view w (f w).1 (q.view_same w) h }

    -- A call that may return an error.
    pub Keeps-Silent : {E A : Type 0} (f : Action World E A) → Silent f → Keeps Tables f
    Keeps-Silent f q = record { at = λ w h. same_view w (f w).1 (q.view_same w) h }

    pub Keeps-try : {E A : Type 0} (m : Action World E A) → Keeps Tables m → Keeps Tables (try d m)
    unfolding try
    Keeps-try m k = record { at = λ w h. k.at w h }

    pub Keeps-answer : {E A : Type 0} (r : Result E A) → Keeps Tables (answer d r)
    unfolding answer
    Keeps-answer r = record { at = λ w h. h }

  -- A transaction that takes the tables from one property to another, also when it is not applied.
  module _ (P R' : (K → Option R) → Type 0) where
    pub Turns-write :
        {E : Type 0} (f : Outcome → Result E (Unit {0})) (xs : List (Write K R))
        → ((v : K → Option R) → P v → R' v)
        → ((v : K → Option R) → P v → holds same xs v ≡ true → R' (write_all same xs v))
        → Turns (Tables P) (Tables R') (write d f xs)
    unfolding write
    Turns-write f xs weaken s = record {
      at = λ w h. elim (transact_atomic d xs w) [
        | inl e ↦ record { in_view = subst R' (sym e) (weaken (view w) h.in_view) }
        | inr (c, e) ↦ record { in_view = subst R' (sym e) (s (view w) h.in_view c) }
      ];
    }
