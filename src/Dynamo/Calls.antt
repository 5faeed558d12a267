-- ===== src/Dynamo/Calls.antt =====
-- Actions on a store that meets the contract: the reads and writes that a repository is made of, and
-- calls of other things than the store.
use ctech_account.Common.{Bool, Option, List}
use ctech_account.Action.{Action, Result, ok}
use ctech_account.Dynamo.Contract.{Write, Outcome, Reply, Dynamo}

module _ {K R Q : Type 0} {same : K → K → Bool} (d : Dynamo K R Q same) {E : Type 0} where
  open d use {World}

  unfoldable pub read : {A : Type 0} → (Reply (Option R) → Result E A) → K → Action World E A
  read f k w = let (r, w') = d.get_item k w in (f r, w')

  unfoldable pub read_base : {A : Type 0} → (Reply (Option R) → Result E A) → K → Action World E A
  read_base f k w = let (r, w') = d.base_get k w in (f r, w')

  unfoldable pub ask : {A : Type 0} → (Reply (List R) → Result E A) → Q → Action World E A
  ask f q w = let (r, w') = d.query q w in (f r, w')

  unfoldable pub write :
      (Outcome → Result E (Unit {0})) → List (Write K R) → Action World E (Unit {0})
  write f xs w = let (o, w') = d.transact xs w in (f o, w')

  -- A call that returns no error.
  unfoldable pub call : {A : Type 0} → (World → A × World) → Action World E A
  call f w = let (a, w') = f w in (ok a, w')

  -- The answer of an action, error or not, as a value.
  unfoldable pub try : {A : Type 0} → Action World E A → Action World E (Result E A)
  try m w = let (r, w') = m w in (ok r, w')

  unfoldable pub answer : {A : Type 0} → Result E A → Action World E A
  answer r w = (r, w)
