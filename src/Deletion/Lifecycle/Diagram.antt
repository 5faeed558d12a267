-- ===== src/Deletion/Lifecycle/Diagram.antt =====
-- The state diagram of a request, read from the source's documents and not from its code.
use ctech_account.Common.{◌≡◌, Bool, true, false, ◌||◌, Option, none, some, arith}
use ctech_account.Deletion.Model.{
  State, awaiting_confirmation, pending, cancelled, expired, locked, purging, stalled, blocked,
  purged, same_state,
}

-- A state and another that may follow it.
abbrev pub follows : State → State → Bool
follows awaiting_confirmation expired = true
follows awaiting_confirmation pending = true
follows pending cancelled = true
follows pending blocked = true
follows pending locked = true
follows blocked cancelled = true
follows locked purging = true
follows purging stalled = true
follows purging purged = true
follows stalled purging = true
follows _ _ = false

-- A write may leave the state as it is.
abbrev pub edge : State → State → Bool
edge a b = same_state a b || follows a b

-- Which states a write may put in place of another; it may leave the state as it is.
pub record Moves : Type 0 where
  pub may_move : State → State → Bool
  pub may_stay : (a : State) → may_move a a ≡ true

-- The states in which a request may be found later, `none` before it is made.
pub data Reaches (m : Moves) (s : Option State) : Option State → Type 0 where
  still : Reaches m s s
  made : Reaches m s none → Reaches m s (some awaiting_confirmation)
  moved : {a b : State} → Reaches m s (some a) → m.may_move a b ≡ true → Reaches m s (some b)

pub same_state_lem : (a b : State) → same_state a b ≡ true → a ≡ b
same_state_lem a b h = ground arith

pub same_state_refl : (a : State) → same_state a a ≡ true
same_state_refl a = ground arith

pub edge_refl : (a : State) → edge a a ≡ true
edge_refl a = ground arith

abbrev pub documented : Moves
documented = record { may_move = edge; may_stay = edge_refl }

abbrev pub unmoved : Moves
unmoved = record { may_move = same_state; may_stay = same_state_refl }
