-- ===== src/Dynamo/Contract.antt =====
-- The contract of the DynamoDB client (gopkg.aoctech.app/api-commons/dynamo, the AWS SDK and the
-- service behind them), which is no code of this repository: what the repositories of
-- api/internal/domain rely on. A table's items are addressed by keys `K`, and have contents `R`.
use ctech_account.Common.{
  ◌≡◌, refl, ◌⊎◌, ◌≢◌, inl, inr, Bool, true, false, ◌&&◌, Option, some, List, [], ◌∷◌, All,
  if◌then◌else◌,
}

-- One write of a transaction: its condition expression on the item in place, and what it leaves there.
pub record Write (K R : Type 0) : Type 0 where
  pub key : K
  pub condition : Option R → Bool
  pub effect : Option R → Option R

-- `rejected` carries CancellationReasons, in the order of the writes: true where ConditionalCheckFailed.
pub data Outcome : Type 0 where
  committed : Outcome
  rejected : List Bool → Outcome
  conflict : Outcome
  failed : Outcome

pub data Reply (A : Type 0) : Type 0 where
  done : A → Reply A
  failed : Reply A

module _ {K R : Type 0} (same : K → K → Bool) where
  abbrev pub put_at : K → Option R → (K → Option R) → K → Option R
  put_at k r v j = if same k j then r else v j

  -- All conditions, each on the items as the earlier writes leave them: the service refuses a
  -- transaction that names an item twice, so this is the state before the transaction.
  abbrev pub holds : List (Write K R) → (K → Option R) → Bool
  holds [] v = true
  holds (x ∷ xs) v = x.condition (v x.key) && holds xs (put_at x.key (x.effect (v x.key)) v)

  abbrev pub write_all : List (Write K R) → (K → Option R) → K → Option R
  write_all [] v = v
  write_all (x ∷ xs) v = write_all xs (put_at x.key (x.effect (v x.key)) v)

-- `view` is what a strongly consistent read of each key would find. `Seen w k r` says that `k` has
-- held `r` at some time: an eventually consistent index may answer from any such moment. `get_item` is
-- the SDK's GetItem with ConsistentRead set; `base_get` is GetItem of api-commons' Base, of which the
-- repository says nothing on consistency: it may answer what the key held before, or that it holds nothing.
-- A call may fail at any time; a write that fails may have been applied, if only the answer was lost.
pub record Dynamo (K R Q : Type 0) (same : K → K → Bool) : Type 1 where
  pub World : Type 0
  pub view : World → K → Option R
  pub Seen : World → K → R → Type 0
  pub get_item : K → World → Reply (Option R) × World
  pub base_get : K → World → Reply (Option R) × World
  pub query : Q → World → Reply (List R) × World
  pub transact : List (Write K R) → World → Outcome × World
  pub same_iff : (a b : K) → (same a b ≡ true) × (a ≡ b) ⊎ (same a b ≡ false) × (a ≢ b)
  pub seen_now : (w : World) (k : K) (r : R) → view w k ≡ some r → Seen w k r
  pub get_value : (k : K) (w : World) (r : Option R) → (get_item k w).0 ≡ done r → view w k ≡ r
  pub get_view : (k : K) (w : World) → view (get_item k w).1 ≡ view w
  pub get_seen : (k : K) (w : World) (j : K) (r : R) → Seen (get_item k w).1 j r → Seen w j r
  pub base_value : (k : K) (w : World) (r : R) → (base_get k w).0 ≡ done (some r) → Seen w k r
  pub base_view : (k : K) (w : World) → view (base_get k w).1 ≡ view w
  pub base_seen : (k : K) (w : World) (j : K) (r : R) → Seen (base_get k w).1 j r → Seen w j r
  pub query_value :
      (q : Q) (w : World) (rs : List R)
      → (query q w).0 ≡ done rs
      → All (λ r. (k : K) × Seen w k r) rs
  pub query_view : (q : Q) (w : World) → view (query q w).1 ≡ view w
  pub query_seen : (q : Q) (w : World) (j : K) (r : R) → Seen (query q w).1 j r → Seen w j r
  pub transact_committed :
      (xs : List (Write K R)) (w : World)
      → (transact xs w).0 ≡ committed
      → (holds same xs (view w) ≡ true) × (view (transact xs w).1 ≡ write_all same xs (view w))
  pub transact_rejected :
      (xs : List (Write K R)) (w : World) (bs : List Bool)
      → (transact xs w).0 ≡ rejected bs
      → (holds same xs (view w) ≡ false) × (view (transact xs w).1 ≡ view w)
  pub transact_conflict :
      (xs : List (Write K R)) (w : World)
      → (transact xs w).0 ≡ conflict
      → view (transact xs w).1 ≡ view w
  pub transact_failed :
      (xs : List (Write K R)) (w : World)
      → (transact xs w).0 ≡ Outcome.failed
      → (view (transact xs w).1 ≡ view w)
        ⊎ (holds same xs (view w) ≡ true) × (view (transact xs w).1 ≡ write_all same xs (view w))
  pub transact_seen :
      (xs : List (Write K R)) (w : World) (j : K) (r : R)
      → Seen (transact xs w).1 j r
      → Seen w j r ⊎ (view (transact xs w).1 j ≡ some r)

module _ {K R Q : Type 0} {same : K → K → Bool} (d : Dynamo K R Q same) where
  open d use {World, view, transact}

  -- GetItem of Base reads what the key holds now, as it does where Base sets ConsistentRead.
  abbrev pub IsCurrent : Type 0
  IsCurrent = (k : K) (w : World) (r : Option R) → (d.base_get k w).0 ≡ done r → view w k ≡ r

  outcome_cases :
      (o : Outcome)
      → (o ≡ committed)
        ⊎ ((bs : List Bool) × (o ≡ rejected bs))
        ⊎ (o ≡ conflict)
        ⊎ (o ≡ Outcome.failed)
  outcome_cases committed = inl refl
  outcome_cases (rejected bs) = inr (inl (bs, refl))
  outcome_cases conflict = inr (inr (inl refl))
  outcome_cases Outcome.failed = inr (inr (inr refl))

  -- Whatever a transaction reports, it was applied whole under its conditions, or not at all.
  pub transact_atomic :
      (xs : List (Write K R)) (w : World)
      → (view (transact xs w).1 ≡ view w)
        ⊎ (holds same xs (view w) ≡ true) × (view (transact xs w).1 ≡ write_all same xs (view w))
  transact_atomic xs w = elim (outcome_cases (transact xs w).0) [
    | inl e ↦ inr (d.transact_committed xs w e)
    | inr (inl (bs, e)) ↦ inl (d.transact_rejected xs w bs e).1
    | inr (inr (inl e)) ↦ inl (d.transact_conflict xs w e)
    | inr (inr (inr e)) ↦ d.transact_failed xs w e
  ]
