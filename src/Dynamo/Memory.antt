-- ===== src/Dynamo/Memory.antt =====
-- A store in memory that meets the contract of `Dynamo`, with a schedule of faults: the witness that
-- the contract can hold, and what the tests and examples run on.
use ctech_account.Common.{
  ◌≡◌, refl, subst, ◌⊎◌, ◌≢◌, inl, inr, Bool, true, false, not, Option, none, some, List, [], ◌∷◌,
  All, any, if◌then◌else◌,
}
use ctech_account.Dynamo.Contract.{
  Write, Outcome, committed, rejected, conflict, Reply, done, Dynamo, put_at, holds, write_all,
  IsCurrent,
}

-- What befalls the next call: nothing; it fails; it is applied and its answer lost; it conflicts with
-- another transaction; an index, or a read that may lag, answers from the state before the last write.
pub data Fault : Type 0 where
  pass drop lose clash stale : Fault

module _ {K R Q : Type 0} (same : K → K → Bool) (select : Q → K → R → Bool) where
  pub record Memory : Type 0 where
    pub items : K → Option R
    pub keys : List K
    pub past : List (K → Option R)
    pub faults : List Fault

  abbrev pub next_fault : List Fault → Fault
  next_fault [] = pass
  next_fault (f ∷ fs) = f

  abbrev pub later : List Fault → List Fault
  later [] = []
  later (f ∷ fs) = fs

  abbrev pub tick : Memory → Memory
  tick w = record w { faults = later w.faults }

  abbrev pub Recorded : K → R → List (K → Option R) → Type 0
  Recorded k r [] = ⊥
  Recorded k r (v ∷ vs) = (v k ≡ some r) ⊎ Recorded k r vs

  abbrev pub WasSeen : Memory → K → R → Type 0
  WasSeen w k r = (w.items k ≡ some r) ⊎ Recorded k r w.past

  abbrev pub get_item : K → Memory → Reply (Option R) × Memory
  get_item k w = (elim (next_fault w.faults) [ drop ↦ Reply.failed | _ ↦ done (w.items k) ], tick w)

  abbrev pub chosen : Q → K → Option R → List R → List R
  chosen q k none rs = rs
  chosen q k (some r) rs = if select q k r then r ∷ rs else rs

  abbrev pub answer : Q → (K → Option R) → List K → List R
  answer q v [] = []
  answer q v (k ∷ ks) = chosen q k (v k) (answer q v ks)

  abbrev pub last_of : List (K → Option R) → (K → Option R) → K → Option R
  last_of [] v = v
  last_of (u ∷ us) v = u

  abbrev pub query : Q → Memory → Reply (List R) × Memory
  query q w = (
    elim (next_fault w.faults) [
      | drop ↦ Reply.failed
      | stale ↦ done (answer q (last_of w.past w.items) w.keys)
      | _ ↦ done (answer q w.items w.keys)
    ],
    tick w,
  )

  abbrev pub add_keys : List (Write K R) → List K → List K
  add_keys [] ks = ks
  add_keys (x ∷ xs) ks =
      let rest = add_keys xs ks in if any (same x.key) rest then rest else x.key ∷ rest

  abbrev pub reasons : List (Write K R) → (K → Option R) → List Bool
  reasons [] v = []
  reasons (x ∷ xs) v =
      not (x.condition (v x.key)) ∷ reasons xs (put_at same x.key (x.effect (v x.key)) v)

  abbrev pub store : List (Write K R) → Memory → Memory
  store xs w = record {
    items = write_all same xs w.items;
    keys = add_keys xs w.keys;
    past = w.items ∷ w.past;
    faults = later w.faults;
  }

  abbrev pub attempt : Fault → Bool → List (Write K R) → Memory → Outcome × Memory
  attempt pass true xs w = (committed, store xs w)
  attempt stale true xs w = (committed, store xs w)
  attempt lose true xs w = (Outcome.failed, store xs w)
  attempt drop b xs w = (Outcome.failed, tick w)
  attempt clash b xs w = (conflict, tick w)
  attempt pass false xs w = (rejected (reasons xs w.items), tick w)
  attempt stale false xs w = (rejected (reasons xs w.items), tick w)
  attempt lose false xs w = (Outcome.failed, tick w)

  abbrev pub transact : List (Write K R) → Memory → Outcome × Memory
  transact xs w = attempt (next_fault w.faults) (holds same xs w.items) xs w

  answer_seen :
      (q : Q) (v : K → Option R) (w : Memory) (ks : List K)
      → ((k : K) (r : R) → v k ≡ some r → WasSeen w k r)
      → All (λ r. (k : K) × WasSeen w k r) (answer q v ks)
  answer_seen q v w [] h = tt
  answer_seen q v w (k ∷ ks) h = go (v k) refl (answer_seen q v w ks h)
    where
      go :
          (o : Option R)
          → v k ≡ o
          → All (λ r. (k : K) × WasSeen w k r) (answer q v ks)
          → All (λ r. (k : K) × WasSeen w k r) (chosen q k o (answer q v ks))
      go none e rest = rest
      go (some r) e rest = pick (select q k r)
        where
          pick :
              (b : Bool)
              → All (λ r. (k : K) × WasSeen w k r) (if b then r ∷ answer q v ks else answer q v ks)
          pick true = ((k, h k r e), rest)
          pick false = rest

  last_of_seen :
      (w : Memory) (us : List (K → Option R)) (k : K) (r : R)
      → last_of us w.items k ≡ some r
      → (w.items k ≡ some r) ⊎ Recorded k r us
  last_of_seen w [] k r h = inl h
  last_of_seen w (u ∷ us) k r h = inr (inl h)

  pub query_value :
      (q : Q) (w : Memory) (rs : List R)
      → (query q w).0 ≡ done rs
      → All (λ r. (k : K) × WasSeen w k r) rs
  query_value q w rs = go (next_fault w.faults)
    where
      now : All (λ r. (k : K) × WasSeen w k r) (answer q w.items w.keys)
      now = answer_seen q w.items w w.keys (λ k r h. inl h)

      before : All (λ r. (k : K) × WasSeen w k r) (answer q (last_of w.past w.items) w.keys)
      before = answer_seen q (last_of w.past w.items) w w.keys (last_of_seen w w.past)

      same_list :
          (l : List R)
          → All (λ r. (k : K) × WasSeen w k r) l
          → done l ≡ done rs
          → All (λ r. (k : K) × WasSeen w k r) rs
      same_list l h e = let p : l ≡ rs = cc in subst (All (λ r. (k : K) × WasSeen w k r)) p h

      go :
          (f : Fault)
          → (elim f [
            | drop ↦ Reply.failed
            | stale ↦ done (answer q (last_of w.past w.items) w.keys)
            | _ ↦ done (answer q w.items w.keys)
          ])
            ≡ done rs
          → All (λ r. (k : K) × WasSeen w k r) rs
      go pass e = same_list _ now e
      go drop e = cc
      go lose e = same_list _ now e
      go clash e = same_list _ now e
      go stale e = same_list _ before e

  -- What a read of Base finds, when it lags, in a store where that may happen or not.
  abbrev pub late : Bool → Memory → K → Option R
  late true w = last_of w.past w.items
  late false w = w.items

  abbrev pub base_get : Bool → K → Memory → Reply (Option R) × Memory
  base_get lags k w = (
    elim (next_fault w.faults) [
      | drop ↦ Reply.failed
      | stale ↦ done (late lags w k)
      | _ ↦ done (w.items k)
    ],
    tick w,
  )

  late_seen : (lags : Bool) (w : Memory) (k : K) (r : R) → late lags w k ≡ some r → WasSeen w k r
  late_seen true w k r e = last_of_seen w w.past k r e
  late_seen false w k r e = inl e

  pub base_value :
      (lags : Bool) (k : K) (w : Memory) (r : R)
      → (base_get lags k w).0 ≡ done (some r)
      → WasSeen w k r
  base_value lags k w r = go (next_fault w.faults)
    where
      go :
          (f : Fault)
          → (elim f [ drop ↦ Reply.failed | stale ↦ done (late lags w k) | _ ↦ done (w.items k) ])
            ≡ done (some r)
          → WasSeen w k r
      go pass e = inl cc
      go drop e = cc
      go lose e = inl cc
      go clash e = inl cc
      go stale e = late_seen lags w k r cc

  pub base_current :
      (k : K) (w : Memory) (r : Option R) → (base_get false k w).0 ≡ done r → w.items k ≡ r
  base_current k w r = go (next_fault w.faults)
    where
      go :
          (f : Fault)
          → (elim f [ drop ↦ Reply.failed | stale ↦ done (w.items k) | _ ↦ done (w.items k) ])
            ≡ done r
          → w.items k ≡ r
      go pass e = cc
      go drop e = cc
      go lose e = cc
      go clash e = cc
      go stale e = cc

  pub get_value : (k : K) (w : Memory) (r : Option R) → (get_item k w).0 ≡ done r → w.items k ≡ r
  get_value k w r = go (next_fault w.faults)
    where
      go :
          (f : Fault)
          → (elim f [ drop ↦ Reply.failed | _ ↦ done (w.items k) ]) ≡ done r
          → w.items k ≡ r
      go pass e = cc
      go drop e = cc
      go lose e = cc
      go clash e = cc
      go stale e = cc

  abbrev pub Applied : Memory → List (Write K R) → Outcome × Memory → Type 0
  Applied w xs t =
      (t.0 ≡ committed → (holds same xs w.items ≡ true) × (t.1.items ≡ write_all same xs w.items))
      × ((bs : List Bool)
          → t.0 ≡ rejected bs
          → (holds same xs w.items ≡ false) × (t.1.items ≡ w.items))
      × (t.0 ≡ conflict → t.1.items ≡ w.items)
      × (t.0 ≡ Outcome.failed
          → (t.1.items ≡ w.items)
            ⊎ (holds same xs w.items ≡ true) × (t.1.items ≡ write_all same xs w.items))
      × ((j : K) (r : R) → WasSeen t.1 j r → WasSeen w j r ⊎ (t.1.items j ≡ some r))

  pub attempt-Applied :
      (f : Fault) (b : Bool) (xs : List (Write K R)) (w : Memory)
      → holds same xs w.items ≡ b
      → Applied w xs (attempt f b xs w)
  attempt-Applied pass true xs w h = (
    λ e. (h, refl),
    λ bs e. cc,
    λ e. cc,
    λ e. cc,
    λ j r s. elim s [ inl now ↦ inr now | inr old ↦ inl old ],
  )
  attempt-Applied stale true xs w h = (
    λ e. (h, refl),
    λ bs e. cc,
    λ e. cc,
    λ e. cc,
    λ j r s. elim s [ inl now ↦ inr now | inr old ↦ inl old ],
  )
  attempt-Applied lose true xs w h = (
    λ e. cc,
    λ bs e. cc,
    λ e. cc,
    λ e. inr (h, refl),
    λ j r s. elim s [ inl now ↦ inr now | inr old ↦ inl old ],
  )
  attempt-Applied drop b xs w h = (λ e. cc, λ bs e. cc, λ e. cc, λ e. inl refl, λ j r s. inl s)
  attempt-Applied clash b xs w h = (λ e. cc, λ bs e. cc, λ e. refl, λ e. cc, λ j r s. inl s)
  attempt-Applied pass false xs w h = (λ e. cc, λ bs e. (h, refl), λ e. cc, λ e. cc, λ j r s. inl s)
  attempt-Applied stale false xs w h =
      (λ e. cc, λ bs e. (h, refl), λ e. cc, λ e. cc, λ j r s. inl s)
  attempt-Applied lose false xs w h = (λ e. cc, λ bs e. cc, λ e. cc, λ e. inl refl, λ j r s. inl s)

  module _ (same_iff : (a b : K) → (same a b ≡ true) × (a ≡ b) ⊎ (same a b ≡ false) × (a ≢ b)) where
    abbrev pub memory : Bool → Dynamo K R Q same
    memory lags = record {
      World = Memory;
      view = λ w. w.items;
      Seen = WasSeen;
      get_item = get_item;
      base_get = base_get lags;
      query = query;
      transact = transact;
      same_iff = same_iff;
      seen_now = λ w k r h. inl h;
      get_value = get_value;
      get_view = λ k w. refl;
      get_seen = λ k w j r h. h;
      base_value = base_value lags;
      base_view = λ k w. refl;
      base_seen = λ k w j r h. h;
      query_value = query_value;
      query_view = λ q w. refl;
      query_seen = λ q w j r h. h;
      transact_committed = λ xs w. (attempt-Applied (next_fault w.faults) _ xs w refl).0;
      transact_rejected = λ xs w. (attempt-Applied (next_fault w.faults) _ xs w refl).1;
      transact_conflict = λ xs w. (attempt-Applied (next_fault w.faults) _ xs w refl).2;
      transact_failed = λ xs w. (attempt-Applied (next_fault w.faults) _ xs w refl).3;
      transact_seen = λ xs w. (attempt-Applied (next_fault w.faults) _ xs w refl).4;
    }

    pub memory-IsCurrent : IsCurrent (memory false)
    memory-IsCurrent = base_current
