-- ===== src/Deletion/Lifecycle/Writes.antt =====
-- The transactions of api/internal/domain/deletion/repository.go and the state of one request.
use ctech_account.Common.{
  ◌≡◌, refl, sym, ap, subst, inl, inr, String, true, Option, none, some, [], ◌∷◌, arith, str_eq,
  str_eq_iff, if◌then◌else◌, Bool-cases,
}
use ctech_account.Dynamo.Contract.{holds, write_all}
use ctech_account.Dynamo.Tables.{Sound}
use ctech_account.Deletion.Model.{State, awaiting_confirmation, Request, ServiceStatus, Status}
use ctech_account.Deletion.Rows.{
  Key, request_key, service_key, Row, request_row, marker_row, service_row, same_key,
}
use ctech_account.Deletion.Env.{Env}
use ctech_account.Deletion.Items.{
  create_items, put_new, is_absent, in_state, put_request, delete_marker, save_items, put_status,
}
use ctech_account.Deletion.Lifecycle.Diagram.{Reaches, made, moved, Moves, same_state_lem}

abbrev pub View : Type 0
View = Key → Option Row

abbrev pub state_of : Option Row → Option State
state_of (some (request_row r)) = some r.state
state_of _ = none

-- The request `j`, in the state `s` at the start, is in a state that the diagram leads to.
abbrev pub Leads : Moves → String → Option State → View → Type 0
Leads m j s v = Reaches m s (state_of (v (request_key j)))

save-request :
    (r : Request) (from : State) (v : View) (i : String)
    → write_all same_key (save_items r from) v (request_key i)
      ≡ (if str_eq r.id i then some (request_row r) else v (request_key i))
unfolding save_items put_request delete_marker
save-request r from v i = ground arith

save-in_state :
    (r : Request) (from : State) (v : View)
    → holds same_key (save_items r from) v ≡ true
    → in_state from (v (request_key r.id)) ≡ true
unfolding save_items put_request delete_marker
save-in_state r from v h = ground arith

create-request :
    (r : Request) (v : View) (i : String)
    → write_all same_key (create_items r) v (request_key i)
      ≡ (if str_eq r.id i then some (request_row r) else v (request_key i))
unfolding create_items
create-request r v i = ground arith

create-absent :
    (r : Request) (v : View)
    → holds same_key (create_items r) v ≡ true
    → is_absent (v (request_key r.id)) ≡ true
unfolding create_items
create-absent r v h = ground arith

in_state-state : (o : Option Row) (from : State) → in_state from o ≡ true → state_of o ≡ some from
in_state-state none from h = cc
in_state-state (some (request_row r)) from h = ap some (same_state_lem _ _ h)
in_state-state (some (marker_row r)) from h = cc
in_state-state (some (service_row r)) from h = cc

absent-state : (o : Option Row) → is_absent o ≡ true → state_of o ≡ none
absent-state none h = refl
absent-state (some r) h = cc

-- A write of the request `r` over what stands under its id.
over :
    (m : Moves) (j : String) (s : Option State) (v : View) (r : Request) (old : Option State)
    → state_of (v (request_key r.id)) ≡ old
    → (Reaches m s old → Reaches m s (some r.state))
    → Leads m j s v
    → Reaches m s (state_of (if str_eq r.id j then some (request_row r) else v (request_key j)))
over m j s v r old e go h = elim (Bool-cases (str_eq r.id j)) [
  | inl b ↦
      let p : r.id ≡ j = (str_eq_iff r.id j).0 b in
      let k : Leads m r.id s v = subst (λ i. Leads m i s v) (sym p) h in
      rw b (go (subst (Reaches m s) e k))
  | inr b ↦ rw b h
]

module _ (env : Env) (m : Moves) (j : String) (s : Option State) where
  open env use {db}

  pub save-Sound :
      (r : Request) (from : State)
      → m.may_move from r.state ≡ true
      → Sound db (Leads m j s) (save_items r from)
  save-Sound r from e = record {
    sound = λ v h c. rw (save-request r from v j) (
        over m j s v r (some from) (in_state-state _ from (save-in_state r from v c))
          (λ k. moved k e) h);
  }

  pub create-Sound :
      (r : Request) → r.state ≡ awaiting_confirmation → Sound db (Leads m j s) (create_items r)
  create-Sound r e = record {
    sound = λ v h c.
        rw (create-request r v j)
          (over m j s v r none (absent-state _ (create-absent r v c)) (λ k. rw e (made k)) h);
  }

  pub put_service-Sound :
      (st : ServiceStatus)
      → Sound db
          (Leads m j s)
          (put_new (service_key st.request_id st.service) (service_row st) ∷ [])
  put_service-Sound st = record { sound = λ v h c. h }

  pub put_status-Sound :
      (st : ServiceStatus) (from : Status) → Sound db (Leads m j s) (put_status st from ∷ [])
  unfolding put_status
  put_status-Sound st from = record { sound = λ v h c. h }
