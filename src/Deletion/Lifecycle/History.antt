-- ===== src/Deletion/Lifecycle/History.antt =====
-- Sequences of calls of the methods of api/internal/domain/deletion/service.go.
use ctech_account.Common.{
  ◌≡◌, refl, ap, subst, String, Bool, true, false, Option, none, some, List, [], ◌∷◌, arith,
}
use ctech_account.Deletion.Model.{State, locked, purging, stalled, purged, is_open, Ack}
use ctech_account.Deletion.Rows.{request_key}
use ctech_account.Deletion.Env.{Env}
use ctech_account.Deletion.Opening
use ctech_account.Deletion.Saga
use ctech_account.Deletion.Worker
use ctech_account.Deletion.Lifecycle.Diagram.{Reaches, still, made, moved, edge, documented}
use ctech_account.Deletion.Lifecycle.Writes.{state_of}
use ctech_account.Deletion.Lifecycle.Methods.{P}
use ctech_account.Deletion.Lifecycle.Opening as Requests
use ctech_account.Deletion.Lifecycle.Saga as Answers
use ctech_account.Deletion.Lifecycle.Worker as Steps

pub data Call : Type 0 where
  request : String → Call
  request_service : String → String → Call
  confirm : String → String → Call
  cancel : String → String → Call
  support_cancel : String → String → Call
  status : String → Call
  ack : String → Ack → Call
  subject : String → Call
  set_legal_hold : String → String → Bool → Call
  redrive : String → String → String → Call
  services : String → Call
  process_due : Call

-- A request that is past its grace period.
abbrev pub is_leaving : State → Bool
is_leaving locked = true
is_leaving purging = true
is_leaving stalled = true
is_leaving purged = true
is_leaving _ = false

closed_edge : (a b : State) → is_open a ≡ false → edge a b ≡ true → b ≡ a
closed_edge a b h e = ground arith

leaving_edge : (a b : State) → is_leaving a ≡ true → edge a b ≡ true → is_leaving b ≡ true
leaving_edge a b h e = ground arith

Reaches-closed :
    (a : State) (o : Option State) → is_open a ≡ false → Reaches documented (some a) o → o ≡ some a
Reaches-closed a _ h still = refl
Reaches-closed a _ h (made p) = let q : none ≡ some a = Reaches-closed a none h p in cc
Reaches-closed a _ h (moved {a = x} {b = y} p e) =
    let q : some x ≡ some a = Reaches-closed a (some x) h p in
    let r : x ≡ a = cc in ap some (closed_edge a y h (subst (λ z. edge z y ≡ true) r e))

-- A state past the grace period, or nothing known.
abbrev Leaving : Option State → Type 0
Leaving none = ⊥
Leaving (some a) = is_leaving a ≡ true

Reaches-Leaving :
    (a : State) (o : Option State) → is_leaving a ≡ true → Reaches documented (some a) o → Leaving o
Reaches-Leaving a _ h still = h
Reaches-Leaving a _ h (made p) = elim (Reaches-Leaving a none h p) [ ]
Reaches-Leaving a _ h (moved {a = x} {b = y} p e) =
    leaving_edge x y (Reaches-Leaving a (some x) h p) e

module _ (env : Env) where
  open env use {db}

  -- The world that a call leaves, whatever it answers.
  unfoldable pub handle : Call → db.World → db.World
  handle (request u) w = (Opening.request env u w).1
  handle (request_service u p) w = (Opening.request_service env u p w).1
  handle (confirm id token) w = (Opening.confirm env id token w).1
  handle (cancel id token) w = (Opening.cancel env id token w).1
  handle (support_cancel id admin_id) w = (Opening.support_cancel env id admin_id w).1
  handle (status u) w = (Opening.status env u w).1
  handle (ack service a) w = (Saga.ack env service a w).1
  handle (subject id) w = (Saga.subject env id w).1
  handle (set_legal_hold id admin_id on) w = (Saga.set_legal_hold env id admin_id on w).1
  handle (redrive id service admin_id) w = (Saga.redrive env id service admin_id w).1
  handle (services u) w = (Saga.services env u w).1
  handle process_due w = (Worker.process_due env w).1

  unfoldable pub serve : List Call → db.World → db.World
  serve [] w = w
  serve (c ∷ cs) w = serve cs (handle c w)

  abbrev pub state_in : db.World → String → Option State
  state_in w id = state_of (db.view w (request_key id))

  handle-Leads :
      (j : String) (s : Option State) (c : Call) (w : db.World)
      → P env documented j s w
      → P env documented j s (handle c w)
  unfolding handle
  handle-Leads j s (request u) = (Requests.request-Leads env j s u).at
  handle-Leads j s (request_service u p) = (Requests.request_service-Leads env j s u p).at
  handle-Leads j s (confirm id token) = (Requests.confirm-Leads env j s id token).at
  handle-Leads j s (cancel id token) = (Requests.cancel-Leads env j s id token).at
  handle-Leads j s (support_cancel id admin_id) =
      (Requests.support_cancel-Leads env j s id admin_id).at
  handle-Leads j s (status u) = (Requests.status-Leads env j s u).at
  handle-Leads j s (ack service a) = (Answers.ack-Leads env j s service a).at
  handle-Leads j s (subject id) = (Answers.subject-Leads env j s id).at
  handle-Leads j s (set_legal_hold id admin_id on) =
      (Answers.set_legal_hold-Leads env j s id admin_id on).at
  handle-Leads j s (redrive id service admin_id) =
      (Answers.redrive-Leads env j s id service admin_id).at
  handle-Leads j s (services u) = (Answers.services-Leads env j s u).at
  handle-Leads j s process_due = (Steps.process_due-Leads env j s).at

  serve-Leads :
      (j : String) (s : Option State) (cs : List Call) (w : db.World)
      → P env documented j s w
      → P env documented j s (serve cs w)
  unfolding serve
  serve-Leads j s [] w h = h
  serve-Leads j s (c ∷ cs) w h = serve-Leads j s cs (handle c w) (handle-Leads j s c w h)

  -- Whatever is called, in any order, and whatever the store, the users' index, the locker, the mailer and
  -- the other packages answer, a request only ever moves along the state diagram of a request: it is made
  -- awaiting confirmation, leaves a state only for one that follows it, and is never removed.
  pub serve-Reaches :
      (id : String) (cs : List Call) (w : db.World)
      → Reaches documented (state_in w id) (state_in (serve cs w) id)
  serve-Reaches id cs w = (serve-Leads id (state_in w id) cs w (record { in_view = still })).in_view

  -- A request that is cancelled, expired or purged stays so, whatever is called afterwards.
  pub serve-closed :
      (id : String) (cs : List Call) (w : db.World) (a : State)
      → state_in w id ≡ some a
      → is_open a ≡ false
      → state_in (serve cs w) id ≡ some a
  serve-closed id cs w a e h =
      Reaches-closed a _ h
        (subst (λ s. Reaches documented s (state_in (serve cs w) id)) e (serve-Reaches id cs w))

  -- A request that was locked at the end of its grace period is past the point of return: whatever is
  -- called afterwards, it is locked, purging, stalled or purged, never cancelled or open to a cancel.
  pub serve-leaving :
      (id : String) (cs : List Call) (w : db.World) (a : State)
      → state_in w id ≡ some a
      → is_leaving a ≡ true
      → (b : State) × (state_in (serve cs w) id ≡ some b) × (is_leaving b ≡ true)
  serve-leaving id cs w a e h = go _ (
      Reaches-Leaving a _ h
        (subst (λ s. Reaches documented s (state_in (serve cs w) id)) e (serve-Reaches id cs w)))
    where
      go : (o : Option State) → Leaving o → (b : State) × (o ≡ some b) × (is_leaving b ≡ true)
      go none l = elim l [ ]
      go (some b) l = (b, refl, l)
