-- ===== src/Deletion/Tests.antt =====
-- A deletion service on the store in memory, and the theorems at it.
use ctech_account.Common.{
  ◌≢◌, inr, All, ◌≡◌, refl, ap, subst, ℕ, ◌*◌, inl, String, true, false, Option, none, some, List,
  [], ◌∷◌, str_eq, if◌then◌else◌,
}
use ctech_account.Action.{Action, ok, ◌>>=◌, ◌>>◌}
use ctech_account.Dynamo.Memory.{Memory, memory}
use ctech_account.Dynamo.Calls.{ask, write}
use ctech_account.Dynamo.Contract.{Dynamo}
use ctech_account.Dynamo.Tables.{Silent}
use ctech_account.Deletion.Model.{
  purged, clear_due, dispatched, Request, account, State, awaiting_confirmation, pending, cancelled,
  locked, purging, second, ServiceStatus, acked, DeletionError,
}
use ctech_account.Deletion.Rows.{
  Key, request_key, marker_key, service_key, Row, request_row, marker_row, service_row, Query,
  select, same_key, same_key_iff,
}
use ctech_account.Deletion.Env.{Env}
use ctech_account.Deletion.Repository.{list_services, save}
use ctech_account.Deletion.Items.{save_items, put_request, delete_marker}
use ctech_account.Deletion.Saga.{reconcile, settle, scan}
use ctech_account.Deletion.Opening.{confirm, cancel}
use ctech_account.Deletion.Worker.{
  step, participants_for, all_done, purge_step, finish_in, finish_with, purge_done,
}
use ctech_account.Deletion.Lifecycle.Diagram.{Reaches, documented}
use ctech_account.Deletion.Lifecycle.Writes.{state_of}
use ctech_account.Deletion.Lifecycle.Waiting.{step-waits}
use ctech_account.Deletion.Lifecycle.History.{
  Call, cancel as to_cancel, set_legal_hold, process_due, serve, state_in, serve-Reaches,
  serve-closed, serve-leaving, is_leaving,
}
use ctech_account.Deletion.Authority.{Refused, confirm-Refused, cancel-Refused}
use ctech_account.Deletion.Acks.{AllAcked}
use ctech_account.Deletion.Lifecycle.Purging.{purge_step-acked}

abbrev Mem : Type 0
Mem = Memory {K = Key} {R = Row} {Q = Query} same_key select

abbrev mem : Dynamo Key Row Query same_key
mem = memory same_key select same_key_iff true

abbrev Done : Type 0
Done = Action Mem DeletionError (Unit {0})

abbrev rest : Request → Done
rest r w = (ok tt, w)

abbrev given : Option (Request → Done) → Request → Done
given (some f) = f
given none = rest

rest-Silent : (f : Request → Done) → some rest ≡ some f → (r : Request) → Silent mem (f r)
rest-Silent f e r =
    subst (λ (g : Request → Done). Silent mem (g r)) (ap given e) (record { view_same = λ w. refl })

none-Silent : (f : Request → Done) → none ≡ some f → (r : Request) → Silent mem (f r)
none-Silent f e r = cc

unset-Silent :
    (f : String → String → Action Mem DeletionError (List String))
    → none ≡ some f
    → (u s : String) → Silent mem (f u s)
unset-Silent f e u s = cc

-- 1000000 seconds after the start of the clock, well past a grace period that began at 0.
abbrev now : ℕ
now = 1000000 * second

abbrev demo : Env
demo = record {
  db = mem;
  clock = λ w. (now, w);
  new_id = λ w. ("r9", w);
  mint = λ w. (some "token", w);
  hash = λ s. s;
  user_by_id = λ u w. (ok (record { email = "ann@x"; first_name = "Ann"; cpf = "1" }), w);
  lock = λ r w. (ok tt, w);
  unlock = λ r w. (ok tt, w);
  erase = λ r ss w. (ok tt, w);
  send = λ u m w. (ok tt, w);
  assess_ownership = λ u w. (ok ([], []), w);
  leavable = none;
  check_service = none;
  finish_unlink = none;
  purge = some rest;
  participants = "shop" ∷ [];
  service_list = none;
  clock_silent = record { view_same = λ w. refl };
  new_id_silent = record { view_same = λ w. refl };
  mint_silent = record { view_same = λ w. refl };
  user_silent = λ u. record { view_same = λ w. refl };
  lock_silent = λ r. record { view_same = λ w. refl };
  unlock_silent = λ r. record { view_same = λ w. refl };
  erase_silent = λ r ss. record { view_same = λ w. refl };
  send_silent = λ u m. record { view_same = λ w. refl };
  assess_silent = λ u. record { view_same = λ w. refl };
  check_silent = unset-Silent;
  finish_silent = none-Silent;
  purge_silent = rest-Silent;
}

abbrev in_state : State → Request
in_state s = record {
  id = "r1";
  user_id = "ann";
  scope = account;
  product = "";
  state = s;
  confirm_token_hash = "secret";
  cancel_token_hashes = "undo" ∷ [];
  lock_applied = true;
  scheduled_sent = true;
  reminded = true;
  blocked_notified = false;
  organizations = [];
  workspaces = [];
  blockers = [];
  purged_at = none;
  legal_hold = false;
  legal_hold_by = "";
  requested_at = some 0;
  confirm_by = some 2000000;
  confirmed_at = some 0;
  grace_until = some 900000;
  cancelled_at = none;
  locked_at = none;
  updated_at = some 0;
  due_state = some s;
  next_action_at = some 900000;
}

abbrev shop : ServiceStatus
shop = record {
  request_id = "r1";
  service = "shop";
  status = acked;
  attempts = 1;
  first_dispatch_at = some 0;
  last_dispatch_at = some 0;
  acked_at = some 10;
  counts = [];
  blockers = [];
}

-- One request of Ann's, and the row of the one participant.
abbrev tables : State → Mem
tables s = record {
  items = λ k. elim k [
    | request_key i ↦ if str_eq i "r1" then some (request_row (in_state s)) else none
    | marker_key u ↦ if str_eq u "ann" then some (marker_row "r1") else none
    | service_key i n ↦ if str_eq i "r1" then some (service_row shop) else none
  ];
  keys = request_key "r1" ∷ marker_key "ann" ∷ service_key "r1" "shop" ∷ [];
  past = [];
  faults = [];
}

abbrev calls : List Call
calls = process_due ∷ to_cancel "r1" "undo" ∷ set_legal_hold "r1" "bob" true ∷ process_due ∷ []

serve-Reaches_example :
    Reaches documented (some pending) (state_in demo (serve demo calls (tables pending)) "r1")
serve-Reaches_example = serve-Reaches demo "r1" calls (tables pending)

serve-closed_example : state_in demo (serve demo calls (tables cancelled)) "r1" ≡ some cancelled
serve-closed_example = serve-closed demo "r1" calls (tables cancelled) cancelled refl refl

serve-leaving_example :
    (b : State) × (state_in demo (serve demo calls (tables locked)) "r1" ≡ some b)
    × (is_leaving b ≡ true)
serve-leaving_example = serve-leaving demo "r1" calls (tables locked) locked refl refl

abbrev on_hold : Request
on_hold = record (in_state pending) { legal_hold = true }

step-waits_example :
    state_of (demo.db.view (step demo on_hold now (tables pending)).1 (request_key "r1"))
    ≡ some pending
step-waits_example =
    step-waits demo on_hold now (inl (refl, refl)) "r1" pending (tables pending) refl

wrong_token : demo.hash "guess" ≢ "secret"
wrong_token = cc

confirm-Refused_example : Refused demo (confirm demo "r1" "guess") (tables awaiting_confirmation)
confirm-Refused_example =
    confirm-Refused demo "r1" "guess" (tables awaiting_confirmation)
      (in_state awaiting_confirmation) refl (inr wrong_token)

unlike : demo.hash "guess" ≢ "undo"
unlike = cc

no_token : All (λ h. demo.hash "guess" ≢ h) ("undo" ∷ [])
no_token = (unlike, tt)

cancel-Refused_example : Refused demo (cancel demo "r1" "guess") (tables pending)
cancel-Refused_example =
    cancel-Refused demo "r1" "guess" (tables pending) (in_state pending) refl no_token

one_participant : participants_for demo (in_state purging) ≡ "shop" ∷ []
unfolding participants_for
one_participant = refl

not_purged : state_of (demo.db.view (tables purging) (request_key "r1")) ≢ some purged
not_purged = cc

now_purged :
    state_of
      (demo.db.view (purge_step demo (in_state purging) now (tables purging)).1 (request_key "r1"))
    ≡ some purged
unfolding purge_step all_done participants_for reconcile list_services ask settle scan finish_in
    finish_with purge_done clear_due save write save_items put_request delete_marker ◌>>=◌ ◌>>◌
now_purged = refl

purge_step-acked_example : AllAcked demo "r1" (tables purging)
purge_step-acked_example =
    purge_step-acked demo (in_state purging) now "shop" [] "r1" (tables purging) refl
      one_participant not_purged now_purged

abbrev mall : ServiceStatus
mall = record shop { service = "mall"; status = dispatched }
