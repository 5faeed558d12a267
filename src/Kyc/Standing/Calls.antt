-- ===== src/Kyc/Standing/Calls.antt =====
-- Proofs on the calls that the methods of api/internal/domain/kyc/service.go are made of.
use ctech_account.Common.{◌≡◌, refl, sym, ◌∙◌, ap, subst, String, Option, none, some}
use ctech_account.Action.{Result, ok, err, ◌>>=◌, ◌>>◌}
use ctech_account.Action.Keeps.{Keeps}
use ctech_account.Action.Turns.{Turns, Keeps-Turns}
use ctech_account.Dynamo.Contract.{Reply, done, IsCurrent}
use ctech_account.Dynamo.Calls.{call, try, answer, read_base}
use ctech_account.Dynamo.Tables
use ctech_account.Dynamo.Tables.{Tables}
use ctech_account.Kyc.Model.{User, KycError}
use ctech_account.Kyc.Rows.{Row, user_key, user_row, cpf_row, pending_row}
use ctech_account.Kyc.Env.{Env}
use ctech_account.Kyc.Items.{found_user}
use ctech_account.Kyc.Repository
use ctech_account.Kyc.Repository.{Op, get_user}
use ctech_account.Kyc.Standing.Ladder.{Stage}
use ctech_account.Kyc.Standing.Writes.{View, Stands}
use ctech_account.Kyc.Standing.Updates.{Known}

found : (x : Reply (Option Row)) (u : User) → found_user x ≡ ok u → x ≡ done (some (user_row u))
found Reply.failed u e = cc
found (done none) u e = cc
found (done (some (user_row v))) u e = cc
found (done (some (cpf_row v))) u e = cc
found (done (some (pending_row v))) u e = cc

-- Any property of the tables.
module _ (env : Env) (X : View → Type 0) where
  open env use {db}

  abbrev pub Kx : {A : Type 0} → Op env A → Type 0
  Kx m = Keeps (Tables db X) m

  pub clock-any : Kx (call db env.clock)
  clock-any = Tables.Keeps-call db X _ env.clock_silent

  pub get_user-any : (id : String) → Kx (get_user env id)
  unfolding get_user
  get_user-any id = Tables.Keeps-read_base db X _ _

  pub answer-any : {A : Type 0} (r : Result KycError A) → Kx (answer db r)
  answer-any r = Tables.Keeps-answer db X r

  pub try-any : {A : Type 0} (m : Op env A) → Kx m → Kx (try db m)
  try-any m k = Tables.Keeps-try db X m k

  pub size-any : (k : String) → Kx (env.size k)
  size-any k = Tables.Keeps-Silent db X _ (env.size_silent k)

  -- Go's `if err := …; err != nil { return err }`.
  pub answer_then :
      {A : Type 0} {B : Type 0} {Y : View → Type 0} (r : Result KycError A) (n : Op env B)
      → ((v : View) → X v → Y v)
      → ((a : A) → r ≡ ok a → Turns (Tables db X) (Tables db Y) n)
      → Turns (Tables db X) (Tables db Y) (answer db r >> n)
  unfolding answer ◌>>◌ ◌>>=◌
  answer_then (ok a) n f h = h a refl
  answer_then (err e) n f h = record { at = λ w x. record { in_view = f _ x.in_view } }

  pub evaluate-any : (u ip : String) → Kx (env.evaluate u ip)
  evaluate-any u ip = Tables.Keeps-Silent db X _ (env.evaluate_silent u ip)

  pub intent-any : (d : String) → Kx (Repository.get_pending_document env d)
  unfolding Repository.get_pending_document
  intent-any d = Tables.Keeps-ask db X _ _

module _ (env : Env) (j : String) (s : Stage) where
  open env use {db}

  abbrev pub P : db.World → Type 0
  P = Tables db (Stands j s)

  abbrev pub K : {A : Type 0} → Op env A → Type 0
  K m = Keeps P m

  abbrev pub Q : String → User → db.World → Type 0
  Q id u = Tables db (Known j s id u)

  abbrev pub T : {A : Type 0} → String → User → Op env A → Type 0
  T id u m = Turns (Q id u) P m

  pub forget : (id : String) (u : User) (w : db.World) → Q id u w → P w
  forget id u w h = record { in_view = h.in_view.0 }

  module _ (current : IsCurrent db) where
    pub read_user :
        (id : String) (w : db.World)
        → P w
        → (u : User) → (get_user env id w).0 ≡ ok u
        → Q id u (get_user env id w).1
    unfolding get_user read_base
    read_user id w h u e = record {
      in_view =
          let v = db.base_view (user_key id) w in
          (
            subst (Stands j s) (sym v) h.in_view,
            ap (λ (f : View). f (user_key id)) v
                ∙ current (user_key id) w (some (user_row u)) (found _ u e),
          );
    }

    -- A call that reads the user first.
    pub with_user :
        {A : Type 0} (id : String) (f : User → Op env A)
        → ((u : User) → T id u (f u))
        → K (get_user env id >>= f)
    with_user id f h =
        Keeps-Turns (λ u w. Q id u w) _ f (get_user-any env (Stands j s) id) (read_user id) h
