-- ===== src/Deletion/Acks.antt =====
-- Proofs on what the participants have acknowledged, api/internal/domain/deletion/service.go.
use ctech_account.Common.{
  ◌≡◌, ◌≢◌, refl, subst, ℕ, ◌⊎◌, inl, inr, String, Bool, true, false, Option, none, some, List, [],
  ◌∷◌, ◌++◌, All, arith, Bool-cases, if◌then◌else◌,
}
use ctech_account.Action.{Result, ok, err, resume, return, ◌>>=◌, ◌>>◌}
use ctech_account.Deletion.Model.{
  Request, ServiceStatus, Status, dispatched, acked, refused, DeletionError,
}
use ctech_account.Deletion.Env.{Env}
use ctech_account.Deletion.Repository.{Op, list_services}
use ctech_account.Deletion.Saga.{
  next_dispatch, is_due, sooner, Progress, blocked_by_participant, waiting, scan, settle, stall,
  wait_for, reconcile,
}
use ctech_account.Deletion.Opening.{is_empty}
use ctech_account.Deletion.Worker.{participants_for, all_done}

abbrev pub IsAcked : ServiceStatus → Type 0
IsAcked st = st.status ≡ acked

pub Status-cases : (s : Status) → (s ≡ acked) ⊎ (s ≡ refused) ⊎ (s ≡ dispatched)
Status-cases acked = inl refl
Status-cases refused = inr (inl refl)
Status-cases dispatched = inr (inr refl)

sooner-none : (n m : Option ℕ) → sooner n m ≡ none → n ≡ none
sooner-none n none e = e
sooner-none none (some m) e = refl
sooner-none (some n) (some m) e = ground arith

append_nonempty : (silent : List ServiceStatus) (st : ServiceStatus) → silent ++ st ∷ [] ≢ []
append_nonempty [] st e = cc
append_nonempty (x ∷ silent) st e = cc

waiting_injective :
    (a b : List ServiceStatus) (n m : Option ℕ) → waiting a n ≡ waiting b m → (a ≡ b) × (n ≡ m)
waiting_injective a b n m e = (cc, cc)

scan-settled :
    (now : ℕ) (sts silent : List ServiceStatus) (next : Option ℕ)
    → scan now sts silent next ≡ waiting [] none
    → All IsAcked sts × (silent ≡ []) × (next ≡ none)
unfolding scan
scan-settled now [] silent next e = let (a, b) = waiting_injective _ _ _ _ e in (tt, a, b)
scan-settled now (st ∷ sts) silent next e = elim (Status-cases st.status) [
  | inl p ↦
      let e1 : scan now sts silent next ≡ waiting [] none = ground arith in
      let (a, b, c) = scan-settled now sts silent next e1 in ((p, a), b, c)
  | inr (inl p) ↦ let q : blocked_by_participant ≡ waiting [] none = ground arith in cc
  | inr (inr p) ↦ elim (Bool-cases (is_due now (next_dispatch st))) [
    | inl d ↦
        let e1 : scan now sts (silent ++ st ∷ []) next ≡ waiting [] none = ground arith in
        let (a, b, c) = scan-settled now sts (silent ++ st ∷ []) next e1 in
        elim (append_nonempty silent st b) [ ]
    | inr d ↦
        let e1 : scan now sts silent (sooner (next_dispatch st) next) ≡ waiting [] none =
          ground arith in
        let (a, b, c) = scan-settled now sts silent (sooner (next_dispatch st) next) e1 in
        let n : next_dispatch st ≡ none = sooner-none _ _ c in
        let q : is_due now none ≡ false = subst (λ x. is_due now x ≡ false) n d in cc
  ]
]

module _ (env : Env) where
  open env use {db}

  abbrev IsNever : Op env Bool → Type 0
  IsNever m = (w : db.World) → (m w).0 ≢ ok true

  bind-IsNever :
      {A : Type 0} (m : Op env A) (f : A → Op env Bool)
      → ((a : A) → IsNever (f a))
      → IsNever (m >>= f)
  unfolding ◌>>=◌
  bind-IsNever m f h w e = go (m w).0 e
    where
      go : (x : Result DeletionError _) → (resume x f (m w).1).0 ≢ ok true
      go (ok a) q = h a _ q
      go (err c) q = cc

  then-IsNever : {A : Type 0} (m : Op env A) → IsNever (m >> return false)
  unfolding ◌>>◌
  then-IsNever m = bind-IsNever m (λ _. return false) (λ a w e. cc)

  stall-IsNever : (r : Request) (now : ℕ) → IsNever (stall env r now)
  unfolding stall
  stall-IsNever r now = then-IsNever _

  wait_for-IsNever :
      (r : Request) (now : ℕ) (silent : List ServiceStatus) (next : Option ℕ)
      → IsNever (wait_for env r now silent next)
  unfolding wait_for
  wait_for-IsNever r now silent next = bind-IsNever _ _ (λ later. then-IsNever _)

  settle-done :
      (r : Request) (now : ℕ) (p : Progress) (w : db.World)
      → (settle env r now p w).0 ≡ ok true
      → p ≡ waiting [] none
  unfolding settle
  settle-done r now blocked_by_participant w e = elim (stall-IsNever r now w e) [ ]
  settle-done r now (waiting [] none) w e = refl
  settle-done r now (waiting (x ∷ silent) next) w e = elim (wait_for-IsNever r now _ next w e) [ ]
  settle-done r now (waiting [] (some n)) w e = elim (wait_for-IsNever r now [] (some n) w e) [ ]

  -- What the participants' rows show when every one of them has acknowledged.
  abbrev pub AllAcked : String → db.World → Type 0
  AllAcked id w =
      (sts : List ServiceStatus) × ((list_services env id w).0 ≡ ok sts) × All IsAcked sts

  reconcile-AllAcked :
      (r : Request) (now : ℕ) (w : db.World) → (reconcile env r now w).0 ≡ ok true → AllAcked r.id w
  unfolding reconcile ◌>>=◌
  reconcile-AllAcked r now w e = go (list_services env r.id w).0 refl e
    where
      go :
          (x : Result DeletionError (List ServiceStatus))
          → (list_services env r.id w).0 ≡ x
          → (resume x
              (λ sts. settle env r now (scan now sts [] none))
              (list_services env r.id w).1).0
            ≡ ok true
          → AllAcked r.id w
      go (ok sts) p q = (sts, p, (scan-settled now sts [] none (settle-done r now _ _ q)).0)
      go (err c) p q = cc

  -- The purge of a request may only begin when it has no participants, or when the rows that the store
  -- shows for it all say that their service has acknowledged the erasure: none was refused, is still
  -- silent, or waits to be asked again.
  pub all_done-AllAcked :
      (r : Request) (now : ℕ) (w : db.World)
      → (all_done env r now w).0 ≡ ok true
      → (participants_for env r ≡ []) ⊎ AllAcked r.id w
  unfolding all_done
  all_done-AllAcked r now w e = go (participants_for env r) refl e
    where
      go :
          (ps : List String)
          → participants_for env r ≡ ps
          → ((if is_empty ps then return true else reconcile env r now) w).0 ≡ ok true
          → (participants_for env r ≡ []) ⊎ AllAcked r.id w
      go [] p q = inl p
      go (x ∷ ps) p q = inr (reconcile-AllAcked r now w q)
