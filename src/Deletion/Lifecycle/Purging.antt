-- ===== src/Deletion/Lifecycle/Purging.antt =====
-- Proofs on how the worker comes to the end of a purge, purgeStep of
-- api/internal/domain/deletion/service.go.
use ctech_account.Common.{
  ◌≡◌, ◌≢◌, refl, ap, ℕ, inl, inr, String, Bool, true, false, ◌||◌, ◌&&◌, Option, some, List, ◌∷◌,
  arith, if◌then◌else◌,
}
use ctech_account.Action.{Result, ok, err, resume, return, ◌>>=◌}
use ctech_account.Action.Keeps.{keeps_rules}
use ctech_account.Deletion.Model.{
  Request, State, purging, purged, stalled, same_state, DeletionError,
}
use ctech_account.Deletion.Rows.{request_key}
use ctech_account.Deletion.Env.{Env}
use ctech_account.Deletion.Acks.{AllAcked, all_done-AllAcked}
use ctech_account.Deletion.Worker.{participants_for, all_done, purge_step, finish_in}
use ctech_account.Deletion.Lifecycle.Diagram.{
  Moves, Reaches, still, made, moved, same_state_refl, same_state_lem,
}
use ctech_account.Deletion.Lifecycle.Writes.{state_of}
use ctech_account.Deletion.Lifecycle.Methods.{K}
use ctech_account.Deletion.Lifecycle.Saga.{reconcile-Leads}

-- A state may stay, and a purge may stall.
abbrev stays_or_stalls : State → State → Bool
stays_or_stalls a b = same_state a b || (same_state a purging && same_state b stalled)

stays : (a : State) → stays_or_stalls a a ≡ true
stays a = let e = same_state_refl a in ground arith

abbrev stalling : Moves
stalling = record { may_move = stays_or_stalls; may_stay = stays }

to_purged : (a b : State) → stays_or_stalls a b ≡ true → b ≡ purged → same_state a purged ≡ true
to_purged a b h e = ground arith

unpurged : (a b : State) → stays_or_stalls a b ≡ true → some a ≢ some purged → some b ≢ some purged
unpurged a b h n e =
    let b1 : b ≡ purged = cc in
    let h1 : same_state a purged ≡ true = to_purged a b h b1 in
    n (ap some (same_state_lem a purged h1))

-- By such steps no request becomes purged.
Reaches-unpurged : (o x : Option State) → o ≢ some purged → Reaches stalling o x → x ≢ some purged
Reaches-unpurged o _ n still = n
Reaches-unpurged o _ n (made p) = λ e. cc
Reaches-unpurged o _ n (moved {a = a} {b = b} p h) =
    unpurged a b h (Reaches-unpurged o (some a) n p)

module _ (env : Env) where
  open env use {db}

  abbrev state_at : String → db.World → Option State
  state_at id w = state_of (db.view w (request_key id))

  all_done-stalling :
      (j : String) (s : Option State) (r : Request) (now : ℕ)
      → r.state ≡ purging
      → K env stalling j s (all_done env r now)
  unfolding all_done
  all_done-stalling j s r now e = search (keeps_rules, reconcile-Leads env stalling refl)

  -- The question to the participants purges nothing by itself.
  all_done-unpurged :
      (r : Request) (now : ℕ) (id : String) (w : db.World)
      → r.state ≡ purging
      → state_at id w ≢ some purged
      → state_at id (all_done env r now w).1 ≢ some purged
  all_done-unpurged r now id w e n =
      Reaches-unpurged (state_at id w) _ n
        ((all_done-stalling id (state_at id w) r now e).at w (record { in_view = still })).in_view

  -- A step of the worker in which a request with participants becomes purged is one in which the rows that
  -- the store shows for the request all say that their service has acknowledged the erasure: while one
  -- was refused, is silent, or waits to be asked again, no request becomes purged.
  pub purge_step-acked :
      (r : Request) (now : ℕ) (p : String) (ps : List String) (id : String) (w : db.World)
      → r.state ≡ purging
      → participants_for env r ≡ p ∷ ps
      → state_at id w ≢ some purged
      → state_at id (purge_step env r now w).1 ≡ some purged
      → AllAcked env r.id w
  unfolding purge_step ◌>>=◌
  purge_step-acked r now p ps id w e m n d = go (all_done env r now w).0 refl d
    where
      not_yet : state_at id (all_done env r now w).1 ≢ some purged
      not_yet = all_done-unpurged r now id w e n

      go :
          (x : Result DeletionError Bool)
          → (all_done env r now w).0 ≡ x
          → state_at id
              (resume x
                (λ done. if done then finish_in env r.scope r now else return tt)
                (all_done env r now w).1).1
            ≡ some purged
          → AllAcked env r.id w
      go (ok true) q c = elim (all_done-AllAcked env r now w q) [ inl none_left ↦ cc | inr a ↦ a ]
      go (ok false) q c = elim (not_yet c) [ ]
      go (err x) q c = elim (not_yet c) [ ]
