-- ===== src/Organization/Ownership/Invariant.antt =====
-- The invariant of the organization tables, and what each kind of call does to it.
use ctech_account.Common.{
  String, ◌≡◌, refl, sym, subst, ◌⊎◌, inl, inr, true, false, Option, some, List, [], ◌∷◌, All,
  Option-cases,
}
use ctech_account.Action.{Result, ok}
use ctech_account.Action.Keeps.{Keeps, Gives}
use ctech_account.Dynamo.Contract.{Write, Outcome, Reply, done, holds, write_all, transact_atomic}
use ctech_account.Organization.Model.{is_owner, Invitation, OrgError}
use ctech_account.Organization.Rows.{
  Key, Row, org_row, member_row, invite_row, spaces_row, Query, invitation_with_hash, same_key,
}
use ctech_account.Organization.Env.{Env, Quiet}
use ctech_account.Organization.Repository.{
  Op, read, read_base, ask, write, first_invitation, get_invitation_by_token,
}
use ctech_account.Organization.Access.{call, try, answer, mapped}
use ctech_account.Organization.Invitations.{as_invalid}
use ctech_account.Organization.Ownership.Writes.{OneOwner, IsSound, offers_owner}

module _ (env : Env) where
  open env use {db}

  -- Every organization has exactly its own owner, and no row that was ever in the tables offers
  -- somebody the role of owner.
  pub record Inv (w : db.World) : Type 0 where
    pub owners : OneOwner (db.view w)
    pub offers : (k : Key) (r : Row) → db.Seen w k r → offers_owner (some r) ≡ false

  no_offer : (w : db.World) → Inv w → (k : Key) → offers_owner (db.view w k) ≡ false
  no_offer w h k = elim (Option-cases (db.view w k)) [
    | inl e ↦ rw e
    | inr (r, e) ↦ rw e (h.offers k r (db.seen_now w k r e))
  ]

  -- A call that leaves the view alone, and shows nothing new.
  unchanged :
      (w w' : db.World)
      → Inv w
      → db.view w' ≡ db.view w
      → ((k : Key) (r : Row) → db.Seen w' k r → db.Seen w k r)
      → Inv w'
  unchanged w w' h e s = record {
    owners = subst OneOwner (sym e) h.owners;
    offers = λ k r seen. h.offers k r (s k r seen);
  }

  view_after :
      (w w' : db.World) (xs : List (Write Key Row))
      → Inv w
      → IsSound xs
      → (db.view w' ≡ db.view w)
        ⊎ (holds same_key xs (db.view w) ≡ true) × (db.view w' ≡ write_all same_key xs (db.view w))
      → OneOwner (db.view w') × ((k : Key) → offers_owner (db.view w' k) ≡ false)
  view_after w w' xs h s (inl e) = (subst OneOwner (sym e) h.owners, λ k. rw e (no_offer w h k))
  view_after w w' xs h s (inr (c, e)) =
      (subst OneOwner (sym e) (s.owners _ h.owners c), λ k. rw e (s.offers _ k (no_offer w h k)))

  pub Keeps-write :
      (f : Outcome → Result OrgError (Unit {0})) (xs : List (Write Key Row))
      → IsSound xs
      → Keeps Inv (write env f xs)
  unfolding write
  Keeps-write f xs s = record {
    at = λ w h.
        let (owners, offers) = view_after w (db.transact xs w).1 xs h s (transact_atomic db xs w) in
        record {
          owners = owners;
          offers = λ k r seen. elim (db.transact_seen xs w k r seen) [
            | inl before ↦ h.offers k r before
            | inr now ↦ rw now at (offers k)
          ];
        };
  }

  pub Keeps-read :
      {A : Type 0} (f : Reply (Option Row) → Result OrgError A) (k : Key) → Keeps Inv (read env f k)
  unfolding read
  Keeps-read f k = record {
    at = λ w h. unchanged w (db.get_item k w).1 h (db.get_view k w) (db.get_seen k w);
  }

  pub Keeps-read_base :
      {A : Type 0} (f : Reply (Option Row) → Result OrgError A) (k : Key)
      → Keeps Inv (read_base env f k)
  unfolding read_base
  Keeps-read_base f k = record {
    at = λ w h. unchanged w (db.base_get k w).1 h (db.base_view k w) (db.base_seen k w);
  }

  pub Keeps-ask :
      {A : Type 0} (f : Reply (List Row) → Result OrgError A) (q : Query) → Keeps Inv (ask env f q)
  unfolding ask
  Keeps-ask f q = record {
    at = λ w h. unchanged w (db.query q w).1 h (db.query_view q w) (db.query_seen q w);
  }

  Quiet-Inv :
      {A : Type 0} (f : db.World → A × db.World) → Quiet db f → (w : db.World) → Inv w → Inv (f w).1
  Quiet-Inv f q w h = unchanged w (f w).1 h (q.view_same w) (q.seen_same w)

  pub Keeps-call : {A : Type 0} (f : db.World → A × db.World) → Quiet db f → Keeps Inv (call env f)
  unfolding call
  Keeps-call f q = record { at = Quiet-Inv f q }

  -- A quiet call that may return an error is an action itself.
  pub Keeps-Quiet : {A : Type 0} (f : Op env A) → Quiet db f → Keeps Inv f
  Keeps-Quiet f q = record { at = Quiet-Inv f q }

  pub Keeps-try : {A : Type 0} (m : Op env A) → Keeps Inv m → Keeps Inv (try env m)
  unfolding try
  Keeps-try m h = record { at = h.at }

  pub Keeps-answer : {A : Type 0} (r : Result OrgError A) → Keeps Inv (answer env r)
  unfolding answer
  Keeps-answer r = record { at = λ w h. h }

  pub Keeps-mapped :
      {A B : Type 0} (f : Result OrgError A → Result OrgError B) (m : Op env A)
      → Keeps Inv m
      → Keeps Inv (mapped env f m)
  unfolding mapped
  Keeps-mapped f m h = record { at = h.at }

  offered :
      (w : db.World)
      → Inv w
      → (r : Reply (List Row))
      → ((rs : List Row) → r ≡ done rs → All (λ x. (k : Key) × db.Seen w k x) rs)
      → (inv : Invitation) → as_invalid (first_invitation r) ≡ ok inv
      → is_owner inv.role ≡ false
  offered w h Reply.failed s inv e = cc
  offered w h (done []) s inv e = cc
  offered w h (done (invite_row i ∷ rs)) s inv e =
      let (seen, rest) = s (invite_row i ∷ rs) refl in
      let p : i ≡ inv = cc in subst (λ x. is_owner x.role ≡ false) p (h.offers seen.0 _ seen.1)
  offered w h (done (org_row g n ∷ rs)) s inv e = cc
  offered w h (done (member_row m ∷ rs)) s inv e = cc
  offered w h (done (spaces_row n ∷ rs)) s inv e = cc

  -- What the token index answers, however old, does not offer the role of owner.
  pub Gives-invitation :
      (h : String)
      → Gives Inv
          (λ inv. is_owner inv.role ≡ false)
          (mapped env as_invalid (get_invitation_by_token env h))
  unfolding get_invitation_by_token ask mapped
  Gives-invitation h = record {
    keeps = λ w i. unchanged w (db.query q w).1 i (db.query_view q w) (db.query_seen q w);
    gives = λ w i inv e. offered w i (db.query q w).0 (db.query_value q w) inv e;
  }
    where
      q : Query
      q = invitation_with_hash h
