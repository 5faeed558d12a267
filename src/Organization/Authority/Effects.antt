-- ===== src/Organization/Authority/Effects.antt =====
-- Rules for what an action of the organization service reads and leaves, from a given content of the
-- tables, whatever the store, the clock and billing do.
use ctech_account.Common.{
  ◌≡◌, refl, sym, ◌∙◌, ap, subst, inl, inr, String, Bool, true, false, Option, none, some, List,
}
use ctech_account.Action.{Result, ok, err, resume, guard, return, ◌>>=◌, ◌>>◌}
use ctech_account.Dynamo.Contract.{
  Write, Outcome, Reply, done, holds, write_all, transact_atomic, IsCurrent,
}
use ctech_account.Organization.Model.{Role, Kind, Membership, OrgError, Organization, kind_of}
use ctech_account.Organization.Rows.{
  Key, org_key, member_key, Row, member_row, org_row, invite_row, spaces_row, same_key, Query,
}
use ctech_account.Organization.Env.{Env, Quiet}
use ctech_account.Organization.Repository.{
  Op, read, read_base, ask, write, found_member, found_org, get, get_membership,
}
use ctech_account.Organization.Access.{
  call, try, mapped, answer, role_of, kind_of_workspace, as_stranger,
}
use ctech_account.Organization.Ownership.Writes.{View}

abbrev pub member_role : Option Row → Option Role
member_role (some (member_row m)) = some m.role
member_role _ = none

-- The role of a person in an organization, none for a stranger.
abbrev pub role_at : View → String → String → Option Role
role_at v o u = member_role (v (member_key o u))

abbrev pub org_kind : Option Row → Option Kind
org_kind (some (org_row g n)) = some (kind_of g)
org_kind _ = none

abbrev pub kind_at : View → String → Option Kind
kind_at v o = org_kind (v (org_key o))

module _ (env : Env) where
  open env use {db}

  -- From the tables `v` the action changes nothing, and what it returns satisfies `Q`.
  pub record Reads {A : Type 0} (v : View) (Q : A → Type 0) (m : Op env A) : Type 0 where
    pub same : (w : db.World) → db.view w ≡ v → db.view (m w).1 ≡ v
    pub gives : (w : db.World) → db.view w ≡ v → (a : A) → (m w).0 ≡ ok a → Q a

  -- From the tables `v` the action leaves tables that satisfy `T`.
  pub record Leaves {A : Type 0} (v : View) (T : View → Type 0) (m : Op env A) : Type 0 where
    pub at : (w : db.World) → db.view w ≡ v → T (db.view (m w).1)

  module _ {v : View} {T : View → Type 0} (keep : T v) where
    pub Leaves-bind :
        {A B : Type 0} (Q : A → Type 0) (m : Op env A) (f : A → Op env B)
        → Reads v Q m
        → ((a : A) → Q a → Leaves v T (f a))
        → Leaves v T (m >>= f)
    unfolding ◌>>=◌
    Leaves-bind Q m f r g = record { at = λ w e. go (m w).0 (m w).1 (r.same w e) (r.gives w e) }
      where
        go :
            (x : Result OrgError _) (w' : db.World)
            → db.view w' ≡ v
            → ((a : _) → x ≡ ok a → Q a)
            → T (db.view (resume x f w').1)
        go (ok a) w' e q = (g a (q a refl)).at w' e
        go (err c) w' e q = subst T (sym e) keep

    pub Leaves-guard :
        {B : Type 0} (b : Bool) (c : OrgError) (n : Op env B)
        → (b ≡ true → Leaves v T n)
        → Leaves v T (guard b c >> n)
    unfolding ◌>>◌ guard
    Leaves-guard true c n g = record { at = λ w e. (g refl).at w e }
    Leaves-guard false c n g = record { at = λ w e. subst T (sym e) keep }

    pub Leaves-check :
        {A B : Type 0} (Q : Type 0) (m : Op env A) (n : Op env B)
        → Reads v (λ _. Q) m
        → (Q → Leaves v T n)
        → Leaves v T (m >> n)
    unfolding ◌>>◌
    Leaves-check Q m n r g = Leaves-bind (λ _. Q) m (λ _. n) r (λ _ q. g q)

    pub Leaves-write :
        (f : Outcome → Result OrgError (Unit {0})) (xs : List (Write Key Row))
        → (holds same_key xs v ≡ true → T (write_all same_key xs v))
        → Leaves v T (write env f xs)
    unfolding write
    Leaves-write f xs g = record {
      at = λ w e. elim (transact_atomic db xs w) [
        | inl s ↦ subst T (sym (s ∙ e)) keep
        | inr (h, s) ↦
            subst T (sym (s ∙ ap (write_all same_key xs) e))
              (g (ap (holds same_key xs) (sym e) ∙ h))
      ];
    }

    pub Leaves-same : {A : Type 0} (Q : A → Type 0) (m : Op env A) → Reads v Q m → Leaves v T m
    Leaves-same Q m r = record { at = λ w e. subst T (sym (r.same w e)) keep }

  pub Leaves-then :
      {A B : Type 0} {v : View} (T : View → Type 0) (m : Op env A) (n : A → Op env B)
      → Leaves v T m
      → ((a : A) (u : View) → T u → Leaves u T (n a))
      → Leaves v T (m >>= n)
  unfolding ◌>>=◌
  Leaves-then T m n h k = record { at = λ w e. go (m w).0 (m w).1 (h.at w e) }
    where
      go : (x : Result OrgError _) (w' : db.World) → T (db.view w') → T (db.view (resume x n w').1)
      go (ok a) w' t = (k a _ t).at w' refl
      go (err c) w' t = t

  found_role :
      (r : Reply (Option Row)) (x : Option Row)
      → ((y : Option Row) → r ≡ done y → x ≡ y)
      → (m : Membership) → as_stranger (found_member r) ≡ ok m
      → member_role x ≡ some m.role
  found_role Reply.failed x h m e = cc
  found_role (done none) x h m e = cc
  found_role (done (some (member_row n))) x h m e =
      let p : n ≡ m = cc in rw (h _ refl) (ap (λ (k : Membership). some k.role) p)
  found_role (done (some (org_row g n))) x h m e = cc
  found_role (done (some (invite_row i))) x h m e = cc
  found_role (done (some (spaces_row n))) x h m e = cc

  found_kind :
      (r : Reply (Option Row)) (x : Option Row)
      → ((y : Option Row) → r ≡ done y → x ≡ y)
      → (g : Organization) → found_org r ≡ ok g
      → org_kind x ≡ some (kind_of g)
  found_kind Reply.failed x h g e = cc
  found_kind (done none) x h g e = cc
  found_kind (done (some (org_row n p))) x h g e =
      let q : n ≡ g = cc in rw (h _ refl) (ap (λ (k : Organization). some (kind_of k)) q)
  found_kind (done (some (member_row m))) x h g e = cc
  found_kind (done (some (invite_row i))) x h g e = cc
  found_kind (done (some (spaces_row n))) x h g e = cc

  module _ {v : View} where
    pub Reads-return : {A : Type 0} {Q : A → Type 0} (a : A) → Q a → Reads v Q (return a)
    Reads-return {Q = Q} a q = record {
      same = λ w e. e;
      gives = λ w e b p. let s : a ≡ b = cc in subst Q s q;
    }

    pub Reads-bind :
        {A B : Type 0} (Q : A → Type 0) {R : B → Type 0} (m : Op env A) (f : A → Op env B)
        → Reads v Q m
        → ((a : A) → Q a → Reads v R (f a))
        → Reads v R (m >>= f)
    unfolding ◌>>=◌
    Reads-bind Q {R} m f r g = record {
      same = λ w e. go (m w).0 (m w).1 (r.same w e) (r.gives w e);
      gives = λ w e. come (m w).0 (m w).1 (r.same w e) (r.gives w e);
    }
      where
        go :
            (x : Result OrgError _) (w' : db.World)
            → db.view w' ≡ v
            → ((a : _) → x ≡ ok a → Q a)
            → db.view (resume x f w').1 ≡ v
        go (ok a) w' e q = (g a (q a refl)).same w' e
        go (err c) w' e q = e

        come :
            (x : Result OrgError _) (w' : db.World)
            → db.view w' ≡ v
            → ((a : _) → x ≡ ok a → Q a)
            → (b : _) → (resume x f w').0 ≡ ok b
            → R b
        come (ok a) w' e q b p = (g a (q a refl)).gives w' e b p
        come (err c) w' e q b p = cc

    pub Reads-try :
        {A : Type 0} {Q : A → Type 0} (m : Op env A)
        → Reads v Q m
        → Reads v (λ _. Unit {0}) (try env m)
    unfolding try
    Reads-try m r = record { same = r.same; gives = λ w e a p. tt }

    pub Reads-call :
        {A : Type 0} (f : db.World → A × db.World)
        → Quiet db f
        → Reads v (λ _. Unit {0}) (call env f)
    unfolding call
    Reads-call f q = record { same = λ w e. q.view_same w ∙ e; gives = λ w e a p. tt }

    -- A quiet call that may return an error.
    pub Reads-Quiet : {A : Type 0} (f : Op env A) → Quiet db f → Reads v (λ _. Unit {0}) f
    Reads-Quiet f q = record { same = λ w e. q.view_same w ∙ e; gives = λ w e a p. tt }

    pub Reads-answer : {A : Type 0} (r : Result OrgError A) → Reads v (λ a. r ≡ ok a) (answer env r)
    unfolding answer
    Reads-answer r = record { same = λ w e. e; gives = λ w e a p. p }

    pub Reads-ask :
        {A : Type 0} (f : Reply (List Row) → Result OrgError A) (q : Query)
        → Reads v (λ _. Unit {0}) (ask env f q)
    unfolding ask
    Reads-ask f q = record { same = λ w e. db.query_view q w ∙ e; gives = λ w e a p. tt }

    pub Reads-read :
        {A : Type 0} (f : Reply (Option Row) → Result OrgError A) (k : Key)
        → Reads v (λ _. Unit {0}) (read env f k)
    unfolding read
    Reads-read f k = record { same = λ w e. db.get_view k w ∙ e; gives = λ w e a p. tt }

    module _ (current : IsCurrent db) where
      pub get-Reads : (o : String) → Reads v (λ g. kind_at v o ≡ some (kind_of g)) (get env o)
      unfolding get read_base
      get-Reads o = record {
        same = λ w e. db.base_view (org_key o) w ∙ e;
        gives = λ w e g p.
            found_kind (db.base_get (org_key o) w).0 (v (org_key o))
              (λ y q. ap (λ (z : View). z (org_key o)) (sym e) ∙ current (org_key o) w y q) g p;
      }

      membership-Reads :
          (o u : String)
          → Reads v
              (λ m. role_at v o u ≡ some m.role)
              (mapped env as_stranger (get_membership env o u))
      unfolding mapped get_membership read_base
      membership-Reads o u = record {
        same = λ w e. db.base_view (member_key o u) w ∙ e;
        gives = λ w e m p.
            found_role (db.base_get (member_key o u) w).0 (v (member_key o u))
              (λ y q.
                ap (λ (z : View). z (member_key o u)) (sym e) ∙ current (member_key o u) w y q)
              m p;
      }

      -- RoleOf answers with the role in the tables.
      pub role_of-Reads : (o u : String) → Reads v (λ r. role_at v o u ≡ some r) (role_of env o u)
      unfolding role_of
      role_of-Reads o u = Reads-bind _ _ _ (membership-Reads o u) (λ m q. Reads-return m.role q)

      -- KindOf answers with the kind in the tables.
      pub kind_of_workspace-Reads :
          (o : String) → Reads v (λ k. kind_at v o ≡ some k) (kind_of_workspace env o)
      unfolding kind_of_workspace
      kind_of_workspace-Reads o = Reads-bind _ _ _ (get-Reads o) (λ g q. Reads-return (kind_of g) q)
