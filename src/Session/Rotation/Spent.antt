-- ===== src/Session/Rotation/Spent.antt =====
-- Consumed hashes under the transactions of api/internal/domain/session/repository.go.
use ctech_account.Common.{
  ◌≡◌, inl, inr, String, ℕ, Bool, true, false, Option, some, List, [], ◌∷◌, arith, str_eq_iff,
}
use ctech_account.Action.{Result}
use ctech_account.Action.Keeps.{Keeps}
use ctech_account.Dynamo.Contract.{Write, Outcome, Reply, holds, write_all, transact_atomic}
use ctech_account.Session.Model.{RefreshToken, SessionError}
use ctech_account.Session.Rows.{Key, lookup_key, Row, lookup_row, Query, same_key}
use ctech_account.Session.Env.{Env}
use ctech_account.Session.Items.{
  is_active_state, put_new_lookup, put_consumed_lookup, put_refresh_items, update_token_item,
  rotate_items,
}
use ctech_account.Session.Repository.{Op, read, read_base, ask, write, call, try, answer}

-- The row is the lookup record of a consumed hash.
abbrev pub is_spent : Option Row → Bool
is_spent (some (lookup_row l)) = elim (is_active_state l.state) [ true ↦ false | false ↦ true ]
is_spent _ = false

-- The transaction leaves every consumed hash consumed.
pub record SparesSpent (xs : List (Write Key Row)) : Type 0 where
  pub at :
      (v : Key → Option Row) (h : String)
      → is_spent (v (lookup_key h)) ≡ true
      → holds same_key xs v ≡ true
      → is_spent (write_all same_key xs v (lookup_key h)) ≡ true

-- A write on the item of another kind spares all lookup records.
pub other_item :
    (x : Write Key Row)
    → ((h : String) → same_key x.key (lookup_key h) ≡ false)
    → SparesSpent (x ∷ [])
other_item x n = record { at = λ v h s c. ground (arith, n h) }

pub put_refresh_items-SparesSpent : (t : RefreshToken) → SparesSpent (put_refresh_items t)
unfolding put_refresh_items put_new_lookup
put_refresh_items-SparesSpent t = record {
  at = λ v h s c. ground (arith, str_eq_iff t.refresh_token_hash h);
}

pub rotate_items-SparesSpent :
    (old next : RefreshToken) (until : ℕ) → SparesSpent (rotate_items old next until)
unfolding rotate_items update_token_item put_consumed_lookup put_new_lookup
rotate_items-SparesSpent old next until = record {
  at = λ v h s c. ground (
    arith,
    str_eq_iff old.refresh_token_hash h,
    str_eq_iff next.refresh_token_hash h,
    str_eq_iff old.refresh_token_hash next.refresh_token_hash,
  );
}

-- A rotation that is applied consumes the old hash.
pub rotate_items-spend :
    (old next : RefreshToken) (until : ℕ) (v : Key → Option Row)
    → holds same_key (rotate_items old next until) v ≡ true
    → is_spent
        (write_all same_key (rotate_items old next until) v (lookup_key old.refresh_token_hash))
      ≡ true
unfolding rotate_items update_token_item put_consumed_lookup put_new_lookup
rotate_items-spend old next until v c = ground (
  arith,
  str_eq_iff old.refresh_token_hash old.refresh_token_hash,
  str_eq_iff next.refresh_token_hash old.refresh_token_hash,
  str_eq_iff old.refresh_token_hash next.refresh_token_hash,
)

module _ (env : Env) where
  open env use {db}

  -- The hash is the one of a token that was rotated.
  pub record Spent (h : String) (w : db.World) : Type 0 where
    pub marked : is_spent (db.view w (lookup_key h)) ≡ true

  unchanged : (h : String) (w w' : db.World) → db.view w' ≡ db.view w → Spent h w → Spent h w'
  unchanged h w w' e s = record { marked = rw e s.marked }

  module _ {h : String} where
    pub Keeps-write :
        (f : Outcome → Result SessionError (Unit {0})) (xs : List (Write Key Row))
        → SparesSpent xs
        → Keeps (Spent h) (write env f xs)
    unfolding write
    Keeps-write f xs p = record {
      at = λ w s. elim (transact_atomic db xs w) [
        | inl e ↦ unchanged h w (db.transact xs w).1 e s
        | inr (c, e) ↦ record { marked = rw e (p.at (db.view w) h s.marked c) }
      ];
    }

    pub Keeps-read :
        {A : Type 0} (f : Reply (Option Row) → Result SessionError A) (k : Key)
        → Keeps (Spent h) (read env f k)
    unfolding read
    Keeps-read f k = record { at = λ w s. unchanged h w (db.get_item k w).1 (db.get_view k w) s }

    pub Keeps-read_base :
        {A : Type 0} (f : Reply (Option Row) → Result SessionError A) (k : Key)
        → Keeps (Spent h) (read_base env f k)
    unfolding read_base
    Keeps-read_base f k = record {
      at = λ w s. unchanged h w (db.base_get k w).1 (db.base_view k w) s;
    }

    pub Keeps-ask :
        {A : Type 0} (f : Reply (List Row) → Result SessionError A) (q : Query)
        → Keeps (Spent h) (ask env f q)
    unfolding ask
    Keeps-ask f q = record { at = λ w s. unchanged h w (db.query q w).1 (db.query_view q w) s }

    pub Keeps-call :
        {A : Type 0} (f : db.World → A × db.World)
        → ((w : db.World) → db.view (f w).1 ≡ db.view w)
        → Keeps (Spent h) (call env f)
    unfolding call
    Keeps-call f q = record { at = λ w s. unchanged h w (f w).1 (q w) s }

    pub Keeps-try : {A : Type 0} (m : Op env A) → Keeps (Spent h) m → Keeps (Spent h) (try env m)
    unfolding try
    Keeps-try m k = record { at = λ w s. k.at w s }

    pub Keeps-answer : {A : Type 0} (r : Result SessionError A) → Keeps (Spent h) (answer env r)
    unfolding answer
    Keeps-answer r = record { at = λ w s. s }
