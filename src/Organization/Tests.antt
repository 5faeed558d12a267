-- ===== src/Organization/Tests.antt =====
-- Concrete runs of the organization service on the store in memory, and the theorems at such inputs.
use ctech_account.Common.{
  ◌≡◌, refl, inl, inr, Bool, true, false, none, some, List, [], ◌∷◌, any, ◌&&◌,
}
use ctech_account.Action.{ok}
use ctech_account.Dynamo.Memory.{Memory, Fault, pass, lose, stale, memory}
use ctech_account.Organization.Model.{
  viewer, admin, organization, at_most, outranks, is_grantable_role, assignable_roles,
}
use ctech_account.Organization.Ladder.{assignable_roles-exact, is_role, above, manages}
use ctech_account.Organization.Rows.{Key, Row, Query, same_key, same_key_iff, select}
use ctech_account.Organization.Env.{Env}
use ctech_account.Organization.Service
use ctech_account.Organization.Ownership.Invariant.{Inv}
use ctech_account.Organization.Ownership.History.{
  Request, create, invite, accept, set_role, remove, transfer, serve, serve-Inv,
}

abbrev Mem : Type 0
Mem = Memory {K = Key} {R = Row} {Q = Query} same_key select

abbrev tables : List Fault → Mem
tables fs = record { items = λ _. none; keys = []; past = []; faults = fs }

-- A clock that stands still, one id and one token, no text to trim; billing allows one space and one
-- person in it.
abbrev demo : Bool → Env
demo limited = record {
  db = memory same_key select same_key_iff false;
  clock = λ w. (1000, w);
  new_id = λ w. ("o1", w);
  mint = λ w. (some "secret", w);
  hash = λ s. s;
  trim = λ s. s;
  lower = λ s. s;
  limited = limited;
  quotas =
      λ u w. (ok (record { plan = "free"; spaces = at_most 1; people_per_space = at_most 1 }), w);
  levels_changed = λ u w. (tt, w);
  schedule_levels = λ u t w. (tt, w);
  has_granter = true;
  grant = λ o c u n b w. (ok tt, w);
  has_email_owner = false;
  email_owner = λ e w. (ok "", w);
  lower_idem = λ s. refl;
  trim-lower-trim = λ s. refl;
  clock_quiet = record { view_same = λ w. refl; seen_same = λ w k r h. h };
  new_id_quiet = record { view_same = λ w. refl; seen_same = λ w k r h. h };
  mint_quiet = record { view_same = λ w. refl; seen_same = λ w k r h. h };
  quotas_quiet = λ u. record { view_same = λ w. refl; seen_same = λ w k r h. h };
  levels_changed_quiet = λ u. record { view_same = λ w. refl; seen_same = λ w k r h. h };
  schedule_levels_quiet = λ u t. record { view_same = λ w. refl; seen_same = λ w k r h. h };
  grant_quiet = λ o c u n b. record { view_same = λ w. refl; seen_same = λ w k r h. h };
  email_owner_quiet = λ e. record { view_same = λ w. refl; seen_same = λ w k r h. h };
}

tables-Inv : (fs : List Fault) → Inv (demo true) (tables fs)
tables-Inv fs = record {
  owners = record { sole = λ o u. refl };
  offers = λ k r h. elim h [ inl e ↦ cc | inr never ↦ absurd never ];
}

abbrev script : List Request
script =
    create organization "ann" "Ann" "Acme"
    ∷ invite "o1" "ann" "bob@x" admin []
    ∷ accept "secret" "bob" "bob@x" "Bob"
    ∷ set_role "o1" "bob" "ann" viewer
    ∷ transfer "o1" "ann" "bob"
    ∷ remove "o1" "bob" "ann"
    ∷ []

-- Ann has founded an organization, and Bob has joined it.
abbrev staffed : Mem
staffed =
    serve (demo true)
      (create organization "ann" "Ann" "Acme"
        ∷ invite "o1" "ann" "bob@x" viewer []
        ∷ accept "secret" "bob" "bob@x" "Bob"
        ∷ [])
      (tables [])

serve-Inv_example : Inv (demo true) (serve (demo true) script (tables (pass ∷ lose ∷ stale ∷ [])))
serve-Inv_example = serve-Inv (demo true) script _ (tables-Inv _)

assignable_roles-exact_example :
    (outranks admin viewer ≡ above admin viewer)
    × (any (is_role viewer) (assignable_roles admin)
        ≡ (manages admin && (is_grantable_role viewer && above admin viewer)))
assignable_roles-exact_example = assignable_roles-exact admin viewer
