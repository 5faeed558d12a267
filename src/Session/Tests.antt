-- ===== src/Session/Tests.antt =====
-- A run of the session service on the store in memory, and the theorems at it.
use ctech_account.Common.{
  ◌≡◌, refl, ap, subst, ℕ, ◌*◌, String, Bool, true, false, Option, none, some, List, [], ◌∷◌, All,
  arith, str_eq, str_eq_iff, if◌then◌else◌,
}
use ctech_account.Action.{ok, guard, ◌>>=◌, ◌>>◌}
use ctech_account.Dynamo.Contract.{Reply, done}
use ctech_account.Dynamo.Memory.{
  Memory, Fault, pass, drop, lose, clash, stale, memory, answer, chosen,
}
use ctech_account.Dynamo.Memory
use ctech_account.Session.Model.{
  GeoData, Session, RefreshToken, active, consumed, is_expired, second, token_reuse,
}
use ctech_account.Session.Rows.{
  Key, session_key, refresh_key, lookup_key, Row, session_row, refresh_row, lookup_row,
  consumed_row, Query, by_token_hash, hash_of, select, same_key, same_key_iff,
}
use ctech_account.Session.Env.{Env}
use ctech_account.Session.Rotation.Spent.{Spent}
use ctech_account.Session.Rotation.Scopes.{grant, rotate_refresh_token-grant}
use ctech_account.Session.Rotation.Grant.{WasIssued, rotate_client_token-granted}
use ctech_account.Session.Items.{
  lookup_of, rotate_items, update_token_item, put_consumed_lookup, put_new_lookup,
}
use ctech_account.Session.Repository.{
  try, get_refresh_token_by_hash, get_token_lookup, read, read_base, refresh_by_lookup,
  active_token, call, get_by_id, answer as say, rotate_refresh_token, write,
}
use ctech_account.Session.Service.{
  rotate_client_token, rotate_by_token, rotate_found, expired, rotate_live, rotate_with_parent,
  rotate_in_session, replace, generate_refresh_token, after_rotation,
}
use ctech_account.Session.Rotation.History.{
  issue, rotate, revoke_all, serve, rotate_client_token-once, Refused, serve-Spent,
}

abbrev Mem : Type 0
Mem = Memory {K = Key} {R = Row} {Q = Query} same_key select

abbrev tables : List Fault → Mem
tables fs = record { items = λ _. none; keys = []; past = []; faults = fs }

selected :
    (h : String) (k : Key) (r : Row) → select (by_token_hash h) k r ≡ true → hash_of r ≡ some h
selected h k (session_row s) e = ap some (ground (arith, str_eq_iff s.refresh_token_hash h))
selected h k (refresh_row t) e = ap some (ground (arith, str_eq_iff t.refresh_token_hash h))
selected h k (consumed_row c) e = ap some (ground (arith, str_eq_iff c.refresh_token_hash h))
selected h k (lookup_row l) e = cc

chosen-All :
    (h : String) (k : Key) (o : Option Row) (rs : List Row)
    → All (λ r. hash_of r ≡ some h) rs
    → All (λ r. hash_of r ≡ some h) (chosen same_key select (by_token_hash h) k o rs)
chosen-All h k none rs a = a
chosen-All h k (some r) rs a = go (select (by_token_hash h) k r) (selected h k r)
  where
    go :
        (b : Bool)
        → (b ≡ true → hash_of r ≡ some h)
        → All (λ r. hash_of r ≡ some h) (if b then r ∷ rs else rs)
    go true f = (f refl, a)
    go false f = a

answer-All :
    (h : String) (v : Key → Option Row) (ks : List Key)
    → All (λ r. hash_of r ≡ some h) (answer same_key select (by_token_hash h) v ks)
answer-All h v [] = tt
answer-All h v (k ∷ ks) = chosen-All h k (v k) _ (answer-All h v ks)

index_hash-Memory :
    (h : String) (w : Mem) (rs : List Row)
    → (Memory.query same_key select (by_token_hash h) w).0 ≡ done rs
    → All (λ r. hash_of r ≡ some h) rs
index_hash-Memory h w rs e = go w.faults e
  where
    same_rows :
        (xs : List Row)
        → All (λ r. hash_of r ≡ some h) xs
        → ◌≡◌ {A = Reply (List Row)} (done xs) (done rs)
        → All (λ r. hash_of r ≡ some h) rs
    same_rows xs a q = let p : xs ≡ rs = cc in subst (All (λ r. hash_of r ≡ some h)) p a

    go :
        (fs : List Fault)
        → (Memory.query same_key select (by_token_hash h) (record w { faults = fs })).0 ≡ done rs
        → All (λ r. hash_of r ≡ some h) rs
    go [] q = same_rows _ (answer-All h _ w.keys) q
    go (drop ∷ fs) q = cc
    go (stale ∷ fs) q = same_rows _ (answer-All h _ w.keys) q
    go (pass ∷ fs) q = same_rows _ (answer-All h _ w.keys) q
    go (lose ∷ fs) q = same_rows _ (answer-All h _ w.keys) q
    go (clash ∷ fs) q = same_rows _ (answer-All h _ w.keys) q

-- The name of a new token: one for each state of the store.
abbrev token_name : List (Key → Option Row) → String
token_name [] = "rt_0"
token_name (_ ∷ []) = "rt_1"
token_name (_ ∷ _ ∷ []) = "rt_2"
token_name _ = "rt_3"

abbrev somewhere : GeoData
somewhere = record { city = "Curitiba"; region = "PR"; country = "BR" }

abbrev blank : String → String → List String → ℕ → Session
blank u s amr t = record {
  user_id = u;
  id = s;
  refresh_token_hash = "";
  device_name = "";
  ip_address = "";
  user_agent = "";
  created_at = 0;
  last_used_at = 0;
  expires_at = 0;
  geo = somewhere;
  auth_time = 0;
  amr = amr;
  last_mfa_at = t;
}

abbrev demo : Env
demo = record {
  db = memory same_key select same_key_iff true;
  clock = λ w. (1000 * second, w);
  new_id = λ w. ("s1", w);
  mint = λ w. (some (token_name w.past), w);
  hash = λ s. s;
  updatable = λ r. true;
  blank_session = blank;
  clock_view = λ w. refl;
  new_id_view = λ w. refl;
  mint_view = λ w. refl;
  index_hash = index_hash-Memory;
}

abbrev ann_session : Session
ann_session = record {
  user_id = "ann";
  id = "s1";
  refresh_token_hash = "rt_0";
  device_name = "phone";
  ip_address = "ip";
  user_agent = "agent";
  created_at = 1000;
  last_used_at = 1000;
  expires_at = 7777000;
  geo = somewhere;
  auth_time = 1000;
  amr = "pwd" ∷ [];
  last_mfa_at = 0;
}

abbrev ann_token : RefreshToken
ann_token = record {
  user_id = "ann";
  session_id = "s1";
  client_id = "app";
  refresh_token_hash = "rt_1";
  scopes = [];
  created_at = 1000;
  last_used_at = 1000;
  expires_at = 7777000;
}

-- Ann is signed in, and the client "app" has a token.
abbrev begun : Mem
begun = record {
  items = λ k. elim k [
    | session_key u s ↦ some (session_row ann_session)
    | refresh_key u s c ↦ some (refresh_row ann_token)
    | lookup_key h ↦
        if str_eq h "rt_1" then some (lookup_row (lookup_of active ann_token 7777000)) else none
    | _ ↦ none
  ];
  keys = session_key "ann" "s1" ∷ refresh_key "ann" "s1" "app" ∷ lookup_key "rt_1" ∷ [];
  past = [];
  faults = [];
}

accepted : (rotate_client_token demo "rt_1" "app" begun).0 ≡ ok (ann_session, "rt_0", [])
unfolding ◌>>=◌ ◌>>◌ guard rotate_client_token try rotate_by_token get_refresh_token_by_hash
    get_token_lookup read read_base refresh_by_lookup active_token rotate_found expired call
    is_expired rotate_live get_by_id rotate_with_parent rotate_in_session replace
    generate_refresh_token say rotate_refresh_token write rotate_items update_token_item
    put_consumed_lookup put_new_lookup after_rotation
accepted = refl

-- The tables with that token rotated away.
abbrev rotated : Mem
rotated = record begun {
  items = λ k. elim k [
    | lookup_key h ↦
        if str_eq h "rt_1" then some (lookup_row (lookup_of consumed ann_token 7777000)) else none
    | _ ↦ none
  ];
}

-- The replay comes from another client, after Ann has signed out everywhere.
rotate_client_token-once_example :
    Refused demo token_reuse
      (rotate_client_token demo "rt_1" "thief"
        (serve demo (revoke_all "ann" "" ∷ []) (rotate_client_token demo "rt_1" "app" begun).1)).0
rotate_client_token-once_example =
    rotate_client_token-once demo "rt_1" "app" "thief" (revoke_all "ann" "" ∷ []) begun
      (ann_session, "rt_0", []) accepted

serve-Spent_example :
    Spent demo "rt_1" (serve demo (rotate "rt_1" "app" ∷ issue "ann" "s1" "app" [] ∷ []) rotated)
serve-Spent_example =
    serve-Spent demo "rt_1" (rotate "rt_1" "app" ∷ issue "ann" "s1" "app" [] ∷ []) rotated
      (record { marked = refl })

rotate_client_token-granted_example :
    (t : RefreshToken) × WasIssued demo begun t
    × (t.refresh_token_hash ≡ "rt_1")
    × (t.client_id ≡ "app")
    × ([] ≡ t.scopes)
rotate_client_token-granted_example =
    rotate_client_token-granted demo "rt_1" "app" begun (ann_session, "rt_0", []) accepted

abbrev next_one : RefreshToken
next_one = record ann_token { refresh_token_hash = "rt_2"; scopes = "admin" ∷ [] }

rotate_refresh_token-grant_example :
    grant (
      demo.db.view
        (rotate_refresh_token demo ann_token next_one 7777000 begun).1
        (refresh_key "ann" "s1" "app"))
    ≡ grant (demo.db.view begun (refresh_key "ann" "s1" "app"))
rotate_refresh_token-grant_example =
    rotate_refresh_token-grant demo ann_token next_one 7777000 begun "ann" "s1" "app"
