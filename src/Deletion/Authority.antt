-- ===== src/Deletion/Authority.antt =====
-- Proofs on who may confirm and cancel, api/internal/domain/deletion/service.go.
use ctech_account.Common.{
  ◌≡◌, ◌≢◌, refl, List, [], ◌∷◌, All, str_eq_iff, Bool-cases, sym, ◌∙◌, ◌⊎◌, inl, inr, String, Bool,
  false, ◌&&◌, Option, none, some, arith,
}
use ctech_account.Action.{Result, ok, err, guard, ◌>>=◌, ◌>>◌}
use ctech_account.Dynamo.Contract.{Reply, done}
use ctech_account.Dynamo.Calls.{call, try, answer, read}
use ctech_account.Deletion.Model.{
  Request, State, awaiting_confirmation, same_state, before, DeletionError, invalid_token, failed,
}
use ctech_account.Deletion.Rows.{request_key, Row, request_row, marker_row, service_row}
use ctech_account.Deletion.Env.{Env}
use ctech_account.Deletion.Items.{found_request}
use ctech_account.Deletion.Repository.{Op, get}
use ctech_account.Deletion.Lifecycle.Diagram.{same_state_lem}
use ctech_account.Deletion.Links.{token_matches, any_token_matches}
use ctech_account.Deletion.Opening.{relabel, confirmable_now, confirm, cancel}

-- The request is read as it stands, or the store failed.
abbrev Found : Result DeletionError Request → Request → Type 0
Found x r = (x ≡ ok r) ⊎ (x ≡ err failed)

found_request-Found :
    (x : Reply (Option Row)) (r : Request)
    → ((o : Option Row) → x ≡ done o → some (request_row r) ≡ o)
    → Found (found_request x) r
found_request-Found Reply.failed r f = inr refl
found_request-Found (done none) r f = let e = f none refl in cc
found_request-Found (done (some (request_row q))) r f = let e = f _ refl in inl cc
found_request-Found (done (some (marker_row q))) r f = let e = f _ refl in cc
found_request-Found (done (some (service_row q))) r f = let e = f _ refl in cc

refuse_either : (a b c : Bool) → (a ≡ false) ⊎ (c ≡ false) → a && (b && c) ≡ false
refuse_either a b c h = ground arith

another_state : (a b : State) → a ≢ b → same_state a b ≡ false
another_state a b n = elim (Bool-cases (same_state a b)) [
  | inl e ↦ elim (n (same_state_lem a b e)) [ ]
  | inr e ↦ e
]

module _ (env : Env) where
  open env use {db}

  -- The call was refused and wrote nothing.
  abbrev pub Refused : {A : Type 0} → Op env A → db.World → Type 0
  Refused m w =
      (((m w).0 ≡ err invalid_token) ⊎ ((m w).0 ≡ err failed)) × (db.view (m w).1 ≡ db.view w)

  get-Found :
      (id : String) (w : db.World) (r : Request)
      → db.view w (request_key id) ≡ some (request_row r)
      → Found (get env id w).0 r
  unfolding get read
  get-Found id w r e = found_request-Found _ r (λ o p. sym e ∙ db.get_value (request_key id) w o p)

  get-view : (id : String) (w : db.World) → db.view (get env id w).1 ≡ db.view w
  unfolding get read
  get-view id w = db.get_view (request_key id) w

  -- A token with another hash does not match.
  other-token : (raw h : String) → env.hash raw ≢ h → token_matches env raw h ≡ false
  unfolding token_matches
  other-token raw h n = ground (arith, str_eq_iff (env.hash raw) h)

  other-tokens :
      (raw : String) (hs : List String)
      → All (λ h. env.hash raw ≢ h) hs
      → any_token_matches env raw hs ≡ false
  unfolding any_token_matches
  other-tokens raw [] a = refl
  other-tokens raw (h ∷ hs) (n, a) = rw (other-token raw h n) (other-tokens raw hs a)

  -- Confirm changes nothing, and answers with an error, when the request does not await a confirmation, or
  -- the hash that the request holds is not that of the token, whatever the clock shows and whatever calls
  -- fail.
  pub confirm-Refused :
      (id token : String) (w : db.World) (r : Request)
      → db.view w (request_key id) ≡ some (request_row r)
      → (r.state ≢ awaiting_confirmation) ⊎ (env.hash token ≢ r.confirm_token_hash)
      → Refused (confirm env id token) w
  unfolding confirm relabel try answer call guard confirmable_now ◌>>=◌ ◌>>◌
  confirm-Refused id token w r e h = elim (get-Found id w r e) [
    | inl p ↦
        let now = (env.clock (get env id w).1).0 in
        let g : (same_state r.state awaiting_confirmation ≡ false)
            ⊎ (token_matches env token r.confirm_token_hash ≡ false) =
          elim h [ inl n ↦ inl (another_state _ _ n) | inr n ↦ inr (other-token token _ n) ] in
        rw (p, refuse_either _ (before now r.confirm_by) _ g)
          (inl refl, env.clock_silent.view_same _ ∙ get-view id w)
    | inr p ↦ rw p (inr refl, get-view id w)
  ]

  -- Cancel changes nothing, and answers with an error, when none of the hashes that the request holds is
  -- that of the token, whatever calls fail.
  pub cancel-Refused :
      (id token : String) (w : db.World) (r : Request)
      → db.view w (request_key id) ≡ some (request_row r)
      → All (λ h. env.hash token ≢ h) r.cancel_token_hashes
      → Refused (cancel env id token) w
  unfolding cancel relabel try answer guard ◌>>=◌ ◌>>◌
  cancel-Refused id token w r e h = elim (get-Found id w r e) [
    | inl p ↦ rw (p, other-tokens token r.cancel_token_hashes h) (inl refl, get-view id w)
    | inr p ↦ rw p (inr refl, get-view id w)
  ]
