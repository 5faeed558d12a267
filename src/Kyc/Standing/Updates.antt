-- ===== src/Kyc/Standing/Updates.antt =====
-- The updates of a user in api/internal/domain/kyc/repository.go.
use ctech_account.Common.{
  ◌≡◌, refl, sym, ap, subst, String, true, ◌&&◌, Option, none, some, List, [], ◌∷◌, ◌++◌, arith,
  and_parts, leb, ltb, length, length-append,
}
use ctech_account.Action.{ok}
use ctech_account.Dynamo.Contract.{holds, write_all}
use ctech_account.Kyc.Model.{
  User, Stamp, Document, Actor, Assessment, PendingDocument, is_enhanced, is_pending, max_documents,
}
use ctech_account.Kyc.Rows.{user_key, Row, user_row, cpf_row, pending_row, same_key}
use ctech_account.Kyc.Env.{Env}
use ctech_account.Kyc.Items.{
  user_of, anything, in_review, update_user, document_item, intent_item, drop_intent_item,
  enhanced_item, verified_item, rejected_item, risk_item, with_document, with_submission,
  with_approval, with_rejection, with_risk,
}
use ctech_account.Kyc.Service.{has_required_documents, accepts_documents, may_submit}
use ctech_account.Kyc.Standing.Ladder.{Stage, follows, follows_refl}
use ctech_account.Kyc.Standing.Writes.{View, stage, has_papers, papers_of, Stands, update-Stands}

blank_papers :
    (o : Option Row) (id : String) → papers_of o ≡ true → has_papers (user_of id o) ≡ true
blank_papers none id h = refl
blank_papers (some (user_row u)) id h = h
blank_papers (some (cpf_row u)) id h = refl
blank_papers (some (pending_row u)) id h = refl

review_of :
    (o : Option Row) (id : String)
    → in_review o ≡ true
    → is_enhanced (user_of id o).level && is_pending (user_of id o).status ≡ true
review_of none id h = cc
review_of (some (user_row u)) id h = h
review_of (some (cpf_row u)) id h = cc
review_of (some (pending_row u)) id h = cc

-- The user who was read just before.
abbrev pub Known : String → Stage → String → User → View → Type 0
Known j s id u v = Stands j s v × (v (user_key id) ≡ some (user_row u))

module _ (j : String) (s : Stage) (id : String) (v : View) where
  -- An update of the user in hand.
  update_read-Stands :
      (u : User) (f : User → User)
      → Known j s id u v
      → (f u).cpf ≡ u.cpf
      → has_papers (f u) ≡ true
      → follows (stage u) (stage (f u)) ≡ true
      → Stands j s (write_all same_key (update_user id anything f ∷ []) v)
  update_read-Stands u f (h, k) e p q =
      let current : u ≡ user_of id (v (user_key id)) = sym (ap (user_of id) k) in
      update-Stands j s id anything f v h (subst (λ t. (f t).cpf ≡ t.cpf) current e)
        (subst (λ t. has_papers (f t) ≡ true) current p)
        (subst (λ t. follows (stage t) (stage (f t)) ≡ true) current q)

  papers_of_read : (u : User) → Known j s id u v → has_papers u ≡ true
  papers_of_read u (h, k) = subst (λ o. papers_of o ≡ true) k (h.documented id)

appended_length :
    (docs : List Document) (d : Document)
    → ltb (length docs) max_documents ≡ true
    → leb (length (docs ++ d ∷ [])) max_documents ≡ true
appended_length docs d h = ground (arith, length-append docs (d ∷ []))

module _ (env : Env) where
  document_papers :
      (u : User) (d : Document)
      → accepts_documents env u ≡ ok tt
      → ltb (length u.documents) max_documents ≡ true
      → has_papers (with_document d u) ≡ true
  unfolding accepts_documents
  document_papers u d a h = let n = appended_length u.documents d h in ground arith

  pub document_item-Stands :
      (j : String) (s : Stage) (id : String) (u : User) (d : Document) (v : View)
      → accepts_documents env u ≡ ok tt
      → ltb (length u.documents) max_documents ≡ true
      → Known j s id u v
      → Stands j s (write_all same_key (document_item id d ∷ []) v)
  unfolding document_item
  document_item-Stands j s id u d v a h k =
      update_read-Stands j s id v u (with_document d) k refl (document_papers u d a h)
        (follows_refl (stage u))

  submitted_papers :
      (u : User)
      → may_submit env u ≡ ok tt
      → has_papers u ≡ true
      → leb (length u.documents) max_documents && has_required_documents u.documents ≡ true
  unfolding may_submit
  submitted_papers u a h = ground arith

  submitted_follows :
      (u : User) (t : Stage)
      → may_submit env u ≡ ok tt
      → is_enhanced t.level && is_pending t.status ≡ true
      → follows (stage u) t ≡ true
  unfolding may_submit
  submitted_follows u t a h = ground arith

  pub enhanced_item-Stands :
      (j : String) (s : Stage) (id : String) (u : User) (at until : Stamp) (v : View)
      → may_submit env u ≡ ok tt
      → Known j s id u v
      → Stands j s (write_all same_key (enhanced_item id at until ∷ []) v)
  unfolding enhanced_item
  enhanced_item-Stands j s id u at until v a k =
      update_read-Stands j s id v u (with_submission at until) k refl
        (submitted_papers u a (papers_of_read j s id v u k))
        (submitted_follows u (stage (with_submission at until u)) a refl)

abbrev InReview : User → Type 0
InReview u = is_enhanced u.level && is_pending u.status ≡ true

approved_papers :
    (at : Stamp) (actor : Actor) (u : User)
    → InReview u
    → has_papers u ≡ true
    → has_papers (with_approval at actor u) ≡ true
approved_papers at actor u r p = ground arith

approved_follows :
    (at : Stamp) (actor : Actor) (u : User)
    → InReview u
    → follows (stage u) (stage (with_approval at actor u)) ≡ true
approved_follows at actor u r = ground arith

rejected_papers :
    (code details : String) (at : Stamp) (actor : Actor) (u : User)
    → InReview u
    → has_papers (with_rejection code details at actor u) ≡ true
rejected_papers code details at actor u r = ground arith

rejected_follows :
    (code details : String) (at : Stamp) (actor : Actor) (u : User)
    → InReview u
    → follows (stage u) (stage (with_rejection code details at actor u)) ≡ true
rejected_follows code details at actor u r = ground arith

module _ (j : String) (s : Stage) (id : String) (v : View) where
  -- A decision on a submission under review.
  reviewed-Stands :
      (f : User → User)
      → Stands j s v
      → holds same_key (update_user id in_review f ∷ []) v ≡ true
      → ((u : User) → (f u).cpf ≡ u.cpf)
      → ((u : User)
          → InReview u
          → has_papers u ≡ true
          → (has_papers (f u) ≡ true) × (follows (stage u) (stage (f u)) ≡ true))
      → Stands j s (write_all same_key (update_user id in_review f ∷ []) v)
  reviewed-Stands f h c e g =
      let r = review_of (v (user_key id)) id (and_parts _ _ c).0 in
      let (p, q) = g _ r (blank_papers (v (user_key id)) id (h.documented id)) in
      update-Stands j s id in_review f v h (e _) p q

  pub verified_item-Stands :
      (at : Stamp) (actor : Actor)
      → Stands j s v
      → holds same_key (verified_item id at actor ∷ []) v ≡ true
      → Stands j s (write_all same_key (verified_item id at actor ∷ []) v)
  unfolding verified_item
  verified_item-Stands at actor h c =
      reviewed-Stands (with_approval at actor) h c (λ u. refl)
        (λ u r p. (approved_papers at actor u r p, approved_follows at actor u r))

  pub rejected_item-Stands :
      (code details : String) (at : Stamp) (actor : Actor)
      → Stands j s v
      → holds same_key (rejected_item id code details at actor ∷ []) v ≡ true
      → Stands j s (write_all same_key (rejected_item id code details at actor ∷ []) v)
  unfolding rejected_item
  rejected_item-Stands code details at actor h c =
      reviewed-Stands (with_rejection code details at actor) h c (λ u. refl)
        (λ u r p.
          (rejected_papers code details at actor u r, rejected_follows code details at actor u r))

  pub risk_item-Stands :
      (a : Assessment) → Stands j s v → Stands j s (write_all same_key (risk_item id a ∷ []) v)
  unfolding risk_item
  risk_item-Stands a h =
      update-Stands j s id anything (with_risk a) v h refl
        (blank_papers (v (user_key id)) id (h.documented id)) (follows_refl _)

  pub intent_item-Stands :
      (p : PendingDocument)
      → Stands j s v
      → Stands j s (write_all same_key (intent_item id p ∷ []) v)
  unfolding intent_item
  intent_item-Stands p h = record {
    claimed = h.claimed;
    documented = h.documented;
    climbed = h.climbed;
  }

  pub drop_intent_item-Stands :
      Stands j s v → Stands j s (write_all same_key (drop_intent_item id ∷ []) v)
  unfolding drop_intent_item
  drop_intent_item-Stands h = record {
    claimed = h.claimed;
    documented = h.documented;
    climbed = h.climbed;
  }
