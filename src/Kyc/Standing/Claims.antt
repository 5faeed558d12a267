-- ===== src/Kyc/Standing/Claims.antt =====
-- SaveBasicSubmission of api/internal/domain/kyc/repository.go: a tax id is claimed.
use ctech_account.Common.{
  ◌≡◌, ◌≢◌, refl, sym, ◌∙◌, ap, subst, inl, inr, String, Bool, true, false, not, ◌&&◌, none, some,
  arith, str_eq, str_eq_iff, str_eq_refl, if◌then◌else◌, Bool-cases,
}
use ctech_account.Dynamo.Contract.{holds, write_all}
use ctech_account.Kyc.Model.{User, BasicRecord}
use ctech_account.Kyc.Rows.{user_key, cpf_key, user_row, cpf_row, same_key}
use ctech_account.Kyc.Items.{
  user_of, anything, basic_items, claim_cpf, release_cpf, basic_item, free_for, with_basic,
}
use ctech_account.Kyc.Service.{is_basic_locked}
use ctech_account.Kyc.Standing.Ladder.{Stage, follows}
use ctech_account.Kyc.Standing.Writes.{
  View, stage, cpf_of, has_papers, papers_of, Stands, update-climbed, update-documented,
}

never : (a b : Bool) → (a && not b) && b ≡ false
never a b = ground arith

and_false : (a : Bool) → a && false ≡ false
and_false a = ground arith

apart : (a b : String) → str_eq a b ≡ false → a ≢ b
apart a b h e = let p : str_eq a b ≡ true = subst (λ t. str_eq a t ≡ true) e (str_eq_refl a) in cc

holder : (a b : String) → some (cpf_row a) ≡ some (cpf_row b) → a ≡ b
holder a b e = cc

module _ (id : String) (rec : BasicRecord) (old : String) (v : View) where
  abbrev claimed_view : View
  claimed_view = write_all same_key (basic_items id rec old) v

  abbrev releases : Bool
  releases = not (str_eq old "") && not (str_eq old rec.cpf)

  basic-user :
      (i : String)
      → claimed_view (user_key i) ≡ (
          if str_eq id i
          then some (user_row (with_basic rec (user_of id (v (user_key id)))))
          else v (user_key i))
  unfolding basic_items claim_cpf release_cpf basic_item
  basic-user i = ground arith

  basic-cpf :
      (c : String)
      → claimed_view (cpf_key c) ≡ (
          if releases && str_eq old c
          then none
          else if str_eq rec.cpf c
          then some (cpf_row id)
          else v (cpf_key c))
  unfolding basic_items claim_cpf release_cpf basic_item
  basic-cpf c = ground arith

  basic-free :
      holds same_key (basic_items id rec old) v ≡ true → free_for id (v (cpf_key rec.cpf)) ≡ true
  unfolding basic_items claim_cpf release_cpf basic_item
  basic-free h = ground arith

  -- The user's own claim, with the old one released.
  own_claim : (x : String) → rec.cpf ≡ x → claimed_view (cpf_key x) ≡ some (cpf_row id)
  own_claim x e =
      subst (λ t. claimed_view (cpf_key t) ≡ some (cpf_row id)) e
        (rw
          (basic-cpf rec.cpf, never (not (str_eq old "")) (str_eq old rec.cpf), str_eq_refl rec.cpf)
          refl)

  -- Another user's claim is neither taken nor released.
  kept_claim :
      (i x : String)
      → v (cpf_key x) ≡ some (cpf_row i)
      → str_eq id i ≡ false
      → free_for id (v (cpf_key rec.cpf)) ≡ true
      → (old ≡ x → v (cpf_key x) ≡ some (cpf_row id))
      → claimed_view (cpf_key x) ≡ some (cpf_row i)
  kept_claim i x h b g o = elim (Bool-cases (str_eq rec.cpf x)) [
    | inl q ↦
        let f : free_for id (some (cpf_row i)) ≡ true =
          subst (λ t. free_for id t ≡ true) h
            (subst (λ t. free_for id (v (cpf_key t)) ≡ true) ((str_eq_iff rec.cpf x).0 q) g) in
        elim (apart id i b (sym ((str_eq_iff i id).0 f))) [ ]
    | inr q ↦ elim (Bool-cases (str_eq old x)) [
      | inl r ↦ elim (apart id i b (holder id i (sym (o ((str_eq_iff old x).0 r)) ∙ h))) [ ]
      | inr r ↦ rw (basic-cpf x, r, and_false releases, q) h
    ]
  ]

  -- The tax id of a user after the write.
  shown :
      (i x : String) (t : Bool)
      → str_eq id i ≡ t
      → cpf_of (claimed_view (user_key i)) ≡ some x
      → cpf_of (
          if t
          then some (user_row (with_basic rec (user_of id (v (user_key id)))))
          else v (user_key i))
        ≡ some x
  shown i x t b e =
      subst
        (λ y.
          cpf_of (
            if y
            then some (user_row (with_basic rec (user_of id (v (user_key id)))))
            else v (user_key i))
          ≡ some x)
        b (subst (λ o. cpf_of o ≡ some x) (basic-user i) e)

cpf_same : (a b : String) → some a ≡ some b → a ≡ b
cpf_same a b e = cc

basic_papers :
    (rec : BasicRecord) (u : User) → has_papers u ≡ true → has_papers (with_basic rec u) ≡ true
basic_papers rec u h = ground arith

basic_follows :
    (rec : BasicRecord) (u : User)
    → is_basic_locked u ≡ false
    → follows (stage u) (stage (with_basic rec u)) ≡ true
unfolding is_basic_locked
basic_follows rec u h = ground arith

-- The first verification of a user who was read just before, with the tax id that the user then had.
pub basic_items-Stands :
    (j : String) (s : Stage) (id : String) (rec : BasicRecord) (u : User) (v : View)
    → is_basic_locked u ≡ false
    → Stands j s v
    → v (user_key id) ≡ some (user_row u)
    → holds same_key (basic_items id rec u.cpf) v ≡ true
    → Stands j s (write_all same_key (basic_items id rec u.cpf) v)
basic_items-Stands j s id rec u v l h k c = record {
  claimed = λ i x e n. elim (Bool-cases (str_eq id i)) [
    | inl b ↦
        let own : claimed_view id rec u.cpf v (cpf_key x) ≡ some (cpf_row id) =
          own_claim id rec u.cpf v x (cpf_same rec.cpf x (shown id rec u.cpf v i x true b e)) in
        own ∙ ap (λ t. some (cpf_row t)) ((str_eq_iff id i).0 b)
    | inr b ↦
        kept_claim id rec u.cpf v i x (h.claimed i x (shown id rec u.cpf v i x false b e) n) b
          (basic-free id rec u.cpf v c) (λ p. h.claimed id x (ap cpf_of k ∙ ap some p) n)
  ];
  documented = λ i. rw (basic-user id rec u.cpf v i) (
      update-documented j s id anything (with_basic rec) v h.documented
        (subst (λ t. has_papers (with_basic rec t) ≡ true) (sym current)
          (basic_papers rec u (subst (λ o. papers_of o ≡ true) k (h.documented id))))
        i);
  climbed = rw (basic-user id rec u.cpf v j) (
      update-climbed j s id anything (with_basic rec) v h.climbed (
        subst (λ t. follows (stage t) (stage (with_basic rec t)) ≡ true) (sym current)
          (basic_follows rec u l)));
}
  where
    current : user_of id (v (user_key id)) ≡ u
    current = ap (user_of id) k
