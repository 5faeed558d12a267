-- ===== src/Company/TaxId/CheckDigits.antt =====
-- Proofs on validCheckDigits of api/internal/domain/company/taxid.go.
use ctech_account.Common.{
  ◌≡◌, refl, sym, ◌∙◌, ap, subst, ℕ, zero, suc, ◌+◌, true, inl, inr, Option, none, some, List, [],
  ◌∷◌, ◌++◌, arith, length, take, get_elem?, ==_iff,
}
use ctech_account.Company.TaxId.{
  TaxKind, cpf, cnpj, valid_check_digits, check_digit, char_is, cpf_weight, cnpj_weight,
  normalize_tax_id,
}
use ctech_account.Company.TaxId.Canonical.{Shape, normalize_tax_id-exact}

-- The number of characters before the check digits.
abbrev pub body_length : TaxKind → ℕ
body_length cpf = 9
body_length cnpj = 12

two_more :
    (n : ℕ) (s : List ℕ) (a b : ℕ)
    → length s ≡ suc (suc n)
    → get_elem? s n ≡ some a
    → get_elem? s (suc n) ≡ some b
    → (take (suc n) s ≡ take n s ++ a ∷ []) × (s ≡ take n s ++ a ∷ b ∷ [])
two_more zero [] a b l e f = cc
two_more zero (x ∷ []) a b l e f = cc
two_more zero (x ∷ y ∷ []) a b l e f =
    let p : x ≡ a = cc in let q : y ≡ b = cc in rw (p, q) (refl, refl)
two_more zero (x ∷ y ∷ z ∷ s) a b l e f = absurd (omega (arith, l))
two_more (suc n) [] a b l e f = cc
two_more (suc n) (x ∷ s) a b l e f =
    let (p, q) = two_more n s a b (omega (arith, l)) e f in (ap (λ t. x ∷ t) p, ap (λ t. x ∷ t) q)

is_char : (o : Option ℕ) (c : ℕ) → char_is o c ≡ true → o ≡ some c
is_char none c h = cc
is_char (some d) c h = ap some ((==_iff d c).0 h)

-- A body with the two check digits that it determines.
abbrev pub completed : List ℕ → (ℕ → ℕ) → List ℕ
completed body weight =
    let a = check_digit body weight in body ++ a ∷ check_digit (body ++ a ∷ []) weight ∷ []

valid_check_digits-completed :
    (s : List ℕ) (n : ℕ) (weight : ℕ → ℕ)
    → length s ≡ n + 2
    → valid_check_digits s n weight ≡ true
    → s ≡ completed (take n s) weight
unfolding valid_check_digits
valid_check_digits-completed s n weight l h =
    let c : char_is (get_elem? s n) (check_digit (take n s) weight) ≡ true = ground arith in
    let m : n + 1 ≡ suc n = omega arith in
    let d : char_is (get_elem? s (suc n)) (check_digit (take (suc n) s) weight) ≡ true =
      subst (λ (i : ℕ). char_is (get_elem? s i) (check_digit (take i s) weight) ≡ true) m
        (ground arith) in
    let (p, q) = two_more n s _ _ (omega (arith, l)) (is_char _ _ c) (is_char _ _ d) in
    q ∙ ap (λ t. take n s ++ check_digit (take n s) weight ∷ check_digit t weight ∷ []) p

weight_of : TaxKind → ℕ → ℕ
weight_of cpf = cpf_weight
weight_of cnpj = cnpj_weight

Shape-completed :
    (c : List ℕ) (k : TaxKind) → Shape c k → c ≡ completed (take (body_length k) c) (weight_of k)
unfolding weight_of
Shape-completed c cpf (inl (e, l, d, v)) = valid_check_digits-completed c 9 cpf_weight l v
Shape-completed c cpf (inr (e, l, d, v)) = cc
Shape-completed c cnpj (inl (e, l, d, v)) = cc
Shape-completed c cnpj (inr (e, l, d, v)) = valid_check_digits-completed c 12 cnpj_weight l v

-- The two check digits of a document are determined by the rest of it: two texts that NormalizeTaxID
-- accepts as the same kind of document, with the same body, are accepted as the same document.
pub normalize_tax_id-determined :
    (raw other c d : List ℕ) (k : TaxKind)
    → normalize_tax_id raw ≡ some (c, k)
    → normalize_tax_id other ≡ some (d, k)
    → take (body_length k) c ≡ take (body_length k) d
    → c ≡ d
normalize_tax_id-determined raw other c d k h g e =
    let p = Shape-completed c k ((normalize_tax_id-exact raw c k).0 h).2 in
    let q = Shape-completed d k ((normalize_tax_id-exact other d k).0 g).2 in
    p ∙ ap (λ b. completed b (weight_of k)) e ∙ sym q
