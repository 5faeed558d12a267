-- ===== src/Company/TaxId/Sums.antt =====
-- Proofs on the check digits of api/internal/domain/company/taxid.go, against the sums by which the
-- documents are defined.
use ctech_account.Common.{
  ◌≡◌, refl, sym, ap, subst, ◌∙◌, ℕ, zero, suc, ◌+◌, ◌*◌, ◌-◌, ◌%◌, ◌≤◌, ◌⊎◌, inl, inr, ◌↔◌, true,
  Option, none, some, List, [], ◌∷◌, arith, length, take, drop, get_elem?, Bool-cases, all, leb,
}
use ctech_account.Company.TaxId.{
  TaxKind, cpf, cnpj, valid_check_digits, check_digit, digit_of_sum, weighted_sum, char_value,
  char_is, cpf_weight, cnpj_weight, is_all_digits, is_digit,
}
use ctech_account.Company.TaxId.Canonical.{Shape}

-- The sum of the values of the characters, each times its weight; a character's value is its place after '0'.
abbrev pub dot : List ℕ → List ℕ → ℕ
dot (w ∷ ws) (c ∷ cs) = dot ws cs + (c - 48) * w
dot _ _ = 0

-- The character is the digit that brings the sum to a multiple of 11, or '0' where that would be 10.
abbrev pub Balances : ℕ → Option ℕ → Type 0
Balances sum o =
    (d : ℕ) × (o ≡ some (48 + d)) × (d ≤ 9) × (((sum + d) % 11 ≡ 0) ⊎ (d ≡ 0) × (sum % 11 ≡ 1))

weights_below : (ℕ → ℕ) → ℕ → List ℕ
weights_below w zero = []
weights_below w (suc n) = w n ∷ weights_below w n

dot-weights : (w : ℕ → ℕ) (cs : List ℕ) → dot (weights_below w (length cs)) cs ≡ weighted_sum w cs
unfolding weights_below weighted_sum char_value
dot-weights w [] = refl
dot-weights w (c ∷ cs) = rw (dot-weights w cs) refl

digit-Balances : (sum : ℕ) (o : Option ℕ) → char_is o (digit_of_sum sum) ≡ true → Balances sum o
unfolding digit_of_sum
digit-Balances sum none h = cc
digit-Balances sum (some c) h = elim (Bool-cases (leb 2 (sum % 11))) [
  | inl b ↦ (11 - sum % 11, ap some (ground arith), ground arith, inl (ground arith))
  | inr b ↦ (0, ap some (ground arith), ground arith, ground arith)
]

Balances-digit : (sum : ℕ) (o : Option ℕ) → Balances sum o → char_is o (digit_of_sum sum) ≡ true
unfolding digit_of_sum
Balances-digit sum o (d, e, l, p) = elim (Bool-cases (leb 2 (sum % 11))) [
  | inl b ↦ rw e (ground arith)
  | inr b ↦ rw e (ground arith)
]

check_digit-Balances :
    (w : ℕ → ℕ) (body : List ℕ) (n : ℕ) (ws : List ℕ) (o : Option ℕ)
    → length body ≡ n
    → weights_below w n ≡ ws
    → (char_is o (check_digit body w) ≡ true) ↔ Balances (dot ws body) o
unfolding check_digit
check_digit-Balances w body n ws o l e =
    let s : weighted_sum w body ≡ dot ws body =
      sym (dot-weights w body) ∙ ap (λ (xs : List ℕ). dot xs body) (ap (weights_below w) l ∙ e) in
    (
      λ h. subst (λ x. Balances x o) s (digit-Balances _ o h),
      λ b. Balances-digit _ o (subst (λ x. Balances x o) (sym s) b),
    )

length-take : (n m : ℕ) (c : List ℕ) → length c ≡ n + m → length (take n c) ≡ n
length-take zero m c e = refl
length-take (suc n) m [] e = absurd (omega (arith, e))
length-take (suc n) m (x ∷ c) e = ap suc (length-take n m c (omega (arith, e)))

-- The characters at `n` and after it balance the sums of those before, with the weights `ws` and `vs`.
abbrev pub Balanced : List ℕ → ℕ → List ℕ → List ℕ → Type 0
Balanced c n ws vs =
    Balances (dot ws (take n c)) (get_elem? c n)
    × Balances (dot vs (take (n + 1) c)) (get_elem? c (n + 1))

valid_check_digits-Balanced :
    (c : List ℕ) (n : ℕ) (w : ℕ → ℕ) (ws vs : List ℕ)
    → length c ≡ n + 2
    → weights_below w n ≡ ws
    → weights_below w (n + 1) ≡ vs
    → (valid_check_digits c n w ≡ true) ↔ Balanced c n ws vs
unfolding valid_check_digits
valid_check_digits-Balanced c n w ws vs l e f =
    let a = check_digit-Balances w (take n c) n ws (get_elem? c n) (length-take n 2 c l) e in
    let b =
      check_digit-Balances w (take (n + 1) c) (n + 1) vs (get_elem? c (n + 1))
        (length-take (n + 1) 1 c (omega (arith, l))) f in
    (
      λ h. (a.0 (ground arith), b.0 (ground arith)),
      λ h. let p = a.1 h.0 in let q = b.1 h.1 in ground arith,
    )

-- The weights of the four sums, as the Receita Federal gives them.
abbrev pub cpf_first : List ℕ
cpf_first = 10 ∷ 9 ∷ 8 ∷ 7 ∷ 6 ∷ 5 ∷ 4 ∷ 3 ∷ 2 ∷ []

abbrev pub cpf_second : List ℕ
cpf_second = 11 ∷ cpf_first

abbrev pub cnpj_first : List ℕ
cnpj_first = 5 ∷ 4 ∷ 3 ∷ 2 ∷ 9 ∷ 8 ∷ 7 ∷ 6 ∷ 5 ∷ 4 ∷ 3 ∷ 2 ∷ []

abbrev pub cnpj_second : List ℕ
cnpj_second = 6 ∷ cnpj_first

-- The text is a document of the kind.
abbrev pub IsDocument : List ℕ → TaxKind → Type 0
IsDocument c k =
    (k ≡ cpf) × (length c ≡ 11) × (all is_digit c ≡ true) × Balanced c 9 cpf_first cpf_second
    ⊎ (k ≡ cnpj)
      × (length c ≡ 14)
      × (all is_digit (drop 12 c) ≡ true)
      × Balanced c 12 cnpj_first cnpj_second

cpf-Balanced :
    (c : List ℕ)
    → length c ≡ 11
    → (valid_check_digits c 9 cpf_weight ≡ true) ↔ Balanced c 9 cpf_first cpf_second
unfolding cpf_weight weights_below
cpf-Balanced c l = valid_check_digits-Balanced c 9 cpf_weight cpf_first cpf_second l refl refl

cnpj-Balanced :
    (c : List ℕ)
    → length c ≡ 14
    → (valid_check_digits c 12 cnpj_weight ≡ true) ↔ Balanced c 12 cnpj_first cnpj_second
unfolding cnpj_weight weights_below
cnpj-Balanced c l = valid_check_digits-Balanced c 12 cnpj_weight cnpj_first cnpj_second l refl refl

pub Shape-IsDocument : (c : List ℕ) (k : TaxKind) → Shape c k ↔ IsDocument c k
unfolding is_all_digits
Shape-IsDocument c k = (
  λ s. elim s [
    | inl (e, l, d, v) ↦ inl (e, l, d, (cpf-Balanced c l).0 v)
    | inr (e, l, d, v) ↦ inr (e, l, d, (cnpj-Balanced c l).0 v)
  ],
  λ s. elim s [
    | inl (e, l, d, v) ↦ inl (e, l, d, (cpf-Balanced c l).1 v)
    | inr (e, l, d, v) ↦ inr (e, l, d, (cnpj-Balanced c l).1 v)
  ],
)
