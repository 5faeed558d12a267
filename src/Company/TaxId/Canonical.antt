-- ===== src/Company/TaxId/Canonical.antt =====
-- Proofs on NormalizeTaxID of api/internal/domain/company/taxid.go: the canonical form.
use ctech_account.Common.{
  ◌≡◌, refl, sym, ◌∙◌, ap, ℕ, Bool, true, false, ◌||◌, ◌⊎◌, inl, inr, ◌↔◌, Bool-cases, Option, none,
  some, List, [], ◌∷◌, ◌++◌, arith, length, all, drop, and_parts,
}
use ctech_account.Company.TaxId.{
  TaxKind, cpf, cnpj, within, is_all_digits, all_same_char, canonical_rune, joined, canonicalize,
  valid_check_digits, cpf_weight, cnpj_weight, normalize_tax_id, tax_id_of_text, tax_id_of,
}

-- A digit or an upper case letter.
abbrev pub is_canonical : ℕ → Bool
is_canonical c = within 48 57 c || within 65 90 c

all-append :
    (p : ℕ → Bool) (xs ys : List ℕ) → all p xs ≡ true → all p ys ≡ true → all p (xs ++ ys) ≡ true
all-append p [] ys h k = k
all-append p (x ∷ xs) ys h k = ground (arith, all-append p xs ys)

abbrev is_fine : Option (List ℕ) → Bool
is_fine none = true
is_fine (some s) = all is_canonical s

canonical_rune-Fine : (r : ℕ) → is_fine (canonical_rune r) ≡ true
unfolding canonical_rune
canonical_rune-Fine r = ground arith

canonical_rune-Canonical :
    (r : ℕ) (s : List ℕ) → canonical_rune r ≡ some s → all is_canonical s ≡ true
canonical_rune-Canonical r s h = ap is_fine (sym h) ∙ canonical_rune-Fine r

pub joined_parts :
    (a b : Option (List ℕ)) (c : List ℕ)
    → joined a b ≡ some c
    → (s t : List ℕ) × (a ≡ some s) × (b ≡ some t) × (s ++ t ≡ c)
joined_parts none b c h = cc
joined_parts (some s) none c h = cc
joined_parts (some s) (some t) c h = (s, t, refl, refl, cc)

pub canonicalize-Canonical :
    (raw c : List ℕ) → canonicalize raw ≡ some c → all is_canonical c ≡ true
unfolding canonicalize
canonicalize-Canonical [] c h = let e : [] ≡ c = cc in rw (sym e) refl
canonicalize-Canonical (r ∷ raw) c h =
    let (s, t, p, q, e) = joined_parts _ _ c h in
    rw (sym e) (all-append _ s t (canonical_rune-Canonical r s p) (canonicalize-Canonical raw t q))

canonical_rune-fixed : (r : ℕ) → is_canonical r ≡ true → canonical_rune r ≡ some (r ∷ [])
unfolding canonical_rune
canonical_rune-fixed r h = ground arith

pub canonicalize-fixed : (c : List ℕ) → all is_canonical c ≡ true → canonicalize c ≡ some c
unfolding canonicalize
canonicalize-fixed [] h = refl
canonicalize-fixed (r ∷ c) h =
    let (p, q) = and_parts _ _ h in rw (canonical_rune-fixed r p, canonicalize-fixed c q) refl

-- What an accepted canonical text satisfies: its length and its digits say which document it is.
abbrev pub Shape : List ℕ → TaxKind → Type 0
Shape c k =
    (k ≡ cpf)
      × (length c ≡ 11)
      × (is_all_digits c ≡ true)
      × (valid_check_digits c 9 cpf_weight ≡ true)
    ⊎ (k ≡ cnpj)
      × (length c ≡ 14)
      × (is_all_digits (drop 12 c) ≡ true)
      × (valid_check_digits c 12 cnpj_weight ≡ true)

pub tax_id_of-Shape : (c d : List ℕ) (k : TaxKind) → tax_id_of c ≡ some (d, k) → (c ≡ d) × Shape c k
unfolding tax_id_of
tax_id_of-Shape c d k h = ground arith

Shape-tax_id_of : (c : List ℕ) (k : TaxKind) → Shape c k → tax_id_of c ≡ some (c, k)
unfolding tax_id_of
Shape-tax_id_of c k h = ground arith

text_parts :
    (t : Option (List ℕ)) (c : List ℕ) (k : TaxKind)
    → tax_id_of_text t ≡ some (c, k)
    → (t ≡ some c) × (all_same_char c ≡ false) × Shape c k
text_parts none c k h = cc
text_parts (some d) c k h = elim (Bool-cases (all_same_char d)) [
  | inl e ↦ ground arith
  | inr e ↦
      let (p, s) = tax_id_of-Shape d c k (ground arith) in (ap some p, rw (sym p) e, rw (sym p) s)
]

-- NormalizeTaxID answers with `c` and `k` exactly when `c` is the text without its mask and in upper
-- case, its characters are not all the same, and it has the length, the digits and the check digits of
-- a document of the kind `k`.
pub normalize_tax_id-exact :
    (raw c : List ℕ) (k : TaxKind)
    → (normalize_tax_id raw ≡ some (c, k))
      ↔ ((canonicalize raw ≡ some c) × (all_same_char c ≡ false) × Shape c k)
unfolding normalize_tax_id
normalize_tax_id-exact raw c k =
    (λ h. text_parts _ c k h, λ (e, v, s). rw (e, v) (Shape-tax_id_of c k s))

-- What NormalizeTaxID answers with is made of digits and upper case letters, and is its own canonical
-- form: normalizing it once more gives the same document of the same kind.
pub normalize_tax_id-idempotent :
    (raw c : List ℕ) (k : TaxKind)
    → normalize_tax_id raw ≡ some (c, k)
    → (all is_canonical c ≡ true) × (normalize_tax_id c ≡ some (c, k))
normalize_tax_id-idempotent raw c k h =
    let (e, v, s) = (normalize_tax_id-exact raw c k).0 h in
    let p = canonicalize-Canonical raw c e in
    (p, (normalize_tax_id-exact c c k).1 (canonicalize-fixed c p, v, s))
