-- ===== src/Company/TaxId/Exact.antt =====
-- Proofs on NormalizeTaxID of api/internal/domain/company/taxid.go as a whole.
use ctech_account.Common.{
  ◌≡◌, refl, sym, subst, ℕ, ◌-◌, ◌+◌, Bool-cases, ◌≤◌, ◌⊎◌, inl, inr, ◌↔◌, false, some, List, [],
  ◌∷◌, ◌++◌, arith,
}
use ctech_account.Company.TaxId.{
  TaxKind, canonical_rune, canonicalize, all_same_char, normalize_tax_id, within, is_mask,
}
use ctech_account.Company.TaxId.Canonical.{normalize_tax_id-exact, joined_parts}
use ctech_account.Company.TaxId.Sums.{IsDocument, Shape-IsDocument}

-- '.', '-', '/' and ' '
abbrev pub IsMask : ℕ → Type 0
IsMask r = (r ≡ 46) ⊎ (r ≡ 45) ⊎ (r ≡ 47) ⊎ (r ≡ 32)

-- '0' to '9' and 'A' to 'Z'
abbrev pub IsPlain : ℕ → Type 0
IsPlain r = (48 ≤ r) × (r ≤ 57) ⊎ (65 ≤ r) × (r ≤ 90)

-- `c` is the text `raw` without its mask and with its letters in upper case, and no other character
-- stands in `raw`.
pub data Plain : List ℕ → List ℕ → Type 0 where
  over : Plain [] []
  dropped : {r : ℕ} {raw c : List ℕ} → IsMask r → Plain raw c → Plain (r ∷ raw) c
  kept : {r : ℕ} {raw c : List ℕ} → IsPlain r → Plain raw c → Plain (r ∷ raw) (r ∷ c)
  raised :
      {r : ℕ} {raw c : List ℕ} → 97 ≤ r → r ≤ 122 → Plain raw c → Plain (r ∷ raw) ((r - 32) ∷ c)

rune_cases :
    (r : ℕ) (s : List ℕ)
    → canonical_rune r ≡ some s
    → (s ≡ r ∷ []) × IsPlain r ⊎ (s ≡ (r - 32) ∷ []) × (97 ≤ r) × (r ≤ 122) ⊎ (s ≡ []) × IsMask r
unfolding canonical_rune
rune_cases r s e = elim (Bool-cases (within 48 57 r)) [
  | inl a ↦ inl (ground arith, inl (ground arith))
  | inr a ↦ elim (Bool-cases (within 65 90 r)) [
    | inl b ↦ inl (ground arith, inr (ground arith))
    | inr b ↦ elim (Bool-cases (within 97 122 r)) [
      | inl c ↦
          let low : 97 ≤ r = ground arith in
          let q : r - 97 + 65 ≡ r - 32 = omega arith in
          let t : s ≡ (r - 97 + 65) ∷ [] = ground arith in
          inr (inl (rw (sym q) t, low, ground arith))
      | inr c ↦ elim (Bool-cases (is_mask r)) [
        | inl d ↦ inr (inr (ground arith, ground arith))
        | inr d ↦ absurd (ground arith)
      ]
    ]
  ]
]

plain_rune : (r : ℕ) → IsPlain r → canonical_rune r ≡ some (r ∷ [])
unfolding canonical_rune
plain_rune r h = ground arith

raised_rune : (r : ℕ) → 97 ≤ r → r ≤ 122 → canonical_rune r ≡ some ((r - 32) ∷ [])
unfolding canonical_rune
raised_rune r h k = let e : r - 97 + 65 ≡ r - 32 = omega arith in ground arith

mask_rune : (r : ℕ) → IsMask r → canonical_rune r ≡ some []
unfolding canonical_rune
mask_rune r h = ground arith

Plain-canonicalize : (raw c : List ℕ) → Plain raw c → canonicalize raw ≡ some c
unfolding canonicalize
Plain-canonicalize _ _ over = refl
Plain-canonicalize _ c (dropped {r = r} {raw = raw} h p) =
    rw (mask_rune r h, Plain-canonicalize raw c p) refl
Plain-canonicalize _ _ (kept {r = r} {raw = raw} {c = c} h p) =
    rw (plain_rune r h, Plain-canonicalize raw c p) refl
Plain-canonicalize _ _ (raised {r = r} {raw = raw} {c = c} h k p) =
    rw (raised_rune r h k, Plain-canonicalize raw c p) refl

canonicalize-Plain : (raw c : List ℕ) → canonicalize raw ≡ some c → Plain raw c
unfolding canonicalize
canonicalize-Plain [] c e = let q : [] ≡ c = cc in subst (Plain []) q over
canonicalize-Plain (r ∷ raw) c e =
    let (s, t, p, q, f) = joined_parts (canonical_rune r) (canonicalize raw) c e in
    let rest = canonicalize-Plain raw t q in
    subst (Plain (r ∷ raw)) f (elim (rune_cases r s p) [
      | inl (g, h) ↦ subst (λ x. Plain (r ∷ raw) (x ++ t)) (sym g) (kept h rest)
      | inr (inl (g, h, k)) ↦ subst (λ x. Plain (r ∷ raw) (x ++ t)) (sym g) (raised h k rest)
      | inr (inr (g, h)) ↦ subst (λ x. Plain (r ∷ raw) (x ++ t)) (sym g) (dropped h rest)
    ])

-- NormalizeTaxID answers with `c` and `k` exactly when `c` is the text without its mask and in upper case,
-- its characters are not all the same, and it is a document of the kind `k`: 11 digits of which the last
-- two balance the weighted sums of a CPF modulo 11, or 14 characters that end in two digits which balance
-- those of a CNPJ.
pub normalize_tax_id-documents :
    (raw c : List ℕ) (k : TaxKind)
    → (normalize_tax_id raw ≡ some (c, k))
      ↔ (Plain raw c × (all_same_char c ≡ false) × IsDocument c k)
normalize_tax_id-documents raw c k =
    let x = normalize_tax_id-exact raw c k in
    let y = Shape-IsDocument c k in
    (
      λ h. let (e, v, s) = x.0 h in (canonicalize-Plain raw c e, v, y.0 s),
      λ (e, v, s). x.1 (Plain-canonicalize raw c e, v, y.1 s),
    )
