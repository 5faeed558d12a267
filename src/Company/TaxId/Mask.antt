-- ===== src/Company/TaxId/Mask.antt =====
-- Proofs on canonicalize of api/internal/domain/company/taxid.go: the mask and the case of letters.
use ctech_account.Common.{
  ◌≡◌, refl, ◌∙◌, ap, ℕ, ◌+◌, ◌-◌, true, Option, none, some, List, [], ◌∷◌, ◌++◌, map,
  if◌then◌else◌, arith,
}
use ctech_account.Company.TaxId.{
  within, is_mask, canonical_rune, joined, canonicalize, normalize_tax_id, tax_id_of_text,
}

-- A letter's upper case, and anything else as it is.
abbrev pub upper : ℕ → ℕ
upper r = if within 97 122 r then r - 97 + 65 else r

joined_nothing : (t : Option (List ℕ)) → joined (some []) t ≡ t
joined_nothing none = refl
joined_nothing (some t) = refl

canonicalize-mask :
    (xs ys : List ℕ) (m : ℕ)
    → is_mask m ≡ true
    → canonicalize (xs ++ m ∷ ys) ≡ canonicalize (xs ++ ys)
unfolding canonicalize canonical_rune
canonicalize-mask [] ys m h =
    let e : canonical_rune m ≡ some [] = ground arith in
    ap (λ s. joined s (canonicalize ys)) e ∙ joined_nothing (canonicalize ys)
canonicalize-mask (x ∷ xs) ys m h = ap (joined (canonical_rune x)) (canonicalize-mask xs ys m h)

canonical_rune-upper : (r : ℕ) → canonical_rune (upper r) ≡ canonical_rune r
unfolding canonical_rune
canonical_rune-upper r = ground arith

canonicalize-upper : (xs : List ℕ) → canonicalize (map upper xs) ≡ canonicalize xs
unfolding canonicalize
canonicalize-upper [] = refl
canonicalize-upper (x ∷ xs) =
    ap (λ s. joined s (canonicalize (map upper xs))) (canonical_rune-upper x)
    ∙ ap (joined (canonical_rune x)) (canonicalize-upper xs)

-- A character of the mask, wherever it stands, and the case of the letters make no difference to the
-- answer of NormalizeTaxID.
pub normalize_tax_id-unmasked :
    (xs ys : List ℕ) (m : ℕ)
    → is_mask m ≡ true
    → (normalize_tax_id (xs ++ m ∷ ys) ≡ normalize_tax_id (xs ++ ys))
      × (normalize_tax_id (map upper xs) ≡ normalize_tax_id xs)
unfolding normalize_tax_id
normalize_tax_id-unmasked xs ys m h =
    (ap tax_id_of_text (canonicalize-mask xs ys m h), ap tax_id_of_text (canonicalize-upper xs))
