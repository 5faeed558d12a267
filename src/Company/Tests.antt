-- ===== src/Company/Tests.antt =====
-- Documents in the published form, and the theorems at them.
use ctech_account.Common.{◌≡◌, refl, ◌↔◌, ℕ, true, false, none, some, List, [], ◌∷◌, ◌++◌, map, all}
use ctech_account.Company.TaxId.{
  cpf, cnpj, canonicalize, canonical_rune, all_same_char, tax_id_of, is_all_digits,
  valid_check_digits, check_digit, weighted_sum, char_value, cpf_weight, cnpj_weight,
  normalize_tax_id,
}
use ctech_account.Company.TaxId.Mask.{normalize_tax_id-unmasked, upper}
use ctech_account.Company.TaxId.Canonical.{is_canonical, normalize_tax_id-idempotent}
use ctech_account.Company.TaxId.Sums.{IsDocument}
use ctech_account.Company.TaxId.Exact.{Plain, normalize_tax_id-documents}
use ctech_account.Company.TaxId.CheckDigits.{normalize_tax_id-determined}

-- 529.982.247-25
abbrev masked_cpf : List ℕ
masked_cpf = 53 ∷ 50 ∷ 57 ∷ 46 ∷ 57 ∷ 56 ∷ 50 ∷ 46 ∷ 50 ∷ 52 ∷ 55 ∷ 45 ∷ 50 ∷ 53 ∷ []

abbrev plain_cpf : List ℕ
plain_cpf = 53 ∷ 50 ∷ 57 ∷ 57 ∷ 56 ∷ 50 ∷ 50 ∷ 52 ∷ 55 ∷ 50 ∷ 53 ∷ []

-- 12.abc.345/01de-35, as the Receita Federal's example of an alphanumeric CNPJ, in lower case
abbrev masked_cnpj : List ℕ
masked_cnpj =
    49 ∷ 50 ∷ 46 ∷ 97 ∷ 98 ∷ 99 ∷ 46 ∷ 51 ∷ 52 ∷ 53 ∷ 47 ∷ 48 ∷ 49 ∷ 100 ∷ 101 ∷ 45 ∷ 51 ∷ 53 ∷ []

abbrev plain_cnpj : List ℕ
plain_cnpj = 49 ∷ 50 ∷ 65 ∷ 66 ∷ 67 ∷ 51 ∷ 52 ∷ 53 ∷ 48 ∷ 49 ∷ 68 ∷ 69 ∷ 51 ∷ 53 ∷ []

cpf_accepted : normalize_tax_id masked_cpf ≡ some (plain_cpf, cpf)
unfolding normalize_tax_id canonicalize canonical_rune all_same_char tax_id_of is_all_digits
    valid_check_digits check_digit weighted_sum char_value cpf_weight cnpj_weight
cpf_accepted = refl

plain_accepted : normalize_tax_id plain_cpf ≡ some (plain_cpf, cpf)
unfolding normalize_tax_id canonicalize canonical_rune all_same_char tax_id_of is_all_digits
    valid_check_digits check_digit weighted_sum char_value cpf_weight cnpj_weight
plain_accepted = refl

cnpj_accepted : normalize_tax_id masked_cnpj ≡ some (plain_cnpj, cnpj)
unfolding normalize_tax_id canonicalize canonical_rune all_same_char tax_id_of is_all_digits
    valid_check_digits check_digit weighted_sum char_value cpf_weight cnpj_weight
cnpj_accepted = refl

-- One digit too many.
cpf_refused : normalize_tax_id (masked_cpf ++ 54 ∷ []) ≡ none
unfolding normalize_tax_id canonicalize canonical_rune all_same_char tax_id_of is_all_digits
    valid_check_digits check_digit weighted_sum char_value cpf_weight cnpj_weight
cpf_refused = refl

normalize_tax_id-unmasked_example :
    (normalize_tax_id (masked_cnpj ++ 45 ∷ []) ≡ normalize_tax_id (masked_cnpj ++ []))
    × (normalize_tax_id (map upper masked_cnpj) ≡ normalize_tax_id masked_cnpj)
normalize_tax_id-unmasked_example = normalize_tax_id-unmasked masked_cnpj [] 45 refl

normalize_tax_id-documents_example : (normalize_tax_id masked_cnpj ≡ some (plain_cnpj, cnpj)) ↔ (
    Plain masked_cnpj plain_cnpj × (all_same_char plain_cnpj ≡ false) × IsDocument plain_cnpj cnpj)
normalize_tax_id-documents_example = normalize_tax_id-documents masked_cnpj plain_cnpj cnpj

normalize_tax_id-idempotent_example :
    (all is_canonical plain_cnpj ≡ true) × (normalize_tax_id plain_cnpj ≡ some (plain_cnpj, cnpj))
normalize_tax_id-idempotent_example =
    normalize_tax_id-idempotent masked_cnpj plain_cnpj cnpj cnpj_accepted

normalize_tax_id-determined_example : plain_cpf ≡ plain_cpf
normalize_tax_id-determined_example =
    normalize_tax_id-determined masked_cpf plain_cpf plain_cpf plain_cpf cpf cpf_accepted
      plain_accepted refl
