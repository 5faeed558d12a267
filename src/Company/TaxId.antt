-- ===== src/Company/TaxId.antt =====
-- api/internal/domain/company/taxid.go: NormalizeTaxID and what it calls. A text is the list of its
-- runes, which for a canonical one, all ASCII, are its bytes.
pub mod Mask
pub mod Canonical
pub mod CheckDigits
pub mod Sums
pub mod Exact
use ctech_account.Common.{
  ℕ, ◌+◌, ◌-◌, ◌*◌, ◌%◌, Bool, true, false, not, ◌&&◌, ◌||◌, Option, none, some, List, [], ◌∷◌,
  ◌++◌, length, get_elem?, take, drop, all, ltb, leb, ◌==◌, if◌then◌else◌,
}

pub data TaxKind : Type 0 where
  cpf cnpj : TaxKind

abbrev pub cnpj_length : ℕ
cnpj_length = 14

abbrev pub cpf_length : ℕ
cpf_length = 11

abbrev pub cnpj_body_length : ℕ
cnpj_body_length = 12

abbrev pub within : ℕ → ℕ → ℕ → Bool
within low high r = leb low r && leb r high

-- '.', '/', '-' and ' '
abbrev pub is_mask : ℕ → Bool
is_mask r = r == 46 || (r == 47 || (r == 45 || r == 32))

-- The switch of canonicalize: what is written for a rune, `none` where the text is refused.
unfoldable pub canonical_rune : ℕ → Option (List ℕ)
canonical_rune r =
    if within 48 57 r
    then some (r ∷ [])
    else if within 65 90 r
    then some (r ∷ [])
    else if within 97 122 r
    then some ((r - 97 + 65) ∷ [])
    else if is_mask r
    then some []
    else none

abbrev pub joined : Option (List ℕ) → Option (List ℕ) → Option (List ℕ)
joined none t = none
joined (some s) none = none
joined (some s) (some t) = some (s ++ t)

unfoldable pub canonicalize : List ℕ → Option (List ℕ)
canonicalize [] = some []
canonicalize (r ∷ rs) = joined (canonical_rune r) (canonicalize rs)

abbrev pub is_digit : ℕ → Bool
is_digit c = not (ltb c 48 || ltb 57 c)

unfoldable pub is_all_digits : List ℕ → Bool
is_all_digits s = all is_digit s

unfoldable pub all_same_char : List ℕ → Bool
all_same_char [] = true
all_same_char (c ∷ cs) = all (λ d. d == c) cs

-- The characters of a canonical text are not below '0', so the difference is the source's.
unfoldable pub char_value : ℕ → ℕ
char_value c = c - 48

unfoldable pub cnpj_weight : ℕ → ℕ
cnpj_weight pos_from_right = pos_from_right % 8 + 2

unfoldable pub cpf_weight : ℕ → ℕ
cpf_weight pos_from_right = pos_from_right + 2

-- The loop of checkDigit, from the right: at most 13 characters, none above 'Z', so the sum is small.
unfoldable pub weighted_sum : (ℕ → ℕ) → List ℕ → ℕ
weighted_sum weight [] = 0
weighted_sum weight (c ∷ cs) = weighted_sum weight cs + char_value c * weight (length cs)

-- `byte('0' + 11 - rem)`
unfoldable pub digit_of_sum : ℕ → ℕ
digit_of_sum sum = if leb 2 (sum % 11) then (48 + 11 - sum % 11) % 256 else 48

unfoldable pub check_digit : List ℕ → (ℕ → ℕ) → ℕ
unfolding digit_of_sum
check_digit body weight = digit_of_sum (weighted_sum weight body)

-- `s[i] == c`; the callers have checked the length, so the index is in range.
abbrev pub char_is : Option ℕ → ℕ → Bool
char_is none c = false
char_is (some d) c = d == c

unfoldable pub valid_check_digits : List ℕ → ℕ → (ℕ → ℕ) → Bool
valid_check_digits s body_len weight =
    if not (char_is (get_elem? s body_len) (check_digit (take body_len s) weight))
    then false
    else char_is (get_elem? s (body_len + 1)) (check_digit (take (body_len + 1) s) weight)

-- The switch of NormalizeTaxID on the length.
unfoldable pub tax_id_of : List ℕ → Option (List ℕ × TaxKind)
tax_id_of c =
    if length c == cpf_length
    then if not (is_all_digits c) || not (valid_check_digits c (cpf_length - 2) cpf_weight)
      then none
      else some (c, cpf)
    else if length c == cnpj_length
    then if not (is_all_digits (drop cnpj_body_length c))
        || not (valid_check_digits c cnpj_body_length cnpj_weight)
      then none
      else some (c, cnpj)
    else none

abbrev pub tax_id_of_text : Option (List ℕ) → Option (List ℕ × TaxKind)
tax_id_of_text none = none
tax_id_of_text (some c) = if all_same_char c then none else tax_id_of c

-- `none` is the answer false.
unfoldable pub normalize_tax_id : List ℕ → Option (List ℕ × TaxKind)
normalize_tax_id raw = tax_id_of_text (canonicalize raw)
