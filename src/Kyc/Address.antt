-- ===== src/Kyc/Address.antt =====
-- api/internal/domain/kyc/address.go, phone.go and cpf.go. A text that the source tests for digits is
-- the list of its bytes: a rune outside of ASCII has bytes that are no digits.
use ctech_account.Common.{
  ℕ, String, Bool, false, not, ◌&&◌, ◌||◌, List, [], ◌∷◌, length, all, str_eq, leb, ◌==◌,
}
use ctech_account.Kyc.Model.{Address, contains}

abbrev pub zip_code_digits : ℕ
zip_code_digits = 8

abbrev pub is_digit : ℕ → Bool
is_digit c = leb 48 c && leb c 57

abbrev pub brazilian_states : List String
brazilian_states =
    "AC" ∷ "AL" ∷ "AP" ∷ "AM" ∷ "BA" ∷ "CE" ∷ "DF" ∷ "ES" ∷ "GO" ∷ "MA" ∷ "MT" ∷ "MS" ∷ "MG" ∷ "PA"
    ∷ "PB" ∷ "PR" ∷ "PE" ∷ "PI" ∷ "RJ" ∷ "RN" ∷ "RS" ∷ "RO" ∷ "RR" ∷ "SC" ∷ "SP" ∷ "SE" ∷ "TO" ∷ []

unfoldable pub is_valid_zip_code : List ℕ → Bool
is_valid_zip_code cep = length cep == zip_code_digits && all is_digit cep

-- ^\+[1-9]\d{7,14}$
unfoldable pub is_valid_phone : List ℕ → Bool
is_valid_phone (plus ∷ c ∷ rest) =
    plus == 43
    && (leb 49 c
        && (leb c 57 && (all is_digit rest && (leb 7 (length rest) && leb (length rest) 14))))
is_valid_phone _ = false

module _ (upper : String → String) where
  unfoldable pub is_valid_state : String → Bool
  is_valid_state uf = contains (upper uf) brazilian_states

  unfoldable pub normalize_address : (String → String) → Address → Address
  normalize_address trim a = record {
    zip_code = trim a.zip_code;
    street = trim a.street;
    number = trim a.number;
    complement = trim a.complement;
    district = trim a.district;
    city = trim a.city;
    state = upper (trim a.state);
  }

  -- Whether ValidateAddress returns no error.
  unfoldable pub is_valid_address : (String → List ℕ) → Address → Bool
  is_valid_address bytes a =
      is_valid_zip_code (bytes a.zip_code)
      && is_valid_state a.state
      && not (str_eq a.street "" || str_eq a.number "" || str_eq a.district "" || str_eq a.city "")
