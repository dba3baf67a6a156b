-- ===== src/Encoding/Tests.antt =====
-- Runs of the encoding functions, and their theorems at concrete texts.
use unity_scopes_api.Prelude.{◌≡◌, refl, [], ◌∷◌, ◌++◌, codes, ok, err, invalid_argument, arith}
use unity_scopes_api.Encoding.{
  is_alnum, to_percent_encoding, hex_digit, encode_char, stoi_two, decoded_or_throw,
  from_percent_encoding, uncamelcase,
}
use unity_scopes_api.Encoding.RoundTrip.{from-to_percent_encoding, from_percent_encoding-cut}
use unity_scopes_api.Encoding.CamelCase.{NoUpper, uncamelcase-NoUpper}

encode_run : to_percent_encoding (codes "a b&") ≡ codes "a%20b%26"
unfolding to_percent_encoding encode_char hex_digit is_alnum
encode_run = refl

decode_run : from_percent_encoding (codes "%4Fk%") ≡ err invalid_argument
unfolding from_percent_encoding decoded_or_throw stoi_two
decode_run = refl

decode_lower_case : from_percent_encoding (codes "%c3k") ≡ ok (0xc3 ∷ b'k' ∷ [])
unfolding from_percent_encoding decoded_or_throw stoi_two
decode_lower_case = refl

-- The second character of the escape is no digit, and is dropped.
half_escape : from_percent_encoding (codes "%4Gk") ≡ ok (4 ∷ b'k' ∷ [])
unfolding from_percent_encoding decoded_or_throw stoi_two
half_escape = refl

camel_run : uncamelcase (codes "myScopeID") ≡ codes "my-scope-id"
unfolding uncamelcase
camel_run = refl

from-to_percent_encoding_example :
    from_percent_encoding (to_percent_encoding (0xe9 ∷ codes " =")) ≡ ok (0xe9 ∷ codes " =")
from-to_percent_encoding_example = from-to_percent_encoding (0xe9 ∷ codes " =") (omega arith)

from_percent_encoding-cut_example :
    (from_percent_encoding (codes "ab" ++ codes "%") ≡ err invalid_argument)
    × (from_percent_encoding (codes "ab" ++ codes "%4") ≡ err invalid_argument)
from_percent_encoding-cut_example = from_percent_encoding-cut (codes "ab") b'4' (omega arith)

uncamelcase-NoUpper_example : NoUpper (uncamelcase (codes "ScopeA"))
uncamelcase-NoUpper_example = uncamelcase-NoUpper (codes "ScopeA")
