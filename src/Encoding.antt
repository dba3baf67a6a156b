-- ===== src/Encoding.antt =====
-- Percent encoding and camel case: to_percent_encoding, from_percent_encoding and uncamelcase of
-- src/scopes/internal/Utils.cpp. A text is its list of bytes; the character classes are those of
-- the "C" locale. `std::stoi` belongs to the language and is modelled here at two characters.
pub mod RoundTrip
pub mod CamelCase
mod Tests
use unity_scopes_api.Prelude.{
  ℕ, ◌+◌, ◌-◌, ◌*◌, ◌/◌, ◌%◌, Bool, true, false, ◌&&◌, ◌||◌, List, [], ◌∷◌, ◌++◌, Option, none,
  some, Text, Result, ok, err, Error, invalid_argument, ◌>>=◌, leb, ◌==◌, if◌then◌else◌,
}
use unity_scopes_api.Prelude.Int.{ℤ, pos, negsuc}

unfoldable pub is_digit : ℕ → Bool
is_digit c = leb b'0' c && leb c b'9'

unfoldable pub is_upper : ℕ → Bool
is_upper c = leb b'A' c && leb c b'Z'

unfoldable pub is_lower : ℕ → Bool
is_lower c = leb b'a' c && leb c b'z'

unfoldable pub is_alnum : ℕ → Bool
unfolding is_digit is_upper is_lower
is_alnum c = is_digit c || (is_upper c || is_lower c)

unfoldable pub to_lower : ℕ → ℕ
unfolding is_upper
to_lower c = if is_upper c then c + 32 else c

-- An upper case hexadecimal digit.
unfoldable pub hex_digit : ℕ → ℕ
hex_digit n = if leb n 9 then n + b'0' else n + 55

-- One character of the loop of to_percent_encoding.
unfoldable pub encode_char : ℕ → Text
encode_char c =
    if is_alnum c
    then c ∷ []
    else b'%' ∷ hex_digit ((c % 256) / 16) ∷ hex_digit ((c % 256) % 16) ∷ []

unfoldable pub to_percent_encoding : Text → Text
to_percent_encoding [] = []
to_percent_encoding (c ∷ s) = encode_char c ++ to_percent_encoding s

-- The value of a digit in base 16, in either case.
pub hex_value : ℕ → Option ℕ
unfolding is_digit is_upper is_lower
hex_value c =
    if is_digit c
    then some (c - b'0')
    else if leb b'A' c && leb c b'F'
    then some (c - 55)
    else if leb b'a' c && leb c b'f'
    then some (c - 87)
    else none

is_space : ℕ → Bool
is_space c = c == 32 || (leb 9 c && leb c 13)

-- What follows a blank or a sign, in a text of two characters.
signed_digit : ℕ → Option ℕ → Option ℤ
signed_digit a none = none
signed_digit a (some d) =
    if a == b'-'
    then (if d == 0 then some (pos 0) else some (negsuc (d - 1)))
    else if a == b'+' || is_space a
    then some (pos d)
    else none

-- A leading digit counts alone where the second character is no digit.
two_digits : ℕ → Option ℕ → Option ℕ → Option ℤ
two_digits a none low = signed_digit a low
two_digits a (some h) none = some (pos h)
two_digits a (some h) (some l) = some (pos (16 * h + l))

-- std::stoi({a, b}, nullptr, 16); `none` is its std::invalid_argument.
unfoldable pub stoi_two : ℕ → ℕ → Option ℤ
unfolding two_digits signed_digit is_space hex_value
stoi_two a b = two_digits a (hex_value a) (hex_value b)

-- static_cast<char>, as a byte.
to_char : ℤ → ℕ
to_char (pos n) = n % 256
to_char (negsuc n) = 255 - n % 256

unfoldable pub decoded_or_throw : Option ℤ → Result ℕ
unfolding to_char
decoded_or_throw none = err invalid_argument
decoded_or_throw (some k) = ok (to_char k)

abbrev push_char : ℕ → Result Text → Result Text
push_char c (ok s) = ok (c ∷ s)
push_char c (err e) = err e

unfoldable pub from_percent_encoding : Text → Result Text
from_percent_encoding [] = ok []
from_percent_encoding (c ∷ []) = if c == b'%' then err invalid_argument else ok (c ∷ [])
from_percent_encoding (c ∷ a ∷ []) =
    let plain = push_char c (from_percent_encoding (a ∷ [])) in
    if c == b'%' then err invalid_argument else plain
from_percent_encoding (c ∷ a ∷ b ∷ s) =
    let decoded = decoded_or_throw (stoi_two a b) >>= λ k. push_char k (from_percent_encoding s) in
    let plain = push_char c (from_percent_encoding (a ∷ b ∷ s)) in
    if c == b'%' then decoded else plain

uncamelcase_from : Bool → Text → Text
unfolding is_upper is_lower to_lower
uncamelcase_from previous_is_lower [] = []
uncamelcase_from previous_is_lower (c ∷ s) =
    (if is_upper c && previous_is_lower then b'-' ∷ [] else [])
    ++ to_lower c ∷ uncamelcase_from (is_lower c) s

pub uncamelcase : Text → Text
unfolding uncamelcase_from
uncamelcase [] = []
uncamelcase (c ∷ s) = to_lower c ∷ uncamelcase_from (is_lower c) s
