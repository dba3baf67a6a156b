-- ===== src/Encoding/RoundTrip.antt =====
-- What to_percent_encoding and from_percent_encoding guarantee of one another.
use unity_scopes_api.Prelude.{
  ℕ, ◌+◌, ◌*◌, ◌/◌, ◌%◌, ◌<◌, ◌≡◌, ◌≢◌, ◌⊎◌, inl, inr, refl, ap, ◌∙◌, true, false, [], ◌∷◌, ◌++◌,
  some, Text, Result, ok, err, invalid_argument, ◌>>=◌, ◌==◌, arith, All, All-append, Bool-cases,
}
use unity_scopes_api.Encoding.{
  is_alnum, hex_digit, encode_char, to_percent_encoding, hex_value, stoi_two, decoded_or_throw,
  push_char, from_percent_encoding,
}

hex_value-hex_digit : (n : ℕ) → n < 16 → hex_value (hex_digit n) ≡ some n
unfolding hex_value hex_digit
hex_value-hex_digit n h = ground arith

decode-hex_digits :
    (h l : ℕ)
    → h < 16
    → l < 16
    → decoded_or_throw (stoi_two (hex_digit h) (hex_digit l)) ≡ ok ((16 * h + l) % 256)
unfolding decoded_or_throw stoi_two
decode-hex_digits h l p q = rw (stoi_two, hex_value-hex_digit h p, hex_value-hex_digit l q) refl

pub from_percent_encoding-nil : from_percent_encoding [] ≡ ok []
unfolding from_percent_encoding
from_percent_encoding-nil = refl

pub from_percent_encoding-plain :
    (c : ℕ) (s : Text)
    → (c == b'%') ≡ false
    → from_percent_encoding (c ∷ s) ≡ push_char c (from_percent_encoding s)
unfolding from_percent_encoding
from_percent_encoding-plain c [] h = rw h
from_percent_encoding-plain c (a ∷ []) h = rw h
from_percent_encoding-plain c (a ∷ b ∷ s) h = rw h

from_percent_encoding-escape :
    (a b : ℕ) (s : Text)
    → from_percent_encoding (b'%' ∷ a ∷ b ∷ s)
      ≡ (decoded_or_throw (stoi_two a b) >>= λ k. push_char k (from_percent_encoding s))
unfolding from_percent_encoding
from_percent_encoding-escape a b s = refl

alnum-ne-percent : (c : ℕ) → is_alnum c ≡ true → (c == b'%') ≡ false
unfolding is_alnum
alnum-ne-percent c h = ground arith

byte-nibbles : (c : ℕ) → c < 256 → (16 * ((c % 256) / 16) + (c % 256) % 16) % 256 ≡ c
byte-nibbles c h = omega arith

from-encode_char :
    (c : ℕ) (s : Text)
    → c < 256
    → from_percent_encoding (encode_char c ++ s) ≡ push_char c (from_percent_encoding s)
unfolding encode_char
from-encode_char c s h = elim (Bool-cases (is_alnum c)) [
  | inl plain ↦ rw (encode_char, plain) (from_percent_encoding-plain c s (alnum-ne-percent c plain))
  | inr escaped ↦
      rw (encode_char, escaped)
        (from_percent_encoding-escape _ _ s
          ∙ rw (decode-hex_digits ((c % 256) / 16) ((c % 256) % 16) (omega arith) (omega arith))
              (rw (byte-nibbles c h)))
]

-- Decoding an encoded text gives the text back, for every text of bytes.
pub from-to_percent_encoding :
    (s : Text) → All (λ c. c < 256) s → from_percent_encoding (to_percent_encoding s) ≡ ok s
unfolding to_percent_encoding from_percent_encoding
from-to_percent_encoding [] h = refl
from-to_percent_encoding (c ∷ s) h =
    from-encode_char c (to_percent_encoding s) h.0
    ∙ ap (push_char c) (from-to_percent_encoding s h.1)

-- A byte that an encoded text may hold: a letter, a digit or the percent sign.
abbrev pub IsUnreserved : ℕ → Type 0
IsUnreserved c = (is_alnum c ≡ true) ⊎ (c ≡ b'%')

hex_digit-IsUnreserved : (n : ℕ) → n < 16 → IsUnreserved (hex_digit n)
unfolding hex_digit is_alnum
hex_digit-IsUnreserved n h = inl (ground arith)

encode_char-IsUnreserved : (c : ℕ) → All IsUnreserved (encode_char c)
unfolding encode_char
encode_char-IsUnreserved c = elim (Bool-cases (is_alnum c)) [
  | inl plain ↦ rw (encode_char, plain) (inl plain, tt)
  | inr escaped ↦
      rw (encode_char, escaped)
        (
          inr refl,
          (
            hex_digit-IsUnreserved ((c % 256) / 16) (omega arith),
            (hex_digit-IsUnreserved ((c % 256) % 16) (omega arith), tt),
          ),
        )
]

-- Whatever the text, its encoding holds letters, digits and percent signs only.
pub to_percent_encoding-IsUnreserved : (s : Text) → All IsUnreserved (to_percent_encoding s)
unfolding to_percent_encoding
to_percent_encoding-IsUnreserved [] = tt
to_percent_encoding-IsUnreserved (c ∷ s) =
    All-append IsUnreserved (encode_char c) (to_percent_encoding s) (encode_char-IsUnreserved c)
      (to_percent_encoding-IsUnreserved s)

-- A text that ends within an escape is refused.
pub from_percent_encoding-cut :
    (s : Text) (a : ℕ)
    → All (λ c. c ≢ b'%') s
    → (from_percent_encoding (s ++ b'%' ∷ []) ≡ err invalid_argument)
      × (from_percent_encoding (s ++ b'%' ∷ a ∷ []) ≡ err invalid_argument)
unfolding from_percent_encoding
from_percent_encoding-cut [] a h = (refl, refl)
from_percent_encoding-cut (c ∷ s) a h =
    let (one, two) = from_percent_encoding-cut s a h.1 in
    (
      from_percent_encoding-plain c _ (ground (arith, h.0)) ∙ ap (push_char c) one,
      from_percent_encoding-plain c _ (ground (arith, h.0)) ∙ ap (push_char c) two,
    )

push_char-ne-nil : (c : ℕ) (r : Result Text) (t : Text) → push_char c r ≡ ok t → t ≢ []
push_char-ne-nil c (ok s) t e = λ n. cc
push_char-ne-nil c (err x) t e = λ n. cc

bind-ne-nil :
    (m : Result ℕ) (r : Result Text) (t : Text) → (m >>= λ k. push_char k r) ≡ ok t → t ≢ []
bind-ne-nil (ok k) r t e = push_char-ne-nil k r t e
bind-ne-nil (err x) r t e = λ n. cc

-- A text that is not empty decodes to one that is not empty.
pub from_percent_encoding-ne_nil : (s t : Text) → s ≢ [] → from_percent_encoding s ≡ ok t → t ≢ []
unfolding from_percent_encoding
from_percent_encoding-ne_nil [] t h e = absurd (h refl)
from_percent_encoding-ne_nil (c ∷ []) t h e = ground arith
from_percent_encoding-ne_nil (c ∷ a ∷ []) t h e =
    ground (arith, push_char-ne-nil c (from_percent_encoding (a ∷ [])) t)
from_percent_encoding-ne_nil (c ∷ a ∷ b ∷ s) t h e = ground (
  arith,
  push_char-ne-nil c (from_percent_encoding (a ∷ b ∷ s)) t,
  bind-ne-nil (decoded_or_throw (stoi_two a b)) (from_percent_encoding s) t,
)
