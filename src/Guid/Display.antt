-- ===== src/Guid/Display.antt =====
-- src/guid.rs: the text form of an identifier. `from_hex` of the crate `hex` is a parameter.
use smo_multi_rs.Base.{
  ℕ, suc, zero, ◌+◌, ◌/◌, ◌%◌, ◌≡◌, ◌<◌, refl, ◌∙◌, sym, ap, List, [], ◌∷◌, ◌++◌, Bool, true, false,
  ◌==◌, ◌||◌, ◌&&◌, ltb, leb, Option, none, some, length, if◌then◌else◌, Bool-cases, inl, inr,
  arith,
}
use mathlib.Core.List.{append_assoc}
use smo_multi_rs.Errors.{EncodingError, hex_conversion, Outcome, ok, err}
use smo_multi_rs.Guid.{Guid, IsGuid}

abbrev pub hex_digit : ℕ → ℕ
hex_digit d = if ltb d 10 then 48 + d else 87 + d

-- `{:x}` of a byte, without a leading zero.
abbrev pub hex_byte : ℕ → List ℕ
hex_byte b = if ltb b 16 then hex_digit b ∷ [] else hex_digit (b / 16) ∷ hex_digit (b % 16) ∷ []

-- The bytes after which a dash is written.
abbrev pub has_dash : ℕ → Bool
has_dash i = i == 4 || i == 6 || i == 8 || i == 10

unfoldable pub fmt_from : ℕ → List ℕ → List ℕ
fmt_from i [] = []
fmt_from i (digit ∷ rest) =
    let after = fmt_from (suc i) rest in
    if has_dash i then hex_byte digit ++ (45 ∷ after) else hex_byte digit ++ after

-- `Display::fmt`
unfoldable pub fmt : Guid → List ℕ
unfolding fmt_from
fmt g = fmt_from 0 g.id

-- `FromStr::from_str`
unfoldable pub from_str : (List ℕ → Option (List ℕ)) → List ℕ → Outcome EncodingError Guid
from_str from_hex s = elim (from_hex s) [
  | none ↦ err hex_conversion
  | some id ↦ ok (record { id = id })
]

-- The characters of hexadecimal numbers.
abbrev pub is_hex : ℕ → Bool
is_hex c = (leb 48 c && leb c 57) || (leb 65 c && leb c 70) || (leb 97 c && leb c 102)

-- The documented behaviour of `from_hex`: a text with any other character is refused.
abbrev pub RefusesOthers : (List ℕ → Option (List ℕ)) → Type 0
RefusesOthers from_hex =
    (before after : List ℕ) (c : ℕ) → is_hex c ≡ false → from_hex (before ++ (c ∷ after)) ≡ none

fmt_from-dash :
    (k i : ℕ) (bytes : List ℕ)
    → i + k ≡ 4
    → k < length bytes
    → (before : List ℕ) × (after : List ℕ) × (fmt_from i bytes ≡ before ++ (45 ∷ after))
unfolding fmt_from
fmt_from-dash k i [] e h = absurd (omega arith)
fmt_from-dash zero i (b ∷ bytes) e h =
    let here : has_dash i ≡ true = ground arith in
    (hex_byte b, fmt_from (suc i) bytes, rw here refl)
fmt_from-dash (suc k) i (b ∷ bytes) e h = elim (Bool-cases (has_dash i)) [
  | inl dash ↦ (hex_byte b, fmt_from (suc i) bytes, rw dash refl)
  | inr plain ↦
      let (before, after, same) = fmt_from-dash k (suc i) bytes (omega arith) (omega arith) in
      (
        hex_byte b ++ before,
        after,
        rw (plain, same) (sym (append_assoc (hex_byte b) before (45 ∷ after))),
      )
]

from_str-none :
    (from_hex : List ℕ → Option (List ℕ)) (s : List ℕ)
    → from_hex s ≡ none
    → from_str from_hex s ≡ err hex_conversion
unfolding from_str
from_str-none from_hex s e = rw (from_str, e) refl

-- The text that is displayed for an identifier has dashes, and is never read back: `from_str` fails
-- on it, as `from_hex` refuses a text with a character that is no hexadecimal digit.
pub from_str-fmt :
    (from_hex : List ℕ → Option (List ℕ))
    → RefusesOthers from_hex
    → (g : Guid) → IsGuid g
    → from_str from_hex (fmt g) ≡ err hex_conversion
unfolding fmt
from_str-fmt from_hex refuses g h =
    let (before, after, e) = fmt_from-dash 4 0 g.id (omega arith) (omega (arith, h.sized)) in
    from_str-none from_hex (fmt g) (ap from_hex e ∙ refuses before after 45 refl)
