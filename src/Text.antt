-- ===== src/Text.antt =====
-- The text of net/packet.rs: `str_to_sized_array`, `buf_size_to_string`, and what they use of the
-- standard library (`str::from_utf8`, `str::trim_matches`). A `String` or `&str` is its UTF-8 bytes.
pub mod Laws
pub mod Trim
use smo_multi_rs.Base.{
  ℕ, zero, suc, ◌+◌, ◌≡◌, List, [], ◌∷◌, ◌++◌, Bool, true, false, ◌&&◌, Option, none, some, ltb,
  leb, ◌==◌, if◌then◌else◌,
}
use smo_multi_rs.Errors.{EncodingError, bad_utf8, Outcome, ok, err, panic}
use smo_multi_rs.Bytes.{Bytes, Coder, ◌>>=◌, ◌>>◌, pure, fail, then_on}

-- `std::str::from_utf8`: between two characters, or before a byte from `lo` to `hi` with `more`
-- further continuation bytes to come.
pub data Utf8State : Type 0 where
  boundary : Utf8State
  inside : (lo hi more : ℕ) → Utf8State

first_byte : ℕ → Option Utf8State
first_byte b =
    if ltb b 0x80
    then some boundary
    else if ltb b 0xc2
    then none
    else if ltb b 0xe0
    then some (inside 0x80 0xbf 0)
    else if b == 0xe0
    then some (inside 0xa0 0xbf 1)
    else if b == 0xed
    then some (inside 0x80 0x9f 1)
    else if ltb b 0xf0
    then some (inside 0x80 0xbf 1)
    else if b == 0xf0
    then some (inside 0x90 0xbf 2)
    else if ltb b 0xf4
    then some (inside 0x80 0xbf 2)
    else if b == 0xf4
    then some (inside 0x80 0x8f 2)
    else none

next_state : ℕ → Utf8State
next_state zero = boundary
next_state (suc more) = inside 0x80 0xbf more

utf8_step : Utf8State → ℕ → Option Utf8State
unfolding first_byte next_state
utf8_step boundary b = first_byte b
utf8_step (inside lo hi more) b = if leb lo b && leb b hi then some (next_state more) else none

-- `none` is a state that no further byte mends.
unfoldable pub utf8_run : Option Utf8State → List ℕ → Bool
unfolding utf8_step
utf8_run none bs = false
utf8_run (some boundary) [] = true
utf8_run (some (inside lo hi more)) [] = false
utf8_run (some s) (b ∷ bs) = utf8_run (utf8_step s b) bs

-- `std::str::from_utf8(bytes)?`
unfoldable pub from_utf8 : List ℕ → Coder (List ℕ)
unfolding utf8_run
from_utf8 bs = if utf8_run (some boundary) bs then pure bs else fail bad_utf8

trim_start : List ℕ → List ℕ
trim_start [] = []
trim_start (b ∷ bs) = if b == 0 then trim_start bs else b ∷ bs

cons_kept : ℕ → List ℕ → List ℕ
cons_kept b [] = if b == 0 then [] else b ∷ []
cons_kept b (c ∷ cs) = b ∷ c ∷ cs

trim_end : List ℕ → List ℕ
unfolding cons_kept
trim_end [] = []
trim_end (b ∷ bs) = cons_kept b (trim_end bs)

-- `trim_matches(char::from(0))`: in UTF-8 a zero byte stands for that character alone.
unfoldable pub trim_nul : List ℕ → List ℕ
unfolding trim_start trim_end
trim_nul bs = trim_start (trim_end bs)

-- The first argument is the array's length: the bytes of `s` as far as they go, over zeros.
pub str_to_sized_array : ℕ → List ℕ → List ℕ
str_to_sized_array zero s = []
str_to_sized_array (suc n) [] = 0 ∷ str_to_sized_array n []
str_to_sized_array (suc n) (c ∷ cs) = c ∷ str_to_sized_array n cs

unfoldable pub buf_size_to_string : Bytes → ℕ → Coder (List ℕ)
unfolding from_utf8 trim_nul
buf_size_to_string io size = do
  bytes ← io.copy_to_bytes size
  s ← from_utf8 bytes
  pure (trim_nul s)
