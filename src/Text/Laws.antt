-- ===== src/Text/Laws.antt =====
-- The fixed-size text fields: what `buf_size_to_string` reads back from `str_to_sized_array`.
use mathlib.Core.List.{append_assoc}
use smo_multi_rs.Base.{
  ℕ, zero, suc, ◌+◌, ◌-◌, ◌≤◌, ◌≡◌, refl, ap, subst, ◌∙◌, List, [], ◌∷◌, ◌++◌, true, Option, none,
  some, arith, length, length-append, length-replicate, replicate, sym, All, ◌<◌, lt→ltb,
}
use smo_multi_rs.Bytes.{next_bytes, reference}
use smo_multi_rs.Bytes.Laws.{next_bytes-append}
use smo_multi_rs.Errors.{ok}
use smo_multi_rs.Text.{
  Utf8State, boundary, inside, first_byte, utf8_step, utf8_run, from_utf8, trim_start, trim_end,
  trim_nul, str_to_sized_array, buf_size_to_string,
}

-- A text that is valid UTF-8.
abbrev pub IsUtf8 : List ℕ → Type 0
IsUtf8 s = utf8_run (some boundary) s ≡ true

-- A text that fits a field of `n` bytes, and neither begins nor ends with NUL.
pub record IsName (n : ℕ) (s : List ℕ) : Type 0 where
  pub fits : length s ≤ n
  pub valid : IsUtf8 s
  pub trimmed : trim_nul s ≡ s

pub length-str_to_sized_array : (n : ℕ) (s : List ℕ) → length (str_to_sized_array n s) ≡ n
unfolding str_to_sized_array
length-str_to_sized_array zero s = refl
length-str_to_sized_array (suc n) [] = ap suc (length-str_to_sized_array n [])
length-str_to_sized_array (suc n) (c ∷ cs) = ap suc (length-str_to_sized_array n cs)

str_to_sized_array_nil : (n : ℕ) → str_to_sized_array n [] ≡ replicate n 0
unfolding str_to_sized_array
str_to_sized_array_nil zero = refl
str_to_sized_array_nil (suc n) = ap (◌∷◌ 0) (str_to_sized_array_nil n)

-- The text, padded with zeros.
pub str_to_sized_array_padded :
    (n : ℕ) (s : List ℕ) → length s ≤ n → str_to_sized_array n s ≡ s ++ replicate (n - length s) 0
unfolding str_to_sized_array
str_to_sized_array_padded n [] h = str_to_sized_array_nil n ∙ ap (λ k. replicate k 0) (omega arith)
str_to_sized_array_padded zero (c ∷ cs) h = absurd (omega arith)
str_to_sized_array_padded (suc n) (c ∷ cs) h =
    ap (◌∷◌ c)
      (str_to_sized_array_padded n cs (omega arith) ∙ ap (λ k. cs ++ replicate k 0) (omega arith))

replicate-append : (m n : ℕ) → replicate {A = ℕ} m 0 ++ replicate n 0 ≡ replicate (m + n) 0
replicate-append zero n = ap (λ k. replicate k 0) {y = 0 + n} (omega arith)
replicate-append (suc m) n =
    ap (◌∷◌ 0) (replicate-append m n)
    ∙ ap (λ k. replicate k 0) {x = suc (m + n)} {y = suc m + n} (omega arith)

-- Zeros at the end of a text do not show in a field that has room for them.
pub str_to_sized_array-append_zeros :
    (n k : ℕ) (s : List ℕ)
    → length s + k ≤ n
    → str_to_sized_array n (s ++ replicate k 0) ≡ str_to_sized_array n s
str_to_sized_array-append_zeros n k s h =
    let long = length-append s (replicate k 0) in
    let zeros = length-replicate {A = ℕ} k 0 in
    str_to_sized_array_padded n (s ++ replicate k 0) (omega arith)
    ∙ append_assoc s (replicate k 0) (replicate (n - length (s ++ replicate k 0)) 0)
    ∙ ap (◌++◌ s) (
        replicate-append k (n - length (s ++ replicate k 0))
        ∙ ap (λ j. replicate j 0) {y = n - length s} (omega arith))
    ∙ sym (str_to_sized_array_padded n s (omega arith))

abbrev pub IsAscii : ℕ → Type 0
IsAscii b = b < 128

first_byte_ascii : (b : ℕ) → IsAscii b → first_byte b ≡ some boundary
unfolding first_byte
first_byte_ascii b h = rw (lt→ltb b 0x80 h) refl

pub IsUtf8-run-ascii : (bs : List ℕ) → All IsAscii bs → IsUtf8 bs
unfolding utf8_run utf8_step
IsUtf8-run-ascii [] h = refl
IsUtf8-run-ascii (b ∷ bs) h =
    ap (λ s. utf8_run s bs) (first_byte_ascii b h.0) ∙ IsUtf8-run-ascii bs h.1

utf8_run-zeros : (k : ℕ) → utf8_run (some boundary) (replicate k 0) ≡ true
unfolding utf8_run
utf8_run-zeros zero = refl
utf8_run-zeros (suc k) = utf8_run-zeros k

pub utf8_run-append_zeros :
    (s : Option Utf8State) (bs : List ℕ) (k : ℕ)
    → utf8_run s bs ≡ true
    → utf8_run s (bs ++ replicate k 0) ≡ true
unfolding utf8_run
utf8_run-append_zeros none bs k h = cc
utf8_run-append_zeros (some boundary) [] k h = utf8_run-zeros k
utf8_run-append_zeros (some (inside lo hi more)) [] k h = cc
utf8_run-append_zeros (some boundary) (b ∷ bs) k h =
    utf8_run-append_zeros (utf8_step boundary b) bs k h
utf8_run-append_zeros (some (inside lo hi more)) (b ∷ bs) k h =
    utf8_run-append_zeros (utf8_step (inside lo hi more) b) bs k h

trim_end-zeros : (k : ℕ) → trim_end (replicate k 0) ≡ []
unfolding trim_end
trim_end-zeros zero = refl
trim_end-zeros (suc k) = rw (trim_end-zeros k)

trim_end-append_zeros : (s : List ℕ) (k : ℕ) → trim_end (s ++ replicate k 0) ≡ trim_end s
unfolding trim_end
trim_end-append_zeros [] k = trim_end-zeros k
trim_end-append_zeros (b ∷ bs) k = rw (trim_end-append_zeros bs k)

trim_nul-append_zeros : (s : List ℕ) (k : ℕ) → trim_nul (s ++ replicate k 0) ≡ trim_nul s
unfolding trim_nul
trim_nul-append_zeros s k = ap trim_start (trim_end-append_zeros s k)

pub from_utf8-eq : (bs buf : List ℕ) → IsUtf8 bs → from_utf8 bs buf ≡ ok (bs, buf)
unfolding from_utf8
from_utf8-eq bs buf h = rw h

-- A field that holds a text reads back as the text.
pub buf_size_to_string-sized :
    (n : ℕ) (s rest : List ℕ)
    → IsName n s
    → buf_size_to_string reference n (str_to_sized_array n s ++ rest) ≡ ok (s, rest)
unfolding buf_size_to_string
buf_size_to_string-sized n s rest h = rw (
  subst (λ k. next_bytes k (str_to_sized_array n s ++ rest) ≡ ok (str_to_sized_array n s, rest))
      (length-str_to_sized_array n s) (next_bytes-append (str_to_sized_array n s) rest),
  str_to_sized_array_padded n s h.fits,
  from_utf8-eq (s ++ replicate (n - length s) 0) rest
      (utf8_run-append_zeros (some boundary) s (n - length s) h.valid),
  trim_nul-append_zeros s (n - length s),
  h.trimmed,
)
