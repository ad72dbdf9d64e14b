-- ===== src/Packet/Takes.antt =====
-- Readers that cannot panic: how many bytes they need in the buffer, and that they take just these
-- (for the parser of src/net/packet.rs).
use smo_multi_rs.Base.{
  ℕ, ◌+◌, ◌≡◌, ◌≤◌, refl, List, arith, length, length-drop, length-take_le, take, inl, inr,
  Bool-cases, some,
}
use smo_multi_rs.Bytes.{Coder, reference, next_bytes, then_on, get_le, pure, ◌>>=◌}
use smo_multi_rs.Bytes.Laws.{next_bytes-take}
use smo_multi_rs.Errors.{EncodingError, bad_utf8, Outcome, ok, err, panic}
use smo_multi_rs.Text.{boundary, utf8_run, from_utf8, buf_size_to_string}

-- A run that took `n` bytes for a value with `Q`, or that met bad UTF-8.
abbrev pub Ends :
    {A : Type 0} → ℕ → (A → Type 0) → List ℕ → Outcome EncodingError (A × List ℕ) → Type 0
Ends n Q buf (ok (a, rest)) = Q a × (length rest + n ≡ length buf)
Ends n Q buf (err e) = e ≡ bad_utf8
Ends n Q buf panic = ⊥

-- With `n` bytes in the buffer the code does not panic, and takes them.
abbrev pub Takes : {A : Type 0} → ℕ → (A → Type 0) → Coder A → Type 0
Takes n Q m = (buf : List ℕ) → n ≤ length buf → Ends n Q buf (m buf)

Ends-shift :
    {B : Type 0} (n k : ℕ) (Q : B → Type 0) (buf rest : List ℕ)
    (r : Outcome EncodingError (B × List ℕ))
    → length rest + n ≡ length buf
    → Ends k Q rest r
    → Ends (n + k) Q buf r
Ends-shift n k Q buf rest (ok (b, left)) e h = (h.0, omega (arith, h.1))
Ends-shift n k Q buf rest (err x) e h = h
Ends-shift n k Q buf rest panic e h = h

pub Ends-then :
    {A B : Type 0} (n k : ℕ) (P : A → Type 0) (Q : B → Type 0) (f : A → Coder B) (buf : List ℕ)
    (r : Outcome EncodingError (A × List ℕ))
    → n + k ≤ length buf
    → Ends n P buf r
    → ((a : A) → P a → Takes k Q (f a))
    → Ends (n + k) Q buf (then_on r f)
Ends-then n k P Q f buf (ok (a, rest)) h e t =
    Ends-shift n k Q buf rest (f a rest) e.1 (t a e.0 rest (omega (arith, e.1)))
Ends-then n k P Q f buf (err x) h e t = e
Ends-then n k P Q f buf panic h e t = e

abbrev pub Any : {A : Type 0} → A → Type 0
Any a = Unit {0}

-- A value of any kind is read, and the rest goes on.
pub then_takes :
    {A B : Type 0} (n k : ℕ) (Q : B → Type 0) (m : Coder A) (f : A → Coder B)
    → Takes n Any m
    → ((a : A) → Takes k Q (f a))
    → Takes (n + k) Q (m >>= f)
then_takes n k Q m f s t buf h =
    Ends-then n k Any Q f buf (m buf) h (s buf (omega arith)) (λ a _. t a)

pub pure_takes : {A : Type 0} (Q : A → Type 0) (a : A) → Q a → Takes 0 Q (pure a)
pure_takes Q a q buf h = (q, omega arith)

pub next_bytes_takes : (n : ℕ) → Takes n (λ bs. length bs ≡ n) (next_bytes n)
next_bytes_takes n buf h =
    rw (next_bytes-take n buf h) (length-take_le n buf h, omega (arith, length-drop n buf))

pub get_le_takes : (n : ℕ) → Takes n Any (get_le n)
get_le_takes n buf h = rw (next_bytes-take n buf h) (tt, omega (arith, length-drop n buf))

pub next_bytes-Any : (n : ℕ) → Takes n Any (next_bytes n)
next_bytes-Any n buf h = rw (next_bytes-take n buf h) (tt, omega (arith, length-drop n buf))

-- A number, turned into the field's value.
pub field_takes : {A : Type 0} (n : ℕ) (f : ℕ → A) → Takes n Any (get_le n >>= λ w. pure (f w))
field_takes n f buf h = rw (next_bytes-take n buf h) (tt, omega (arith, length-drop n buf))

pub from_utf8_takes : (bs : List ℕ) → Takes 0 Any (from_utf8 bs)
unfolding from_utf8
from_utf8_takes bs buf h = elim (Bool-cases (utf8_run (some boundary) bs)) [
  | inl valid ↦ rw valid (tt, omega arith)
  | inr bad ↦ rw bad refl
]

pub text_takes : (n : ℕ) → Takes n Any (buf_size_to_string reference n)
unfolding buf_size_to_string from_utf8
text_takes n buf h = elim (Bool-cases (utf8_run (some boundary) (take n buf))) [
  | inl valid ↦ rw (next_bytes-take n buf h, valid) (tt, omega (arith, length-drop n buf))
  | inr bad ↦ rw (next_bytes-take n buf h, bad) refl
]
