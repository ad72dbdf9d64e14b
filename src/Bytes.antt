-- ===== src/Bytes.antt =====
-- The crate `bytes`, which is not part of the repository: the calls of `Buf` and `BufMut` that
-- net/packet.rs, types/vec.rs and types/quat.rs make are the record `Bytes`, a parameter of the
-- model, and their documented behaviour is the record `IsBytes`.
-- A buffer is the list of its bytes: those still to be read, or those written so far.
pub mod Laws
use smo_multi_rs.Base.{
  ℕ, zero, suc, ◌+◌, ◌-◌, ◌*◌, ◌/◌, ◌%◌, ◌≡◌, List, [], ◌∷◌, ◌++◌, Bool, true, false, ℤ, pos,
  negsuc, ltb, if◌then◌else◌, length,
}
use smo_multi_rs.Errors.{EncodingError, Outcome, ok, err, panic}

-- Code that reads or writes a buffer, may return an `EncodingError`, and may panic.
abbrev pub Coder : Type 0 → Type 0
Coder A = List ℕ → Outcome EncodingError (A × List ℕ)

abbrev pub then_on :
    {A B : Type 0}
    → Outcome EncodingError (A × List ℕ)
    → (A → Coder B)
    → Outcome EncodingError (B × List ℕ)
then_on (ok (a, buf)) f = f a buf
then_on (err e) f = err e
then_on panic f = panic

infixl 5 ◌>>=◌ ◌>>◌
abbrev pub ◌>>=◌ : {A B : Type 0} → Coder A → (A → Coder B) → Coder B
◌>>=◌ m f buf = then_on (m buf) f

abbrev pub ◌>>◌ : {B : Type 0} → Coder (Unit {0}) → Coder B → Coder B
m >> k = m >>= λ _. k

abbrev pub pure : {A : Type 0} → A → Coder A
pure a buf = ok (a, buf)

abbrev pub fail : {A : Type 0} → EncodingError → Coder A
fail e buf = err e

abbrev pub abort : {A : Type 0} → Coder A
abort buf = panic

-- `if b { return Err(e) }`
abbrev pub fail_if : Bool → EncodingError → Coder (Unit {0})
fail_if true e = fail e
fail_if false e = pure tt

-- `buf.remaining()`
abbrev pub remaining : Coder ℕ
remaining buf = ok (length buf, buf)

pub record Bytes : Type 0 where
  pub get_u8 : Coder ℕ
  pub get_i8 : Coder ℤ
  pub get_u16_le : Coder ℕ
  pub get_u32_le : Coder ℕ
  pub get_i32_le : Coder ℤ
  pub get_f32_le : Coder ℕ
  pub copy_to_bytes : ℕ → Coder (List ℕ)
  pub advance : ℕ → Coder (Unit {0})
  pub put_u8 : ℕ → Coder (Unit {0})
  pub put_i8 : ℤ → Coder (Unit {0})
  pub put_u16_le : ℕ → Coder (Unit {0})
  pub put_u32_le : ℕ → Coder (Unit {0})
  pub put_i32_le : ℤ → Coder (Unit {0})
  pub put_f32_le : ℕ → Coder (Unit {0})
  pub put_slice : List ℕ → Coder (Unit {0})

-- The number of a little-endian byte string, and the byte string of a number.
abbrev pub le_value : List ℕ → ℕ
le_value [] = 0
le_value (b ∷ bs) = b + 256 * le_value bs

abbrev pub le_bytes : ℕ → ℕ → List ℕ
le_bytes zero v = []
le_bytes (suc n) v = (v % 256) ∷ le_bytes n (v / 256)

-- Two's complement of a word with `half` non-negative values.
abbrev pub to_signed : ℕ → ℕ → ℤ
to_signed half w = if ltb w half then pos w else negsuc (half + half - 1 - w)

abbrev pub of_signed : ℕ → ℤ → ℕ
of_signed half (pos n) = n
of_signed half (negsuc n) = half + half - 1 - n

-- The next bytes. The crate panics where too few are left.
abbrev pub next_bytes : ℕ → Coder (List ℕ)
next_bytes zero buf = ok ([], buf)
next_bytes (suc n) [] = panic
next_bytes (suc n) (b ∷ buf) = (next_bytes n >>= λ bs. pure (b ∷ bs)) buf

abbrev pub get_le : ℕ → Coder ℕ
get_le n = next_bytes n >>= λ bs. pure (le_value bs)

abbrev pub put_bytes : List ℕ → Coder (Unit {0})
put_bytes bs buf = ok (tt, buf ++ bs)

-- The documented behaviour: a read takes its bytes from the front and panics on too few, numbers
-- are little-endian, a write adds at the end. An `f32` is its bit pattern.
pub record IsBytes (io : Bytes) : Type 0 where
  pub get_u8_lem : (buf : List ℕ) → io.get_u8 buf ≡ get_le 1 buf
  pub get_i8_lem : (buf : List ℕ) → io.get_i8 buf ≡ (get_le 1 >>= λ w. pure (to_signed 0x80 w)) buf
  pub get_u16_le_lem : (buf : List ℕ) → io.get_u16_le buf ≡ get_le 2 buf
  pub get_u32_le_lem : (buf : List ℕ) → io.get_u32_le buf ≡ get_le 4 buf
  pub get_i32_le_lem :
      (buf : List ℕ) → io.get_i32_le buf ≡ (get_le 4 >>= λ w. pure (to_signed 0x8000_0000 w)) buf
  pub get_f32_le_lem : (buf : List ℕ) → io.get_f32_le buf ≡ get_le 4 buf
  pub copy_to_bytes_lem : (n : ℕ) (buf : List ℕ) → io.copy_to_bytes n buf ≡ next_bytes n buf
  pub advance_lem : (n : ℕ) (buf : List ℕ) → io.advance n buf ≡ (next_bytes n >>= λ _. pure tt) buf
  pub put_u8_lem : (v : ℕ) (buf : List ℕ) → io.put_u8 v buf ≡ put_bytes (le_bytes 1 v) buf
  pub put_i8_lem :
      (v : ℤ) (buf : List ℕ) → io.put_i8 v buf ≡ put_bytes (le_bytes 1 (of_signed 0x80 v)) buf
  pub put_u16_le_lem : (v : ℕ) (buf : List ℕ) → io.put_u16_le v buf ≡ put_bytes (le_bytes 2 v) buf
  pub put_u32_le_lem : (v : ℕ) (buf : List ℕ) → io.put_u32_le v buf ≡ put_bytes (le_bytes 4 v) buf
  pub put_i32_le_lem :
      (v : ℤ) (buf : List ℕ)
      → io.put_i32_le v buf ≡ put_bytes (le_bytes 4 (of_signed 0x8000_0000 v)) buf
  pub put_f32_le_lem : (v : ℕ) (buf : List ℕ) → io.put_f32_le v buf ≡ put_bytes (le_bytes 4 v) buf
  pub put_slice_lem : (bs buf : List ℕ) → io.put_slice bs buf ≡ put_bytes bs buf

-- An implementation of the interface, the one that the documented behaviour determines.
abbrev pub reference : Bytes
reference = record {
  get_u8 = get_le 1;
  get_i8 = get_le 1 >>= λ w. pure (to_signed 0x80 w);
  get_u16_le = get_le 2;
  get_u32_le = get_le 4;
  get_i32_le = get_le 4 >>= λ w. pure (to_signed 0x8000_0000 w);
  get_f32_le = get_le 4;
  copy_to_bytes = next_bytes;
  advance = λ n. next_bytes n >>= λ _. pure tt;
  put_u8 = λ v. put_bytes (le_bytes 1 v);
  put_i8 = λ v. put_bytes (le_bytes 1 (of_signed 0x80 v));
  put_u16_le = λ v. put_bytes (le_bytes 2 v);
  put_u32_le = λ v. put_bytes (le_bytes 4 v);
  put_i32_le = λ v. put_bytes (le_bytes 4 (of_signed 0x8000_0000 v));
  put_f32_le = λ v. put_bytes (le_bytes 4 v);
  put_slice = put_bytes;
}
