-- ===== src/Serde.antt =====
-- The serde formats of src/net/serializer.rs and src/net/deserializer.rs, which no module of the
-- server takes in. The calls of the crate `bytes` that they make, whose numbers are big-endian, are
-- the record `Scalars`, with their documented behaviour as the laws `IsScalars`.
pub mod Serializer
pub mod Elements
pub mod Deserializer
pub mod Utf8
pub mod BigEndian
pub mod RoundTrip
use smo_multi_rs.Base.{
  ℕ, zero, suc, ◌+◌, ◌-◌, ◌*◌, sym, subst, refl, ◌/◌, ◌%◌, ◌^◌, ◌≡◌, List, [], ◌∷◌, ◌++◌, Bool, ℤ,
}
use smo_multi_rs.Bytes.{Coder, ◌>>=◌, pure, next_bytes, put_bytes, to_signed, of_signed}

-- The big-endian byte string of a number, and the number of a byte string.
abbrev pub be_bytes : ℕ → ℕ → List ℕ
be_bytes zero v = []
be_bytes (suc n) v = be_bytes n (v / 256) ++ (v % 256 ∷ [])

abbrev pub be_value_from : ℕ → List ℕ → ℕ
be_value_from v [] = v
be_value_from v (b ∷ bs) = be_value_from (v * 256 + b) bs

abbrev pub be_value : List ℕ → ℕ
be_value bs = be_value_from 0 bs

-- The number of non-negative values of a signed integer of so many bytes.
abbrev pub half : ℕ → ℕ
half n = 128 * 256 ^ (n - 1)

abbrev pub get_be : ℕ → Coder ℕ
get_be n = next_bytes n >>= λ bs. pure (be_value bs)

abbrev pub get_int : ℕ → Coder ℤ
get_int n = get_be n >>= λ w. pure (to_signed (half n) w)

abbrev pub put_be : ℕ → ℕ → Coder (Unit {0})
put_be n v = put_bytes (be_bytes n v)

abbrev pub put_int : ℕ → ℤ → Coder (Unit {0})
put_int n v = put_be n (of_signed (half n) v)

pub record Scalars : Type 0 where
  pub get_u8 : Coder ℕ
  pub put_u8 : ℕ → Coder (Unit {0})
  pub get_u16 : Coder ℕ
  pub put_u16 : ℕ → Coder (Unit {0})
  pub get_u32 : Coder ℕ
  pub put_u32 : ℕ → Coder (Unit {0})
  pub get_u64 : Coder ℕ
  pub put_u64 : ℕ → Coder (Unit {0})
  pub get_i8 : Coder ℤ
  pub put_i8 : ℤ → Coder (Unit {0})
  pub get_i16 : Coder ℤ
  pub put_i16 : ℤ → Coder (Unit {0})
  pub get_i32 : Coder ℤ
  pub put_i32 : ℤ → Coder (Unit {0})
  pub get_i64 : Coder ℤ
  pub put_i64 : ℤ → Coder (Unit {0})
  pub get_f32 : Coder ℕ
  pub put_f32 : ℕ → Coder (Unit {0})
  pub get_f64 : Coder ℕ
  pub put_f64 : ℕ → Coder (Unit {0})
  pub put_slice : List ℕ → Coder (Unit {0})

-- An `f32` or `f64` is its bit pattern.
pub record IsScalars (io : Scalars) : Type 0 where
  pub get_u8_lem : (buf : List ℕ) → io.get_u8 buf ≡ get_be 1 buf
  pub put_u8_lem : (v : ℕ) (buf : List ℕ) → io.put_u8 v buf ≡ put_be 1 v buf
  pub get_u16_lem : (buf : List ℕ) → io.get_u16 buf ≡ get_be 2 buf
  pub put_u16_lem : (v : ℕ) (buf : List ℕ) → io.put_u16 v buf ≡ put_be 2 v buf
  pub get_u32_lem : (buf : List ℕ) → io.get_u32 buf ≡ get_be 4 buf
  pub put_u32_lem : (v : ℕ) (buf : List ℕ) → io.put_u32 v buf ≡ put_be 4 v buf
  pub get_u64_lem : (buf : List ℕ) → io.get_u64 buf ≡ get_be 8 buf
  pub put_u64_lem : (v : ℕ) (buf : List ℕ) → io.put_u64 v buf ≡ put_be 8 v buf
  pub get_i8_lem : (buf : List ℕ) → io.get_i8 buf ≡ get_int 1 buf
  pub put_i8_lem : (v : ℤ) (buf : List ℕ) → io.put_i8 v buf ≡ put_int 1 v buf
  pub get_i16_lem : (buf : List ℕ) → io.get_i16 buf ≡ get_int 2 buf
  pub put_i16_lem : (v : ℤ) (buf : List ℕ) → io.put_i16 v buf ≡ put_int 2 v buf
  pub get_i32_lem : (buf : List ℕ) → io.get_i32 buf ≡ get_int 4 buf
  pub put_i32_lem : (v : ℤ) (buf : List ℕ) → io.put_i32 v buf ≡ put_int 4 v buf
  pub get_i64_lem : (buf : List ℕ) → io.get_i64 buf ≡ get_int 8 buf
  pub put_i64_lem : (v : ℤ) (buf : List ℕ) → io.put_i64 v buf ≡ put_int 8 v buf
  pub get_f32_lem : (buf : List ℕ) → io.get_f32 buf ≡ get_be 4 buf
  pub put_f32_lem : (v : ℕ) (buf : List ℕ) → io.put_f32 v buf ≡ put_be 4 v buf
  pub get_f64_lem : (buf : List ℕ) → io.get_f64 buf ≡ get_be 8 buf
  pub put_f64_lem : (v : ℕ) (buf : List ℕ) → io.put_f64 v buf ≡ put_be 8 v buf
  pub put_slice_lem : (bs buf : List ℕ) → io.put_slice bs buf ≡ put_bytes bs buf

-- The implementation that the documented behaviour determines.
abbrev pub reference : Scalars
reference = record {
  get_u8 = get_be 1;
  put_u8 = put_be 1;
  get_u16 = get_be 2;
  put_u16 = put_be 2;
  get_u32 = get_be 4;
  put_u32 = put_be 4;
  get_u64 = get_be 8;
  put_u64 = put_be 8;
  get_i8 = get_int 1;
  put_i8 = put_int 1;
  get_i16 = get_int 2;
  put_i16 = put_int 2;
  get_i32 = get_int 4;
  put_i32 = put_int 4;
  get_i64 = get_int 8;
  put_i64 = put_int 8;
  get_f32 = get_be 4;
  put_f32 = put_be 4;
  get_f64 = get_be 8;
  put_f64 = put_be 8;
  put_slice = put_bytes;
}

pub reference-IsScalars : IsScalars reference
reference-IsScalars = record {
  get_u8_lem = λ _. refl;
  put_u8_lem = λ _ _. refl;
  get_u16_lem = λ _. refl;
  put_u16_lem = λ _ _. refl;
  get_u32_lem = λ _. refl;
  put_u32_lem = λ _ _. refl;
  get_u64_lem = λ _. refl;
  put_u64_lem = λ _ _. refl;
  get_i8_lem = λ _. refl;
  put_i8_lem = λ _ _. refl;
  get_i16_lem = λ _. refl;
  put_i16_lem = λ _ _. refl;
  get_i32_lem = λ _. refl;
  put_i32_lem = λ _ _. refl;
  get_i64_lem = λ _. refl;
  put_i64_lem = λ _ _. refl;
  get_f32_lem = λ _. refl;
  put_f32_lem = λ _ _. refl;
  get_f64_lem = λ _. refl;
  put_f64_lem = λ _ _. refl;
  put_slice_lem = λ _ _. refl;
}

IsScalars-eq : (io : Scalars) → IsScalars io → reference ≡ io
IsScalars-eq io h = λ i. record {
  get_u8 = λ b. sym (h.get_u8_lem b) i;
  put_u8 = λ n b. sym (h.put_u8_lem n b) i;
  get_u16 = λ b. sym (h.get_u16_lem b) i;
  put_u16 = λ n b. sym (h.put_u16_lem n b) i;
  get_u32 = λ b. sym (h.get_u32_lem b) i;
  put_u32 = λ n b. sym (h.put_u32_lem n b) i;
  get_u64 = λ b. sym (h.get_u64_lem b) i;
  put_u64 = λ n b. sym (h.put_u64_lem n b) i;
  get_i8 = λ b. sym (h.get_i8_lem b) i;
  put_i8 = λ n b. sym (h.put_i8_lem n b) i;
  get_i16 = λ b. sym (h.get_i16_lem b) i;
  put_i16 = λ n b. sym (h.put_i16_lem n b) i;
  get_i32 = λ b. sym (h.get_i32_lem b) i;
  put_i32 = λ n b. sym (h.put_i32_lem n b) i;
  get_i64 = λ b. sym (h.get_i64_lem b) i;
  put_i64 = λ n b. sym (h.put_i64_lem n b) i;
  get_f32 = λ b. sym (h.get_f32_lem b) i;
  put_f32 = λ n b. sym (h.put_f32_lem n b) i;
  get_f64 = λ b. sym (h.get_f64_lem b) i;
  put_f64 = λ n b. sym (h.put_f64_lem n b) i;
  put_slice = λ n b. sym (h.put_slice_lem n b) i;
}

-- What holds of the reference implementation holds of every other.
pub by_reference {ℓ} : (P : Scalars → Type ℓ) (io : Scalars) → IsScalars io → P reference → P io
by_reference P io h = subst P (IsScalars-eq io h)
