-- ===== src/Serde/RoundTrip.antt =====
-- What src/net/serializer.rs writes src/net/deserializer.rs reads back, for the types that both know.
use smo_multi_rs.Base.{
  ℕ, ◌<◌, ◌+◌, ◌^◌, ◌≡◌, ◌*◌, ap, refl, List, [], ◌∷◌, ◌++◌, true, false, arith, lt→ltb,
}
use smo_multi_rs.Bytes.{then_on, pure}
use smo_multi_rs.Errors.{EncodingError, Outcome, ok}
use smo_multi_rs.Packet.Typed.{IsSigned}
use smo_multi_rs.Serde.{Scalars, IsScalars, reference, by_reference, half}
use smo_multi_rs.Serde.BigEndian.{get_be-be_bytes, get_int-be_bytes}
use smo_multi_rs.Serde.Deserializer.{Basic, Shape, basic, deserialize, deserialize_basic, char_of}
use smo_multi_rs.Serde.Serializer.{
  Scalar, bool, i8, i16, i32, i64, u8, u16, u32, u64, f32, f64, char, str, bytes, Value, scalar,
  unit, newtype_struct, serialize, serialize_scalar,
}

-- The type of a scalar.
abbrev pub shape_of : Scalar → Shape
shape_of (bool v) = basic Basic.bool
shape_of (i8 v) = basic Basic.i8
shape_of (i16 v) = basic Basic.i16
shape_of (i32 v) = basic Basic.i32
shape_of (i64 v) = basic Basic.i64
shape_of (u8 v) = basic Basic.u8
shape_of (u16 v) = basic Basic.u16
shape_of (u32 v) = basic Basic.u32
shape_of (u64 v) = basic Basic.u64
shape_of (f32 v) = basic Basic.f32
shape_of (f64 v) = basic Basic.f64
shape_of (char v) = basic Basic.char
shape_of (str v) = Shape.str
shape_of (bytes v) = Shape.bytes

-- The range of the type; a `char` is ASCII, and no text or byte string is here.
abbrev pub InRange : Scalar → Type 0
InRange (bool v) = Unit {0}
InRange (i8 v) = IsSigned (half 1) v
InRange (i16 v) = IsSigned (half 2) v
InRange (i32 v) = IsSigned (half 4) v
InRange (i64 v) = IsSigned (half 8) v
InRange (u8 v) = v < 256 ^ 1
InRange (u16 v) = v < 256 ^ 2
InRange (u32 v) = v < 256 ^ 4
InRange (u64 v) = v < 256 ^ 8
InRange (f32 v) = v < 256 ^ 4
InRange (f64 v) = v < 256 ^ 8
InRange (char v) = v < 128
InRange (str v) = ⊥
InRange (bytes v) = ⊥

-- The types that are written and read alike.
pub data HasShape : Shape → Value → Type 0 where
  of_scalar : (v : Scalar) → InRange v → HasShape (shape_of v) (scalar v)
  of_unit : HasShape Shape.unit unit
  of_newtype :
      (s : Shape) (v : Value) → HasShape s v → HasShape (Shape.newtype_struct s) (newtype_struct v)

-- What is written is read back, with any bytes behind it left.
abbrev pub Reads : Scalars → Shape → Value → List ℕ → Type 0
Reads io s v rest =
    (wire : List ℕ) × (serialize io v [] ≡ ok (tt, wire))
    × (deserialize io s (wire ++ rest) ≡ ok (v, rest))

kept :
    {A : Type 0} {a : A} {rest : List ℕ} {r : Outcome EncodingError (A × List ℕ)} (f : A → Value)
    → r ≡ ok (a, rest)
    → then_on r (λ v. pure (f v)) ≡ ok (f a, rest)
kept f e = ap (λ r. then_on r (λ v. pure (f v))) e

scalar_reads :
    (v : Scalar) (rest : List ℕ) → InRange v → Reads reference (shape_of v) (scalar v) rest
unfolding serialize serialize_scalar deserialize deserialize_basic char_of
scalar_reads (bool true) rest h = (_, refl, refl)
scalar_reads (bool false) rest h = (_, refl, refl)
scalar_reads (i8 v) rest h =
    (_, refl, kept (λ v. scalar (i8 v)) (get_int-be_bytes 1 v rest (omega arith) h))
scalar_reads (i16 v) rest h =
    (_, refl, kept (λ v. scalar (i16 v)) (get_int-be_bytes 2 v rest (omega arith) h))
scalar_reads (i32 v) rest h =
    (_, refl, kept (λ v. scalar (i32 v)) (get_int-be_bytes 4 v rest (omega arith) h))
scalar_reads (i64 v) rest h =
    (_, refl, kept (λ v. scalar (i64 v)) (get_int-be_bytes 8 v rest (omega arith) h))
scalar_reads (u8 v) rest h = (_, refl, kept (λ v. scalar (u8 v)) (get_be-be_bytes 1 v rest h))
scalar_reads (u16 v) rest h = (_, refl, kept (λ v. scalar (u16 v)) (get_be-be_bytes 2 v rest h))
scalar_reads (u32 v) rest h = (_, refl, kept (λ v. scalar (u32 v)) (get_be-be_bytes 4 v rest h))
scalar_reads (u64 v) rest h = (_, refl, kept (λ v. scalar (u64 v)) (get_be-be_bytes 8 v rest h))
scalar_reads (f32 v) rest h = (_, refl, kept (λ v. scalar (f32 v)) (get_be-be_bytes 4 v rest h))
scalar_reads (f64 v) rest h = (_, refl, kept (λ v. scalar (f64 v)) (get_be-be_bytes 8 v rest h))
scalar_reads (char v) rest h = (
  v ∷ [],
  rw (lt→ltb v 0x80 h) refl,
  rw (lt→ltb (0 * 256 + v) 0xd800 (omega (arith, h)))
      (ap (λ c. ok (scalar (char c), rest)) (omega arith)),
)
scalar_reads (str v) rest h = absurd h
scalar_reads (bytes v) rest h = absurd h

reads : {s : Shape} {v : Value} (rest : List ℕ) → HasShape s v → Reads reference s v rest
unfolding serialize deserialize
reads rest (of_scalar v h) = scalar_reads v rest h
reads rest of_unit = ([], refl, refl)
reads rest (of_newtype s v h) = let (wire, e, back) = reads rest h in (wire, e, rw back refl)

-- Every boolean, every integer or float in the range of its type (an `i128` or `u128` is none),
-- every ASCII character, the unit value, and every newtype struct of such a value, is read back as
-- it was written, and the bytes behind it are left.
pub deserialize-serialize :
    (io : Scalars)
    → IsScalars io
    → (s : Shape) (v : Value) (rest : List ℕ) → HasShape s v
    → Reads io s v rest
deserialize-serialize io h s v rest shaped =
    by_reference (λ io. Reads io s v rest) io h (reads rest shaped)
