-- ===== src/Serde/Deserializer.antt =====
-- src/net/deserializer.rs: the methods that serde calls for a type, each with what its visitor is
-- given as the result.
use smo_multi_rs.Base.{ℕ, not, ◌==◌, if◌then◌else◌}
use smo_multi_rs.Bytes.{Coder, ◌>>=◌, pure, fail, abort}
use smo_multi_rs.Errors.{custom_error}
use smo_multi_rs.Serde.{Scalars}
use smo_multi_rs.Serde.Serializer.{Scalar, Value, scalar}
use smo_multi_rs.Serde.Utf8.{is_char}

-- The types that a visitor can ask for.
pub data Basic : Type 0 where
  bool i8 i16 i32 i64 u8 u16 u32 u64 f32 f64 char : Basic

pub data Shape : Type 0 where
  basic : Basic → Shape
  any str string bytes byte_buf option unit unit_struct : Shape
  newtype_struct : Shape → Shape
  seq tuple tuple_struct map structure enum identifier ignored_any i128 u128 : Shape

-- `char::from_u32(..).ok_or(EncodingError::CustomError)?`
unfoldable pub char_of : ℕ → Coder Value
char_of c = if is_char c then pure (scalar (Scalar.char c)) else fail custom_error

module _ (io : Scalars) where
  unfoldable pub deserialize_basic : Basic → Coder Value
  unfolding char_of
  deserialize_basic bool = io.get_u8 >>= λ b. pure (scalar (Scalar.bool (not (b == 0))))
  deserialize_basic i8 = io.get_i8 >>= λ v. pure (scalar (Scalar.i8 v))
  deserialize_basic i16 = io.get_i16 >>= λ v. pure (scalar (Scalar.i16 v))
  deserialize_basic i32 = io.get_i32 >>= λ v. pure (scalar (Scalar.i32 v))
  deserialize_basic i64 = io.get_i64 >>= λ v. pure (scalar (Scalar.i64 v))
  deserialize_basic u8 = io.get_u8 >>= λ v. pure (scalar (Scalar.u8 v))
  deserialize_basic u16 = io.get_u16 >>= λ v. pure (scalar (Scalar.u16 v))
  deserialize_basic u32 = io.get_u32 >>= λ v. pure (scalar (Scalar.u32 v))
  deserialize_basic u64 = io.get_u64 >>= λ v. pure (scalar (Scalar.u64 v))
  deserialize_basic f32 = io.get_f32 >>= λ v. pure (scalar (Scalar.f32 v))
  deserialize_basic f64 = io.get_f64 >>= λ v. pure (scalar (Scalar.f64 v))
  deserialize_basic char = io.get_u8 >>= char_of

  unfoldable pub deserialize : Shape → Coder Value
  unfolding deserialize_basic
  deserialize (basic s) = deserialize_basic s
  deserialize any = fail custom_error
  deserialize str = abort
  deserialize string = abort
  deserialize bytes = abort
  deserialize byte_buf = abort
  deserialize option = abort
  deserialize unit = pure Value.unit
  deserialize unit_struct = pure Value.unit
  deserialize (newtype_struct s) = deserialize s >>= λ v. pure (Value.newtype_struct v)
  deserialize seq = abort
  deserialize tuple = abort
  deserialize tuple_struct = abort
  deserialize map = abort
  deserialize structure = abort
  deserialize enum = abort
  deserialize identifier = abort
  deserialize ignored_any = abort
  deserialize i128 = fail custom_error
  deserialize u128 = fail custom_error
