-- ===== src/Serde/Serializer.antt =====
-- src/net/serializer.rs: the methods that serde calls for a value, and the values of serde's data
-- model, each with the method of its name.
use smo_multi_rs.Base.{ℕ, ◌^◌, List, Bool, ltb, ℤ, if◌then◌else◌}
use smo_multi_rs.Bytes.{Coder, ◌>>◌, pure, fail, abort}
use smo_multi_rs.Errors.{int_conversion}
use smo_multi_rs.Serde.{Scalars}
use smo_multi_rs.Serde.Utf8.{char_utf8}

-- The scalar values. A `char` is its code point, a text its UTF-8 bytes.
pub data Scalar : Type 0 where
  bool : Bool → Scalar
  i8 i16 i32 i64 : ℤ → Scalar
  u8 u16 u32 u64 : ℕ → Scalar
  f32 f64 : ℕ → Scalar
  char : ℕ → Scalar
  str bytes : List ℕ → Scalar

-- The others. Of a sequence, tuple, tuple struct, tuple variant, map or struct the serializer sees
-- no more than that it is one. An index is that of the variant.
mutual
  pub data Value : Type 0 where
    scalar : Scalar → Value
    nothing unit unit_struct : Value
    just newtype_struct : Value → Value
    unit_variant : (index : ℕ) → Value
    newtype_variant : (index : ℕ) → Value → Value
    seq tuple tuple_struct tuple_variant map_value structure : Value
    struct_variant : (index : ℕ) → Fields → Value

  pub data Fields : Type 0 where
    no_fields : Fields
    field : Value → Fields → Fields

-- The states that serde's methods for the elements of a value act on.
pub data Collection : Type 0 where
  in_struct in_seq in_tuple in_tuple_struct in_tuple_variant in_map : Collection

module _ (io : Scalars) where
  unfoldable pub serialize_scalar : Scalar → Coder (Unit {0})
  serialize_scalar (bool v) = io.put_u8 (if v then 1 else 0)
  serialize_scalar (i8 v) = io.put_i8 v
  serialize_scalar (i16 v) = io.put_i16 v
  serialize_scalar (i32 v) = io.put_i32 v
  serialize_scalar (i64 v) = io.put_i64 v
  serialize_scalar (u8 v) = io.put_u8 v
  serialize_scalar (u16 v) = io.put_u16 v
  serialize_scalar (u32 v) = io.put_u32 v
  serialize_scalar (u64 v) = io.put_u64 v
  serialize_scalar (f32 v) = io.put_f32 v
  serialize_scalar (f64 v) = io.put_f64 v
  serialize_scalar (char v) = io.put_slice (char_utf8 v)
  serialize_scalar (str v) = io.put_slice v
  serialize_scalar (bytes v) = io.put_slice v

  -- `let index: u16 = variant_index.try_into()?; index.serialize(..)`
  unfoldable pub serialize_index : ℕ → Coder (Unit {0})
  serialize_index index = if ltb index (2 ^ 16) then io.put_u16 index else fail int_conversion

  unfoldable mutual
    unfolding serialize_scalar serialize_index

    pub serialize : Value → Coder (Unit {0})
    serialize (scalar v) = serialize_scalar v
    serialize nothing = pure tt
    serialize (just v) = serialize v
    serialize unit = pure tt
    serialize unit_struct = pure tt
    serialize (unit_variant index) = serialize_index index
    serialize (newtype_struct v) = serialize v
    serialize (newtype_variant index v) = serialize_index index >> serialize v
    serialize seq = abort
    serialize tuple = abort
    serialize tuple_struct = abort
    serialize tuple_variant = abort
    serialize map_value = abort
    serialize structure = abort
    serialize (struct_variant index fs) = serialize_index index >> serialize_fields fs

    -- `serialize_field` for each field, and `end`.
    pub serialize_fields : Fields → Coder (Unit {0})
    serialize_fields no_fields = pure tt
    serialize_fields (field v fs) = serialize v >> serialize_fields fs

  -- `serialize_field` or `serialize_element`; of a map `serialize_key` or `serialize_value`.
  unfoldable pub serialize_element : Collection → Value → Coder (Unit {0})
  unfolding serialize
  serialize_element in_map v = abort
  serialize_element in_struct v = serialize v
  serialize_element in_seq v = serialize v
  serialize_element in_tuple v = serialize v
  serialize_element in_tuple_struct v = serialize v
  serialize_element in_tuple_variant v = serialize v

  unfoldable pub end_of : Collection → Coder (Unit {0})
  end_of in_map = abort
  end_of in_struct = pure tt
  end_of in_seq = pure tt
  end_of in_tuple = pure tt
  end_of in_tuple_struct = pure tt
  end_of in_tuple_variant = pure tt

  -- The elements in order, and `end`.
  unfoldable pub serialize_elements : Collection → Fields → Coder (Unit {0})
  unfolding serialize_element end_of
  serialize_elements k no_fields = end_of k
  serialize_elements k (field v fs) = serialize_element k v >> serialize_elements k fs
