-- ===== src/Geometry.antt =====
-- src/types/vec.rs and src/types/quat.rs: the vectors and quaternions of nalgebra by their named
-- components, each an `f32` as its bit pattern. `Quaternion::new` takes w, i, j, k in this order.
use smo_multi_rs.Base.{ℕ}
use smo_multi_rs.Bytes.{Bytes, Coder, ◌>>=◌, ◌>>◌, pure}

pub record Vector3 : Type 0 where
  pub x : ℕ
  pub y : ℕ
  pub z : ℕ

pub record Quaternion : Type 0 where
  pub w : ℕ
  pub i : ℕ
  pub j : ℕ
  pub k : ℕ

module _ (io : Bytes) where
  open io use {get_f32_le, put_f32_le}

  unfoldable pub decode_vector3 : Coder Vector3
  decode_vector3 = do
    x ← get_f32_le
    y ← get_f32_le
    z ← get_f32_le
    pure (record { x = x; y = y; z = z })

  unfoldable pub encode_vector3 : Vector3 → Coder (Unit {0})
  encode_vector3 v = do put_f32_le v.x; put_f32_le v.y; put_f32_le v.z

  unfoldable pub decode_quaternion : Coder Quaternion
  decode_quaternion = do
    w ← get_f32_le
    i ← get_f32_le
    j ← get_f32_le
    k ← get_f32_le
    pure (record { w = w; i = i; j = j; k = k })

  unfoldable pub encode_quaternion : Quaternion → Coder (Unit {0})
  encode_quaternion q = do put_f32_le q.w; put_f32_le q.i; put_f32_le q.j; put_f32_le q.k
