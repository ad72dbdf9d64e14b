-- ===== src/Packet/Fields.antt =====
-- Reading back each kind of field from its bytes.
use smo_multi_rs.Base.{
  ℕ, ◌+◌, ◌-◌, ◌*◌, ◌/◌, ◌%◌, ◌^◌, ◌<◌, ◌≡◌, refl, subst, List, [], ◌∷◌, ◌++◌, arith, ℤ, pos,
  negsuc, length, All,
}
use smo_multi_rs.Bytes.{le_bytes, of_signed, to_signed, le_value, reference, next_bytes}
use smo_multi_rs.Bytes.Laws.{next_bytes-append}
use smo_multi_rs.Errors.{ok}
use smo_multi_rs.Geometry.{Vector3, Quaternion, decode_vector3, decode_quaternion}
use smo_multi_rs.Packet.Decode.{decode_weights}
use smo_multi_rs.Packet.Format.{vector_bytes, quaternion_bytes, weights_bytes}
use smo_multi_rs.Packet.Typed.{IsF32, IsSigned, IsVector, IsQuaternion}

pub le1 : (v : ℕ) → v < 256 → v % 256 + 256 * 0 ≡ v
le1 v h = omega arith

pub le2 : (v : ℕ) → v < 65536 → v % 256 + 256 * (v / 256 % 256 + 256 * 0) ≡ v
le2 v h = omega arith

pub le4 :
    (v : ℕ)
    → v < 2 ^ 32
    → v % 256
        + 256
          * (v / 256 % 256
              + 256 * (v / 256 / 256 % 256 + 256 * (v / 256 / 256 / 256 % 256 + 256 * 0)))
      ≡ v
le4 v h = omega arith

pub signed1 :
    (v : ℤ) → IsSigned 0x80 v → to_signed 0x80 (le_value (le_bytes 1 (of_signed 0x80 v))) ≡ v
signed1 (pos n) h = ground arith
signed1 (negsuc n) h = ground arith

pub signed4 :
    (v : ℤ)
    → IsSigned 0x8000_0000 v
    → to_signed 0x8000_0000 (le_value (le_bytes 4 (of_signed 0x8000_0000 v))) ≡ v
signed4 (pos n) h = rw (le4 n (omega arith)) (ground arith)
signed4 (negsuc n) h = rw (le4 (0xffff_ffff - n) (omega arith)) (ground arith)

pub decode_vector3-bytes :
    (v : Vector3) (rest : List ℕ)
    → IsVector v
    → decode_vector3 reference (vector_bytes v ++ rest) ≡ ok (v, rest)
unfolding decode_vector3
decode_vector3-bytes v rest h = rw (le4 v.x h.0, le4 v.y h.1, le4 v.z h.2)

pub decode_quaternion-bytes :
    (q : Quaternion) (rest : List ℕ)
    → IsQuaternion q
    → decode_quaternion reference (quaternion_bytes q ++ rest) ≡ ok (q, rest)
unfolding decode_quaternion
decode_quaternion-bytes q rest h = rw (le4 q.w h.0, le4 q.i h.1, le4 q.j h.2, le4 q.k h.3)

weights_read :
    (ws rest : List ℕ)
    → All IsF32 ws
    → decode_weights reference (length ws) (weights_bytes ws ++ rest) ≡ ok (ws, rest)
unfolding decode_weights weights_bytes
weights_read [] rest h = refl
weights_read (w ∷ ws) rest h = rw (weights_read ws rest h.1, le4 w h.0)

pub decode_weights-bytes :
    (ws rest : List ℕ)
    → All IsF32 ws
    → length ws ≡ 6
    → decode_weights reference 6 (weights_bytes ws ++ rest) ≡ ok (ws, rest)
decode_weights-bytes ws rest h e =
    subst (λ n. decode_weights reference n (weights_bytes ws ++ rest) ≡ ok (ws, rest)) e
      (weights_read ws rest h)

-- Reading as many bytes as a list has, where the count is known otherwise.
pub next_bytes-sized :
    (n : ℕ) (bs rest : List ℕ) → length bs ≡ n → next_bytes n (bs ++ rest) ≡ ok (bs, rest)
next_bytes-sized n bs rest e =
    subst (λ n. next_bytes n (bs ++ rest) ≡ ok (bs, rest)) e (next_bytes-append bs rest)
