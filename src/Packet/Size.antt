-- ===== src/Packet/Size.antt =====
-- `get_size` against the wire format (src/net/packet.rs).
use smo_multi_rs.Base.{ℕ, ◌+◌, ◌*◌, ◌≡◌, refl, List, [], ◌∷◌, ◌++◌, arith, length, length-append}
use smo_multi_rs.Bytes.{le_bytes, of_signed}
use smo_multi_rs.Packet.{
  Packet, PacketData, unhandled, player, cap, game, connect, costume, capture, change_stage,
  get_type_id, get_size,
}
use smo_multi_rs.Packet.Format.{weights_bytes, body, frame}
use smo_multi_rs.Packet.Typed.{Fits, IsU16}
use smo_multi_rs.Text.{str_to_sized_array}
use smo_multi_rs.Text.Laws.{length-str_to_sized_array}

length-weights_bytes : (ws : List ℕ) → length (weights_bytes ws) ≡ 4 * length ws
unfolding weights_bytes
length-weights_bytes [] = refl
length-weights_bytes (w ∷ ws) = omega (arith, length-weights_bytes ws)

-- The body of a packet has the length that `get_size` says.
pub length-body : (d : PacketData) → Fits d → length (body d) ≡ get_size d
unfolding body get_size
length-body (unhandled p_type bytes) h = refl
length-body (player pos rot ws a b) h = omega (
  arith,
  length-append (weights_bytes ws) (le_bytes 2 a ++ le_bytes 2 b),
  length-weights_bytes ws,
  h.3,
)
length-body (cap pos rot b anim) h = omega (arith, length-str_to_sized_array 48 anim)
length-body (game b n stage) h = omega (arith, length-str_to_sized_array 64 stage)
length-body (connect t n name) h = omega (arith, length-str_to_sized_array 32 name)
length-body (costume c) h = omega (
  arith,
  length-append (str_to_sized_array 32 c.body_name) (str_to_sized_array 32 c.cap_name),
  length-str_to_sized_array 32 c.body_name,
  length-str_to_sized_array 32 c.cap_name,
)
length-body (capture model) h = length-str_to_sized_array 32 model
length-body (change_stage stage id s n) h =
    let tail : List ℕ = le_bytes 1 (of_signed 0x80 s) ++ le_bytes 1 n in
    omega (
      arith,
      length-append (str_to_sized_array 48 stage) (str_to_sized_array 16 id ++ tail),
      length-append (str_to_sized_array 16 id) tail,
      length-str_to_sized_array 48 stage,
      length-str_to_sized_array 16 id,
    )
length-body d h = refl

pub get_type_id-IsU16 : (d : PacketData) → Fits d → IsU16 (get_type_id d)
unfolding get_type_id
get_type_id-IsU16 (unhandled p_type bytes) h = h.0
get_type_id-IsU16 d h = omega arith

-- The identifier, the tag and the size take twenty bytes.
pub length-frame :
    (p : Packet) → length p.id.id ≡ 16 → Fits p.payload → length (frame p) ≡ 20 + get_size p.payload
unfolding frame
length-frame p sized h = omega (
  arith,
  length-append p.id.id
      (le_bytes 2 (get_type_id p.payload) ++ (le_bytes 2 p.data_size ++ body p.payload)),
  length-body p.payload h,
)
