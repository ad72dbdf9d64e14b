-- ===== src/Packet/Format.antt =====
-- The wire format of a packet, as a description that is independent of the code: the bytes of each
-- field in order, numbers little-endian, texts padded with zeros.
use mathlib.Core.List.{append_assoc, append-nil}
use smo_multi_rs.Base.{ℕ, ◌≡◌, refl, List, [], ◌∷◌, ◌++◌, ◌∙◌}
use smo_multi_rs.Bytes.{le_bytes, of_signed, reference}
use smo_multi_rs.Errors.{ok}
use smo_multi_rs.Geometry.{Vector3, Quaternion, encode_vector3, encode_quaternion}
use smo_multi_rs.Packet.{
  Packet, PacketData, unhandled, init, player, cap, game, tag, connect, disconnect, costume, shine,
  capture, change_stage, command, udp_init, hole_punch, get_type_id,
}
use smo_multi_rs.Packet.Encode.{
  bool_byte, tag_byte, connection_word, encode_weights, encode_data, encode,
}
use smo_multi_rs.Text.{str_to_sized_array}

abbrev pub vector_bytes : Vector3 → List ℕ
vector_bytes v = le_bytes 4 v.x ++ (le_bytes 4 v.y ++ le_bytes 4 v.z)

abbrev pub quaternion_bytes : Quaternion → List ℕ
quaternion_bytes q = le_bytes 4 q.w ++ (le_bytes 4 q.i ++ (le_bytes 4 q.j ++ le_bytes 4 q.k))

unfoldable pub weights_bytes : List ℕ → List ℕ
weights_bytes [] = []
weights_bytes (w ∷ ws) = le_bytes 4 w ++ weights_bytes ws

unfoldable pub body : PacketData → List ℕ
body (unhandled p_type bytes) = bytes
body (init max_players) = le_bytes 2 max_players
body (player pos rot weights act sub_act) =
    vector_bytes pos
    ++ (quaternion_bytes rot ++ (weights_bytes weights ++ (le_bytes 2 act ++ le_bytes 2 sub_act)))
body (cap pos rot cap_out cap_anim) =
    vector_bytes pos
    ++ (quaternion_bytes rot ++ (le_bytes 1 (bool_byte cap_out) ++ str_to_sized_array 48 cap_anim))
body (game is_2d scenario_num stage) =
    le_bytes 1 (bool_byte is_2d) ++ (le_bytes 1 scenario_num ++ str_to_sized_array 64 stage)
body (tag update_type is_it seconds minutes) =
    le_bytes 1 (tag_byte update_type)
    ++ (le_bytes 1 (bool_byte is_it) ++ (le_bytes 1 seconds ++ le_bytes 2 minutes))
body (connect c_type max_player client_name) =
    le_bytes 4 (connection_word c_type)
    ++ (le_bytes 2 max_player ++ str_to_sized_array 32 client_name)
body disconnect = []
body (costume c) = str_to_sized_array 32 c.body_name ++ str_to_sized_array 32 c.cap_name
body (shine shine_id is_grand) =
    le_bytes 4 (of_signed 0x8000_0000 shine_id) ++ le_bytes 1 (bool_byte is_grand)
body (capture model) = str_to_sized_array 32 model
body (change_stage stage id scenerio sub_scenario) =
    str_to_sized_array 48 stage
    ++ (str_to_sized_array 16 id
        ++ (le_bytes 1 (of_signed 0x80 scenerio) ++ le_bytes 1 sub_scenario))
body command = []
body (udp_init port) = le_bytes 2 port
body hole_punch = []

unfoldable pub frame : Packet → List ℕ
frame p =
    p.id.id ++ (le_bytes 2 (get_type_id p.payload) ++ (le_bytes 2 p.data_size ++ body p.payload))

encode_weights-eq :
    (ws buf : List ℕ) → encode_weights reference ws buf ≡ ok (tt, buf ++ weights_bytes ws)
unfolding encode_weights weights_bytes
encode_weights-eq [] buf = rw append-nil
encode_weights-eq (w ∷ ws) buf = encode_weights-eq ws _ ∙ rw append_assoc

encode_data-eq :
    (d : PacketData) (buf : List ℕ) → encode_data reference d buf ≡ ok (tt, buf ++ body d)
unfolding encode_data body encode_vector3 encode_quaternion
encode_data-eq (unhandled p_type bytes) buf = refl
encode_data-eq (init max_players) buf = refl
encode_data-eq (player pos rot weights act sub_act) buf = simp (append_assoc, encode_weights-eq)
encode_data-eq (cap pos rot cap_out cap_anim) buf = simp append_assoc
encode_data-eq (capture model) buf = refl
encode_data-eq (udp_init port) buf = refl
encode_data-eq disconnect buf = rw append-nil
encode_data-eq command buf = rw append-nil
encode_data-eq hole_punch buf = rw append-nil
encode_data-eq d buf = simp append_assoc

-- `encode` never fails, and appends the packet's frame to the buffer.
pub encode-eq : (p : Packet) (buf : List ℕ) → encode reference p buf ≡ ok (tt, buf ++ frame p)
unfolding encode frame
encode-eq p buf = simp (encode_data-eq, append_assoc)
