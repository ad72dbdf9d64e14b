-- ===== src/Packet/Encode.antt =====
-- src/net/packet.rs: `impl Encodable for Packet`. The buffer is a `BytesMut`, which grows.
use smo_multi_rs.Base.{ℕ, List, [], ◌∷◌, Bool, if◌then◌else◌}
use smo_multi_rs.Bytes.{Bytes, Coder, ◌>>◌, pure}
use smo_multi_rs.Geometry.{encode_vector3, encode_quaternion}
use smo_multi_rs.Packet.{
  Packet, PacketData, unhandled, init, player, cap, game, tag, connect, disconnect, costume, shine,
  capture, change_stage, command, udp_init, hole_punch, ConnectionType, first_connection,
  reconnecting, TagUpdate, time, state, costume_name_size, client_name_size, cap_anim_size,
  stage_game_name_size, stage_change_name_size, stage_id_size, get_type_id,
}
use smo_multi_rs.Text.{str_to_sized_array}

-- `bool` as `u8`
abbrev pub bool_byte : Bool → ℕ
bool_byte b = if b then 1 else 0

abbrev pub tag_byte : TagUpdate → ℕ
tag_byte time = 1
tag_byte state = 2

abbrev pub connection_word : ConnectionType → ℕ
connection_word first_connection = 0
connection_word reconnecting = 1

module _ (io : Bytes) where
  open io use {put_u8, put_i8, put_u16_le, put_u32_le, put_i32_le, put_f32_le, put_slice}

  unfoldable pub encode_weights : List ℕ → Coder (Unit {0})
  encode_weights [] = pure tt
  encode_weights (weight ∷ weights) = put_f32_le weight >> encode_weights weights

  unfoldable pub encode_data : PacketData → Coder (Unit {0})
  unfolding encode_weights
  encode_data (unhandled p_type bytes) = put_slice bytes
  encode_data (init max_players) = put_u16_le max_players
  encode_data (player pos rot animation_blend_weights act sub_act) = do
    encode_vector3 io pos
    encode_quaternion io rot
    encode_weights animation_blend_weights
    put_u16_le act
    put_u16_le sub_act
  encode_data (cap pos rot cap_out cap_anim) = do
    encode_vector3 io pos
    encode_quaternion io rot
    put_u8 (bool_byte cap_out)
    put_slice (str_to_sized_array cap_anim_size cap_anim)
  encode_data (game is_2d scenario_num stage) = do
    put_u8 (bool_byte is_2d)
    put_u8 scenario_num
    put_slice (str_to_sized_array stage_game_name_size stage)
  encode_data (tag update_type is_it seconds minutes) = do
    put_u8 (tag_byte update_type)
    put_u8 (bool_byte is_it)
    put_u8 seconds
    put_u16_le minutes
  encode_data (connect c_type max_player client_name) = do
    put_u32_le (connection_word c_type)
    put_u16_le max_player
    put_slice (str_to_sized_array client_name_size client_name)
  encode_data disconnect = pure tt
  encode_data (costume c) = do
    put_slice (str_to_sized_array costume_name_size c.body_name)
    put_slice (str_to_sized_array costume_name_size c.cap_name)
  encode_data (shine shine_id is_grand) = do put_i32_le shine_id; put_u8 (bool_byte is_grand)
  encode_data (capture model) = put_slice (str_to_sized_array costume_name_size model)
  encode_data (change_stage stage id scenerio sub_scenario) = do
    put_slice (str_to_sized_array stage_change_name_size stage)
    put_slice (str_to_sized_array stage_id_size id)
    put_i8 scenerio
    put_u8 sub_scenario
  encode_data command = pure tt
  encode_data (udp_init port) = put_u16_le port
  encode_data hole_punch = pure tt

  unfoldable pub encode : Packet → Coder (Unit {0})
  encode p = do
    put_slice p.id.id
    put_u16_le (get_type_id p.payload)
    put_u16_le p.data_size
    encode_data p.payload
