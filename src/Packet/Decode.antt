-- ===== src/Packet/Decode.antt =====
-- src/net/packet.rs: `impl Decodable for Packet`, one function for each arm of its match.
use smo_multi_rs.Base.{ℕ, zero, suc, ◌+◌, ◌-◌, List, [], ◌∷◌, Bool, not, ltb, ◌==◌, if◌then◌else◌}
use smo_multi_rs.Bytes.{Bytes, Coder, ◌>>=◌, ◌>>◌, pure, abort, fail_if, remaining}
use smo_multi_rs.Errors.{not_enough_data}
use smo_multi_rs.Geometry.{decode_vector3, decode_quaternion}
use smo_multi_rs.Packet.{
  Packet, PacketData, unhandled, init, player, cap, game, tag, connect, disconnect, costume, shine,
  capture, change_stage, command, udp_init, first_connection, reconnecting, time, state,
  costume_name_size, client_name_size, stage_game_name_size, stage_change_name_size, stage_id_size,
  get_size,
}
use smo_multi_rs.Text.{from_utf8, buf_size_to_string}

-- A `usize` subtraction that underflows panics; where overflow checks are off it wraps, and the
-- `advance` by the wrapped amount panics.
abbrev pub sub_usize : ℕ → ℕ → Coder ℕ
sub_usize a b = if ltb a b then abort else pure (a - b)

-- `buf.get_u8() != 0`
abbrev pub get_bool : Bytes → Coder Bool
get_bool io = io.get_u8 >>= λ b. pure (not (b == 0))

module _ (io : Bytes) where
  open io use {
    get_u8, get_i8, get_u16_le, get_u32_le, get_i32_le, get_f32_le, copy_to_bytes, advance,
  }

  unfoldable pub decode_weights : ℕ → Coder (List ℕ)
  decode_weights zero = pure []
  decode_weights (suc n) = do
    weight ← get_f32_le
    weights ← decode_weights n
    pure (weight ∷ weights)

  unfoldable pub decode_init : Coder PacketData
  decode_init = do max_players ← get_u16_le; pure (init max_players)

  unfoldable pub decode_player : Coder PacketData
  unfolding decode_weights
  decode_player = do
    pos ← decode_vector3 io
    rot ← decode_quaternion io
    animation_blend_weights ← decode_weights 6
    act ← get_u16_le
    sub_act ← get_u16_le
    pure (player pos rot animation_blend_weights act sub_act)

  -- The name is read with the size of a costume's name, and keeps its padding.
  unfoldable pub decode_cap : Coder PacketData
  decode_cap = do
    pos ← decode_vector3 io
    rot ← decode_quaternion io
    cap_out ← get_bool io
    bytes ← copy_to_bytes costume_name_size
    cap_anim ← from_utf8 bytes
    pure (cap pos rot cap_out cap_anim)

  unfoldable pub decode_game : Coder PacketData
  decode_game = do
    is_2d ← get_bool io
    scenario_num ← get_u8
    stage ← buf_size_to_string io stage_game_name_size
    pure (game is_2d scenario_num stage)

  unfoldable pub decode_tag : Coder PacketData
  decode_tag = do
    update_type ← get_u8
    is_it ← get_bool io
    seconds ← get_u8
    minutes ← get_u16_le
    pure (tag (if update_type == 1 then time else state) is_it seconds minutes)

  unfoldable pub decode_connect : Coder PacketData
  decode_connect = do
    c_type ← get_u32_le
    max_player ← get_u16_le
    client_name ← buf_size_to_string io client_name_size
    pure (connect (if c_type == 0 then first_connection else reconnecting) max_player client_name)

  unfoldable pub decode_costume : Coder PacketData
  decode_costume = do
    body_name ← buf_size_to_string io costume_name_size
    cap_name ← buf_size_to_string io costume_name_size
    pure (costume (record { body_name = body_name; cap_name = cap_name }))

  unfoldable pub decode_shine : Coder PacketData
  decode_shine = do shine_id ← get_i32_le; is_grand ← get_bool io; pure (shine shine_id is_grand)

  unfoldable pub decode_capture : Coder PacketData
  decode_capture = do model ← buf_size_to_string io costume_name_size; pure (capture model)

  unfoldable pub decode_change_stage : Coder PacketData
  decode_change_stage = do
    stage ← buf_size_to_string io stage_change_name_size
    id ← buf_size_to_string io stage_id_size
    scenerio ← get_i8
    sub_scenario ← get_u8
    pure (change_stage stage id scenerio sub_scenario)

  unfoldable pub decode_udp_init : Coder PacketData
  decode_udp_init = do port ← get_u16_le; pure (udp_init port)

  unfoldable pub decode_unhandled : ℕ → ℕ → Coder PacketData
  decode_unhandled p_type p_size = do bytes ← copy_to_bytes p_size; pure (unhandled p_type bytes)

  -- The match on the tag. There is no arm for 14.
  unfoldable pub decode_data : ℕ → ℕ → Coder PacketData
  decode_data p_type p_size =
      if p_type == 1
      then decode_init
      else if p_type == 2
      then decode_player
      else if p_type == 3
      then decode_cap
      else if p_type == 4
      then decode_game
      else if p_type == 5
      then decode_tag
      else if p_type == 6
      then decode_connect
      else if p_type == 7
      then pure disconnect
      else if p_type == 8
      then decode_costume
      else if p_type == 9
      then decode_shine
      else if p_type == 10
      then decode_capture
      else if p_type == 11
      then decode_change_stage
      else if p_type == 12
      then pure command
      else if p_type == 13
      then decode_udp_init
      else decode_unhandled p_type p_size

  -- What the size field counts beyond the fields is skipped.
  unfoldable pub skip_padding : ℕ → PacketData → Coder (Unit {0})
  skip_padding p_size d = do
    excess_padding ← sub_usize p_size (get_size d)
    if ltb 0 excess_padding then advance excess_padding else pure tt

  unfoldable pub decode : Coder Packet
  decode = do
    whole ← remaining
    fail_if (ltb whole (16 + 2 + 2)) not_enough_data
    id ← copy_to_bytes 16
    p_type ← get_u16_le
    p_size ← get_u16_le
    left ← remaining
    fail_if (ltb left p_size) not_enough_data
    d ← decode_data p_type p_size
    skip_padding p_size d
    pure (record { id = record { id = id }; data_size = p_size; payload = d })
