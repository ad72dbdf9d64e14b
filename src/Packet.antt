-- ===== src/Packet.antt =====
-- src/net/packet.rs: the packets, their sizes and tags, and the check for a whole packet in a
-- buffer. The parser and the printer are `Packet.Decode` and `Packet.Encode`.
-- src/types/costume.rs: the costume.
pub mod Decode
pub mod Encode
pub mod Format
pub mod Names
pub mod Typed
pub mod Fields
pub mod Size
pub mod Header
pub mod Frame
pub mod Takes
pub mod Kinds
pub mod Safety
pub mod Codec
pub mod Reads
pub mod Yields
pub mod Readable
pub mod Relay
pub mod Ascii
pub mod Arbitrary
pub mod RoundTrip
use smo_multi_rs.Base.{ℕ, ◌+◌, ◌-◌, ◌*◌, ◌%◌, ◌^◌, ◌≡◌, List, Bool, ltb, if◌then◌else◌, length, ℤ}
use smo_multi_rs.Bytes.{Bytes, Coder, ◌>>=◌, ◌>>◌, pure, fail_if, remaining, then_on}
use smo_multi_rs.Errors.{SmoError, not_enough_data, Outcome, ok, panic}
use smo_multi_rs.Geometry.{Vector3, Quaternion}
use smo_multi_rs.Guid.{Guid}

abbrev pub costume_name_size : ℕ
costume_name_size = 0x20

abbrev pub cap_anim_size : ℕ
cap_anim_size = 0x30

abbrev pub stage_game_name_size : ℕ
stage_game_name_size = 0x40

abbrev pub stage_change_name_size : ℕ
stage_change_name_size = 0x30

abbrev pub stage_id_size : ℕ
stage_id_size = 0x10

abbrev pub client_name_size : ℕ
client_name_size = costume_name_size

pub record Costume : Type 0 where
  pub body_name : List ℕ
  pub cap_name : List ℕ

pub data ConnectionType : Type 0 where
  first_connection reconnecting : ConnectionType

pub data TagUpdate : Type 0 where
  time state : TagUpdate

-- The fields stand in the source's order; `animation_blend_weights` is a list.
pub data PacketData : Type 0 where
  unhandled : (p_type : ℕ) (bytes : List ℕ) → PacketData
  init : (max_players : ℕ) → PacketData
  player :
      (pos : Vector3) (rot : Quaternion) (animation_blend_weights : List ℕ) (act sub_act : ℕ)
      → PacketData
  cap : (pos : Vector3) (rot : Quaternion) (cap_out : Bool) (cap_anim : List ℕ) → PacketData
  game : (is_2d : Bool) (scenario_num : ℕ) (stage : List ℕ) → PacketData
  tag : (update_type : TagUpdate) (is_it : Bool) (seconds minutes : ℕ) → PacketData
  connect : (c_type : ConnectionType) (max_player : ℕ) (client_name : List ℕ) → PacketData
  disconnect : PacketData
  costume : Costume → PacketData
  shine : (shine_id : ℤ) (is_grand : Bool) → PacketData
  capture : (model : List ℕ) → PacketData
  change_stage : (stage id : List ℕ) (scenerio : ℤ) (sub_scenario : ℕ) → PacketData
  command : PacketData
  udp_init : (port : ℕ) → PacketData
  hole_punch : PacketData

-- `data` is called `payload`.
pub record Packet : Type 0 where
  pub id : Guid
  pub data_size : ℕ
  pub payload : PacketData

unfoldable pub get_size : PacketData → ℕ
get_size (unhandled p_type bytes) = length bytes
get_size (init max_players) = 2
get_size (player pos rot weights act sub_act) = 0x38
get_size (cap pos rot cap_out cap_anim) = 29 + cap_anim_size
get_size (game is_2d scenario_num stage) = 2 + stage_game_name_size
get_size (tag update_type is_it seconds minutes) = 5
get_size (connect c_type max_player client_name) = 6 + client_name_size
get_size disconnect = 0
get_size (costume c) = costume_name_size * 2
get_size (shine shine_id is_grand) = 5
get_size (capture model) = costume_name_size
get_size (change_stage stage id scenerio sub_scenario) = stage_id_size + stage_change_name_size + 2
get_size command = 0
get_size (udp_init port) = 2
get_size hole_punch = 0

unfoldable pub get_type_id : PacketData → ℕ
get_type_id (unhandled p_type bytes) = p_type
get_type_id (init max_players) = 1
get_type_id (player pos rot weights act sub_act) = 2
get_type_id (cap pos rot cap_out cap_anim) = 3
get_type_id (game is_2d scenario_num stage) = 4
get_type_id (tag update_type is_it seconds minutes) = 5
get_type_id (connect c_type max_player client_name) = 6
get_type_id disconnect = 7
get_type_id (costume c) = 8
get_type_id (shine shine_id is_grand) = 9
get_type_id (capture model) = 10
get_type_id (change_stage stage id scenerio sub_scenario) = 11
get_type_id command = 12
get_type_id (udp_init port) = 13
get_type_id hole_punch = 14

-- `Packet::new`; a size beyond `u16` fails its `expect`.
unfoldable pub new : Guid → PacketData → Outcome SmoError Packet
unfolding get_size
new id d =
    if ltb (get_size d) (2 ^ 16)
    then ok (record { id = id; data_size = get_size d; payload = d })
    else panic

-- `get_size() as u16` wraps.
unfoldable pub resize : Packet → Packet
unfolding get_size
resize p = record p { data_size = get_size p.payload % 2 ^ 16 }

-- `Packet::check`. The position of the cursor grows as what remains shrinks.
unfoldable pub check : Bytes → Coder ℕ
check io = do
  start ← remaining
  fail_if (ltb start (18 + 2)) not_enough_data
  io.advance 18
  size ← io.get_u16_le
  left ← remaining
  fail_if (ltb left size) not_enough_data
  io.advance size
  rest ← remaining
  pure (start - rest)
