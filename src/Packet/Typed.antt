-- ===== src/Packet/Typed.antt =====
-- What the field types of src/net/packet.rs say of a packet's fields, and which packets the parser
-- gives back as they were printed.
use smo_multi_rs.Base.{ℕ, ◌^◌, ◌<◌, ◌≡◌, ◌⊎◌, List, ℤ, pos, negsuc, All, length, replicate, []}
use smo_multi_rs.Geometry.{Vector3, Quaternion}
use smo_multi_rs.Guid.{IsGuid}
use smo_multi_rs.Packet.{
  Packet, PacketData, unhandled, init, player, cap, game, tag, connect, disconnect, costume, shine,
  capture, change_stage, command, udp_init, hole_punch, get_size,
}
use smo_multi_rs.Text.Laws.{IsName, IsUtf8}

abbrev pub IsU8 : ℕ → Type 0
IsU8 n = n < 256

abbrev pub IsU16 : ℕ → Type 0
IsU16 n = n < 65536

abbrev pub IsF32 : ℕ → Type 0
IsF32 n = n < 2 ^ 32

-- A two's complement number with `half` non-negative values.
abbrev pub IsSigned : ℕ → ℤ → Type 0
IsSigned half (pos n) = n < half
IsSigned half (negsuc n) = n < half

abbrev pub IsVector : Vector3 → Type 0
IsVector v = IsF32 v.x × IsF32 v.y × IsF32 v.z

abbrev pub IsQuaternion : Quaternion → Type 0
IsQuaternion q = IsF32 q.w × IsF32 q.i × IsF32 q.j × IsF32 q.k

-- The ranges of the fixed-size fields.
abbrev pub Fits : PacketData → Type 0
Fits (unhandled p_type bytes) = IsU16 p_type × All IsU8 bytes
Fits (init max_players) = IsU16 max_players
Fits (player place rot weights act sub_act) =
    IsVector place
    × IsQuaternion rot
    × All IsF32 weights
    × (length weights ≡ 6)
    × IsU16 act
    × IsU16 sub_act
Fits (cap place rot cap_out cap_anim) = IsVector place × IsQuaternion rot
Fits (game is_2d scenario_num stage) = IsU8 scenario_num
Fits (tag update_type is_it seconds minutes) = IsU8 seconds × IsU16 minutes
Fits (connect c_type max_player client_name) = IsU16 max_player
Fits disconnect = Unit {0}
Fits (costume c) = Unit {0}
Fits (shine shine_id is_grand) = IsSigned 0x8000_0000 shine_id
Fits (capture model) = Unit {0}
Fits (change_stage stage id scenerio sub_scenario) = IsSigned 0x80 scenerio × IsU8 sub_scenario
Fits command = Unit {0}
Fits (udp_init port) = IsU16 port
Fits hole_punch = Unit {0}

-- The texts fit their fields and have no NUL at an end (the text of `cap` fills the 32 bytes that
-- are read), and the tag is one of the variant's own.
abbrev pub IsCanonical : PacketData → Type 0
IsCanonical (unhandled p_type bytes) = (p_type ≡ 0) ⊎ (13 < p_type)
IsCanonical (cap place rot cap_out cap_anim) = (length cap_anim ≡ 32) × IsUtf8 cap_anim
IsCanonical (game is_2d scenario_num stage) = IsName 64 stage
IsCanonical (connect c_type max_player client_name) = IsName 32 client_name
IsCanonical (costume c) = IsName 32 c.body_name × IsName 32 c.cap_name
IsCanonical (capture model) = IsName 32 model
IsCanonical (change_stage stage id scenerio sub_scenario) = IsName 48 stage × IsName 16 id
IsCanonical hole_punch = ⊥
IsCanonical d = Unit {0}

-- A packet that `resize` leaves alone, with a payload that reads back.
pub record IsRegular (p : Packet) : Type 0 where
  pub guid : IsGuid p.id
  pub sized : p.data_size ≡ get_size p.payload
  pub small : IsU16 p.data_size
  pub fits : Fits p.payload
  pub canonical : IsCanonical p.payload

-- The zeros of a `cap` field that its parser does not read.
abbrev pub unread : PacketData → List ℕ
unread (cap place rot cap_out cap_anim) = replicate 16 0
unread d = []
