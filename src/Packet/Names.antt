-- ===== src/Packet/Names.antt =====
-- src/net/packet.rs: the names of the kinds of packet, for the log.
use smo_multi_rs.Base.{ℕ, List}
use smo_multi_rs.Packet.{
  PacketData, unhandled, init, player, cap, game, tag, connect, disconnect, costume, shine, capture,
  change_stage, command, udp_init, hole_punch,
}
use smo_multi_rs.Settings.{codes}

unfoldable pub get_type_name : PacketData → List ℕ
get_type_name (unhandled p_type bytes) = codes "unhandled"
get_type_name (init max_players) = codes "init"
get_type_name (player pos rot weights act sub_act) = codes "player"
get_type_name (cap pos rot cap_out cap_anim) = codes "cap"
get_type_name (game is_2d scenario_num stage) = codes "game"
get_type_name (tag update_type is_it seconds minutes) = codes "tag"
get_type_name (connect c_type max_player client_name) = codes "connect"
get_type_name disconnect = codes "disconnect"
get_type_name (costume c) = codes "costume"
get_type_name (shine shine_id is_grand) = codes "shine"
get_type_name (capture model) = codes "capture"
get_type_name (change_stage stage id scenerio sub_scenario) = codes "changeStage"
get_type_name command = codes "command"
get_type_name (udp_init port) = codes "udpInit"
get_type_name hole_punch = codes "holePunch"
