-- ===== src/Client.antt =====
-- src/client.rs: what a client's task does with a packet of its player and with a command of the
-- coordinator. It shares the store and the channels with the coordinator, and so its steps are tasks
-- on the coordinator's state.
pub mod Echo
pub mod Laws
pub mod Routes
pub mod Events
pub mod Handshake
pub mod Joining
pub mod Safe
use smo_multi_rs.Base.{
  ℕ, ◌+◌, ◌*◌, List, [], Bool, true, false, Option, none, some, ◌&&◌, ◌==◌, if◌then◌else◌,
}
use smo_multi_rs.Bytes.{Bytes}
use smo_multi_rs.Commands.{Command, packet, cli, server, Client, ClientData}
use smo_multi_rs.Connection.{
  SocketWrite, WriteEnd, finished, write_packet, SocketRead, ReadEnd, read_packet,
}
use smo_multi_rs.Connection as Connection
use smo_multi_rs.Coordinator.Shines.{send}
use smo_multi_rs.Coordinator.State.{Task, ◌>>=◌, ◌>>◌, return, modify, cap_world, update}
use smo_multi_rs.Errors.{SmoError, encoding, not_enough_data, Outcome, ok, err, panic}
use smo_multi_rs.Guid.{bytes_eq, guid_eq}
use smo_multi_rs.Maps.{add}
use smo_multi_rs.Packet.{
  Packet, PacketData, player, cap, game, tag, costume, shine, disconnect, udp_init, TagUpdate, time,
  state,
}
use smo_multi_rs.Udp.{Datagram, is_client_udp, set_client_port}
use smo_multi_rs.Udp as Udp

-- The data after a `Game` packet.
unfoldable pub enter_game : Bool → ℕ → List ℕ → Packet → ClientData → ClientData
enter_game is_2d scenario_num stage p d =
    let d' : ClientData = record d {
      is_2d = is_2d;
      scenario = scenario_num;
      last_game_packet = some p;
    } in
    if bytes_eq stage cap_world && scenario_num == 0
    then record d' { speedrun_start = true; shine_sync = [] }
    else d'

-- The data after a `Tag` packet.
unfoldable pub update_tag : TagUpdate → Bool → ℕ → ℕ → ClientData → ClientData
update_tag time is_it seconds minutes d = record d { time = seconds + minutes * 60 }
update_tag state is_it seconds minutes d = record d { is_seeking = is_it }

module _ (accepts : ℕ → ℕ → Bool) where
  -- The client's data changes, and the packet goes to the coordinator.
  unfoldable pub record_and_pass : (ClientData → ClientData) → Packet → Client → Task Client
  unfolding send
  record_and_pass f p c = do
    modify (λ s. record s { store = update c.cell f s.store })
    send accepts c.to_coord (packet p)
    return c

  -- The arms of the match on the packet.
  unfoldable pub handle_data : PacketData → Packet → Client → Task Client
  unfolding record_and_pass enter_game update_tag
  handle_data (costume worn) p c =
      record_and_pass (λ d. record d { costume = worn; loaded_save = true }) p c
  handle_data (game is_2d scenario_num stage) p c =
      record_and_pass (enter_game is_2d scenario_num stage p) p c
  handle_data (tag update_type is_it seconds minutes) p c =
      record_and_pass (update_tag update_type is_it seconds minutes) p c
  handle_data (shine shine_id is_grand) p c =
      record_and_pass
        (λ d. if d.loaded_save then record d { shine_sync = add shine_id d.shine_sync } else d) p c
  handle_data (udp_init port) p c = return (record c { udp_conn = set_client_port port c.udp_conn })
  handle_data _ p c = do send accepts c.to_coord (packet p); return c

  unfoldable pub handle_packet : Packet → Client → Task Client
  unfolding handle_data
  handle_packet p c = handle_data p.payload p c

-- What a client's sockets have taken.
pub data Sent : Type 0 where
  nothing : Sent
  by_tcp : List ℕ → Sent
  by_udp : List Datagram → Sent

abbrev pub by_tcp_of : WriteEnd × List ℕ → WriteEnd × Sent
by_tcp_of (end, bytes) = (end, by_tcp bytes)

abbrev pub by_udp_of : WriteEnd × List Datagram → WriteEnd × Sent
by_udp_of (end, datagrams) = (end, by_udp datagrams)

-- The kinds of packet that go by UDP where it is there.
unfoldable pub is_fast : PacketData → Bool
is_fast (player pos rot weights act sub_act) = true
is_fast (cap pos rot cap_out cap_anim) = true
is_fast _ = false

unfoldable pub send_packet : Bytes → Packet → List SocketWrite → Client → WriteEnd × Sent
unfolding is_fast
send_packet b p writes c =
    if guid_eq p.id c.guid
    then (finished (ok tt), nothing)
    else if is_client_udp c.udp_conn && is_fast p.payload
    then by_udp_of (Udp.write_packet b p writes c.udp_conn)
    else by_tcp_of (write_packet b p writes)

-- A client's own disconnect packet ends its loop.
unfoldable pub own_packet : PacketData → Client → Client
own_packet disconnect c = record c { alive = false }
own_packet _ c = c

-- The other commands are `todo!()`.
unfoldable pub handle_command :
    Bytes → Command → List SocketWrite → Client → (WriteEnd × Sent) × Client
unfolding send_packet own_packet
handle_command b (packet p) writes c =
    if guid_eq p.id c.guid
    then ((finished (ok tt), nothing), own_packet p.payload c)
    else (send_packet b p writes c, c)
handle_command b (cli x) writes c = ((finished panic, nothing), c)
handle_command b (server x) writes c = ((finished panic, nothing), c)

-- `Client::recv_packet`
unfoldable pub recv_packet : Bytes → List SocketRead → Client → ReadEnd
recv_packet b reads c = read_packet b reads c.conn

whole : Outcome SmoError (Option Packet) → Outcome SmoError Packet
whole (ok (some p)) = ok p
whole (ok none) = err (encoding not_enough_data)
whole (err e) = err e
whole panic = panic

-- `Client::parse_packet`
unfoldable pub parse_packet : Bytes → Client → Outcome SmoError Packet × Client
unfolding whole
parse_packet b c =
    let (answer, conn) = Connection.parse_packet b c.conn in
    (whole answer, record c { conn = conn })
