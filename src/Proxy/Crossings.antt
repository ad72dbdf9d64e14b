-- ===== src/Proxy/Crossings.antt =====
-- What the proxy of examples/proxy/src/main.rs is to make of the packets that it reads, as a
-- description that is independent of its code.
use smo_multi_rs.Base.{ℕ, List, [], ◌∷◌, length, Bool, true, false, if◌then◌else◌}
use smo_multi_rs.Connection.{SocketAddr, wrote}
use smo_multi_rs.Errors.{ok}
use smo_multi_rs.Guid.{default_guid}
use smo_multi_rs.Packet.{Packet, PacketData, player, cap, udp_init}
use smo_multi_rs.Packet.Format.{body, frame}
use smo_multi_rs.Proxy.{Origin, client, server, Socket, udp, cli, serv, Sent, Event}

-- A packet and the socket that it is read from.
abbrev pub Read : Type 0
Read = Socket × Packet

abbrev pub reply : ℕ → Packet
reply port = record { id = default_guid; data_size = 2; payload = udp_init port }

-- The packet with the size that its payload has on the wire.
abbrev pub corrected : Packet → Packet
corrected p = record p { data_size = length (body p.payload) }

-- The packet that the proxy sends for one that it reads, where `q` is the corrected one.
abbrev pub outgoing : ℕ → PacketData → Packet → Packet
outgoing port (udp_init _) q = reply port
outgoing port _ q = q

-- Its turn, with a socket that takes that packet as a whole.
abbrev pub event : ℕ → Read → Event
event port (socket, p) = record {
  socket = socket;
  answer = ok p;
  writes = wrote (length (frame (outgoing port p.payload (corrected p)))) ∷ [];
}

-- The peer for UDP after a packet.
abbrev pub peer_after : SocketAddr → PacketData → SocketAddr
peer_after a (udp_init port) = record { ip = a.ip; port = port }
peer_after a _ = a

-- One message: to the client or the server by TCP, or to the peer for UDP.
abbrev pub to_client : Packet → Sent
to_client p = record { to_cli = frame p; to_serv = []; by_udp = [] }

abbrev pub to_server : Packet → Sent
to_server p = record { to_cli = []; to_serv = frame p; by_udp = [] }

abbrev pub to_peer : SocketAddr → Packet → Sent
to_peer a p = record {
  to_cli = [];
  to_serv = [];
  by_udp = record { bytes = frame p; sender = a } ∷ [];
}

-- The packets that are to go by UDP to the side that speaks it: `Player` and `Cap`.
abbrev pub goes_by_udp : PacketData → Bool
goes_by_udp (player pos rot weights act sub_act) = true
goes_by_udp (cap pos rot cap_out cap_anim) = true
goes_by_udp _ = false

-- Where a packet other than `UdpInit` is to go, by the side that speaks UDP and the socket that it
-- came by.
abbrev pub crossing : Origin → Socket → SocketAddr → Packet → Sent
crossing server cli a p = if goes_by_udp p.payload then to_peer a p else to_server p
crossing server serv a p = to_client p
crossing server udp a p = to_client p
crossing client cli a p = to_server p
crossing client serv a p = if goes_by_udp p.payload then to_peer a p else to_client p
crossing client udp a p = to_server p

abbrev pub answering : Origin → ℕ → SocketAddr → PacketData → Socket → Packet → Sent
answering plex port a (udp_init _) socket q = to_server (reply port)
answering plex port a _ socket q = crossing plex socket a q

abbrev pub deliveries : Origin → ℕ → SocketAddr → List Read → List Sent
deliveries plex port a [] = []
deliveries plex port a ((socket, p) ∷ rest) =
    answering plex port a p.payload socket (corrected p)
    ∷ deliveries plex port (peer_after a p.payload) rest

abbrev pub peer_at_end : SocketAddr → List Read → SocketAddr
peer_at_end a [] = a
peer_at_end a ((socket, p) ∷ rest) = peer_at_end (peer_after a p.payload) rest
