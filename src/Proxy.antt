-- ===== src/Proxy.antt =====
-- examples/proxy/src/main.rs: a proxy between one client and the server. What the sockets bring and
-- take is an argument of each turn; the timer of the tag packets only writes to the log.
pub mod Modes
pub mod Crossings
pub mod Relaying
use smo_multi_rs.Base.{
  ℕ, List, [], ◌∷◌, Bool, true, false, ◌&&◌, not, Option, none, some, if◌then◌else◌,
}
use smo_multi_rs.Bytes.{Bytes}
use smo_multi_rs.Connection.{SocketAddr, SocketWrite, WriteEnd, finished, writing}
use smo_multi_rs.Connection as Connection
use smo_multi_rs.Errors.{SmoError, io, Outcome, ok, err, panic}
use smo_multi_rs.Guid.{default_guid}
use smo_multi_rs.Packet.{Packet, PacketData, player, cap, udp_init, new, resize}
use smo_multi_rs.Udp.{UdpConnection, Datagram, from_connection, set_client_port}
use smo_multi_rs.Udp as Udp

pub data Origin : Type 0 where
  client server : Origin

-- `Not for Origin`
abbrev pub opposite : Origin → Origin
opposite client = server
opposite server = client

-- The derived `PartialEq`.
abbrev pub origin_eq : Origin → Origin → Bool
origin_eq client client = true
origin_eq server server = true
origin_eq _ _ = false

-- Which of the three connections of the `select!` a packet came from.
pub data Socket : Type 0 where
  udp cli serv : Socket

-- `plex` is the side that speaks UDP to the proxy.
unfoldable pub origin_of : Origin → Socket → Origin
origin_of plex udp = plex
origin_of plex cli = client
origin_of plex serv = server

-- What a turn sends: bytes to the client and the server, and datagrams.
pub record Sent : Type 0 where
  pub to_cli : List ℕ
  pub to_serv : List ℕ
  pub by_udp : List Datagram

abbrev pub sent_to : Origin → List ℕ → Sent
sent_to client bytes = record { to_cli = bytes; to_serv = []; by_udp = [] }
sent_to server bytes = record { to_cli = []; to_serv = bytes; by_udp = [] }

abbrev pub sent_by_udp : List Datagram → Sent
sent_by_udp datagrams = record { to_cli = []; to_serv = []; by_udp = datagrams }

-- How a turn leaves the loop: it goes on, has returned an error, has panicked, or waits for a write.
pub data Turn : Type 0 where
  running : UdpConnection → Turn
  stopped : SmoError → Turn
  crashed blocked : Turn

-- `.await?`
unfoldable pub or_stop : UdpConnection → WriteEnd → Turn
or_stop c (finished (ok a)) = running c
or_stop c (finished (err e)) = stopped e
or_stop c (finished panic) = crashed
or_stop c writing = blocked

-- `.await.unwrap()`
unfoldable pub or_crash : UdpConnection → WriteEnd → Turn
or_crash c (finished (ok a)) = running c
or_crash c (finished (err e)) = crashed
or_crash c (finished panic) = crashed
or_crash c writing = blocked

-- What goes over UDP.
abbrev pub is_fast : PacketData → Bool
is_fast (player pos rot weights act sub_act) = true
is_fast (cap pos rot cap_out cap_anim) = true
is_fast _ = false

-- The address for UDP at the start: the server's, with the port of the arguments.
unfoldable pub start : SocketAddr → SocketAddr → UdpConnection
unfolding from_connection
start serv_tcp_addr serv_udp_addr =
    from_connection (record { ip = serv_tcp_addr.ip; port = serv_udp_addr.port })

module _ (io : Bytes) (plex : Origin) (loc_udp_port : ℕ) where
  unfoldable pub forward_by_udp : Packet → List SocketWrite → UdpConnection → Turn × Sent
  unfolding or_crash
  forward_by_udp p writes c =
      let (end, datagrams) = Udp.write_packet io p writes c in
      (or_crash c end, sent_by_udp datagrams)

  unfoldable pub forward_by_tcp : Origin → Packet → List SocketWrite → UdpConnection → Turn × Sent
  unfolding or_stop
  forward_by_tcp dest p writes c =
      let (end, bytes) = Connection.write_packet io p writes in (or_stop c end, sent_to dest bytes)

  -- From the choice of the connections on; `use_udp` is true throughout.
  unfoldable pub forward : Origin → Packet → List SocketWrite → UdpConnection → Turn × Sent
  unfolding forward_by_udp forward_by_tcp
  forward origin p writes c =
      if not (origin_eq origin plex) && is_fast p.payload
      then forward_by_udp p writes c
      else forward_by_tcp (opposite origin) p writes c

  -- `Packet::new` cannot fail on a `UdpInit`.
  unfoldable pub answer_init :
      Outcome SmoError Packet → List SocketWrite → UdpConnection → Turn × Sent
  unfolding forward_by_tcp
  answer_init (ok p) writes c = forward_by_tcp server p writes c
  answer_init (err e) writes c = (stopped e, sent_by_udp [])
  answer_init panic writes c = (crashed, sent_by_udp [])

  -- The match on the packet.
  unfoldable pub relay :
      PacketData → Origin → Packet → List SocketWrite → UdpConnection → Turn × Sent
  unfolding answer_init set_client_port forward
  relay (udp_init port) origin p writes c =
      answer_init (new default_guid (udp_init loc_udp_port)) writes (set_client_port port c)
  relay _ origin p writes c = forward origin p writes c

  -- One turn of the loop, on what one `read_packet` brought.
  unfoldable pub next_turn :
      Socket → Outcome SmoError Packet → List SocketWrite → UdpConnection → Turn × Sent
  unfolding relay origin_of resize
  next_turn socket (ok packet) writes c =
      let p = resize packet in relay p.payload (origin_of plex socket) p writes c
  next_turn socket (err e) writes c = (stopped e, sent_by_udp [])
  next_turn socket panic writes c = (crashed, sent_by_udp [])

-- What the outside does in one turn.
pub record Event : Type 0 where
  pub socket : Socket
  pub answer : Outcome SmoError Packet
  pub writes : List SocketWrite

unfoldable pub then_turn : Turn × Sent → (UdpConnection → Turn × List Sent) → Turn × List Sent
then_turn (running c, sent) more = let (end, rest) = more c in (end, sent ∷ rest)
then_turn (t, sent) more = (t, sent ∷ [])

-- The loop of `proxy_client`, on the turns that happen.
unfoldable pub proxy_loop : Bytes → Origin → ℕ → List Event → UdpConnection → Turn × List Sent
unfolding then_turn next_turn
proxy_loop b plex port [] c = (running c, [])
proxy_loop b plex port (e ∷ es) c =
    then_turn (next_turn b plex port e.socket e.answer e.writes c) (proxy_loop b plex port es)

-- `proxy_client`: `server_conn` is the peer address of the connection to the server, if it can be
-- made, `bound` the port of the UDP socket, if it can be bound; the latter is unwrapped.
unfoldable pub proxy_client :
    Bytes → Origin → SocketAddr → Option SocketAddr → Option ℕ → List Event → Turn × List Sent
unfolding proxy_loop start
proxy_client b plex serv_udp_addr none bound es = (stopped io, [])
proxy_client b plex serv_udp_addr (some serv_tcp_addr) none es = (crashed, [])
proxy_client b plex serv_udp_addr (some serv_tcp_addr) (some loc_udp_port) es =
    proxy_loop b plex loc_udp_port es (start serv_tcp_addr serv_udp_addr)
