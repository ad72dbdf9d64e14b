-- ===== src/Client/Handshake.antt =====
-- src/client.rs: `Client::initialize_client`, from an accepted socket to the new player's command.
use smo_multi_rs.Base.{ℕ, List, ◌++◌, Bool, true, Option, none, some}
use smo_multi_rs.Bytes.{Bytes}
use smo_multi_rs.Commands.{server, new_player, Client, ClientData, default_data}
use smo_multi_rs.Connection.{
  SocketAddr, Connection, SocketRead, ReadEnd, answered, waiting, SocketWrite, WriteEnd, finished,
  writing, read_packet, write_packet,
}
use smo_multi_rs.Connection as Connection
use smo_multi_rs.Coordinator.Shines.{send}
use smo_multi_rs.Coordinator.State.{State, Task, make, modify, update}
use smo_multi_rs.Errors.{SmoError, io, client_init, bad_handshake, Outcome, ok, err, panic}
use smo_multi_rs.Guid.{default_guid}
use smo_multi_rs.Packet.{Packet, PacketData, init, connect, udp_init}
use smo_multi_rs.Text.{trim_nul}
use smo_multi_rs.Udp as Udp

-- What the outside does during a handshake, and the references that are made: what the TCP socket
-- takes and brings, the port of the UDP socket (`none` where it cannot be bound), the cell of the
-- client's data, its channel, and the coordinator's channel.
pub record Arrival : Type 0 where
  pub peer : SocketAddr
  pub init_writes : List SocketWrite
  pub bound : Option ℕ
  pub reads : List SocketRead
  pub port_writes : List SocketWrite
  pub cell : ℕ
  pub channel : ℕ
  pub to_coord : ℕ

-- How far the task came: to an outcome, or it waits for the socket.
pub data Progress (A : Type 0) : Type 0 where
  came : Outcome SmoError A → Progress A
  waits : Progress A

-- A step of the task, on the shared state and the bytes that the peer has been sent.
abbrev pub Hand : Type 0 → Type 0
Hand A = State × List ℕ → Progress A × (State × List ℕ)

abbrev pub then_hand :
    {A B : Type 0} → Progress A × (State × List ℕ) → (A → Hand B) → Progress B × (State × List ℕ)
then_hand (came (ok a), w) f = f a w
then_hand (came (err e), w) f = (came (err e), w)
then_hand (came panic, w) f = (came panic, w)
then_hand (waits, w) f = (waits, w)

infixl 5 ◌>>=◌ ◌>>◌
abbrev pub ◌>>=◌ : {A B : Type 0} → Hand A → (A → Hand B) → Hand B
◌>>=◌ m f w = then_hand (m w) f

abbrev pub ◌>>◌ : {B : Type 0} → Hand (Unit {0}) → Hand B → Hand B
m >> k = m >>= λ _. k

abbrev pub shared : {A : Type 0} → Task A → Hand A
shared m (s, wire) = let (r, s') = m s in (came r, (s', wire))

abbrev pub fails : {A : Type 0} → SmoError → Hand A
fails e w = (came (err e), w)

abbrev pub settled : WriteEnd → Progress (Unit {0})
settled (finished r) = came r
settled writing = waits

unfoldable pub write_tcp : Bytes → Packet → List SocketWrite → Hand (Unit {0})
write_tcp b p writes (s, wire) =
    let (end, bytes) = write_packet b p writes in (settled end, (s, wire ++ bytes))

abbrev pub received : ReadEnd → Progress (Packet × Connection)
received (answered (ok p) c reads) = came (ok (p, c))
received (answered (err e) c reads) = came (err e)
received (answered panic c reads) = came panic
received (waiting c) = waits

unfoldable pub read_tcp : Bytes → List SocketRead → Connection → Hand (Packet × Connection)
read_tcp b reads c w = (received (read_packet b reads c), w)

unfoldable pub bind_udp : Option ℕ → Hand ℕ
bind_udp none w = (came (err io), w)
bind_udp (some port) w = (came (ok port), w)

-- The new client, and its data.
abbrev pub new_client : Arrival → List ℕ → Packet → Connection → Client
new_client h name p conn = record {
  display_name = trim_nul name;
  cell = h.cell;
  guid = p.id;
  alive = true;
  conn = conn;
  udp_conn = Udp.new h.peer.ip;
  to_coord = h.to_coord;
  from_server = h.channel;
}

abbrev pub new_data : List ℕ → ClientData
new_data name = record default_data { name = name }

module _ (accepts : ℕ → ℕ → Bool) (b : Bytes) (h : Arrival) where
  -- The match on the client's answer.
  unfoldable pub greet : ℕ → PacketData → Packet → Connection → Hand (Unit {0})
  unfolding write_tcp send
  greet port (connect c_type max_player name) p conn = do
    q ← shared (make default_guid (udp_init port))
    write_tcp b q h.port_writes
    shared (modify (λ s. record s { store = update h.cell (λ _. new_data name) s.store }))
    shared (send accepts h.to_coord (server (new_player (new_client h name p conn) p h.channel)))
  greet port _ p conn = fails (client_init bad_handshake)

  unfoldable pub initialize_client : Hand (Unit {0})
  unfolding write_tcp read_tcp bind_udp greet
  initialize_client (s, wire) =
      (do
        q ← shared (make default_guid (init s.settings.server.max_players))
        write_tcp b q h.init_writes
        port ← bind_udp h.bound
        (p, conn) ← read_tcp b h.reads (Connection.new h.peer)
        greet port p.payload p conn)
        (s, wire)
