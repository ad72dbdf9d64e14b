-- ===== src/Client/Joining.antt =====
-- The handshake of src/client.rs: what it sends and what it leaves.
use smo_multi_rs.Base.{
  ℕ, ◌≡◌, refl, ap, ◌∙◌, List, [], ◌∷◌, ◌++◌, Bool, true, Option, some, none, length, All, arith,
}
use smo_multi_rs.Bytes.{Bytes, IsBytes, reference}
use smo_multi_rs.Bytes.Laws.{by_reference, reference-IsBytes}
use smo_multi_rs.Client.Handshake.{
  Arrival, came, write_tcp, read_tcp, bind_udp, new_client, new_data, greet, initialize_client,
}
use smo_multi_rs.Commands.{server, new_player}
use smo_multi_rs.Connection.{Connection, SocketRead, SocketWrite, wrote, answered, read_packet}
use smo_multi_rs.Connection as Connection
use smo_multi_rs.Connection.Framing.{stream, IsData, read_packet-frame}
use smo_multi_rs.Connection.Writes.{write_packet-whole}
use smo_multi_rs.Coordinator.Delivery.{send_up}
use smo_multi_rs.Coordinator.State.{State, update}
use smo_multi_rs.Errors.{SmoError, client_init, bad_handshake, ok, err}
use smo_multi_rs.Guid.{IsGuid, default_guid}
use smo_multi_rs.Packet.{Packet, PacketData, ConnectionType, connect, init, udp_init, new, get_size}
use smo_multi_rs.Packet.Format.{frame}
use smo_multi_rs.Packet.Typed.{IsRegular, IsU16, Fits}

-- The server's two packets of a handshake.
abbrev pub init_packet : ℕ → Packet
init_packet max_players = record { id = default_guid; data_size = 2; payload = init max_players }

abbrev pub port_packet : ℕ → Packet
port_packet port = record { id = default_guid; data_size = 2; payload = udp_init port }

-- The name in a connect packet.
abbrev pub connect_name : PacketData → Option (List ℕ)
connect_name (connect c_type max_player name) = some name
connect_name _ = none

default_guid-IsGuid : IsGuid default_guid
default_guid-IsGuid = record { sized = refl; bytes = omega arith }

-- The socket takes a packet as a whole.
abbrev pub TakesWhole : Packet → List SocketWrite → Type 0
TakesWhole p writes = (more : List SocketWrite) × (writes ≡ wrote (length (frame p)) ∷ more)

write_tcp-whole :
    (p : Packet) (writes : List SocketWrite) (s : State) (wire : List ℕ)
    → IsGuid p.id
    → Fits p.payload
    → TakesWhole p writes
    → write_tcp reference p writes (s, wire) ≡ (came (ok tt), (s, wire ++ frame p))
unfolding write_tcp
write_tcp-whole p writes s wire g fits (more, e) =
    rw (e, write_packet-whole reference reference-IsBytes p more g fits)

module _ (accepts : ℕ → ℕ → Bool) (up : (n channel : ℕ) → accepts n channel ≡ true) where
  greet-connect :
      (h : Arrival) (port : ℕ) (t : ConnectionType) (max_player : ℕ) (name : List ℕ) (p : Packet)
      (conn : Connection) (s : State) (wire : List ℕ)
      → IsU16 port
      → TakesWhole (port_packet port) h.port_writes
      → greet accepts reference h port (connect t max_player name) p conn (s, wire) ≡ (
        came (ok tt),
        (
          record s {
            store = update h.cell (λ _. new_data name) s.store;
            sent =
                s.sent
                ++ ((h.to_coord, server (new_player (new_client h name p conn) p h.channel)) ∷ []);
          },
          wire ++ frame (port_packet port),
        ),
      )
  unfolding greet new get_size
  greet-connect h port t max_player name p conn s wire small whole = rw (
    write_tcp-whole (port_packet port) h.port_writes s wire default_guid-IsGuid small whole,
    send_up accepts up h.to_coord (server (new_player (new_client h name p conn) p h.channel))
        (record s { store = update h.cell (λ _. new_data name) s.store }),
  )

greet-other :
    (accepts : ℕ → ℕ → Bool) (io : Bytes) (h : Arrival) (port : ℕ) (d : PacketData) (p : Packet)
    (conn : Connection) (w : State × List ℕ)
    → connect_name d ≡ none
    → greet accepts io h port d p conn w ≡ (came (err (client_init bad_handshake)), w)
unfolding greet
greet-other accepts io h port (connect t n name) p conn w e = cc
greet-other accepts io h port _ p conn w e = refl

-- The connection of the client after its answer, with the bytes behind that.
abbrev pub peer_conn : Arrival → List ℕ → Connection
peer_conn h buff = record { addr = h.peer; buff = buff }

-- The handshake up to the client's answer: the server's first packet goes out, and the answer is
-- read.
greeted :
    (accepts : ℕ → ℕ → Bool) (h : Arrival) (port : ℕ) (p : Packet) (rest : List ℕ) (s : State)
    (wire : List ℕ)
    → IsU16 s.settings.server.max_players
    → TakesWhole (init_packet s.settings.server.max_players) h.init_writes
    → h.bound ≡ some port
    → IsRegular p
    → All IsData h.reads
    → stream h.reads ≡ frame p ++ rest
    → (buff : List ℕ) × (left : List SocketRead) × (initialize_client accepts reference h (s, wire)
        ≡ greet accepts reference h port p.payload p
            (peer_conn h buff)
            (s, wire ++ frame (init_packet s.settings.server.max_players)))
      × (buff ++ stream left ≡ rest)
unfolding initialize_client read_tcp bind_udp new get_size Connection.new
greeted accepts h port p rest s wire small whole bound r d e =
    let first = init_packet s.settings.server.max_players in
    let (buff, left, answer, left_is, _) =
      read_packet-frame h.reads (Connection.new h.peer) p rest r d e in
    (
      buff,
      left,
      rw (
        write_tcp-whole first h.init_writes s wire default_guid-IsGuid small whole,
        bound,
        answer,
      ),
      left_is,
    )

module _ (accepts : ℕ → ℕ → Bool) (up : (n channel : ℕ) → accepts n channel ≡ true) (io : Bytes)
    (lawful : IsBytes io) (h : Arrival) (port : ℕ) (p : Packet) (rest : List ℕ) (s : State)
    (wire : List ℕ) (small : IsU16 s.settings.server.max_players)
    (takes_init : TakesWhole (init_packet s.settings.server.max_players) h.init_writes)
    (bound : h.bound ≡ some port) (r : IsRegular p) (d : All IsData h.reads)
    (e : stream h.reads ≡ frame p ++ rest) where
  -- Let `max_players` and the UDP port be `u16`, the socket take the server's packets as a whole,
  -- every channel have its receiver, the UDP socket be bound, and the bytes that come begin with a
  -- regular connect packet, however the reads, each of at least a byte, cut them. Then the
  -- handshake succeeds: the client has been sent the `Init` and the `UdpInit` packet, its data,
  -- with its name, is in its cell, and the coordinator has been sent the new player, with the
  -- identifier of the packet and the bytes behind the packet left to its connection.
  pub initialize_client-connect :
      {t : ConnectionType} {max_player : ℕ} {name : List ℕ}
      → IsU16 port
      → TakesWhole (port_packet port) h.port_writes
      → p.payload ≡ connect t max_player name
      → (buff : List ℕ) × (left : List SocketRead) × (initialize_client accepts io h (s, wire) ≡ (
        came (ok tt),
        (
          record s {
            store = update h.cell (λ _. new_data name) s.store;
            sent =
                s.sent
                ++ ((
                  h.to_coord,
                  server (new_player (new_client h name p (peer_conn h buff)) p h.channel),
                )
                    ∷ []);
          },
          (wire ++ frame (init_packet s.settings.server.max_players)) ++ frame (port_packet port),
        ),
      ))
        × (buff ++ stream left ≡ rest)
  initialize_client-connect {t} {max_player} {name} small_port takes_port connects =
      by_reference
        (λ io.
          (buff : List ℕ) × (left : List SocketRead) × (initialize_client accepts io h (s, wire) ≡ (
            came (ok tt),
            (
              record s {
                store = update h.cell (λ _. new_data name) s.store;
                sent =
                    s.sent
                    ++ ((
                      h.to_coord,
                      server (new_player (new_client h name p (peer_conn h buff)) p h.channel),
                    )
                        ∷ []);
              },
              (wire ++ frame (init_packet s.settings.server.max_players))
                  ++ frame (port_packet port),
            ),
          ))
          × (buff ++ stream left ≡ rest))
        io lawful
        (let (buff, left, same, left_is) =
            greeted accepts h port p rest s wire small takes_init bound r d e in
          (
            buff,
            left,
            same
                ∙ ap
                    (λ d.
                      greet accepts reference h port d p (peer_conn h buff)
                        (s, wire ++ frame (init_packet s.settings.server.max_players)))
                    connects
                ∙ greet-connect accepts up h port t max_player name p (peer_conn h buff) s _
                    small_port takes_port,
            left_is,
          ))

  -- Let `max_players` be a `u16`, the socket take the `Init` packet as a whole, every channel have
  -- its receiver, the UDP socket be bound, and the bytes that come begin with a regular packet that
  -- is no connect packet, however the reads, each of at least a byte, cut them. Then the handshake
  -- fails: the client has been sent the `Init` packet alone, nothing is stored and no command is
  -- sent.
  pub initialize_client-refuses :
      connect_name p.payload ≡ none
      → initialize_client accepts io h (s, wire) ≡ (
        came (err (client_init bad_handshake)),
        (s, wire ++ frame (init_packet s.settings.server.max_players)),
      )
  initialize_client-refuses other =
      by_reference
        (λ io. initialize_client accepts io h (s, wire) ≡ (
          came (err (client_init bad_handshake)),
          (s, wire ++ frame (init_packet s.settings.server.max_players)),
        ))
        io lawful
        ((greeted accepts h port p rest s wire small takes_init bound r d e).2
          ∙ greet-other accepts reference h port p.payload p _ _ other)

-- Let `max_players` be a `u16` and the socket take the `Init` packet as a whole, and let the UDP
-- socket not be bound, as when its port is taken. Then the handshake fails before the client's
-- answer is read: the client has been sent the `Init` packet alone, nothing is stored and no
-- command is sent, whatever the socket would have brought.
pub initialize_client-unbound :
    (accepts : ℕ → ℕ → Bool) (io : Bytes) (lawful : IsBytes io) (h : Arrival) (s : State)
    (wire : List ℕ)
    → IsU16 s.settings.server.max_players
    → TakesWhole (init_packet s.settings.server.max_players) h.init_writes
    → h.bound ≡ none
    → initialize_client accepts io h (s, wire)
      ≡ (came (err SmoError.io), (s, wire ++ frame (init_packet s.settings.server.max_players)))
initialize_client-unbound accepts io lawful h s wire small whole unbound =
    by_reference
      (λ io.
        initialize_client accepts io h (s, wire)
        ≡ (came (err SmoError.io), (s, wire ++ frame (init_packet s.settings.server.max_players))))
      io lawful
      (unfold initialize_client bind_udp new get_size in
        rw (
          write_tcp-whole (init_packet s.settings.server.max_players) h.init_writes s wire
              default_guid-IsGuid small whole,
          unbound,
        ))
