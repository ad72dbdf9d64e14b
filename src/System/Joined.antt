-- ===== src/System/Joined.antt =====
-- A player on its way into the game: through the handshake of src/client.rs and the coordinator of
-- src/coordinator.rs.
use smo_multi_rs.Base.{
  ℕ, ◌≡◌, refl, ◌∙◌, List, [], ◌∷◌, ◌++◌, Bool, true, some, none, All, length, arith,
}
use smo_multi_rs.Bytes.{Bytes, IsBytes}
use smo_multi_rs.Client.Handshake.{Arrival, came, new_client, new_data, initialize_client}
use smo_multi_rs.Client.Joining.{
  peer_conn, init_packet, port_packet, TakesWhole, initialize_client-connect,
}
use smo_multi_rs.Commands.{server, new_player, Client, default_data}
use smo_multi_rs.Connection.{SocketRead}
use smo_multi_rs.Connection.Framing.{stream, IsData}
use smo_multi_rs.Coordinator.Admission.{admitted}
use smo_multi_rs.Coordinator.Delivery.{to_all}
use smo_multi_rs.Coordinator.Handle.{handle_command}
use smo_multi_rs.Coordinator.Players.{refusal, register, own_cell}
use smo_multi_rs.Coordinator.Setup.{introductions}
use smo_multi_rs.Coordinator.State.{State, client_events, update}
use smo_multi_rs.Errors.{ok}
use smo_multi_rs.Guid.{guid_eq_refl}
use smo_multi_rs.Maps.{lookup, lookup-insert}
use smo_multi_rs.Packet.{Packet, connect, first_connection, resize}
use smo_multi_rs.Packet.Format.{frame}
use smo_multi_rs.Packet.Typed.{IsU16, IsRegular}

-- The state after the handshake.
abbrev pub greeted_state : Arrival → List ℕ → Client → Packet → State → State
greeted_state h name c p s = record s {
  store = update h.cell (λ _. new_data name) s.store;
  sent = s.sent ++ ((h.to_coord, server (new_player c p h.channel)) ∷ []);
}

-- A player that is in the game: its data and its channel, its task, and what was sent for it.
abbrev pub IsJoined : Arrival → List ℕ → Client → Packet → State → State → Type 0
IsJoined h name c p s t =
    (lookup p.id t.clients ≡ some h.cell)
    × (lookup p.id t.to_clients ≡ some h.channel)
    × (t.store h.cell ≡ record default_data { name = name })
    × (t.spawned ≡ s.spawned ++ (client_events c ∷ []))
    × (t.sent
        ≡ (s.sent ++ ((h.to_coord, server (new_player c p h.channel)) ∷ []))
          ++ (introductions h.channel s.settings.server.max_players t.clients t.store
              ++ to_all t.to_clients (resize p)))

module _ (accepts : ℕ → ℕ → Bool) (up : (n channel : ℕ) → accepts n channel ≡ true) where
  enters_game :
      (h : Arrival) (name : List ℕ) (max_player : ℕ) (p : Packet) (s : State) (buff : List ℕ)
      → p.payload ≡ connect first_connection max_player name
      → refusal s.settings (length s.clients) (new_client h name p (peer_conn h buff)) ≡ none
      → let c : Client = new_client h name p (peer_conn h buff) in
        let (answer, t) =
          handle_command accepts (server (new_player c p h.channel)) (greeted_state h name c p s) in
        (answer ≡ ok true) × IsJoined h name c p s t
  unfolding register own_cell
  enters_game h name max_player p s buff connects room =
      let c : Client = new_client h name p (peer_conn h buff) in
      rw (admitted accepts up c p h.channel (greeted_state h name c p s) connects room) (
        refl,
        (
          lookup-insert p.id p.id h.cell s.clients ∙ rw (guid_eq_refl p.id) refl,
          lookup-insert p.id p.id h.channel s.to_clients ∙ rw (guid_eq_refl p.id) refl,
          ground arith,
          refl,
          refl,
        ),
      )

  -- Let `max_players` and the UDP port be `u16`, the socket take the server's packets as a whole,
  -- every channel have its receiver, the UDP socket be bound, and the bytes that come, however the
  -- reads, each of at least a byte, cut them, begin with a regular packet of a player that connects
  -- for the first time and is not refused. Then the handshake succeeds: it sends the client the
  -- `Init` and the `UdpInit` packet and leaves the bytes behind the client's packet. When the
  -- coordinator has handled the command that it was sent by that, the player is registered with its
  -- cell, which has its name, and its channel; its task is spawned; it is introduced to all players,
  -- and its packet, resized, has gone to all of them, itself included.
  pub joined :
      (io : Bytes)
      → IsBytes io
      → (h : Arrival) (port max_player : ℕ) (name : List ℕ) (p : Packet) (rest : List ℕ) (s : State)
        (wire : List ℕ)
      → IsU16 s.settings.server.max_players
      → TakesWhole (init_packet s.settings.server.max_players) h.init_writes
      → h.bound ≡ some port
      → IsRegular p
      → All IsData h.reads
      → stream h.reads ≡ frame p ++ rest
      → IsU16 port
      → TakesWhole (port_packet port) h.port_writes
      → p.payload ≡ connect first_connection max_player name
      → refusal s.settings (length s.clients) (new_client h name p (peer_conn h [])) ≡ none
      → (buff : List ℕ) × (left : List SocketRead) × (buff ++ stream left ≡ rest)
        × (let c : Client = new_client h name p (peer_conn h buff) in
            let s' : State = greeted_state h name c p s in
            let (answer, t) = handle_command accepts (server (new_player c p h.channel)) s' in
            (initialize_client accepts io h (s, wire) ≡ (
              came (ok tt),
              (
                s',
                (wire ++ frame (init_packet s.settings.server.max_players))
                    ++ frame (port_packet port),
              ),
            ))
            × (answer ≡ ok true)
            × IsJoined h name c p s t)
  unfolding refusal
  joined io lawful h port max_player name p rest s wire small init bound r d e small_port takes
        connects room =
      let (buff, left, same, left_is) =
        initialize_client-connect accepts up io lawful h port p rest s wire small init bound r d e
          small_port takes connects in
      let (answer, inside) = enters_game h name max_player p s buff connects room in
      (buff, left, left_is, (same, answer, inside))
