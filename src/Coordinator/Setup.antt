-- ===== src/Coordinator/Setup.antt =====
-- What a new player is told (src/coordinator.rs), while every channel has its receiver.
use smo_multi_rs.Base.{ℕ, ◌≡◌, List, [], ◌∷◌, ◌++◌, Bool, true, Option, none, some}
use smo_multi_rs.Commands.{Command, packet, ClientData}
use smo_multi_rs.Guid.{Guid}
use smo_multi_rs.Maps.{Map}
use smo_multi_rs.Packet.{Packet, connect, costume, first_connection, resize, new, get_size}
use smo_multi_rs.Coordinator.State.{State, ◌>>◌}
use smo_multi_rs.Coordinator.Shines.{send, broadcast}
use smo_multi_rs.Coordinator.Players.{send_last, introduce, introduce_all, setup_player}
use smo_multi_rs.Coordinator.Delivery.{
  Sends, Sends-then, Sends-nothing, send_up, broadcast_up, to_all,
}

abbrev pub connect_packet : ℕ → Guid → ClientData → Packet
connect_packet max_player g d = record {
  id = g;
  data_size = 38;
  payload = connect first_connection max_player d.name;
}

abbrev pub costume_packet : Guid → ClientData → Packet
costume_packet g d = record { id = g; data_size = 64; payload = costume d.costume }

-- The last game packet goes out as it was received.
abbrev pub last_message : ℕ → Option Packet → List (ℕ × Command)
last_message comm none = []
last_message comm (some p) = (comm, packet p) ∷ []

-- The messages that introduce one player to the channel `comm`.
abbrev pub introduction : ℕ → ℕ → Guid → ClientData → List (ℕ × Command)
introduction comm max_player g d =
    (comm, packet (connect_packet max_player g d))
    ∷ (comm, packet (costume_packet g d))
    ∷ last_message comm d.last_game_packet

unfoldable pub introductions : ℕ → ℕ → Map ℕ → (ℕ → ClientData) → List (ℕ × Command)
introductions comm max_player [] store = []
introductions comm max_player ((g, cell) ∷ rest) store =
    introduction comm max_player g (store cell) ++ introductions comm max_player rest store

module _ (accepts : ℕ → ℕ → Bool) (up : (n channel : ℕ) → accepts n channel ≡ true) where
  send_last_up :
      (comm : ℕ) (p : Option Packet) (s : State)
      → Sends (send_last accepts comm p) s (last_message comm p)
  unfolding send_last
  send_last_up comm none s = Sends-nothing s
  send_last_up comm (some p) s = send_up accepts up comm (packet p) s

  introduce_up :
      (comm max_player : ℕ) (g : Guid) (d : ClientData) (s : State)
      → Sends (introduce accepts comm max_player g d) s (introduction comm max_player g d)
  unfolding introduce new get_size
  introduce_up comm max_player g d s =
      let p = connect_packet max_player g d in
      let q = costume_packet g d in
      let last = last_message comm d.last_game_packet in
      Sends-then (send accepts comm (packet p))
        (send accepts comm (packet q) >> send_last accepts comm d.last_game_packet) s
        ((comm, packet p) ∷ []) ((comm, packet q) ∷ last) (send_up accepts up comm (packet p) s)
        (Sends-then (send accepts comm (packet q)) (send_last accepts comm d.last_game_packet) _
          ((comm, packet q) ∷ []) last (send_up accepts up comm (packet q) _)
          (send_last_up comm d.last_game_packet _))

  introduce_all_up :
      (comm max_player : ℕ) (cs : Map ℕ) (s : State)
      → Sends
          (introduce_all accepts comm max_player cs)
          s
          (introductions comm max_player cs s.store)
  unfolding introduce_all introductions
  introduce_all_up comm max_player [] s = Sends-nothing s
  introduce_all_up comm max_player ((g, cell) ∷ rest) s =
      Sends-then (introduce accepts comm max_player g (s.store cell))
        (introduce_all accepts comm max_player rest) s
        (introduction comm max_player g (s.store cell)) (introductions comm max_player rest s.store)
        (introduce_up comm max_player g (s.store cell) s) (introduce_all_up comm max_player rest _)

  -- Let every channel have its receiver. A new player is told of every registered player:
  -- connection and costume, and the last game packet, as it was received, if there is one. Then
  -- all players are sent the new player's connect packet, resized. In the state only the messages
  -- are new.
  pub setup_player_up :
      (comm : ℕ) (p : Packet) (s : State)
      → Sends (setup_player accepts comm p) s (
          introductions comm s.settings.server.max_players s.clients s.store
          ++ to_all s.to_clients (resize p))
  unfolding setup_player
  setup_player_up comm p s =
      Sends-then (introduce_all accepts comm s.settings.server.max_players s.clients)
        (broadcast accepts p) s (introductions comm s.settings.server.max_players s.clients s.store)
        (to_all s.to_clients (resize p))
        (introduce_all_up comm s.settings.server.max_players s.clients s)
        (broadcast_up accepts up p _)
