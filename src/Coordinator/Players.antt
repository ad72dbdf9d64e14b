-- ===== src/Coordinator/Players.antt =====
-- src/coordinator.rs: players that come and go.
use smo_multi_rs.Base.{
  ℕ, List, [], ◌∷◌, ◌++◌, Bool, false, ◌||◌, Option, none, some, length, ltb, ◌==◌, if◌then◌else◌,
}
use smo_multi_rs.Commands.{packet, server, ServerCommand, Client, ClientData}
use smo_multi_rs.Errors.{client_init, ClientInitError, too_many_players, banned_id, banned_ip}
use smo_multi_rs.Guid.{Guid, guid_eq}
use smo_multi_rs.Maps.{Map, lookup, insert, remove}
use smo_multi_rs.Packet.{
  Packet, PacketData, connect, costume, disconnect, ConnectionType, first_connection, reconnecting,
}
use smo_multi_rs.Settings.{Settings}
use smo_multi_rs.Coordinator.State.{
  client_events, Task, ◌>>=◌, ◌>>◌, return, throw, crash, get, modify, make, recover,
}
use smo_multi_rs.Coordinator.Shines.{send, broadcast}

-- `HashSet::contains`
unfoldable pub is_banned : Guid → List Guid → Bool
is_banned g [] = false
is_banned g (b ∷ bs) = guid_eq g b || is_banned g bs

unfoldable pub is_banned_ip : ℕ → List ℕ → Bool
is_banned_ip ip [] = false
is_banned_ip ip (b ∷ bs) = ip == b || is_banned_ip ip bs

-- Why a client may not connect, if so; the number is that of the players.
unfoldable pub refusal : Settings → ℕ → Client → Option ClientInitError
unfolding is_banned is_banned_ip
refusal settings players c =
    if ltb settings.server.max_players players
    then some too_many_players
    else if is_banned c.guid settings.ban_list.players
    then some banned_id
    else if is_banned_ip c.conn.addr.ip settings.ban_list.ips
    then some banned_ip
    else none

-- The entry of `clients` for a new player; one that reconnects keeps the data of its last visit.
unfoldable pub register : ConnectionType → Client → Map ℕ → Map ℕ
register first_connection c clients = insert c.guid c.cell clients
register reconnecting c clients = elim (lookup c.guid clients) [
  | some prev ↦ clients
  | none ↦ insert c.guid c.cell clients
]

-- The reference to its data that the client goes on with.
unfoldable pub own_cell : ConnectionType → Client → Map ℕ → ℕ
own_cell first_connection c clients = c.cell
own_cell reconnecting c clients = elim (lookup c.guid clients) [ some prev ↦ prev | none ↦ c.cell ]

module _ (accepts : ℕ → ℕ → Bool) where
  -- The player's channel was removed: tell the others, then the player.
  unfoldable pub farewell : Guid → Option ℕ → Task (Unit {0})
  unfolding broadcast
  farewell guid none = return tt
  farewell guid (some comm) = do
    p ← make guid disconnect
    broadcast accepts p
    send accepts comm (packet p)

  unfoldable pub disconnect_player : Guid → Task (Unit {0})
  unfolding farewell
  disconnect_player guid = do
    s ← get
    modify
        (λ s. record s { clients = remove guid s.clients; to_clients = remove guid s.to_clients })
    farewell guid (lookup guid s.to_clients)

  unfoldable pub send_last : ℕ → Option Packet → Task (Unit {0})
  send_last comm none = return tt
  send_last comm (some p) = send accepts comm (packet p)

  -- What a new player is told of one player: connection, costume, and the last game packet.
  unfoldable pub introduce : ℕ → ℕ → Guid → ClientData → Task (Unit {0})
  unfolding send_last
  introduce comm max_player other_id other = do
    connect_packet ← make other_id (connect first_connection max_player other.name)
    costume_packet ← make other_id (costume other.costume)
    send accepts comm (packet connect_packet)
    send accepts comm (packet costume_packet)
    send_last comm other.last_game_packet

  unfoldable pub introduce_all : ℕ → ℕ → Map ℕ → Task (Unit {0})
  unfolding introduce
  introduce_all comm max_player [] = return tt
  introduce_all comm max_player ((other_id, cell) ∷ rest) = do
    s ← get
    introduce comm max_player other_id (s.store cell)
    introduce_all comm max_player rest

  unfoldable pub setup_player : ℕ → Packet → Task (Unit {0})
  unfolding introduce_all broadcast
  setup_player comm p = do
    s ← get
    introduce_all comm s.settings.server.max_players s.clients
    broadcast accepts p

  -- `Client::disconnect`: the coordinator is told, on its own channel. The shutdown of the socket is
  -- left out.
  unfoldable pub dismiss : Client → Task (Unit {0})
  unfolding send
  dismiss c = send accepts c.to_coord (server (ServerCommand.disconnect_player c.guid))

  unfoldable pub admit : ConnectionType → Client → Packet → ℕ → Task (Unit {0})
  unfolding setup_player disconnect_player register own_cell
  admit c_type c p comm = do
    modify (λ s. record s {
      clients = register c_type c s.clients;
      to_clients = insert c.guid comm s.to_clients;
      spawned = s.spawned ++ (client_events (record c { cell = own_cell c_type c s.clients }) ∷ []);
    })
    recover (setup_player comm p) (λ e. disconnect_player c.guid >> throw e)

  unfoldable pub admit_or_refuse :
      Option ClientInitError → ConnectionType → Client → Packet → ℕ → Task (Unit {0})
  unfolding dismiss admit
  admit_or_refuse (some e) c_type c p comm = dismiss c >> throw (client_init e)
  admit_or_refuse none c_type c p comm = admit c_type c p comm

  -- `unreachable!()` where the packet is not a `Connect`.
  unfoldable pub add_connected : PacketData → Client → Packet → ℕ → Task (Unit {0})
  unfolding admit_or_refuse refusal
  add_connected (connect c_type max_player client_name) c p comm = do
    s ← get
    admit_or_refuse (refusal s.settings (length s.clients) c) c_type c p comm
  add_connected _ c p comm = crash

  unfoldable pub add_client : Client → Packet → ℕ → Task (Unit {0})
  unfolding add_connected
  add_client c p comm = add_connected p.payload c p comm
