-- ===== src/Coordinator/Shines.antt =====
-- src/coordinator.rs: sending to the clients, and the shine sync.
use smo_multi_rs.Base.{ℕ, List, [], ◌∷◌, ◌++◌, Bool, false, length, if◌then◌else◌, ℤ}
use smo_multi_rs.Commands.{Command, packet}
use smo_multi_rs.Errors.{invalid_id, send_channel, ok, err}
use smo_multi_rs.Guid.{Guid, default_guid}
use smo_multi_rs.Maps.{Map, lookup, difference}
use smo_multi_rs.Packet.{Packet, shine, resize}
use smo_multi_rs.Coordinator.State.{
  Spawned, client_events, delayed_sync, Task, ◌>>=◌, ◌>>◌, return, get, or_throw, unwrap, make,
}

-- The environment: whether the receiver of a channel still exists when so many messages have been
-- sent. The source's channels hold 10 messages (a player's) and 100 (the coordinator's), and a send
-- into a full one waits until there is room; here channels have no bound, and a send never waits.
module _ (accepts : ℕ → ℕ → Bool) where
  -- `channel.send(command).await?`
  unfoldable pub send : ℕ → Command → Task (Unit {0})
  send channel c s =
      if accepts (length s.sent) channel
      then (ok tt, record s { sent = s.sent ++ ((channel, c) ∷ []) })
      else (err send_channel, s)

  unfoldable pub send_all : Map ℕ → Packet → Task (Unit {0})
  unfolding send
  send_all [] p = return tt
  send_all ((g, channel) ∷ rest) p = send channel (packet p) >> send_all rest p

  unfoldable pub broadcast : Packet → Task (Unit {0})
  unfolding send_all
  broadcast p = do s ← get; send_all s.to_clients (resize p)

  unfoldable pub send_shines : ℕ → Guid → List ℤ → Task (Unit {0})
  unfolding send
  send_shines channel guid [] = return tt
  send_shines channel guid (shine_id ∷ rest) = do
    p ← make guid (shine shine_id false)
    send channel (packet p)
    send_shines channel guid rest

  unfoldable pub client_sync_shines : ℕ → Guid → ℕ → Task (Unit {0})
  unfolding send_shines
  client_sync_shines channel guid client = do
    s ← get
    if (s.store client).speedrun_start
        then return tt
        else send_shines channel guid (difference s.shine_bag (s.store client).shine_sync)

  -- The loop of `sync_all_shines` over `clients`; `to_clients` does not change meanwhile.
  unfoldable pub sync_each : Map ℕ → Map ℕ → Task (Unit {0})
  unfolding client_sync_shines
  sync_each [] to_clients = return tt
  sync_each ((guid, client) ∷ rest) to_clients = do
    channel ← unwrap (lookup guid to_clients)
    client_sync_shines channel default_guid client
    sync_each rest to_clients

  unfoldable pub sync_all_shines : Task (Unit {0})
  unfolding sync_each
  sync_all_shines = do s ← get; sync_each s.clients s.to_clients

  unfoldable pub get_client : Guid → Task ℕ
  get_client id = do s ← get; or_throw (invalid_id id.id) (lookup id s.clients)

  unfoldable pub get_channel : Guid → Task ℕ
  get_channel id = do s ← get; or_throw (invalid_id id.id) (lookup id s.to_clients)

  -- The task that `enable_sync` spawns, when its sleep is over.
  unfoldable pub run_delayed : Spawned → Task (Unit {0})
  unfolding client_sync_shines
  run_delayed (client_events c) = return tt
  run_delayed (delayed_sync channel guid client) = client_sync_shines channel guid client
