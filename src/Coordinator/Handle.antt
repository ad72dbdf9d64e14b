-- ===== src/Coordinator/Handle.antt =====
-- src/coordinator.rs: the commands, one after the other.
use smo_multi_rs.Base.{ℕ, List, [], ◌∷◌, ◌++◌, Bool, true, false, ◌&&◌, ◌==◌, if◌then◌else◌}
use smo_multi_rs.Commands.{Command, packet, cli, server, ServerCommand, new_player}
use smo_multi_rs.Errors.{SmoError, Outcome, ok, err, panic}
use smo_multi_rs.Guid.{Guid, bytes_eq}
use smo_multi_rs.Maps.{Map, add}
use smo_multi_rs.Packet.{Packet, PacketData, costume, game, shine}
use smo_multi_rs.Coordinator.State.{
  delayed_sync, State, Task, ◌>>=◌, ◌>>◌, return, crash, get, modify, cap_world, waterfall_world,
  update, recover,
}
use smo_multi_rs.Coordinator.Shines.{broadcast, sync_all_shines, get_client, get_channel}
use smo_multi_rs.Coordinator.Players.{disconnect_player, add_client}

module _ (accepts : ℕ → ℕ → Bool) where
  unfoldable pub start_speedrun : Guid → Task (Unit {0})
  unfolding get_client
  start_speedrun id = do
    client ← get_client accepts id
    modify (λ s. record s {
      store = update client (λ d. record d { speedrun_start = true; shine_sync = [] }) s.store;
      shine_bag = [];
    })

  unfoldable pub schedule_sync : Bool → Guid → ℕ → Task (Unit {0})
  unfolding get_channel
  schedule_sync false id client = return tt
  schedule_sync true id client = do
    channel ← get_channel accepts id
    modify (λ s. record s { spawned = s.spawned ++ (delayed_sync channel id client ∷ []) })

  unfoldable pub enable_sync : Guid → Task (Unit {0})
  unfolding get_client schedule_sync
  enable_sync id = do
    client ← get_client accepts id
    s ← get
    modify
        (λ s. record s { store = update client (λ d. record d { speedrun_start = false }) s.store })
    schedule_sync (s.store client).speedrun_start id client

  unfoldable pub enter_stage : List ℕ → ℕ → Guid → Task (Unit {0})
  unfolding start_speedrun enable_sync
  enter_stage stage scenario_num id =
      if bytes_eq stage cap_world && scenario_num == 0
      then start_speedrun id
      else if bytes_eq stage waterfall_world
      then enable_sync id
      else return tt

  -- The arms of the match on a packet, and the broadcast that follows all but one.
  unfoldable pub handle_packet : PacketData → Packet → Task Bool
  unfolding sync_all_shines enter_stage broadcast
  handle_packet (costume c) p = do sync_all_shines accepts; broadcast accepts p; return true
  handle_packet (shine shine_id is_grand) p = do
    modify (λ s. record s { shine_bag = add shine_id s.shine_bag })
    sync_all_shines accepts
    return true
  handle_packet (game is_2d scenario_num stage) p = do
    enter_stage stage scenario_num p.id
    broadcast accepts p
    return true
  handle_packet _ p = broadcast accepts p >> return true

  -- `true` to go on. `Command::Cli` is `todo!()`.
  unfoldable pub handle_command : Command → Task Bool
  unfolding add_client disconnect_player handle_packet
  handle_command (server (new_player c p comm)) = add_client accepts c p comm >> return true
  handle_command (server (ServerCommand.disconnect_player guid)) =
      disconnect_player accepts guid >> return true
  handle_command (server ServerCommand.shutdown) = return false
  handle_command (packet p) = handle_packet p.payload p
  handle_command (cli c) = crash

  -- `shutdown`: errors are ignored.
  unfoldable pub disconnect_all : Map ℕ → Task (Unit {0})
  unfolding disconnect_player
  disconnect_all [] = return tt
  disconnect_all ((guid, channel) ∷ rest) =
      recover (disconnect_player accepts guid) (λ e. return tt) >> disconnect_all rest

  unfoldable pub shutdown : Task (Unit {0})
  unfolding disconnect_all
  shutdown = do s ← get; disconnect_all s.to_clients

  -- The loop over the commands that arrive: an error is logged, `Ok(false)` ends it. At the end of
  -- the list the loop is still waiting.
  unfoldable pub after_command :
      (State → Outcome SmoError (Unit {0}) × State)
      → Outcome SmoError Bool × State
      → Outcome SmoError (Unit {0}) × State
  unfolding shutdown
  after_command more (ok false, s) = shutdown s
  after_command more (ok true, s) = more s
  after_command more (err e, s) = more s
  after_command more (panic, s) = (panic, s)

  unfoldable pub handle_commands : List Command → Task (Unit {0})
  unfolding after_command handle_command
  handle_commands [] s = return tt s
  handle_commands (c ∷ cs) s = after_command (handle_commands cs) (handle_command c s)
