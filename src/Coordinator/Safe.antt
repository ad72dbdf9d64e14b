-- ===== src/Coordinator/Safe.antt =====
-- Every command keeps the coordinator's invariant and does not panic (src/coordinator.rs).
use smo_multi_rs.Base.{
  ℕ, ◌≡◌, ◌≤◌, List, [], ◌∷◌, Bool, true, false, ◌&&◌, Option, none, some, length, ◌==◌, All,
  Option-cases, inl, inr, arith,
}
use smo_multi_rs.Commands.{Command, packet, cli, server, ServerCommand, new_player, Client}
use smo_multi_rs.Errors.{SmoError, Outcome, ok, err, panic, invalid_id}
use smo_multi_rs.Guid.{Guid, bytes_eq}
use smo_multi_rs.Maps.{Map, lookup, add}
use smo_multi_rs.Packet.{Packet, PacketData, connect, costume, game, shine}
use smo_multi_rs.Settings.{Settings}
use smo_multi_rs.Coordinator.State.{
  State, Task, ◌>>◌, return, or_throw, cap_world, waterfall_world, update, recover,
}
use smo_multi_rs.Coordinator.Shines.{broadcast, sync_all_shines, get_client, get_channel}
use smo_multi_rs.Coordinator.Players.{
  refusal, disconnect_player, dismiss, admit_or_refuse, add_connected, add_client,
}
use smo_multi_rs.Coordinator.Handle.{
  start_speedrun, schedule_sync, enable_sync, enter_stage, handle_packet, handle_command,
  disconnect_all, shutdown, after_command, handle_commands,
}
use smo_multi_rs.Coordinator.Invariant.{
  IsConnect, IsServed, Inv, Fine, IsFine, then-IsFine, recover-IsFine, if_Fine,
}
use smo_multi_rs.Coordinator.SafePlayers.{
  broadcast-IsFine, sync_all_shines-IsFine, disconnect_player-IsFine, dismiss-IsFine, admit-Fine,
}

pub refusal-none :
    (settings : Settings) (n : ℕ) (c : Client)
    → refusal settings n c ≡ none
    → n ≤ settings.server.max_players
unfolding refusal
refusal-none settings n c e = ground arith

module _ (accepts : ℕ → ℕ → Bool) where
  add_connected-IsFine :
      (d : PacketData) (c : Client) (p : Packet) (comm : ℕ)
      → IsConnect d
      → IsFine (add_connected accepts d c p comm)
  unfolding add_connected
  add_connected-IsFine (connect t n name) c p comm h s v =
      elim (Option-cases (refusal s.settings (length s.clients) c)) [
        | inl e ↦
            rw (e, admit_or_refuse)
              (admit-Fine accepts t c p comm s v (refusal-none s.settings (length s.clients) c e))
        | inr (x, e) ↦
            rw (e, admit_or_refuse)
              (then-IsFine (dismiss accepts c) _ (dismiss-IsFine accepts c) (λ _ s v. v) s v)
      ]
  add_connected-IsFine _ c p comm h s v = absurd h

  or_throw-IsFine : {A : Type 0} (e : SmoError) (o : Option A) → IsFine (or_throw e o)
  or_throw-IsFine e none = λ s v. v
  or_throw-IsFine e (some a) = λ s v. v

  start_speedrun-IsFine : (id : Guid) → IsFine (start_speedrun accepts id)
  unfolding start_speedrun get_client
  start_speedrun-IsFine id s v =
      then-IsFine (or_throw (invalid_id id.id) (lookup id s.clients)) _
        (or_throw-IsFine (invalid_id id.id) (lookup id s.clients))
        (λ client s v. record { same_keys = v.same_keys; room = v.room; served = v.served }) s v

  schedule_sync-IsFine :
      (b : Bool) (id : Guid) (client : ℕ) → IsFine (schedule_sync accepts b id client)
  unfolding schedule_sync get_channel
  schedule_sync-IsFine false id client = λ s v. v
  schedule_sync-IsFine true id client = λ s v.
      then-IsFine (or_throw (invalid_id id.id) (lookup id s.to_clients)) _
        (or_throw-IsFine (invalid_id id.id) (lookup id s.to_clients))
        (λ channel s v. record { same_keys = v.same_keys; room = v.room; served = v.served }) s v

  enable_sync-IsFine : (id : Guid) → IsFine (enable_sync accepts id)
  unfolding enable_sync get_client
  enable_sync-IsFine id s v =
      then-IsFine (or_throw (invalid_id id.id) (lookup id s.clients)) _
        (or_throw-IsFine (invalid_id id.id) (lookup id s.clients))
        (λ client s v.
          schedule_sync-IsFine (s.store client).speedrun_start id client
            (record s { store = update client (λ d. record d { speedrun_start = false }) s.store })
            (record { same_keys = v.same_keys; room = v.room; served = v.served }))
        s v

  enter_stage-IsFine :
      (stage : List ℕ) (scenario_num : ℕ) (id : Guid)
      → IsFine (enter_stage accepts stage scenario_num id)
  unfolding enter_stage
  enter_stage-IsFine stage n id s v =
      if_Fine (bytes_eq stage cap_world && n == 0) _ _ s (start_speedrun-IsFine id s v)
        (if_Fine (bytes_eq stage waterfall_world) _ _ s (enable_sync-IsFine id s v) v)

  broadcast-true : (p : Packet) → IsFine (broadcast accepts p >> return true)
  broadcast-true p = then-IsFine (broadcast accepts p) _ (broadcast-IsFine accepts p) (λ _ s v. v)

  handle_packet-IsFine : (d : PacketData) (p : Packet) → IsFine (handle_packet accepts d p)
  unfolding handle_packet
  handle_packet-IsFine (costume c) p =
      then-IsFine (sync_all_shines accepts) _ (sync_all_shines-IsFine accepts)
        (λ _. broadcast-true p)
  handle_packet-IsFine (shine i b) p = λ s v.
      then-IsFine (sync_all_shines accepts) _ (sync_all_shines-IsFine accepts) (λ _ s v. v)
        (record s { shine_bag = add i s.shine_bag })
        (record { same_keys = v.same_keys; room = v.room; served = v.served })
  handle_packet-IsFine (game b n stage) p =
      then-IsFine (enter_stage accepts stage n p.id) _ (enter_stage-IsFine stage n p.id)
        (λ _. broadcast-true p)
  handle_packet-IsFine _ p = broadcast-true p

  pub handle_command-IsFine : (c : Command) → IsServed c → IsFine (handle_command accepts c)
  unfolding handle_command add_client
  handle_command-IsFine (packet p) h = handle_packet-IsFine p.payload p
  handle_command-IsFine (cli c) h = absurd h
  handle_command-IsFine (server (new_player c p comm)) h =
      then-IsFine (add_connected accepts p.payload c p comm) _
        (add_connected-IsFine p.payload c p comm h) (λ _ s v. v)
  handle_command-IsFine (server (ServerCommand.disconnect_player g)) h =
      then-IsFine (disconnect_player accepts g) _ (disconnect_player-IsFine accepts g) (λ _ s v. v)
  handle_command-IsFine (server ServerCommand.shutdown) h = λ s v. v

  disconnect_all-IsFine : (cs : Map ℕ) → IsFine (disconnect_all accepts cs)
  unfolding disconnect_all
  disconnect_all-IsFine [] = λ s v. v
  disconnect_all-IsFine ((g, channel) ∷ rest) =
      then-IsFine (recover (disconnect_player accepts g) (λ e. return tt)) _
        (recover-IsFine (disconnect_player accepts g) _ (disconnect_player-IsFine accepts g)
          (λ e s v. v))
        (λ _. disconnect_all-IsFine rest)

  pub after_command-Fine :
      (more : Task (Unit {0})) (r : Outcome SmoError Bool × State)
      → IsFine more
      → Fine r
      → Fine (after_command accepts more r)
  unfolding after_command shutdown
  after_command-Fine more (ok false, s) m v = disconnect_all-IsFine s.to_clients s v
  after_command-Fine more (ok true, s) m v = m s v
  after_command-Fine more (err e, s) m v = m s v
  after_command-Fine more (panic, s) m v = v

  -- From a state in which every player has data exactly if it has a channel, and there is at most
  -- one player beyond `max_players`, and every message in a channel is one that the server's tasks
  -- send: whatever commands the server's tasks send (none from the
  -- command line, and a connect packet with every new player), and whichever channels close
  -- meanwhile, the same holds at the end, and the coordinator does not panic.
  pub handle_commands-Inv :
      (cs : List Command) (s : State)
      → All IsServed cs
      → Inv s
      → Fine (handle_commands accepts cs s)
  unfolding handle_commands
  handle_commands-Inv [] s h v = v
  handle_commands-Inv (c ∷ cs) s h v =
      after_command-Fine (handle_commands accepts cs) (handle_command accepts c s)
        (λ s v. handle_commands-Inv cs s h.1 v) (handle_command-IsFine c h.0 s v)
