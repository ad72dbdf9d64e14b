-- ===== src/Tests/Players.antt =====
-- The coordinator on a lobby with one player.
use mathlib.Core.List.{Permᴰ}
use smo_multi_rs.Base.{
  ◌*◌, subst, Bool-cases, inl, inr, Option, none, some, ◌==◌, if◌then◌else◌, ℕ, ◌+◌, ◌≡◌, refl,
  List, [], ◌∷◌, ◌++◌, Bool, true, false, length, arith, pos, zero, suc,
}
use smo_multi_rs.Console.{Console, parse_command}
use smo_multi_rs.Console.Laws.{typed, parse_command-todo}
use smo_multi_rs.Commands.{
  CliCommand, cli, list_players, Command, packet, server, ServerCommand, new_player,
}
use smo_multi_rs.Coordinator.Admission.{refused_evicts, admitted_over_max}
use smo_multi_rs.Coordinator.Delivery.{
  sending, to_all, Avoids, disconnect_player_up, broadcast_closed,
}
use smo_multi_rs.Coordinator.Handle.{handle_command, handle_commands}
use smo_multi_rs.Coordinator.Invariant.{Inv, Fine}
use smo_multi_rs.Coordinator.Order.{IsSameMap, IsSameRun, handle_command-order}
use smo_multi_rs.Coordinator.Players.{disconnect_player, refusal, is_banned, is_banned_ip}
use smo_multi_rs.Coordinator.Refines.{handle_command-moves}
use smo_multi_rs.Coordinator.Roster.{Moves, view}
use smo_multi_rs.Coordinator.Registration.{IsRegistered, kept_cell, admitted-IsRegistered}
use smo_multi_rs.Coordinator.Room.{IsWithin, holders, shutdown-ends}
use smo_multi_rs.Coordinator.Safe.{handle_commands-Inv}
use smo_multi_rs.Coordinator.Shines.{broadcast}
use smo_multi_rs.Coordinator.Shutdown.{IsOver}
use smo_multi_rs.Coordinator.State.{State, cap_world}
use smo_multi_rs.Coordinator.Sync.{sync_messages, handle_command-shine}
use smo_multi_rs.Errors.{send_channel, client_init, banned_id, ok, err, panic}
use smo_multi_rs.Guid.{guid_eq→eq, guid_eq, bytes_eq}
use smo_multi_rs.Maps.{lookup, remove, has, add}
use smo_multi_rs.Packet.{Packet, disconnect, resize, game, first_connection}
use smo_multi_rs.Settings.{codes, default_settings, default_ban_list, default_server}
use smo_multi_rs.Tests.Samples.{hero, foe, found, left, joins, hero_client, lobby, all_up}

lobby-Inv : Inv lobby
unfolding has
lobby-Inv = record { same_keys = λ g. refl; room = omega arith; served = tt }

-- The hero joins, finds a shine, enters the first stage, and leaves.
abbrev visit : List Command
visit =
    server (new_player hero_client joins 11)
    ∷ packet found
    ∷ packet (record { id = hero; data_size = 66; payload = game false 0 cap_world })
    ∷ server (ServerCommand.disconnect_player hero)
    ∷ server ServerCommand.shutdown
    ∷ []

handle_commands-Inv_example : Fine (handle_commands all_up visit lobby)
handle_commands-Inv_example =
    handle_commands-Inv all_up visit lobby (tt, (tt, (tt, (tt, (tt, tt))))) lobby-Inv

handle_command-shine_example : handle_command all_up (packet found) lobby ≡ (
  ok true,
  record lobby {
    shine_bag = add (pos 3) (pos 4 ∷ []);
    sent =
        [] ++ sync_messages lobby.clients lobby.to_clients (add (pos 3) (pos 4 ∷ [])) lobby.store;
  },
)
handle_command-shine_example =
    handle_command-shine all_up (λ _ _. refl) found (pos 3) false lobby lobby-Inv refl

admitted-IsRegistered_example :
    let (answer, t) = handle_command all_up (server (new_player hero_client joins 11)) lobby in
    (answer ≡ ok true)
    × IsRegistered hero_client 11 (kept_cell first_connection hero_client lobby) joins lobby t
unfolding refusal is_banned is_banned_ip
admitted-IsRegistered_example =
    admitted-IsRegistered all_up (λ _ _. refl) hero_client joins 11 lobby refl refl

-- The lobby of a server that bans the foe.
abbrev wary : State
wary = record lobby {
  settings = record default_settings { ban_list = record default_ban_list { players = foe ∷ [] } };
}

abbrev foe_joins : Packet
foe_joins = record joins { id = foe }

refused_evicts_example :
    let s' : State =
      (handle_command all_up
        (server (new_player (record hero_client { guid = foe }) foe_joins 11))
        wary).1 in
    let s'' : State = (handle_command all_up (server (ServerCommand.disconnect_player foe)) s').1 in
    let bye : Packet = record { id = foe; data_size = 0; payload = disconnect } in
    ((handle_command all_up
        (server (new_player (record hero_client { guid = foe }) foe_joins 11))
        wary).0
      ≡ err (client_init banned_id))
    × (s'.sent ≡ [] ++ ((0, server (ServerCommand.disconnect_player foe)) ∷ []))
    × (has foe s''.clients ≡ false)
    × (has foe s''.to_clients ≡ false)
    × (s''.sent ≡ s'.sent ++ (to_all (remove foe wary.to_clients) bye ++ ((12, packet bye) ∷ [])))
unfolding refusal is_banned is_banned_ip guid_eq bytes_eq lookup
refused_evicts_example =
    refused_evicts all_up (λ _ _. refl) (record hero_client { guid = foe }) foe_joins 11 wary refl
      refl refl

-- The lobby of a server for one player.
abbrev small : State
small = record lobby {
  settings = record default_settings { server = record default_server { max_players = 1 } };
}

admitted_over_max_example :
    length (handle_command all_up (server (new_player hero_client joins 11)) small).1.clients
    ≡ 1 + 1
unfolding is_banned is_banned_ip has guid_eq bytes_eq
admitted_over_max_example =
    admitted_over_max all_up (λ _ _. refl) hero_client joins 11 small refl refl refl refl refl

disconnect_player_up_example : disconnect_player all_up foe lobby ≡ (
  ok tt,
  record lobby {
    clients = remove foe lobby.clients;
    to_clients = remove foe lobby.to_clients;
    sent =
        []
        ++ (to_all (remove foe lobby.to_clients) (record left { id = foe })
            ++ ((12, packet (record left { id = foe })) ∷ []));
  },
)
unfolding lookup guid_eq bytes_eq
disconnect_player_up_example = disconnect_player_up all_up (λ _ _. refl) foe 12 lobby refl

-- Only the channel 0 has lost its receiver.
abbrev first_gone : ℕ → ℕ → Bool
first_gone n zero = false
first_gone n (suc channel) = true

first_gone-others : (n k : ℕ) → ¬ (k ≡ 0) → first_gone n k ≡ true
first_gone-others n zero h = absurd (h refl)
first_gone-others n (suc k) h = refl

abbrev gap : State
gap = record lobby { to_clients = (foe, 12) ∷ (hero, 0) ∷ (record { id = [] }, 13) ∷ [] }

broadcast_closed_example :
    broadcast first_gone found gap
    ≡ (err send_channel, sending gap (to_all ((foe, 12) ∷ []) (resize found)))
unfolding Avoids
broadcast_closed_example =
    broadcast_closed first_gone 0 (λ _. refl) first_gone-others ((foe, 12) ∷ [])
      ((record { id = [] }, 13) ∷ []) hero found gap (λ e. omega (arith, e), tt) refl

-- A first game packet of the foe, which starts a speedrun.
handle_command-moves_example :
    Moves
      (packet (record { id = foe; data_size = 66; payload = game false 0 cap_world }))
      (handle_command all_up
        (packet (record { id = foe; data_size = 66; payload = game false 0 cap_world }))
        lobby).0
      (view lobby)
      (view
        (handle_command all_up
          (packet (record { id = foe; data_size = 66; payload = game false 0 cap_world }))
          lobby).1)
handle_command-moves_example =
    handle_command-moves all_up
      (packet (record { id = foe; data_size = 66; payload = game false 0 cap_world })) lobby tt
      lobby-Inv

shutdown-ends_example :
    let r = handle_commands all_up (server ServerCommand.shutdown ∷ packet found ∷ []) lobby in
    IsOver r
    × IsWithin (λ channel. length lobby.to_clients * holders channel lobby.to_clients) lobby r.1
shutdown-ends_example = shutdown-ends all_up (packet found ∷ []) lobby lobby-Inv

-- A parser that knows one command.
abbrev knows_list : List (List ℕ) → Option CliCommand
knows_list args = if length args == 2 then some list_players else none

parse_command-todo_example :
    let console : Console = record { flushes = true; line = some (typed (codes "list") []) } in
    let (answer, s') = parse_command all_up knows_list 0 true console lobby in
    (answer ≡ ok tt)
    × (s' ≡ sending lobby ((0, cli list_players) ∷ []))
    × ((handle_command all_up (cli list_players) s').0 ≡ panic)
parse_command-todo_example =
    parse_command-todo all_up (λ _ _. refl) knows_list 0 (codes "list") [] list_players lobby
      (refl, (refl, (refl, (refl, tt)))) tt refl

-- Two players, and their maps the other way round.
abbrev pair : State
pair = record lobby {
  clients = (foe, 2) ∷ (hero, 1) ∷ [];
  to_clients = (foe, 12) ∷ (hero, 11) ∷ [];
}

swapped : (a b : ℕ) → IsSameMap ((foe, a) ∷ (hero, b) ∷ []) ((hero, b) ∷ (foe, a) ∷ [])
unfolding lookup guid_eq bytes_eq
swapped a b = record {
  entries = Permᴰ.swap refl refl;
  lookups = λ g. elim (Bool-cases (guid_eq foe g)) [
    | inl e ↦
        subst (λ g. lookup g ((foe, a) ∷ (hero, b) ∷ []) ≡ lookup g ((hero, b) ∷ (foe, a) ∷ []))
          (guid_eq→eq foe g e) refl
    | inr e ↦ rw e refl
  ];
}

pair-Inv : Inv pair
unfolding has
pair-Inv = record { same_keys = λ g. refl; room = omega arith; served = tt }

handle_command-order_example : IsSameRun (handle_command all_up (packet found) pair) (
    handle_command all_up (packet found) (record pair {
      clients = (hero, 1) ∷ (foe, 2) ∷ [];
      to_clients = (hero, 11) ∷ (foe, 12) ∷ [];
    }))
handle_command-order_example =
    handle_command-order all_up (λ _ _. refl) found (pos 3) false pair ((hero, 1) ∷ (foe, 2) ∷ [])
      ((hero, 11) ∷ (foe, 12) ∷ []) pair-Inv refl (swapped 2 1) (swapped 12 11)
