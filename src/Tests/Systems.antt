-- ===== src/Tests/Systems.antt =====
-- The handshake, the listener and the tasks together, for one client that joins a started server.
use smo_multi_rs.Base.{
  All, ℕ, ◌≡◌, refl, List, [], ◌∷◌, ◌++◌, true, length, arith, some, none, ◌+◌, ◌%◌, ◌^◌, map,
}
use smo_multi_rs.Bytes.{reference}
use smo_multi_rs.Bytes.Laws.{reference-IsBytes}
use smo_multi_rs.Client.Handshake.{Arrival, came, new_client, initialize_client}
use smo_multi_rs.Client.Joining.{initialize_client-refuses, peer_conn, init_packet, port_packet}
use smo_multi_rs.Commands.{Client, server, new_player}
use smo_multi_rs.Connection.{received, wrote, SocketRead}
use smo_multi_rs.Connection.Framing.{stream}
use smo_multi_rs.Coordinator.Players.{refusal, is_banned, is_banned_ip}
use smo_multi_rs.Coordinator.Handle.{handle_command}
use smo_multi_rs.Coordinator.Invariant.{Inv}
use smo_multi_rs.Coordinator.Roster.{Moves, view}
use smo_multi_rs.Coordinator.State.{State}
use smo_multi_rs.Errors.{err, client_init, bad_handshake, ok, panic}
use smo_multi_rs.Packet.{get_size}
use smo_multi_rs.Packet.Format.{frame}
use smo_multi_rs.Packet.Typed.{IsRegular}
use smo_multi_rs.Server.{start_state, listen_for_clients}
use smo_multi_rs.Server.Ports.{port_of, listen_for_clients-port}
use smo_multi_rs.Settings.{codes}
use smo_multi_rs.Text.{utf8_run, trim_nul}
use smo_multi_rs.System.{World, begun, take_command, here, next, join, advance}
use smo_multi_rs.System.Safety.{reached-safe}
use smo_multi_rs.System.Joined.{greeted_state, IsJoined, joined}
use smo_multi_rs.Tests.Samples.{found, found-IsRegular, hero-IsGuid, home, joins, all_up}

abbrev fresh : State
fresh = start_state none

-- The hero's client: the socket takes all and brings the connect packet.
abbrev hero_arrival : Arrival
hero_arrival = record {
  peer = home;
  init_writes = wrote (length (frame (init_packet 8))) ∷ [];
  bound = some 51888;
  reads = received (frame joins) ∷ [];
  port_writes = wrote (length (frame (port_packet 51888))) ∷ [];
  cell = 1;
  channel = 11;
  to_coord = 0;
}

-- The coordinator's channel is 0.
abbrev greeting : List ℕ
greeting = frame (init_packet 8)

joins-IsRegular : IsRegular joins
unfolding get_size utf8_run trim_nul
joins-IsRegular = record {
  guid = hero-IsGuid;
  sized = refl;
  small = omega arith;
  fits = omega arith;
  canonical = record { fits = omega arith; valid = refl; trimmed = refl };
}

joined_example :
    (buff : List ℕ) × (left : List SocketRead) × (buff ++ stream left ≡ [])
    × (let c : Client =
          new_client hero_arrival (codes "Mario") joins (peer_conn hero_arrival buff) in
        let s' : State = greeted_state hero_arrival (codes "Mario") c joins fresh in
        let (answer, t) = handle_command all_up (server (new_player c joins 11)) s' in
        (initialize_client all_up reference hero_arrival (fresh, [])
          ≡ (came (ok tt), (s', ([] ++ greeting) ++ frame (port_packet 51888))))
        × (answer ≡ ok true)
        × IsJoined hero_arrival (codes "Mario") c joins fresh t)
unfolding start_state frame refusal is_banned is_banned_ip
joined_example =
    joined all_up (λ n channel. refl) reference reference-IsBytes hero_arrival 51888 8
      (codes "Mario") joins [] fresh [] (omega arith) ([], refl) refl joins-IsRegular (tt, tt) refl
      (omega arith) ([], refl) refl refl

initialize_client-refuses_example :
    initialize_client all_up reference
      (record hero_arrival { reads = received (frame found) ∷ [] })
      (fresh, [])
    ≡ (came (err (client_init bad_handshake)), (fresh, [] ++ greeting))
unfolding start_state frame
initialize_client-refuses_example =
    initialize_client-refuses all_up (λ n channel. refl) reference reference-IsBytes
      (record hero_arrival { reads = received (frame found) ∷ [] }) 51888 found [] fresh []
      (omega arith) ([], refl) refl found-IsRegular (tt, tt) refl refl

listen_for_clients-port_example :
    port_of 2
      (listen_for_clients
        (record { to_coord = 0; udp_port = 51888 })
        (map some (home ∷ home ∷ home ∷ []))).0
    ≡ some ((51888 + 2 % 2) % 2 ^ 16)
listen_for_clients-port_example =
    listen_for_clients-port (record { to_coord = 0; udp_port = 51888 }) (home ∷ home ∷ home ∷ []) 2
      (omega arith)

-- The world after the hero's handshake, from which the coordinator's step follows.
abbrev world_joined : World
world_joined =
    advance 0 (begun fresh) [] true
      (initialize_client all_up reference hero_arrival (fresh, [])).1.0

reached-safe_example :
    Inv world_joined.state
    × All
        (λ c.
          (¬ ((take_command all_up c world_joined.state).0 ≡ panic))
          × Moves c
              (handle_command all_up c world_joined.state).0
              (view world_joined.state)
              (view (handle_command all_up c world_joined.state).1))
        world_joined.inbox
reached-safe_example =
    reached-safe {accepts = all_up} {io = reference} {coord = 0} {w = world_joined} none
      (next here (join hero_arrival []))
