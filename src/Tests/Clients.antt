-- ===== src/Tests/Clients.antt =====
-- A client's task on a lobby with one player.
use smo_multi_rs.Base.{
  ℕ, ◌≡◌, refl, List, [], ◌∷◌, ◌++◌, All, true, false, length, arith, some, pos, if◌then◌else◌,
}
use smo_multi_rs.Bytes.{reference}
use smo_multi_rs.Bytes.Laws.{reference-IsBytes}
use smo_multi_rs.Client.{handle_packet, by_tcp, by_udp, send_packet}
use smo_multi_rs.Client.Echo.{is_shine_to, IsChannelOf}
use smo_multi_rs.Client.Laws.{reported_shine, started_speedrun}
use smo_multi_rs.Client.Routes.{goes_fast, send_packet-routes}
use smo_multi_rs.Client.Events.{running, arrivals, is_fatal, handle_events, handle_events-stuck}
use smo_multi_rs.Commands.{Client, Command, packet, default_data}
use smo_multi_rs.Connection.{wrote, finished, received, parse_packet, parse_buffer}
use smo_multi_rs.Coordinator.Delivery.{missing, to_all}
use smo_multi_rs.Coordinator.Handle.{handle_command}
use smo_multi_rs.Coordinator.Invariant.{Inv}
use smo_multi_rs.Coordinator.State.{State, cap_world}
use smo_multi_rs.Errors.{ok, encoding, bad_utf8}
use smo_multi_rs.Guid.{guid_eq, bytes_eq}
use smo_multi_rs.Maps.{contains, has, lookup}
use smo_multi_rs.Packet.{Packet, game, resize, check}
use smo_multi_rs.Packet.Decode.{decode, decode_data, decode_capture}
use smo_multi_rs.Text.{buf_size_to_string}
use smo_multi_rs.Tests.Streams.{bad_buff}
use smo_multi_rs.Packet.Format.{frame}
use smo_multi_rs.Tests.Samples.{
  hero, foe, hero-IsGuid, found, home, idle, hero_client, lobby, all_up,
}
use smo_multi_rs.Udp.{connected, pending}

-- The hero and the foe, who have loaded their saves.
abbrev loaded : State
loaded = record lobby {
  clients = (foe, 2) ∷ (hero, 1) ∷ [];
  to_clients = (foe, 12) ∷ (hero, 11) ∷ [];
  store = λ _. record default_data { loaded_save = true };
}

loaded-Inv : Inv loaded
unfolding has
loaded-Inv = record { same_keys = λ g. refl; room = omega arith; served = tt }

loaded-IsChannelOf : IsChannelOf 11 1 loaded.to_clients loaded.clients
unfolding lookup guid_eq bytes_eq
loaded-IsChannelOf = ((λ h. cc), ((λ h. refl), tt))

reported_shine_example :
    let s' : State = (handle_packet all_up found hero_client loaded).1 in
    let s'' : State = (handle_command all_up (packet found) s').1 in
    (contains (pos 3) s''.shine_bag ≡ true)
    × (contains (pos 3) (missing s''.shine_bag (s''.store 1)) ≡ false)
    × (more : List (ℕ × Command)) × (s''.sent ≡ s'.sent ++ more)
    × All (λ m. is_shine_to 11 (pos 3) m ≡ false) more
reported_shine_example =
    reported_shine all_up (λ _ _. refl) found (pos 3) false hero_client 11 loaded loaded-Inv refl
      refl loaded-IsChannelOf

abbrev enters : Packet
enters = record { id = hero; data_size = 66; payload = game true 0 cap_world }

started_speedrun_example :
    let s' : State = (handle_packet all_up enters hero_client loaded).1 in
    let s'' : State = (handle_command all_up (packet enters) s').1 in
    (s''.shine_bag ≡ [])
    × ((s''.store 1).shine_sync ≡ [])
    × ((s''.store 1).speedrun_start ≡ true)
    × ((s''.store 1).last_game_packet ≡ some enters)
    × (s''.sent ≡ [] ++ ((0, packet enters) ∷ to_all loaded.to_clients (resize enters)))
unfolding lookup guid_eq bytes_eq
started_speedrun_example =
    started_speedrun all_up (λ _ _. refl) enters true hero_client loaded refl refl

send_packet-routes_example :
    (send_packet reference found
        (wrote (length (frame found)) ∷ [])
        (record hero_client { guid = foe; udp_conn = record { buff = []; send_addr = pending 5 } })
      ≡ (finished (ok tt), by_tcp (frame found)))
    × (send_packet reference found (wrote (length (frame found)) ∷ []) (record hero_client {
      guid = foe;
      udp_conn = record { buff = []; send_addr = connected home };
    })
        ≡ (
          finished (ok tt),
          if goes_fast found.payload
              then by_udp (record { bytes = frame found; sender = home } ∷ [])
              else by_tcp (frame found),
        ))
unfolding guid_eq bytes_eq
send_packet-routes_example =
    send_packet-routes reference reference-IsBytes found [] (record hero_client { guid = foe }) [] 5
      home hero-IsGuid (omega arith) refl

-- The hero, whose buffer begins with a packet that does not parse.
abbrev wedged : Client
wedged = record hero_client { conn = record idle { buff = bad_buff } }

handle_events-stuck_example :
    (handle_events all_up reference
        (arrivals reference (((received (1 ∷ []) ∷ [])) ∷ [] ∷ []) wedged.conn)
        wedged
        loaded
      ≡ (running wedged, loaded))
    × (length (arrivals reference (((received (1 ∷ []) ∷ [])) ∷ [] ∷ []) wedged.conn) ≡ 2)
unfolding parse_packet parse_buffer check decode decode_data decode_capture buf_size_to_string
    is_fatal
handle_events-stuck_example =
    handle_events-stuck all_up reference (encoding bad_utf8) ((received (1 ∷ []) ∷ []) ∷ [] ∷ [])
      wedged loaded refl refl refl
