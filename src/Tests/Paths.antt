-- ===== src/Tests/Paths.antt =====
-- A packet, a player that comes back, a packet that ends the server, and a settings file.
use smo_multi_rs.Base.{
  ◌≡◌, refl, List, [], ◌∷◌, ◌++◌, true, false, length, arith, some, none, if◌then◌else◌,
}
use smo_multi_rs.Bytes.{reference}
use smo_multi_rs.Bytes.Laws.{reference-IsBytes}
use smo_multi_rs.Client as Client
use smo_multi_rs.Client.{nothing}
use smo_multi_rs.Client.Events.{arrivals, from_server, ended, handle_events}
use smo_multi_rs.Commands.{Client, packet, ServerCommand, server, new_player}
use smo_multi_rs.Connection.{answered, read_packet, received, wrote, finished, SocketRead}
use smo_multi_rs.Coordinator.Delivery.{sending, to_all}
use smo_multi_rs.Coordinator.Players.{refusal, is_banned, is_banned_ip}
use smo_multi_rs.Coordinator.Handle.{handle_command}
use smo_multi_rs.Coordinator.State.{State}
use smo_multi_rs.Errors.{ok, panic}
use smo_multi_rs.Guid.{bytes_eq, guid_eq}
use smo_multi_rs.Maps.{lookup, has, remove}
use smo_multi_rs.Packet.{Packet, get_size, capture, resize}
use smo_multi_rs.Packet.Decode.{decode}
use smo_multi_rs.Packet.Relay.{IsPassable}
use smo_multi_rs.Packet.Format.{frame}
use smo_multi_rs.Packet.Typed.{unread}
use smo_multi_rs.Server.{Json}
use smo_multi_rs.Settings.{default_settings, codes}
use smo_multi_rs.Text.{utf8_run, trim_nul}
use smo_multi_rs.System.Crash.{panic_hook, exited, handle_events-crash}
use smo_multi_rs.Connection.Undersized.{udp_init_sized}
use smo_multi_rs.System.Reconnect.{bye, reconnect_evicts}
use smo_multi_rs.System.Relayed.{noted, delivery, relayed}
use smo_multi_rs.Udp.{connected}
use smo_multi_rs.Tests.Samples.{
  idle, foe, lobby, hero, hero_client, hero-IsGuid, home, joins, all_up,
}

-- The hero captures an enemy.
abbrev captures : Packet
captures = record { id = hero; data_size = 33; payload = capture (codes "Frog") }

captures-IsPassable : IsPassable captures
unfolding get_size utf8_run trim_nul
captures-IsPassable = record {
  guid = hero-IsGuid;
  readable = record {
    small = omega arith;
    fits = omega arith;
    canonical = record { fits = omega arith; valid = refl; trimmed = refl };
  };
}

-- The foe's client, which UDP reaches.
abbrev foe_client : Client
foe_client = record hero_client {
  guid = foe;
  cell = 2;
  from_server = 12;
  udp_conn = record { buff = []; send_addr = connected home };
}

relayed_example :
    let q : Packet = resize captures in
    let (r, s') = Client.handle_packet all_up captures hero_client lobby in
    (r ≡ ok hero_client)
    × (handle_command all_up (packet captures) s' ≡ (
      ok true,
      sending
          (record lobby { store = noted captures.payload captures 1 lobby.store })
          ((0, packet captures) ∷ to_all lobby.to_clients q),
    ))
    × (Client.handle_command reference (packet q) (wrote (length (frame q)) ∷ []) foe_client ≡ (
      (finished (ok tt), if guid_eq hero foe then nothing else delivery (connected home) q),
      foe_client,
    ))
    × (decode reference (frame q ++ []) ≡ ok (q, unread captures.payload ++ []))
relayed_example =
    relayed all_up (λ n channel. refl) reference reference-IsBytes captures hero_client lobby
      foe_client [] [] captures-IsPassable refl

-- The foe's client connects once more, with the new channel 13, while its former task runs.
abbrev foe_again : Packet
foe_again = record joins { id = foe }

reconnect_evicts_example :
    let s' : State =
      (handle_command all_up (server (new_player foe_client foe_again 13)) lobby).1 in
    let (left, s'') = handle_events all_up reference ((from_server none, []) ∷ []) foe_client s' in
    let t : State = (handle_command all_up (server (ServerCommand.disconnect_player foe)) s'').1 in
    (lookup foe s'.to_clients ≡ some 13)
    × (left ≡ ended (ok tt))
    × (s'' ≡ sending s' ((0, server (ServerCommand.disconnect_player foe)) ∷ []))
    × (has foe t.clients ≡ false)
    × (has foe t.to_clients ≡ false)
    × (t.sent
        ≡ s''.sent
          ++ (to_all (remove foe s''.to_clients) (bye foe) ++ ((13, packet (bye foe)) ∷ [])))
    × ((handle_events all_up reference
          ((from_server (some (packet (bye foe))), []) ∷ [])
          foe_client
          t).0
        ≡ ended (ok tt))
unfolding refusal is_banned is_banned_ip
reconnect_evicts_example =
    reconnect_evicts all_up (λ n channel. refl) reference foe_client foe_client foe_again 13 lobby
      [] refl refl refl

-- A reader that knows one text, which the writer writes for all settings.
abbrev one_text : Json
one_text = record {
  from_reader = λ bytes. if bytes_eq bytes (codes "{}") then some default_settings else none;
  to_writer_pretty = λ settings. (codes "{}", true);
}

-- A `UdpInit` packet that announces one byte.
handle_events-crash_example :
    let brought : List SocketRead = received (udp_init_sized hero.id 1 255 255) ∷ [] in
    (read_packet reference brought idle
      ≡ answered panic (record idle { buff = udp_init_sized hero.id 1 255 255 }) [])
    × (panic_hook
          (handle_events all_up reference
            (arrivals reference (brought ∷ []) idle)
            hero_client
            lobby).0
        ≡ exited 1)
handle_events-crash_example =
    handle_events-crash all_up reference reference-IsBytes hero.id 1 255 255 [] [] hero_client lobby
      refl (omega arith) refl
