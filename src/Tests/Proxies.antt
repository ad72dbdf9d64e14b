-- ===== src/Tests/Proxies.antt =====
-- The proxy on a few packets.
use smo_multi_rs.Base.{◌≡◌, List, [], ◌∷◌, arith, map}
use smo_multi_rs.Bytes.{reference}
use smo_multi_rs.Bytes.Laws.{reference-IsBytes}
use smo_multi_rs.Packet.{Packet, udp_init, get_size}
use smo_multi_rs.Packet.Relay.{IsPassable}
use smo_multi_rs.Proxy.{server, cli, serv, running, proxy_loop}
use smo_multi_rs.Proxy.Crossings.{Read, event, deliveries, peer_at_end}
use smo_multi_rs.Proxy.Relaying.{proxy_loop-delivers}
use smo_multi_rs.Tests.Samples.{hero, hero-IsGuid, found, left, home}
use smo_multi_rs.Udp.{connected}

abbrev port_told : Packet
port_told = record { id = hero; data_size = 2; payload = udp_init 51888 }

abbrev reads : List Read
reads = (cli, found) ∷ (serv, port_told) ∷ (serv, left) ∷ []

found-IsPassable : IsPassable found
unfolding get_size
found-IsPassable = record {
  guid = hero-IsGuid;
  readable = record { small = omega arith; fits = omega arith; canonical = tt };
}

port_told-IsPassable : IsPassable port_told
unfolding get_size
port_told-IsPassable = record {
  guid = hero-IsGuid;
  readable = record { small = omega arith; fits = omega arith; canonical = tt };
}

left-IsPassable : IsPassable left
unfolding get_size
left-IsPassable = record {
  guid = hero-IsGuid;
  readable = record { small = omega arith; fits = tt; canonical = tt };
}

proxy_loop-delivers_example :
    proxy_loop reference server 55446
      (map (event 55446) reads)
      (record { buff = []; send_addr = connected home })
    ≡ (
      running (record { buff = []; send_addr = connected (peer_at_end home reads) }),
      deliveries server 55446 home reads,
    )
proxy_loop-delivers_example =
    proxy_loop-delivers reference reference-IsBytes server 55446 reads [] home (omega arith)
      (found-IsPassable, (port_told-IsPassable, (left-IsPassable, tt)))
