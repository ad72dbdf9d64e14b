-- ===== src/Tests/Streams.antt =====
-- The connections of src/net on concrete streams.
use smo_multi_rs.Base.{ℕ, ◌≡◌, ◌<◌, refl, List, [], ◌∷◌, ◌++◌, length, replicate, take, drop, arith}
use smo_multi_rs.Bytes.{reference, le_bytes}
use smo_multi_rs.Bytes.Laws.{reference-IsBytes}
use smo_multi_rs.Connection.{SocketRead, received, wrote, failed, finished, write_packet}
use smo_multi_rs.Connection.Ends.{write_packet-ends}
use smo_multi_rs.Connection.Framing.{read_packets, read_packets-frames}
use smo_multi_rs.Connection.Writes.{write_packet-partial}
use smo_multi_rs.Errors.{udp_not_init, ok, err, panic}
use smo_multi_rs.Packet.Format.{frame, body}
use smo_multi_rs.Packet.{get_type_id}
use smo_multi_rs.Tests.Samples.{
  hero-IsGuid, found, found-IsRegular, left, left-IsRegular, home, idle,
}
use smo_multi_rs.Udp.{
  UdpConnection, connected, pending, Datagram, UdpRead, arrived, recv_failed, is_client_udp,
  set_client_port,
}
use smo_multi_rs.Udp as Udp
use smo_multi_rs.Udp.Framing as Datagrams
use smo_multi_rs.Udp.Framing.{read_packets-datagrams}
use smo_multi_rs.Udp.Laws.{from_sender, write_packet-status}

-- A read that ends in the middle of the first packet, and one for the rest.
abbrev cut_reads : List SocketRead
cut_reads = received (take 7 (frame found)) ∷ received (drop 7 (frame found) ++ frame left) ∷ []

read_packets-frames_example : read_packets reference 3 cut_reads idle ≡ found ∷ left ∷ []
unfolding frame body get_type_id
read_packets-frames_example =
    read_packets-frames reference reference-IsBytes (found ∷ left ∷ []) 3 cut_reads idle
      (omega arith) (found-IsRegular, (left-IsRegular, tt)) (tt, (tt, tt)) refl

-- A `Capture` packet whose name has a byte that no UTF-8 text has.
abbrev bad_name : List ℕ
bad_name = 255 ∷ replicate 31 0

abbrev pub bad_buff : List ℕ
bad_buff = replicate 16 7 ++ (le_bytes 2 10 ++ (le_bytes 2 32 ++ (bad_name ++ [])))

write_packet-partial_example :
    (write_packet reference found (wrote 3 ∷ wrote (length (frame found)) ∷ [])
      ≡ (finished (ok tt), take 3 (frame found) ++ frame found))
    × (length (frame found) < length (take 3 (frame found) ++ frame found))
unfolding frame body get_type_id
write_packet-partial_example =
    write_packet-partial reference reference-IsBytes found 3 [] (omega arith) (omega arith)

-- Each write takes one byte.
write_packet-ends_example :
    (sent : List ℕ) × (write_packet reference found (replicate 25 (wrote 1))
      ≡ (finished (ok tt), sent))
unfolding frame body get_type_id
write_packet-ends_example =
    write_packet-ends reference reference-IsBytes found (replicate 25 (wrote 1)) hero-IsGuid
      (omega arith) (omega arith) (omega arith)

write_packet-status_example :
    (Udp.write_packet reference found [] (record { buff = []; send_addr = pending 5 })
      ≡ (finished (err udp_not_init), []))
    × (Udp.write_packet reference found
          (wrote (length (frame found)) ∷ [])
          (record { buff = []; send_addr = connected home })
        ≡ (finished (ok tt), record { bytes = frame found; sender = home } ∷ []))
    × (Udp.write_packet reference found
          (failed ∷ [])
          (record { buff = []; send_addr = connected home })
        ≡ (finished panic, []))
write_packet-status_example =
    write_packet-status reference reference-IsBytes found [] 5 home [] hero-IsGuid (omega arith)

-- The client's two packets in three datagrams, the first one cut, with one from elsewhere between.
abbrev cut_datagrams : List UdpRead
cut_datagrams =
    arrived (record { bytes = take 7 (frame found); sender = home })
    ∷ arrived (record { bytes = frame left; sender = record home { ip = 6 } })
    ∷ arrived (record { bytes = drop 7 (frame found) ++ frame left; sender = home })
    ∷ []

read_packets-datagrams_example :
    Datagrams.read_packets reference 3 cut_datagrams
      (record { buff = []; send_addr = connected home })
    ≡ found ∷ left ∷ []
unfolding frame body get_type_id from_sender
read_packets-datagrams_example =
    read_packets-datagrams reference reference-IsBytes (found ∷ left ∷ []) 3 cut_datagrams home []
      (omega arith) (found-IsRegular, (left-IsRegular, tt)) (tt, (tt, (tt, tt))) refl
