-- ===== src/Connection/Undersized.antt =====
-- A packet that announces too few bytes, on its way through src/net/connection.rs.
use smo_multi_rs.Base.{ℕ, ◌≡◌, ◌<◌, refl, List, [], ◌∷◌, ◌++◌, length, length-append, arith, lt→ltb}
use smo_multi_rs.Bytes.{reference, le_bytes}
use smo_multi_rs.Connection.{
  Connection, SocketRead, received, answered, parse_buffer, parse_packet, read_socket, read_packet,
}
use smo_multi_rs.Connection.Framing.{parse_buffer-partial}
use smo_multi_rs.Errors.{panic}
use smo_multi_rs.Packet.{get_size}
use smo_multi_rs.Packet.Decode.{decode_data, decode_udp_init, skip_padding}
use smo_multi_rs.Packet.Frame.{announced, IsWhole, check-IsWhole, past_id}
use smo_multi_rs.Packet.Header.{decode-header}

-- A `UdpInit` packet with the size `n`.
abbrev pub udp_init_sized : List ℕ → ℕ → ℕ → ℕ → List ℕ
udp_init_sized id n a b = id ++ (le_bytes 2 13 ++ (le_bytes 2 n ++ (a ∷ b ∷ [])))

parse_buffer-panics :
    (id : List ℕ) (n a b : ℕ)
    → length id ≡ 16
    → n < 2
    → (parse_buffer reference (udp_init_sized id n a b)) ≡ (panic, udp_init_sized id n a b)
unfolding parse_buffer decode_data decode_udp_init skip_padding get_size
parse_buffer-panics id n a b sized short =
    let tail : List ℕ = le_bytes 2 13 ++ (le_bytes 2 n ++ (a ∷ b ∷ [])) in
    let size : announced (id ++ tail) ≡ n = rw (past_id id tail sized) (omega arith) in
    let long = length-append id tail in
    rw
      (
        check-IsWhole (id ++ tail) (omega arith),
        decode-header id 13 n sized (omega arith) (omega arith) (a ∷ b ∷ []) (omega arith),
        lt→ltb n 2 short,
      )
      refl

read_packet-parsed_panics :
    (reads : List SocketRead) (c : Connection)
    → parse_buffer reference c.buff ≡ (panic, c.buff)
    → read_packet reference reads c ≡ answered panic c reads
unfolding read_packet parse_packet
read_packet-parsed_panics [] c h = rw h refl
read_packet-parsed_panics (r ∷ reads) c h = rw h refl

-- One read brings the packet to a connection that holds nothing.
pub read_packet-panics :
    (id : List ℕ) (n a b : ℕ) (reads : List SocketRead) (c : Connection)
    → length id ≡ 16
    → n < 2
    → c.buff ≡ []
    → read_packet reference (received (udp_init_sized id n a b) ∷ reads) c
      ≡ answered panic (record c { buff = udp_init_sized id n a b }) reads
unfolding read_packet parse_packet read_socket
read_packet-panics [] n a b reads c sized short empty = absurd (omega (arith, sized))
read_packet-panics (i ∷ id) n a b reads c sized short empty =
    let nothing = parse_buffer-partial [] (λ (w : IsWhole []). omega (arith, w.0)) in
    let c' : Connection = record c { buff = udp_init_sized (i ∷ id) n a b } in
    rw (empty, nothing)
      (read_packet-parsed_panics reads c' (parse_buffer-panics (i ∷ id) n a b sized short))
