-- ===== src/Udp.antt =====
-- src/net/udp_conn.rs: the UDP side of a client. A datagram that arrives is a parameter of the call.
pub mod Framing
pub mod Laws
use smo_multi_rs.Base.{
  ℕ, zero, suc, ◌+◌, ◌≡◌, List, [], ◌∷◌, ◌++◌, Bool, true, false, Option, none, some, ltb, ◌==◌,
  ◌&&◌, if◌then◌else◌, length, take,
}
use smo_multi_rs.Bytes.{Bytes}
use smo_multi_rs.Connection.{
  SocketAddr, SocketWrite, wrote, failed, WriteEnd, finished, writing, parse_buffer,
}
use smo_multi_rs.Errors.{
  SmoError, Outcome, encoding, io, udp_not_init, ok, err, panic, EncodingError,
}
use smo_multi_rs.Packet.{Packet}
use smo_multi_rs.Packet.Encode.{encode}

pub data UdpSenderStatus : Type 0 where
  pending : (ip : ℕ) → UdpSenderStatus
  connected : SocketAddr → UdpSenderStatus

-- The socket itself is left out.
pub record UdpConnection : Type 0 where
  pub buff : List ℕ
  pub send_addr : UdpSenderStatus

-- `UdpConnection::new`
unfoldable pub new : ℕ → UdpConnection
new addr = record { buff = []; send_addr = pending addr }

-- `UdpConnection::from_connection`
unfoldable pub from_connection : SocketAddr → UdpConnection
from_connection addr = record { buff = []; send_addr = connected addr }

unfoldable pub parse_packet :
    Bytes → UdpConnection → Outcome SmoError (Option Packet) × UdpConnection
parse_packet b c = let (answer, buff) = parse_buffer b c.buff in (answer, record c { buff = buff })

is_connected : UdpSenderStatus → Bool
is_connected (connected addr) = true
is_connected (pending ip) = false

unfoldable pub is_client_udp : UdpConnection → Bool
unfolding is_connected
is_client_udp c = is_connected c.send_addr

abbrev pub status_ip : UdpSenderStatus → ℕ
status_ip (pending ip) = ip
status_ip (connected addr) = addr.ip

unfoldable pub set_client_port : ℕ → UdpConnection → UdpConnection
set_client_port port c = record c {
  send_addr = connected (record { ip = status_ip c.send_addr; port = port });
}

pub record Datagram : Type 0 where
  pub bytes : List ℕ
  pub sender : SocketAddr

-- The derived `PartialEq`.
abbrev pub addr_eq : SocketAddr → SocketAddr → Bool
addr_eq a b = a.ip == b.ip && a.port == b.port

-- What one `recv_from` of the socket brings.
pub data UdpRead : Type 0 where
  arrived : Datagram → UdpRead
  recv_failed : UdpRead

-- The call takes the datagram's first 100 bytes, and keeps those of the expected sender.
received_from : SocketAddr → UdpRead → UdpConnection → Outcome SmoError (Unit {0}) × UdpConnection
received_from expected recv_failed c = (err io, c)
received_from expected (arrived d) c =
    (ok tt, if addr_eq d.sender expected then record c { buff = c.buff ++ take 100 d.bytes } else c)

-- While the connection is pending the call does not return.
by_status :
    UdpSenderStatus → UdpRead → UdpConnection → Option (Outcome SmoError (Unit {0}) × UdpConnection)
unfolding received_from
by_status (pending ip) r c = none
by_status (connected expected) r c = some (received_from expected r c)

unfoldable pub read_socket :
    UdpRead → UdpConnection → Option (Outcome SmoError (Unit {0}) × UdpConnection)
unfolding by_status
read_socket r c = by_status c.send_addr r c

-- The end of the loop in `read_packet`: an answer with the connection and the reads that are left,
-- or the task waits, for the next read or for ever.
pub data UdpEnd : Type 0 where
  answered : Outcome SmoError Packet → UdpConnection → List UdpRead → UdpEnd
  waiting : UdpConnection → UdpEnd

turn :
    List UdpRead
    → (UdpConnection → UdpEnd)
    → Outcome SmoError (Option Packet) × UdpConnection
    → UdpEnd
turn reads more (ok (some p), c) = answered (ok p) c reads
turn reads more (err e, c) = answered (err e) c reads
turn reads more (panic, c) = answered panic c reads
turn reads more (ok none, c) = more c

after_read :
    List UdpRead
    → (UdpConnection → UdpEnd)
    → UdpConnection
    → Option (Outcome SmoError (Unit {0}) × UdpConnection)
    → UdpEnd
after_read reads more c none = waiting c
after_read reads more c (some (ok _, c')) = more c'
after_read reads more c (some (err e, c')) = answered (err e) c' reads
after_read reads more c (some (panic, c')) = answered panic c' reads

unfoldable pub read_packet : Bytes → List UdpRead → UdpConnection → UdpEnd
unfolding turn after_read parse_packet read_socket
read_packet b [] c = turn [] waiting (parse_packet b c)
read_packet b (r ∷ reads) c =
    turn (r ∷ reads) (λ c'. after_read reads (read_packet b reads) c' (read_socket r c'))
      (parse_packet b c)

-- A datagram that goes out, before those of the rest of the loop.
after_send : Datagram → WriteEnd × List Datagram → WriteEnd × List Datagram
after_send d (end, sent) = (end, d ∷ sent)

-- `while amount < buff.len()`: each `send_to` is offered the whole buffer, and its error is
-- unwrapped. In what is sent, `sender` is the address that it is sent to.
unfoldable pub send_loop : SocketAddr → List ℕ → ℕ → List SocketWrite → WriteEnd × List Datagram
unfolding after_send
send_loop addr buff amount [] = (if ltb amount (length buff) then writing else finished (ok tt), [])
send_loop addr buff amount (failed ∷ writes) =
    (finished (if ltb amount (length buff) then panic else ok tt), [])
send_loop addr buff amount (wrote n ∷ writes) =
    let rest =
      after_send (record { bytes = take n buff; sender = addr })
        (send_loop addr buff (amount + n) writes) in
    if ltb amount (length buff) then rest else (finished (ok tt), [])

encoded :
    SocketAddr
    → List SocketWrite
    → Outcome EncodingError (Unit {0} × List ℕ)
    → WriteEnd × List Datagram
unfolding send_loop
encoded addr writes (ok (_, buff)) = send_loop addr buff 0 writes
encoded addr writes (err e) = (finished (err (encoding e)), [])
encoded addr writes panic = (finished panic, [])

send_by : Bytes → Packet → List SocketWrite → UdpSenderStatus → WriteEnd × List Datagram
unfolding encoded
send_by b p writes (pending ip) = (finished (err udp_not_init), [])
send_by b p writes (connected addr) = encoded addr writes (encode b p [])

unfoldable pub write_packet :
    Bytes → Packet → List SocketWrite → UdpConnection → WriteEnd × List Datagram
unfolding send_by
write_packet b p writes c = send_by b p writes c.send_addr
