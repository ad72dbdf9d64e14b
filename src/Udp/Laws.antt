-- ===== src/Udp/Laws.antt =====
-- The address and the buffer of a UDP connection (src/net/udp_conn.rs).
use smo_multi_rs.Base.{
  ℕ, ◌≡◌, ◌<◌, ◌≤◌, ◌+◌, refl, List, [], ◌∷◌, ◌++◌, ◌∙◌, true, Option, some, none, take, take_all,
  length, if◌then◌else◌, Bool-cases, inl, inr, arith, lt→ltb, ge→ltb,
}
use mathlib.Core.List.{append_assoc, append-nil}
use smo_multi_rs.Bytes.{Bytes, IsBytes}
use smo_multi_rs.Bytes.Laws.{by_reference}
use smo_multi_rs.Connection.{SocketAddr, SocketWrite, wrote, failed, finished}
use smo_multi_rs.Errors.{udp_not_init, ok, err, panic}
use smo_multi_rs.Guid.{IsGuid}
use smo_multi_rs.Packet.{Packet}
use smo_multi_rs.Packet.Format.{frame, encode-eq}
use smo_multi_rs.Packet.Size.{length-frame}
use smo_multi_rs.Packet.Typed.{Fits}
use smo_multi_rs.Udp.{
  UdpConnection, connected, pending, status_ip, is_client_udp, set_client_port, UdpRead, arrived,
  recv_failed, addr_eq, read_socket, send_loop, write_packet,
}

-- After `set_client_port` the client is reached by UDP, at that port and at the address that it had
-- before; the buffer is kept.
pub set_client_port_lem :
    (port : ℕ) (c : UdpConnection)
    → (is_client_udp (set_client_port port c) ≡ true)
      × ((set_client_port port c).send_addr
          ≡ connected (record { ip = status_ip c.send_addr; port = port }))
      × ((set_client_port port c).buff ≡ c.buff)
unfolding set_client_port is_client_udp
set_client_port_lem port c = (refl, refl, refl)

-- The calls of `read_socket` on what arrives in order; `none` if one does not return.
unfoldable pub read_all : List UdpRead → UdpConnection → Option UdpConnection
read_all [] c = some c
read_all (r ∷ rs) c = elim (read_socket r c) [ none ↦ none | some (_, c') ↦ read_all rs c' ]

-- The bytes that the expected sender sent, up to 100 of each datagram.
unfoldable pub from_sender : SocketAddr → List UdpRead → List ℕ
from_sender a [] = []
from_sender a (recv_failed ∷ rs) = from_sender a rs
from_sender a (arrived d ∷ rs) =
    if addr_eq d.sender a then take 100 d.bytes ++ from_sender a rs else from_sender a rs

-- However many datagrams arrive and whoever sends them, the buffer of a connected client grows by
-- exactly the bytes of its own peer, up to 100 of each datagram.
pub read_all-connected :
    (rs : List UdpRead) (buff : List ℕ) (a : SocketAddr)
    → read_all rs (record { buff = buff; send_addr = connected a })
      ≡ some (record { buff = buff ++ from_sender a rs; send_addr = connected a })
unfolding read_all from_sender read_socket
read_all-connected [] buff a = rw append-nil
read_all-connected (recv_failed ∷ rs) buff a = read_all-connected rs buff a
read_all-connected (arrived d ∷ rs) buff a = elim (Bool-cases (addr_eq d.sender a)) [
  | inl own ↦ rw own (
      read_all-connected rs (buff ++ take 100 d.bytes) a
      ∙ rw (append_assoc buff (take 100 d.bytes) (from_sender a rs)))
  | inr foreign ↦ rw foreign (read_all-connected rs buff a)
]

send_loop-done :
    (a : SocketAddr) (buff : List ℕ) (amount : ℕ) (writes : List SocketWrite)
    → length buff ≤ amount
    → send_loop a buff amount writes ≡ (finished (ok tt), [])
unfolding send_loop
send_loop-done a buff amount [] h = rw (ge→ltb amount (length buff) h)
send_loop-done a buff amount (failed ∷ writes) h = rw (ge→ltb amount (length buff) h)
send_loop-done a buff amount (wrote n ∷ writes) h = rw (ge→ltb amount (length buff) h)

send_loop-whole :
    (a : SocketAddr) (buff : List ℕ) (writes : List SocketWrite)
    → 0 < length buff
    → send_loop a buff 0 (wrote (length buff) ∷ writes)
      ≡ (finished (ok tt), record { bytes = buff; sender = a } ∷ [])
unfolding send_loop
send_loop-whole a buff writes h = rw (
  lt→ltb 0 (length buff) h,
  send_loop-done a buff (0 + length buff) writes (omega arith),
  take_all buff,
)

send_loop-failed :
    (a : SocketAddr) (buff : List ℕ) (writes : List SocketWrite)
    → 0 < length buff
    → send_loop a buff 0 (failed ∷ writes) ≡ (finished panic, [])
unfolding send_loop
send_loop-failed a buff writes h = rw (lt→ltb 0 (length buff) h)

-- Let the packet's fields be in the ranges of their types. A pending connection sends nothing,
-- and the call fails. A connected one, where the socket takes the datagram, sends exactly one,
-- with the whole frame, to the client's address; where the socket fails, the call panics.
pub write_packet-status :
    (io : Bytes)
    → IsBytes io
    → (p : Packet) (buff : List ℕ) (ip : ℕ) (a : SocketAddr) (writes : List SocketWrite)
    → IsGuid p.id
    → Fits p.payload
    → (write_packet io p writes (record { buff = buff; send_addr = pending ip })
        ≡ (finished (err udp_not_init), []))
      × (write_packet io p
            (wrote (length (frame p)) ∷ writes)
            (record { buff = buff; send_addr = connected a })
          ≡ (finished (ok tt), record { bytes = frame p; sender = a } ∷ []))
      × (write_packet io p (failed ∷ writes) (record { buff = buff; send_addr = connected a })
          ≡ (finished panic, []))
write_packet-status io h p buff ip a writes g fits =
    by_reference
      (λ io.
        (write_packet io p writes (record { buff = buff; send_addr = pending ip })
          ≡ (finished (err udp_not_init), []))
        × (write_packet io p (wrote (length (frame p)) ∷ writes)
              (record { buff = buff; send_addr = connected a })
            ≡ (finished (ok tt), record { bytes = frame p; sender = a } ∷ []))
        × (write_packet io p (failed ∷ writes) (record { buff = buff; send_addr = connected a })
            ≡ (finished panic, [])))
      io h
      (unfold write_packet in
        (
          refl,
          rw (encode-eq p []) (send_loop-whole a (frame p) writes some_bytes),
          rw (encode-eq p []) (send_loop-failed a (frame p) writes some_bytes),
        ))
  where
    some_bytes : 0 < length (frame p)
    some_bytes = omega (arith, length-frame p g.sized fits)
