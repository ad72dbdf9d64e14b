-- ===== src/Udp/Framing.antt =====
-- Packets out of a client's datagrams (src/net/udp_conn.rs), however the frames are cut into
-- datagrams and whoever else sends some.
use mathlib.Core.List.{append_assoc, append-nil}
use smo_multi_rs.Base.{
  ℕ, suc, zero, ◌≡◌, ◌≤◌, refl, List, [], ◌∷◌, ◌++◌, arith, length, length-append, ◌∙◌, sym, ap,
  append-split, concat, All, map, Bool-cases, inl, inr, take,
}
use native.Mathlib.Decide.{dec_lt}
use smo_multi_rs.Bytes.{Bytes, IsBytes, reference}
use smo_multi_rs.Bytes.Laws.{by_reference}
use smo_multi_rs.Connection.{SocketAddr}
use smo_multi_rs.Connection.Framing.{parse_buffer-frame, parse_buffer-partial, frame-prefix}
use smo_multi_rs.Errors.{ok, err, panic}
use smo_multi_rs.Packet.{Packet}
use smo_multi_rs.Packet.Format.{frame}
use smo_multi_rs.Packet.Frame.{IsWhole}
use smo_multi_rs.Packet.Typed.{IsRegular}
use smo_multi_rs.Udp.{
  UdpConnection, connected, UdpRead, arrived, recv_failed, addr_eq, UdpEnd, answered, waiting,
  parse_packet, read_socket, read_packet,
}
use smo_multi_rs.Udp.Laws.{from_sender}

-- The connection of the client at `a`, with the bytes that it holds.
abbrev pub at : SocketAddr → List ℕ → UdpConnection
at a buff = record { buff = buff; send_addr = connected a }

-- A `recv_from` that succeeds.
abbrev pub IsArrived : UdpRead → Type 0
IsArrived (arrived d) = Unit {0}
IsArrived recv_failed = ⊥

-- `read_packet` answers with `p`, and leaves exactly `rest` in its buffer and the datagrams to come.
abbrev Brings : List UdpRead → SocketAddr → List ℕ → Packet → List ℕ → Type 0
Brings reads a buff p rest =
    (buff' : List ℕ) × (reads' : List UdpRead) × (read_packet reference reads (at a buff)
      ≡ answered (ok p) (at a buff') reads')
    × (buff' ++ from_sender a reads' ≡ rest)
    × All IsArrived reads'

read_packet-buffered :
    (reads : List UdpRead) (a : SocketAddr) (buff : List ℕ) (p : Packet) (rest : List ℕ)
    → IsRegular p
    → All IsArrived reads
    → buff ++ from_sender a reads ≡ frame p ++ rest
    → length (frame p) ≤ length buff
    → Brings reads a buff p rest
unfolding read_packet parse_packet from_sender
read_packet-buffered [] a buff p rest r d e h =
    let (t, q, s) = append-split buff (from_sender a []) (frame p) rest e h in
    (t, [], rw (q, parse_buffer-frame p t r), s, tt)
read_packet-buffered (x ∷ reads) a buff p rest r d e h =
    let (t, q, s) = append-split buff (from_sender a (x ∷ reads)) (frame p) rest e h in
    (t, x ∷ reads, rw (q, parse_buffer-frame p t r), s, d)

-- With less than a packet in the buffer the loop takes the next datagram.
read_packet-cut :
    (x : UdpRead) (reads : List UdpRead) (a : SocketAddr) (buff : List ℕ)
    → ¬ IsWhole buff
    → (buff' : List ℕ) × ((IsArrived x)
        → read_packet reference (x ∷ reads) (at a buff) ≡ read_packet reference reads (at a buff'))
      × (buff ++ from_sender a (x ∷ reads) ≡ buff' ++ from_sender a reads)
unfolding read_packet parse_packet from_sender read_socket
read_packet-cut recv_failed reads a buff cut = (buff, λ h. absurd h, refl)
read_packet-cut (arrived d) reads a buff cut = elim (Bool-cases (addr_eq d.sender a)) [
  | inl own ↦ (
    buff ++ take 100 d.bytes,
    λ _. rw (parse_buffer-partial buff cut, own) refl,
    rw own (sym (append_assoc buff (take 100 d.bytes) (from_sender a reads))),
  )
  | inr foreign ↦ (buff, λ _. rw (parse_buffer-partial buff cut, foreign) refl, rw foreign refl)
]

read_packet-frame :
    (reads : List UdpRead) (a : SocketAddr) (buff : List ℕ) (p : Packet) (rest : List ℕ)
    → IsRegular p
    → All IsArrived reads
    → buff ++ from_sender a reads ≡ frame p ++ rest
    → Brings reads a buff p rest
read_packet-frame [] a buff p rest r d e = read_packet-buffered [] a buff p rest r d e (
    unfold from_sender in
    (omega (arith, ap length e, length-append buff [], length-append (frame p) rest)))
read_packet-frame (x ∷ reads) a buff p rest r d e = elim (dec_lt (length buff) (length (frame p))) [
  | no long ↦ read_packet-buffered (x ∷ reads) a buff p rest r d e (omega arith)
  | yes short ↦
      let cut = frame-prefix p rest buff (from_sender a (x ∷ reads)) r e short in
      let (buff', next, same) = read_packet-cut x reads a buff cut in
      let (left, reads', answer, s, d') =
        read_packet-frame reads a buff' p rest r d.1 (sym same ∙ e) in
      (left, reads', next d.0 ∙ answer, s, d')
]

-- The packets that at most `n` calls of `read_packet` bring, up to the first call that does not.
next_packets : (List UdpRead → UdpConnection → List Packet) → UdpEnd → List Packet
next_packets more (answered (ok p) c reads) = p ∷ more reads c
next_packets more (answered (err e) c reads) = []
next_packets more (answered panic c reads) = []
next_packets more (waiting c) = []

pub read_packets : Bytes → ℕ → List UdpRead → UdpConnection → List Packet
unfolding next_packets
read_packets b zero reads c = []
read_packets b (suc n) reads c = next_packets (read_packets b n) (read_packet b reads c)

no_bytes : (buff : List ℕ) → buff ≡ [] → ¬ IsWhole buff
no_bytes buff empty w = omega (arith, ap length empty)

append-empty : (xs ys : List ℕ) → xs ++ ys ≡ [] → xs ≡ []
append-empty [] ys e = refl
append-empty (x ∷ xs) ys e = absurd (omega (arith, ap length e))

-- Without further bytes of the client the call does not return.
read_packet-nothing :
    (reads : List UdpRead) (a : SocketAddr) (buff : List ℕ)
    → All IsArrived reads
    → buff ++ from_sender a reads ≡ []
    → (c : UdpConnection) × (read_packet reference reads (at a buff) ≡ waiting c)
unfolding read_packet parse_packet from_sender
read_packet-nothing [] a buff d e =
    let empty : buff ≡ [] = sym (append-nil buff) ∙ e in
    (at a buff, rw (parse_buffer-partial buff (no_bytes buff empty)) refl)
read_packet-nothing (x ∷ reads) a buff d e =
    let cut = no_bytes buff (append-empty buff (from_sender a (x ∷ reads)) e) in
    let (buff', next, same) = read_packet-cut x reads a buff cut in
    let (c, waits) = read_packet-nothing reads a buff' d.1 (sym same ∙ e) in (c, next d.0 ∙ waits)

read_packets-stream :
    (ps : List Packet) (n : ℕ) (reads : List UdpRead) (a : SocketAddr) (buff : List ℕ)
    → length ps ≤ n
    → All IsRegular ps
    → All IsArrived reads
    → buff ++ from_sender a reads ≡ concat (map frame ps)
    → read_packets reference n reads (at a buff) ≡ ps
unfolding read_packets
read_packets-stream [] zero reads a buff h r d e = refl
read_packets-stream [] (suc n) reads a buff h r d e =
    let (c, waits) = read_packet-nothing reads a buff d e in rw waits refl
read_packets-stream (p ∷ ps) zero reads a buff h r d e = absurd (omega arith)
read_packets-stream (p ∷ ps) (suc n) reads a buff h r d e =
    let (buff', reads', answer, left, d') =
      read_packet-frame reads a buff p (concat (map frame ps)) r.0 d e in
    rw answer (ap (◌∷◌ p) (read_packets-stream ps n reads' a buff' (omega arith) r.1 d' left))

-- Let no `recv_from` fail, and let the buffered bytes and the first 100 bytes of each datagram
-- that the client of a connected address sends make up the frames of regular packets. Then `n`
-- calls of `read_packet`, with `n` at least the number of packets, bring exactly these packets in
-- order, wherever the datagrams cut the frames and whatever other senders send in between.
pub read_packets-datagrams :
    (io : Bytes)
    → IsBytes io
    → (ps : List Packet) (n : ℕ) (reads : List UdpRead) (a : SocketAddr) (buff : List ℕ)
    → length ps ≤ n
    → All IsRegular ps
    → All IsArrived reads
    → buff ++ from_sender a reads ≡ concat (map frame ps)
    → read_packets io n reads (record { buff = buff; send_addr = connected a }) ≡ ps
read_packets-datagrams io h ps n reads a buff enough r d e =
    by_reference (λ io. read_packets io n reads (at a buff) ≡ ps) io h
      (read_packets-stream ps n reads a buff enough r d e)
