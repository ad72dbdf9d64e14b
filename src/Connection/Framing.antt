-- ===== src/Connection/Framing.antt =====
-- Packets out of a byte stream (src/net/connection.rs), however the stream is cut into reads.
use mathlib.Core.List.{append_assoc, append-nil}
use smo_multi_rs.Base.{
  ℕ, suc, zero, ◌≡◌, ◌<◌, ◌≤◌, refl, List, [], ◌∷◌, ◌++◌, arith, length, length-append, ◌∙◌, sym,
  ap, none, some, append-split, concat, All, map,
}
use native.Mathlib.Decide.{dec_lt}
use smo_multi_rs.Bytes.{Bytes, IsBytes, reference}
use smo_multi_rs.Bytes.Laws.{by_reference, next_bytes-append}
use smo_multi_rs.Connection.{
  Connection, SocketRead, received, broken, ReadEnd, answered, waiting, parse_buffer, read_packet,
}
use smo_multi_rs.Errors.{ok, err, panic}
use smo_multi_rs.Packet.{Packet}
use smo_multi_rs.Packet.Format.{frame}
use smo_multi_rs.Packet.Frame.{
  announced, IsWhole, check-partial, check-frame, decode-frame, announced-append, announced-frame,
  length-frame_regular,
}
use smo_multi_rs.Packet.Typed.{IsRegular}

-- A whole packet is taken off the front of the buffer, also where `decode` reads less than all of
-- its bytes.
pub parse_buffer-frame :
    (p : Packet) (rest : List ℕ)
    → IsRegular p
    → parse_buffer reference (frame p ++ rest) ≡ (ok (some p), rest)
unfolding parse_buffer
parse_buffer-frame p rest r =
    rw (check-frame p rest r, decode-frame p rest r, next_bytes-append (frame p) rest)

-- A buffer without a whole packet is left alone.
pub parse_buffer-partial :
    (buff : List ℕ) → ¬ IsWhole buff → parse_buffer reference buff ≡ (ok none, buff)
unfolding parse_buffer
parse_buffer-partial buff cut = rw (check-partial buff cut)

-- A beginning of a packet is not a whole packet.
pub frame-prefix :
    (p : Packet) (rest buff back : List ℕ)
    → IsRegular p
    → buff ++ back ≡ frame p ++ rest
    → length buff < length (frame p)
    → ¬ IsWhole buff
frame-prefix p rest buff back r e short (h, enough) = omega (
  arith,
  announced-append buff back h,
  ap announced e,
  announced-frame p rest r.guid.sized r.small,
  length-frame_regular p r,
)

-- The bytes that the reads bring.
abbrev pub stream : List SocketRead → List ℕ
stream [] = []
stream (received bs ∷ reads) = bs ++ stream reads
stream (broken ∷ reads) = stream reads

-- A read that brings at least a byte.
abbrev pub IsData : SocketRead → Type 0
IsData (received (b ∷ bs)) = Unit {0}
IsData (received []) = ⊥
IsData broken = ⊥

-- `read_packet` answers with `p`, and leaves exactly `rest` in its buffer and the reads to come.
abbrev pub Brings : List SocketRead → Connection → Packet → List ℕ → Type 0
Brings reads c p rest =
    (buff : List ℕ) × (reads' : List SocketRead) × (read_packet reference reads c
      ≡ answered (ok p) (record c { buff = buff }) reads')
    × (buff ++ stream reads' ≡ rest)
    × All IsData reads'

read_packet-buffered :
    (reads : List SocketRead) (c : Connection) (p : Packet) (rest : List ℕ)
    → IsRegular p
    → All IsData reads
    → c.buff ++ stream reads ≡ frame p ++ rest
    → length (frame p) ≤ length c.buff
    → Brings reads c p rest
unfolding read_packet
read_packet-buffered [] c p rest r d e h =
    let (t, q, s) = append-split c.buff [] (frame p) rest e h in
    (t, [], rw (q, parse_buffer-frame p t r), s, tt)
read_packet-buffered (x ∷ reads) c p rest r d e h =
    let (t, q, s) = append-split c.buff (stream (x ∷ reads)) (frame p) rest e h in
    (t, x ∷ reads, rw (q, parse_buffer-frame p t r), s, d)

pub read_packet-frame :
    (reads : List SocketRead) (c : Connection) (p : Packet) (rest : List ℕ)
    → IsRegular p
    → All IsData reads
    → c.buff ++ stream reads ≡ frame p ++ rest
    → Brings reads c p rest
unfolding read_packet
read_packet-frame [] c p rest r d e =
    read_packet-buffered [] c p rest r d e
      (omega (arith, ap length e, length-append c.buff [], length-append (frame p) rest))
read_packet-frame (broken ∷ reads) c p rest r d e = absurd d.0
read_packet-frame (received [] ∷ reads) c p rest r d e = absurd d.0
read_packet-frame (received (b ∷ bs) ∷ reads) c p rest r d e =
    elim (dec_lt (length c.buff) (length (frame p))) [
      | no long ↦ read_packet-buffered (received (b ∷ bs) ∷ reads) c p rest r d e (omega arith)
      | yes short ↦
          let whole' = frame-prefix p rest c.buff (b ∷ bs ++ stream reads) r e short in
          let c' : Connection = record c { buff = c.buff ++ (b ∷ bs) } in
          let (buff, reads', answer, left, data') =
            read_packet-frame reads c' p rest r d.1
              (append_assoc c.buff (b ∷ bs) (stream reads) ∙ e) in
          (buff, reads', rw (parse_buffer-partial c.buff whole') answer, left, data')
    ]

-- The packets that at most `n` calls of `read_packet` bring, up to the first call that does not.
next_packets : (List SocketRead → Connection → List Packet) → ReadEnd → List Packet
next_packets more (answered (ok p) c reads) = p ∷ more reads c
next_packets more (answered (err e) c reads) = []
next_packets more (answered panic c reads) = []
next_packets more (waiting c) = []

pub read_packets : Bytes → ℕ → List SocketRead → Connection → List Packet
unfolding next_packets
read_packets b zero reads c = []
read_packets b (suc n) reads c = next_packets (read_packets b n) (read_packet b reads c)

-- An empty stream brings nothing.
read_packet-nothing :
    (reads : List SocketRead) (c : Connection)
    → All IsData reads
    → c.buff ++ stream reads ≡ []
    → read_packet reference reads c ≡ waiting c
unfolding read_packet
read_packet-nothing [] c d e =
    let empty : c.buff ≡ [] = sym (append-nil c.buff) ∙ e in
    rw (parse_buffer-partial c.buff (λ (w : IsWhole c.buff). omega (arith, ap length empty)))
read_packet-nothing (received (b ∷ bs) ∷ reads) c d e =
    absurd (omega (arith, ap length e, length-append c.buff (b ∷ bs ++ stream reads)))
read_packet-nothing (received [] ∷ reads) c d e = absurd d.0
read_packet-nothing (broken ∷ reads) c d e = absurd d.0

read_packets-stream :
    (ps : List Packet) (n : ℕ) (reads : List SocketRead) (c : Connection)
    → length ps ≤ n
    → All IsRegular ps
    → All IsData reads
    → c.buff ++ stream reads ≡ concat (map frame ps)
    → read_packets reference n reads c ≡ ps
unfolding read_packets
read_packets-stream [] zero reads c h r d e = refl
read_packets-stream [] (suc n) reads c h r d e = rw (read_packet-nothing reads c d e)
read_packets-stream (p ∷ ps) zero reads c h r d e = absurd (omega arith)
read_packets-stream (p ∷ ps) (suc n) reads c h r d e =
    let (buff, reads', answer, left, data') =
      read_packet-frame reads c p (concat (map frame ps)) r.0 d e in
    rw answer (
      ap (◌∷◌ p)
        (read_packets-stream ps n reads' (record c { buff = buff }) (omega arith) r.1 data' left))

-- Let the buffered bytes and the reads to come, each of at least a byte, make up the frames of
-- regular packets. Then `n` calls of `read_packet`, with `n` at least the number of packets, bring
-- exactly these packets in order, wherever the reads cut the stream.
pub read_packets-frames :
    (io : Bytes)
    → IsBytes io
    → (ps : List Packet) (n : ℕ) (reads : List SocketRead) (c : Connection) → length ps ≤ n
    → All IsRegular ps
    → All IsData reads
    → c.buff ++ stream reads ≡ concat (map frame ps)
    → read_packets io n reads c ≡ ps
read_packets-frames io h ps n reads c enough r d e =
    by_reference (λ io. read_packets io n reads c ≡ ps) io h
      (read_packets-stream ps n reads c enough r d e)
