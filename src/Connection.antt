-- ===== src/Connection.antt =====
-- src/net/connection.rs: the TCP connection of a client. The socket is a parameter of each call:
-- the reads still to come from it, or how many bytes each of its writes takes.
pub mod Ends
pub mod Framing
pub mod Stuck
pub mod Undersized
pub mod Writes
use smo_multi_rs.Base.{
  ℕ, zero, suc, ◌+◌, List, [], ◌∷◌, ◌++◌, Option, none, some, ltb, if◌then◌else◌, length, take,
}
use smo_multi_rs.Bytes.{Bytes}
use smo_multi_rs.Errors.{
  EncodingError, not_enough_data, connection_close, connection_reset, SmoError, encoding, io,
  Outcome, ok, err, panic,
}
use smo_multi_rs.Packet.{Packet, check}
use smo_multi_rs.Packet.Decode.{decode}
use smo_multi_rs.Packet.Encode.{encode}

-- `std::net::SocketAddr`; an `IpAddr` is a number.
pub record SocketAddr : Type 0 where
  pub ip : ℕ
  pub port : ℕ

-- The socket itself is left out.
pub record Connection : Type 0 where
  pub addr : SocketAddr
  pub buff : List ℕ

-- `Connection::new`, given the peer's address.
unfoldable pub new : SocketAddr → Connection
new addr = record { addr = addr; buff = [] }

-- A parser's answer, and the buffer that it leaves.
abbrev pub Parsed : Type 0
Parsed = Outcome SmoError (Option Packet) × List ℕ

-- `self.buff.advance(len)`, and the packet.
taken : Packet → List ℕ → Outcome EncodingError (Unit {0} × List ℕ) → Parsed
taken p buff (ok (_, rest)) = (ok (some p), rest)
taken p buff (err e) = (err (encoding e), buff)
taken p buff panic = (panic, buff)

-- `Packet::decode(&mut buf)?` on the whole buffer: on an error the buffer is left as it was.
decoded : Bytes → ℕ → List ℕ → Outcome EncodingError (Packet × List ℕ) → Parsed
unfolding taken
decoded b len buff (ok (p, _)) = taken p buff (b.advance len buff)
decoded b len buff (err e) = (err (encoding e), buff)
decoded b len buff panic = (panic, buff)

checked : Bytes → List ℕ → Outcome EncodingError (ℕ × List ℕ) → Parsed
unfolding decoded
checked b buff (ok (len, _)) = decoded b len buff (decode b buff)
checked b buff (err not_enough_data) = (ok none, buff)
checked b buff (err e) = (err (encoding e), buff)
checked b buff panic = (panic, buff)

-- The body of `parse_packet`, which the two kinds of connection have in common. The cursor starts
-- at 0, so its position after `check` is what `check` returns.
unfoldable pub parse_buffer : Bytes → List ℕ → Parsed
unfolding checked
parse_buffer b buff = checked b buff (check b buff)

unfoldable pub parse_packet : Bytes → Connection → Outcome SmoError (Option Packet) × Connection
unfolding parse_buffer
parse_packet b c = let (answer, buff) = parse_buffer b c.buff in (answer, record c { buff = buff })

-- What one `read_buf` of the socket brings: bytes, none at the end of the stream, or an error.
pub data SocketRead : Type 0 where
  received : List ℕ → SocketRead
  broken : SocketRead

pub read_socket : SocketRead → Connection → Outcome SmoError (Unit {0}) × Connection
read_socket broken c = (err io, c)
read_socket (received (b ∷ bs)) c = (ok tt, record c { buff = c.buff ++ (b ∷ bs) })
read_socket (received []) c = elim c.buff [
  | [] ↦ (err (encoding connection_close), c)
  | _ ∷ _ ↦ (err (encoding connection_reset), c)
]

-- The end of a loop over the reads to come: an answer with the connection and the reads that are
-- left, or the task is still waiting for the next read.
pub data ReadEnd : Type 0 where
  answered : Outcome SmoError Packet → Connection → List SocketRead → ReadEnd
  waiting : Connection → ReadEnd

-- One turn of the loop in `read_packet`, with the next turns as `more`.
turn :
    List SocketRead
    → (Connection → ReadEnd)
    → Outcome SmoError (Option Packet) × Connection
    → ReadEnd
turn reads more (ok (some p), c) = answered (ok p) c reads
turn reads more (err e, c) = answered (err e) c reads
turn reads more (panic, c) = answered panic c reads
turn reads more (ok none, c) = more c

after_read :
    List SocketRead → (Connection → ReadEnd) → Outcome SmoError (Unit {0}) × Connection → ReadEnd
after_read reads more (ok _, c) = more c
after_read reads more (err e, c) = answered (err e) c reads
after_read reads more (panic, c) = answered panic c reads

pub read_packet : Bytes → List SocketRead → Connection → ReadEnd
unfolding turn after_read parse_packet read_socket
read_packet b [] c = turn [] waiting (parse_packet b c)
read_packet b (r ∷ reads) c =
    turn (r ∷ reads) (λ c'. after_read reads (read_packet b reads) (read_socket r c'))
      (parse_packet b c)

-- What one `write` of the socket comes to: how many of the offered bytes it takes, or an error.
pub data SocketWrite : Type 0 where
  wrote : ℕ → SocketWrite
  failed : SocketWrite

-- How `write_packet` ends: with an answer, or still waiting for a write.
pub data WriteEnd : Type 0 where
  finished : Outcome SmoError (Unit {0}) → WriteEnd
  writing : WriteEnd

-- The bytes that went out, before those of the rest of the loop.
pub after_write : List ℕ → WriteEnd × List ℕ → WriteEnd × List ℕ
after_write bytes (end, sent) = (end, bytes ++ sent)

-- `while amount < buff.len()`: each write is offered the whole buffer. The flush succeeds.
pub write_loop : List ℕ → ℕ → List SocketWrite → WriteEnd × List ℕ
unfolding after_write
write_loop buff amount [] = (if ltb amount (length buff) then writing else finished (ok tt), [])
write_loop buff amount (failed ∷ writes) =
    (finished (if ltb amount (length buff) then err io else ok tt), [])
write_loop buff amount (wrote n ∷ writes) =
    let rest = after_write (take n buff) (write_loop buff (amount + n) writes) in
    if ltb amount (length buff) then rest else (finished (ok tt), [])

encoded : List SocketWrite → Outcome EncodingError (Unit {0} × List ℕ) → WriteEnd × List ℕ
unfolding write_loop
encoded writes (ok (_, buff)) = write_loop buff 0 writes
encoded writes (err e) = (finished (err (encoding e)), [])
encoded writes panic = (finished panic, [])

-- The outcome, and the bytes that the peer receives.
pub write_packet : Bytes → Packet → List SocketWrite → WriteEnd × List ℕ
unfolding encoded
write_packet b p writes = encoded writes (encode b p [])
