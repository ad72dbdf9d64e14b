-- ===== src/Connection/Stuck.antt =====
-- What an error of the parser does to a connection (src/net/connection.rs): the bytes stay.
use smo_multi_rs.Base.{ℕ, ◌≡◌, refl, List, [], ◌∷◌, ◌++◌, length, length-append, some, false, arith}
use smo_multi_rs.Bytes.{Bytes, IsBytes, reference, le_bytes}
use smo_multi_rs.Bytes.Laws.{by_reference}
use smo_multi_rs.Connection.{
  Connection, SocketRead, answered, taken, decoded, checked, parse_buffer, parse_packet,
  read_packet,
}
use smo_multi_rs.Errors.{
  EncodingError, not_enough_data, bad_utf8, SmoError, encoding, Outcome, ok, err, panic,
}
use smo_multi_rs.Packet.{Packet}
use smo_multi_rs.Packet.Decode.{decode}
use smo_multi_rs.Packet.Decode.{decode_data, decode_capture}
use smo_multi_rs.Packet.Fields.{next_bytes-sized}
use smo_multi_rs.Packet.Frame.{announced, check-IsWhole, past_id}
use smo_multi_rs.Packet.Header.{decode-header}
use smo_multi_rs.Text.{boundary, utf8_run, from_utf8, buf_size_to_string}

module _ (b : Bytes) (buff : List ℕ) (e : SmoError) where
  taken-err :
      (p : Packet) (r : Outcome EncodingError (Unit {0} × List ℕ))
      → (taken p buff r).0 ≡ err e
      → (taken p buff r).1 ≡ buff
  unfolding taken
  taken-err p (ok (_, rest)) h = cc
  taken-err p (err x) h = refl
  taken-err p panic h = refl

  decoded-err :
      (len : ℕ) (r : Outcome EncodingError (Packet × List ℕ))
      → (decoded b len buff r).0 ≡ err e
      → (decoded b len buff r).1 ≡ buff
  unfolding decoded
  decoded-err len (ok (p, _)) h = taken-err p (b.advance len buff) h
  decoded-err len (err x) h = refl
  decoded-err len panic h = refl

  checked-err :
      (r : Outcome EncodingError (ℕ × List ℕ))
      → (checked b buff r).0 ≡ err e
      → (checked b buff r).1 ≡ buff
  unfolding checked
  checked-err (ok (len, _)) h = decoded-err len (decode b buff) h
  checked-err (err not_enough_data) h = refl
  checked-err (err _) h = refl
  checked-err panic h = refl

parse_buffer-err :
    (b : Bytes) (buff : List ℕ) (e : SmoError)
    → (parse_buffer b buff).0 ≡ err e
    → (parse_buffer b buff).1 ≡ buff
unfolding parse_buffer
parse_buffer-err b buff e h = checked-err b buff e _ h

parse_packet-err :
    (b : Bytes) (c : Connection) (e : SmoError)
    → (parse_packet b c).0 ≡ err e
    → parse_packet b c ≡ (err e, c)
unfolding parse_packet
parse_packet-err b c e h =
    λ i. (h i, record { addr = c.addr; buff = parse_buffer-err b c.buff e h i })

-- When the parser fails on the buffer, every later call of `read_packet` fails with the same error,
-- whatever the socket brings: neither the connection nor the reads to come change.
pub read_packet-stuck :
    (b : Bytes) (c : Connection) (e : SmoError) (reads : List SocketRead)
    → (parse_packet b c).0 ≡ err e
    → read_packet b reads c ≡ answered (err e) c reads
unfolding read_packet
read_packet-stuck b c e [] h = rw (parse_packet-err b c e h)
read_packet-stuck b c e (r ∷ reads) h = rw (parse_packet-err b c e h)

bad_text :
    (id text rest : List ℕ)
    → length id ≡ 16
    → length text ≡ 32
    → utf8_run (some boundary) text ≡ false
    → (parse_buffer reference (id ++ (le_bytes 2 10 ++ (le_bytes 2 32 ++ (text ++ rest))))).0
      ≡ err (encoding bad_utf8)
unfolding parse_buffer decode_data decode_capture buf_size_to_string from_utf8
bad_text id text rest i t bad =
    let tail : List ℕ = le_bytes 2 10 ++ (le_bytes 2 32 ++ (text ++ rest)) in
    let size : announced (id ++ tail) ≡ 32 = rw (past_id id tail i) refl in
    let long = length-append id tail in
    let text_long = length-append text rest in
    rw (
      check-IsWhole (id ++ tail) (omega arith),
      decode-header id 10 32 i (omega arith) (omega arith) (text ++ rest) (omega arith),
      next_bytes-sized 32 text rest t,
      bad,
    )

-- A `Capture` packet at the front of the buffer whose name is not UTF-8 is such a failure:
-- `read_packet` fails with `BadUtf8`, whatever the socket brings, and neither the connection nor
-- the reads to come change.
pub read_packet-bad_text :
    (io : Bytes)
    → IsBytes io
    → (c : Connection) (id text rest : List ℕ) (reads : List SocketRead) → length id ≡ 16
    → length text ≡ 32
    → utf8_run (some boundary) text ≡ false
    → c.buff ≡ id ++ (le_bytes 2 10 ++ (le_bytes 2 32 ++ (text ++ rest)))
    → read_packet io reads c ≡ answered (err (encoding bad_utf8)) c reads
read_packet-bad_text io h c id text rest reads i t bad e =
    by_reference (λ io. read_packet io reads c ≡ answered (err (encoding bad_utf8)) c reads) io h
      (read_packet-stuck reference c (encoding bad_utf8) reads
        (unfold parse_packet in rw e (bad_text id text rest i t bad)))
