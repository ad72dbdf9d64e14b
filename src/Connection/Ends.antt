-- ===== src/Connection/Ends.antt =====
-- That the loop of `write_packet` of src/net/connection.rs ends.
use smo_multi_rs.Base.{
  ℕ, ◌≡◌, ◌<◌, ◌≤◌, ◌+◌, List, [], ◌∷◌, ◌++◌, ◌∙◌, ap, length, arith, take, All, Bool-cases, inl,
  inr, ltb, ltb→lt, false,
}
use smo_multi_rs.Bytes.{Bytes, IsBytes}
use smo_multi_rs.Bytes.Laws.{by_reference}
use smo_multi_rs.Connection.{
  SocketWrite, wrote, failed, finished, after_write, write_loop, write_packet,
}
use smo_multi_rs.Connection.Writes.{write_loop-done, write_loop-step}
use smo_multi_rs.Errors.{ok}
use smo_multi_rs.Guid.{IsGuid}
use smo_multi_rs.Packet.{Packet}
use smo_multi_rs.Packet.Format.{frame, encode-eq}
use smo_multi_rs.Packet.Typed.{Fits}

-- A write that takes at least one byte.
abbrev pub Takes : SocketWrite → Type 0
Takes (wrote n) = 0 < n
Takes failed = ⊥

ltb→ge : (a b : ℕ) → ltb a b ≡ false → b ≤ a
ltb→ge a b h = ground arith

write_loop-ends :
    (buff : List ℕ) (amount : ℕ) (writes : List SocketWrite)
    → All Takes writes
    → length buff ≤ amount + length writes
    → (sent : List ℕ) × (write_loop buff amount writes ≡ (finished (ok tt), sent))
unfolding after_write
write_loop-ends buff amount [] h enough = ([], write_loop-done buff amount [] (omega arith))
write_loop-ends buff amount (failed ∷ writes) h enough = absurd h.0
write_loop-ends buff amount (wrote n ∷ writes) (some_bytes, h) enough =
    elim (Bool-cases (ltb amount (length buff))) [
      | inl less ↦
          let (sent, e) = write_loop-ends buff (amount + n) writes h (omega arith) in
          (
            take n buff ++ sent,
            write_loop-step buff amount n writes (ltb→lt amount (length buff) less)
                ∙ ap (after_write (take n buff)) e,
          )
      | inr more ↦
          ([], write_loop-done buff amount (wrote n ∷ writes) (ltb→ge amount (length buff) more))
    ]

-- Let the packet's fields be in the ranges of their types. When every write takes at least one byte
-- and there are at least as many writes as the frame has bytes, the loop ends, and the call
-- succeeds.
pub write_packet-ends :
    (io : Bytes)
    → IsBytes io
    → (p : Packet) (writes : List SocketWrite) → IsGuid p.id
    → Fits p.payload
    → All Takes writes
    → length (frame p) ≤ length writes
    → (sent : List ℕ) × (write_packet io p writes ≡ (finished (ok tt), sent))
write_packet-ends io h p writes g fits takes enough =
    by_reference (λ io. (sent : List ℕ) × (write_packet io p writes ≡ (finished (ok tt), sent))) io
      h
      (let (sent, e) = write_loop-ends (frame p) 0 writes takes (omega arith) in
        (sent, unfold write_packet in rw (encode-eq p [], e)))
