-- ===== src/Connection/Writes.antt =====
-- What `write_packet` of src/net/connection.rs sends.
use smo_multi_rs.Base.{
  ℕ, ◌≡◌, ◌<◌, ◌≤◌, ◌+◌, refl, List, [], ◌∷◌, ◌++◌, ◌∙◌, ap, length, length-append, arith, take,
  take_all, length-take_le, lt→ltb, ge→ltb,
}
use mathlib.Core.List.{append-nil}
use smo_multi_rs.Bytes.{Bytes, IsBytes}
use smo_multi_rs.Bytes.Laws.{by_reference}
use smo_multi_rs.Connection.{
  SocketWrite, wrote, failed, finished, after_write, write_loop, write_packet,
}
use smo_multi_rs.Errors.{ok}
use smo_multi_rs.Guid.{IsGuid}
use smo_multi_rs.Packet.{Packet}
use smo_multi_rs.Packet.Format.{frame, encode-eq}
use smo_multi_rs.Packet.Size.{length-frame}
use smo_multi_rs.Packet.Typed.{Fits}

pub write_loop-done :
    (buff : List ℕ) (amount : ℕ) (writes : List SocketWrite)
    → length buff ≤ amount
    → write_loop buff amount writes ≡ (finished (ok tt), [])
unfolding write_loop
write_loop-done buff amount [] h = rw (ge→ltb amount (length buff) h)
write_loop-done buff amount (failed ∷ writes) h = rw (ge→ltb amount (length buff) h)
write_loop-done buff amount (wrote n ∷ writes) h = rw (ge→ltb amount (length buff) h)

pub write_loop-step :
    (buff : List ℕ) (amount n : ℕ) (writes : List SocketWrite)
    → amount < length buff
    → write_loop buff amount (wrote n ∷ writes)
      ≡ after_write (take n buff) (write_loop buff (amount + n) writes)
unfolding write_loop
write_loop-step buff amount n writes h = rw (lt→ltb amount (length buff) h)

-- A write that takes the whole buffer, at any point before the end, is the last one.
write_loop-last :
    (buff : List ℕ) (amount : ℕ) (writes : List SocketWrite)
    → amount < length buff
    → write_loop buff amount (wrote (length buff) ∷ writes) ≡ (finished (ok tt), buff)
unfolding write_loop
write_loop-last buff amount writes h = rw (
  lt→ltb amount (length buff) h,
  write_loop-done buff (amount + length buff) writes (omega arith),
  take_all buff,
  append-nil buff,
)

-- A socket that takes the whole frame at once, for a packet with fields in the ranges of their
-- types: the frame is sent, once, and the call succeeds.
pub write_packet-whole :
    (io : Bytes)
    → IsBytes io
    → (p : Packet) (writes : List SocketWrite) → IsGuid p.id
    → Fits p.payload
    → write_packet io p (wrote (length (frame p)) ∷ writes) ≡ (finished (ok tt), frame p)
write_packet-whole io h p writes g fits =
    by_reference
      (λ io. write_packet io p (wrote (length (frame p)) ∷ writes) ≡ (finished (ok tt), frame p)) io
      h
      (unfold write_packet in
        rw (encode-eq p [])
          (write_loop-last (frame p) 0 writes (omega (arith, length-frame p g.sized fits))))

-- When the first write takes only a beginning of the frame and the second all that it is offered,
-- the call succeeds, and the peer has received that beginning and the whole frame again: more than
-- the frame.
pub write_packet-partial :
    (io : Bytes)
    → IsBytes io
    → (p : Packet) (k : ℕ) (writes : List SocketWrite) → 0 < k
    → k < length (frame p)
    → (write_packet io p (wrote k ∷ wrote (length (frame p)) ∷ writes)
        ≡ (finished (ok tt), take k (frame p) ++ frame p))
      × (length (frame p) < length (take k (frame p) ++ frame p))
write_packet-partial io h p k writes some_bytes short =
    by_reference
      (λ io.
        (write_packet io p (wrote k ∷ wrote (length (frame p)) ∷ writes)
          ≡ (finished (ok tt), take k (frame p) ++ frame p))
        × (length (frame p) < length (take k (frame p) ++ frame p)))
      io h
      (
        (unfold write_packet in
            rw (encode-eq p []) (
              write_loop-step (frame p) 0 k (wrote (length (frame p)) ∷ writes) (omega arith)
              ∙ ap (after_write (take k (frame p)))
                  (write_loop-last (frame p) (0 + k) writes (omega arith))
              ∙ (unfold after_write in refl))),
        omega (
          arith,
          length-append (take k (frame p)) (frame p),
          length-take_le k (frame p) (omega arith),
        ),
      )
