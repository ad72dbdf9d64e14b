-- ===== src/Packet/Safety.antt =====
-- What `decode` of src/net/packet.rs comes to on a buffer with a whole packet: it depends on whether
-- the packet announces at least the size of its kind.
use native.Mathlib.Decide.{dec_lt}
use smo_multi_rs.Base.{
  ℕ, ◌+◌, ◌-◌, ◌≡◌, ◌<◌, ◌≤◌, refl, List, arith, length, length-drop, ap, drop, take, ◌⊎◌, inl, inr,
  lt→ltb, ge→ltb, ltb, Bool-cases,
}
use smo_multi_rs.Bytes.{Bytes, IsBytes, reference, le_value, then_on, ◌>>◌, pure, Coder}
use smo_multi_rs.Bytes.Laws.{by_reference, next_bytes-take}
use smo_multi_rs.Errors.{EncodingError, bad_utf8, not_enough_data, Outcome, ok, err, panic}
use smo_multi_rs.Packet.{Packet, PacketData}
use smo_multi_rs.Packet.Decode.{decode, decode_data, skip_padding}
use smo_multi_rs.Packet.Frame.{announced, IsWhole, drop-drop}
use smo_multi_rs.Packet.Header.{decode_rest}
use smo_multi_rs.Packet.Kinds.{kind_size, kind_takes, decode_data-Makes, Sized}
use smo_multi_rs.Packet.Takes.{Ends}

-- The tag field of a header, in the bytes 16 and 17.
abbrev pub announced_tag : List ℕ → ℕ
announced_tag buf = le_value (take 2 (drop 16 buf))

decode_whole :
    (buf : List ℕ)
    → IsWhole buf
    → decode reference buf
      ≡ decode_rest (take 16 buf) (announced_tag buf) (announced buf) (drop 20 buf)
unfolding decode
decode_whole buf (h, enough) = rw (
  ge→ltb (length buf) 20 h,
  next_bytes-take 16 buf (omega arith),
  next_bytes-take 2 (drop 16 buf) (omega (arith, length-drop 16 buf)),
  drop-drop 16 2 buf,
  next_bytes-take 2 (drop 18 buf) (omega (arith, length-drop 18 buf)),
  drop-drop 18 2 buf,
  ge→ltb (length (drop 20 buf)) (announced buf) (omega (arith, length-drop 20 buf)),
)

-- `decode` wants a whole packet in the buffer, as `check` does.
pub decode-partial : (buf : List ℕ) → ¬ IsWhole buf → decode reference buf ≡ err not_enough_data
unfolding decode
decode-partial buf cut = elim (dec_lt (length buf) 20) [
  | yes few ↦ rw (lt→ltb (length buf) 20 few)
  | no h ↦ elim (dec_lt (length buf) (20 + announced buf)) [
    | yes q ↦ rw (
      ge→ltb (length buf) 20 (omega arith),
      next_bytes-take 16 buf (omega arith),
      next_bytes-take 2 (drop 16 buf) (omega (arith, length-drop 16 buf)),
      drop-drop 16 2 buf,
      next_bytes-take 2 (drop 18 buf) (omega (arith, length-drop 18 buf)),
      drop-drop 18 2 buf,
      lt→ltb (length (drop 20 buf)) (announced buf) (omega (arith, length-drop 20 buf)),
    )
    | no q ↦ absurd (cut (omega arith, omega arith))
  ]
]

-- A packet with the announced size, or an error for its text.
abbrev pub Decoded : ℕ → Outcome EncodingError (Packet × List ℕ) → Type 0
Decoded n (ok (p, rest)) = p.data_size ≡ n
Decoded n (err e) = e ≡ bad_utf8
Decoded n panic = ⊥

-- What `decode` does with the payload.
abbrev pub finish : List ℕ → ℕ → PacketData → Coder Packet
finish id n d =
    skip_padding reference n d
    >> pure (record { id = record { id = id }; data_size = n; payload = d })

finish_enough :
    (id : List ℕ) (n k size : ℕ) (buf : List ℕ) (r : Outcome EncodingError (PacketData × List ℕ))
    → size ≤ n
    → k ≤ size
    → n ≤ length buf
    → Ends k (Sized size) buf r
    → Decoded n (then_on r (finish id n))
unfolding skip_padding
finish_enough id n k size buf (ok (d, rest)) fits ks enough (e, l) =
    elim (Bool-cases (ltb 0 (n - size))) [
      | inl padded ↦
          rw (e, ge→ltb n size fits, padded, next_bytes-take (n - size) rest (omega arith)) refl
      | inr plain ↦ rw (e, ge→ltb n size fits, plain) refl
    ]
finish_enough id n k size buf (err x) fits ks enough h = h
finish_enough id n k size buf panic fits ks enough h = h

finish_short :
    (id : List ℕ) (n k size : ℕ) (buf : List ℕ) (r : Outcome EncodingError (PacketData × List ℕ))
    → n < size
    → Ends k (Sized size) buf r
    → (then_on r (finish id n) ≡ panic) ⊎ (then_on r (finish id n) ≡ err bad_utf8)
unfolding skip_padding
finish_short id n k size buf (ok (d, rest)) short (e, l) = inl (rw (e, lt→ltb n size short))
finish_short id n k size buf (err x) short h = inr (ap err h)
finish_short id n k size buf panic short h = absurd h

-- A kind's reader takes at most the kind's size.
pub kind_takes-le : (t n : ℕ) → kind_takes t n ≤ kind_size t n
unfolding kind_takes kind_size
kind_takes-le t n = ground arith

-- Let the buffer begin with a whole packet that announces at least the size of its kind. Then
-- `decode` does not panic: it returns a packet with the announced size, or `BadUtf8`.
pub decode_safe :
    (io : Bytes)
    → IsBytes io
    → (buf : List ℕ) → IsWhole buf
    → kind_size (announced_tag buf) (announced buf) ≤ announced buf
    → Decoded (announced buf) (decode io buf)
decode_safe io h buf whole fits =
    by_reference (λ io. Decoded (announced buf) (decode io buf)) io h
      (rw (decode_whole buf whole) (
        finish_enough (take 16 buf) n _ (kind_size t n) (drop 20 buf)
          (decode_data reference t n (drop 20 buf)) fits (kind_takes-le t n) room
          (decode_data-Makes t n (drop 20 buf) (omega (arith, kind_takes-le t n, room, fits)))))
  where
    t : ℕ
    t = announced_tag buf

    n : ℕ
    n = announced buf

    room : announced buf ≤ length (drop 20 buf)
    room = omega (arith, length-drop 20 buf, whole.0, whole.1)

-- Let the buffer begin with a whole packet that announces less than the size of its kind, and hold
-- the bytes that its kind takes. Then `decode` panics or returns `BadUtf8`.
pub decode_undersized :
    (io : Bytes)
    → IsBytes io
    → (buf : List ℕ) → IsWhole buf
    → announced buf < kind_size (announced_tag buf) (announced buf)
    → 20 + kind_takes (announced_tag buf) (announced buf) ≤ length buf
    → (decode io buf ≡ panic) ⊎ (decode io buf ≡ err bad_utf8)
decode_undersized io h buf whole short room =
    by_reference (λ io. (decode io buf ≡ panic) ⊎ (decode io buf ≡ err bad_utf8)) io h
      (rw (decode_whole buf whole) (
        finish_short (take 16 buf) n _ (kind_size t n) (drop 20 buf)
          (decode_data reference t n (drop 20 buf)) short
          (decode_data-Makes t n (drop 20 buf) (omega (arith, length-drop 20 buf, room)))))
  where
    t : ℕ
    t = announced_tag buf

    n : ℕ
    n = announced buf
