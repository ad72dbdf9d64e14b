-- ===== src/Packet/Arbitrary/Laws.antt =====
-- What the generator of src/net/packet.rs makes: a packet for each tag but one.
use mathlib.Core.List.{append_assoc, append-nil}
use smo_multi_rs.Base.{
  ℕ, zero, suc, ◌-◌, ◌%◌, ◌^◌, ◌≡◌, ◌≢◌, ◌≤◌, ◌<◌, refl, ap, ◌∙◌, List, [], ◌∷◌, ◌++◌, none, some,
  map, All, length, arith, ltb, ge→ltb, Bool-cases, inl, inr,
}
use smo_multi_rs.Bytes.{Bytes, IsBytes, reference, then_on, le_bytes}
use smo_multi_rs.Bytes.Laws.{by_reference, next_bytes-take}
use smo_multi_rs.Errors.{EncodingError, Outcome, ok, err, panic}
use smo_multi_rs.Packet.{Packet, PacketData}
use smo_multi_rs.Packet.Arbitrary.{
  generated_size, draw, packet_of, packet_in, put_all, generate, arbitrary,
}
use smo_multi_rs.Packet.Ascii.{Fresh, Any, decode_data_plain}
use smo_multi_rs.Packet.Decode.{decode, decode_data, decode_shine, skip_padding}
use smo_multi_rs.Packet.Header.{decode-header}
use smo_multi_rs.Packet.Kinds.{kind_size, kind_takes, decode_data-Makes, Sized}
use smo_multi_rs.Packet.Safety.{finish, kind_takes-le}
use smo_multi_rs.Packet.Takes.{Ends}
use smo_multi_rs.Text.Laws.{IsAscii}

put_all-eq : (bs buf : List ℕ) → put_all reference bs buf ≡ ok (tt, buf ++ map (λ b. b % 256) bs)
put_all-eq [] buf = rw append-nil refl
put_all-eq (b ∷ bs) buf =
    put_all-eq bs (buf ++ (b % 256 ∷ []))
    ∙ ap (λ bs. ok (tt, bs)) (append_assoc buf (b % 256 ∷ []) (map (λ b. b % 256) bs))

-- The bytes of a payload, as they are written.
abbrev payload_of : (ℕ → ℕ) → ℕ → ℕ → List ℕ
payload_of g i n = map (λ b. b % 256) (map (λ b. b % 128) (draw g i n))

length-payload_of : (g : ℕ → ℕ) (i n : ℕ) → length (payload_of g i n) ≡ n
length-payload_of g i zero = refl
length-payload_of g i (suc n) = ap suc (length-payload_of g (suc i) n)

payload_of-IsAscii : (g : ℕ → ℕ) (i n : ℕ) → All IsAscii (payload_of g i n)
payload_of-IsAscii g i zero = tt
payload_of-IsAscii g i (suc n) = (omega arith, payload_of-IsAscii g (suc i) n)

-- A size that is not too small for the tag.
roomy : (t : ℕ) → 0 < t → t < 14 → t ≢ 9 → kind_size t (generated_size t) ≤ generated_size t
unfolding kind_size generated_size
roomy t low high other = ground arith

finishes :
    (id : List ℕ) (n k size : ℕ) (buf : List ℕ) (r : Outcome EncodingError (PacketData × List ℕ))
    → size ≤ n
    → k ≤ size
    → n ≤ length buf
    → Ends k (Sized size) buf r
    → Fresh Any r
    → (p : Packet) × (packet_of (then_on r (finish id n)) ≡ some p) × (p.data_size ≡ n)
unfolding skip_padding packet_of
finishes id n k size buf (ok (d, rest)) fits ks enough (e, l) h =
    elim (Bool-cases (ltb 0 (n - size))) [
      | inl padded ↦
          rw (e, ge→ltb n size fits, padded, next_bytes-take (n - size) rest (omega arith))
            (_, refl, refl)
      | inr plain ↦ rw (e, ge→ltb n size fits, plain) (_, refl, refl)
    ]
finishes id n k size buf (err x) fits ks enough e h = absurd (h e)
finishes id n k size buf panic fits ks enough e h = absurd e

small : (t : ℕ) → generated_size t < 65536
unfolding generated_size
small t = ground arith

-- The sixteen bytes of the identifier.
abbrev id_of : (ℕ → ℕ) → List ℕ
id_of g = map (λ b. b % 256) (draw g 0 16)

generate-eq :
    (g : ℕ → ℕ) (t : ℕ)
    → generate reference g t []
      ≡ ok (
        tt,
        id_of g
            ++ (le_bytes 2 t
                ++ (le_bytes 2 (generated_size t) ++ payload_of g 16 (generated_size t))),
      )
unfolding generate
generate-eq g t =
    put_all-eq (map (λ b. b % 128) (draw g 16 (generated_size t)))
      (id_of g ++ (le_bytes 2 t ++ le_bytes 2 (generated_size t % 2 ^ 16)))
    ∙ ap
        (λ n.
          ok
            (tt, id_of g ++ (le_bytes 2 t ++ (le_bytes 2 n ++ payload_of g 16 (generated_size t)))))
        (omega (arith, small t))

made :
    (g : ℕ → ℕ) (t : ℕ)
    → 0 < t
    → t < 14
    → t ≢ 9
    → (p : Packet) × (arbitrary reference g t ≡ some p) × (p.data_size ≡ generated_size t)
unfolding arbitrary packet_in
made g t low high other =
    let n : ℕ = generated_size t in
    let payload : List ℕ = payload_of g 16 n in
    let long = length-payload_of g 16 n in
    rw
      (
        generate-eq g t,
        decode-header (id_of g) t n refl (omega arith) (small t) payload (omega arith),
      )
      (finishes (id_of g) n (kind_takes t n) (kind_size t n) payload
        (decode_data reference t n payload) (roomy t low high other) (kind_takes-le t n)
        (omega arith)
        (decode_data-Makes t n payload (omega (arith, kind_takes-le t n, roomy t low high other)))
        (decode_data_plain t n payload (payload_of-IsAscii g 16 n)))

-- A shine takes a byte more than the generator gives it.
no_shine : (g : ℕ → ℕ) → arbitrary reference g 9 ≡ none
unfolding arbitrary packet_in packet_of generate generated_size decode decode_data decode_shine
no_shine g = refl

-- Whatever bytes are drawn: for each of the tags from 1 to 13 but that of a shine the generator
-- makes a packet, with the size that it announced. For a shine it panics.
pub arbitrary-made :
    (io : Bytes)
    → IsBytes io
    → (g : ℕ → ℕ) (t : ℕ) → 0 < t
    → t < 14
    → t ≢ 9
    → ((p : Packet) × (arbitrary io g t ≡ some p) × (p.data_size ≡ generated_size t))
      × (arbitrary io g 9 ≡ none)
arbitrary-made io h g t low high other =
    by_reference
      (λ io.
        ((p : Packet) × (arbitrary io g t ≡ some p) × (p.data_size ≡ generated_size t))
        × (arbitrary io g 9 ≡ none))
      io h (made g t low high other, no_shine g)
