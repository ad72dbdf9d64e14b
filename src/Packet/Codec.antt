-- ===== src/Packet/Codec.antt =====
-- The printer and the parser of src/net/packet.rs together, over any implementation of `bytes`.
use mathlib.Core.List.{append-nil}
use native.Mathlib.Decide.{dec_lt}
use smo_multi_rs.Base.{
  ◌⊎◌, inl, ℕ, ◌+◌, ◌-◌, ◌≡◌, ◌<◌, refl, List, [], ◌++◌, Bool, arith, length, length-append,
  replicate, ◌∙◌, subst, drop, some, inr, length-replicate,
}
use smo_multi_rs.Bytes.{Bytes, IsBytes, reference}
use smo_multi_rs.Bytes.Laws.{by_reference}
use smo_multi_rs.Errors.{not_enough_data, ok, err}
use smo_multi_rs.Geometry.{Vector3, Quaternion}
use smo_multi_rs.Guid.{Guid, IsGuid}
use smo_multi_rs.Packet.{Packet, cap, hole_punch, unhandled, check, get_size, get_type_id}
use smo_multi_rs.Packet.Decode.{decode}
use smo_multi_rs.Packet.Encode.{encode}
use smo_multi_rs.Packet.Format.{frame, body, encode-eq}
use smo_multi_rs.Packet.Frame.{
  decode-frame, check-frame, IsWhole, announced, announced-frame, check-IsWhole, check-partial,
}
use smo_multi_rs.Packet.Size.{length-frame}
use smo_multi_rs.Packet.Typed.{IsRegular, Fits, IsU16, IsVector, IsQuaternion, unread}
use smo_multi_rs.Text.Laws.{IsUtf8, utf8_run-append_zeros, str_to_sized_array-append_zeros}
use smo_multi_rs.Text.{boundary}
use smo_multi_rs.Packet.Safety.{decode-partial}

-- What `encode` writes for a regular packet is read back by `decode`, with any bytes behind it: the
-- same packet, with the bytes behind it left (after a `cap` also 16 zeros of its own). `check` finds
-- exactly the written bytes.
pub decode-encode :
    (io : Bytes)
    → IsBytes io
    → (p : Packet) (rest : List ℕ) → IsRegular p
    → (wire : List ℕ) × (encode io p [] ≡ ok (tt, wire))
      × (decode io (wire ++ rest) ≡ ok (p, unread p.payload ++ rest))
      × (check io (wire ++ rest) ≡ ok (length wire, rest))
decode-encode io h p rest r =
    by_reference
      (λ io.
        (wire : List ℕ) × (encode io p [] ≡ ok (tt, wire))
        × (decode io (wire ++ rest) ≡ ok (p, unread p.payload ++ rest))
        × (check io (wire ++ rest) ≡ ok (length wire, rest)))
      io h (frame p, encode-eq p [], decode-frame p rest r, check-frame p rest r)

-- For a packet with fields in the ranges of their types `encode` never fails, keeps what the
-- buffer held, and adds 20 bytes and as many as `get_size` says.
pub length-encode :
    (io : Bytes)
    → IsBytes io
    → (p : Packet) (buf : List ℕ) → IsGuid p.id
    → Fits p.payload
    → (wire : List ℕ) × (encode io p buf ≡ ok (tt, buf ++ wire))
      × (length wire ≡ 20 + get_size p.payload)
length-encode io h p buf g fits =
    by_reference
      (λ io.
        (wire : List ℕ) × (encode io p buf ≡ ok (tt, buf ++ wire))
        × (length wire ≡ 20 + get_size p.payload))
      io h (frame p, encode-eq p buf, length-frame p g.sized fits)

-- Either the buffer begins with a whole packet, and `check` returns its length and the bytes behind
-- it; or it does not, and `check` returns `NotEnoughData`. It never panics.
pub check_exact :
    (io : Bytes)
    → IsBytes io
    → (buf : List ℕ)
    → (IsWhole buf × (check io buf ≡ ok (20 + announced buf, drop (20 + announced buf) buf)))
      ⊎ ((¬ IsWhole buf) × (check io buf ≡ err not_enough_data))
check_exact io h buf =
    by_reference
      (λ io.
        (IsWhole buf × (check io buf ≡ ok (20 + announced buf, drop (20 + announced buf) buf)))
        ⊎ ((¬ IsWhole buf) × (check io buf ≡ err not_enough_data)))
      io h
      (elim (dec_lt (length buf) 20) [
        | yes few ↦ inr (cut buf (λ w. omega (arith, w.0)))
        | no enough ↦ elim (dec_lt (length buf) (20 + announced buf)) [
          | yes short ↦ inr (cut buf (λ w. omega (arith, w.1)))
          | no long ↦ inl ((omega arith, omega arith), check-IsWhole buf (omega arith, omega arith))
        ]
      ])
  where
    cut :
        (buf : List ℕ)
        → ¬ IsWhole buf
        → (¬ IsWhole buf) × (check reference buf ≡ err not_enough_data)
    cut buf w = (w, check-partial buf w)

-- Let the fields be in the ranges of their types. A packet whose size field is larger than its
-- payload is printed without the padding, so that the parser does not find a whole packet in
-- what was printed.
pub encode_unresized :
    (io : Bytes)
    → IsBytes io
    → (p : Packet) → IsGuid p.id
    → Fits p.payload
    → IsU16 p.data_size
    → get_size p.payload < p.data_size
    → (wire : List ℕ) × (encode io p [] ≡ ok (tt, wire))
      × (check io wire ≡ err not_enough_data)
      × (decode io wire ≡ err not_enough_data)
encode_unresized io h p g fits small large =
    by_reference
      (λ io.
        (wire : List ℕ) × (encode io p [] ≡ ok (tt, wire))
        × (check io wire ≡ err not_enough_data)
        × (decode io wire ≡ err not_enough_data))
      io h (frame p, encode-eq p [], check-partial (frame p) cut, decode-partial (frame p) cut)
  where
    size : announced (frame p) ≡ p.data_size
    size =
        subst (λ w. announced w ≡ p.data_size) (append-nil (frame p))
          (announced-frame p [] g.sized small)

    cut : ¬ IsWhole (frame p)
    cut w = omega (arith, length-frame p g.sized fits, size, w.1)

-- A `HolePunch` with an identifier of sixteen bytes is read back as an unhandled packet of the
-- tag 14.
pub decode-hole_punch :
    (io : Bytes)
    → IsBytes io
    → (g : Guid) (rest : List ℕ) → IsGuid g
    → (wire : List ℕ) × (encode io (record { id = g; data_size = 0; payload = hole_punch }) []
        ≡ ok (tt, wire))
      × (decode io (wire ++ rest)
          ≡ ok (record { id = g; data_size = 0; payload = unhandled 14 [] }, rest))
decode-hole_punch io h g rest sized =
    let q : Packet = record { id = g; data_size = 0; payload = unhandled 14 [] } in
    by_reference
      (λ io.
        (wire : List ℕ) × (encode io (record { id = g; data_size = 0; payload = hole_punch }) []
          ≡ ok (tt, wire))
        × (decode io (wire ++ rest) ≡ ok (q, rest)))
      io h
      (
        frame q,
        encode-eq (record { id = g; data_size = 0; payload = hole_punch }) []
            ∙ (unfold frame body get_type_id in refl),
        decode-frame q rest (record {
          guid = sized;
          sized = (unfold get_size in refl);
          small = omega arith;
          fits = (omega arith, tt);
          canonical = inr (omega arith);
        }),
      )

-- Let the fields be in the ranges of their types. A `Cap` whose text is valid and shorter than
-- 32 bytes is read back with zeros added to the text, and 16 bytes of it are left in the buffer.
pub decode-cap_padded :
    (io : Bytes)
    → IsBytes io
    → (g : Guid) (place : Vector3) (rot : Quaternion) (out : Bool) (anim rest : List ℕ) → IsGuid g
    → IsVector place
    → IsQuaternion rot
    → IsUtf8 anim
    → length anim < 32
    → (wire : List ℕ) × (encode io
          (record { id = g; data_size = 77; payload = cap place rot out anim })
          []
        ≡ ok (tt, wire))
      × (decode io (wire ++ rest)
          ≡ ok (
            record {
              id = g;
              data_size = 77;
              payload = cap place rot out (anim ++ replicate (32 - length anim) 0);
            },
            replicate 16 0 ++ rest,
          ))
decode-cap_padded io h g place rot out anim rest sized v q u short =
    by_reference
      (λ io.
        (wire : List ℕ) × (encode io
            (record { id = g; data_size = 77; payload = cap place rot out anim }) []
          ≡ ok (tt, wire))
        × (decode io (wire ++ rest) ≡ ok (whole, replicate 16 0 ++ rest)))
      io h
      (
        frame whole,
        rw (← same) (encode-eq narrow []),
        decode-frame whole rest (record {
          guid = sized;
          sized = (unfold get_size in refl);
          small = omega arith;
          fits = (v, q);
          canonical = (
            omega (
              arith,
              length-append anim (replicate (32 - length anim) 0),
              length-replicate {A = ℕ} (32 - length anim) 0,
            ),
            utf8_run-append_zeros (some boundary) anim (32 - length anim) u,
          );
        }),
      )
  where
    whole : Packet
    whole = record {
      id = g;
      data_size = 77;
      payload = cap place rot out (anim ++ replicate (32 - length anim) 0);
    }

    narrow : Packet
    narrow = record { id = g; data_size = 77; payload = cap place rot out anim }

    same : frame narrow ≡ frame whole
    same =
        unfold frame body get_type_id in
        rw (str_to_sized_array-append_zeros 48 (32 - length anim) anim (omega arith))
