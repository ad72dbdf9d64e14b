-- ===== src/Tests/Packets.antt =====
-- The codec of src/net/packet.rs on concrete packets.
use smo_multi_rs.Base.{
  ℕ, ◌+◌, ◌-◌, ◌≡◌, ◌⊎◌, refl, List, [], ◌∷◌, ◌++◌, true, length, replicate, drop, arith, All, some,
  none,
}
use smo_multi_rs.Bytes.{reference}
use smo_multi_rs.Bytes.Laws.{reference-IsBytes}
use smo_multi_rs.Errors.{not_enough_data, bad_utf8, ok, err, panic}
use smo_multi_rs.Geometry.{Vector3, Quaternion}
use smo_multi_rs.Packet.{Packet, cap, check, get_size, resize}
use smo_multi_rs.Packet.Codec.{decode-encode, check_exact, encode_unresized, decode-cap_padded}
use smo_multi_rs.Packet.Decode.{decode, decode_data, decode_shine, skip_padding}
use smo_multi_rs.Packet.Encode.{encode}
use smo_multi_rs.Packet.Frame.{IsWhole, announced}
use smo_multi_rs.Packet.Kinds.{kind_size, kind_takes}
use smo_multi_rs.Packet.Arbitrary.{arbitrary, generated_size}
use smo_multi_rs.Packet.Arbitrary.Laws.{arbitrary-made}
use smo_multi_rs.Packet.Relay.{IsPassable, decode-typed, decode-encode_resized}
use smo_multi_rs.Packet.Safety.{Decoded, decode_safe, decode_undersized}
use smo_multi_rs.Packet.Typed.{IsU8, unread}
use smo_multi_rs.Text.{utf8_run}
use smo_multi_rs.Tests.Samples.{hero, hero-IsGuid, found, found-IsRegular}

decode-encode_example :
    (wire : List ℕ) × (encode reference found [] ≡ ok (tt, wire))
    × (decode reference (wire ++ (1 ∷ [])) ≡ ok (found, unread found.payload ++ (1 ∷ [])))
    × (check reference (wire ++ (1 ∷ [])) ≡ ok (length wire, 1 ∷ []))
decode-encode_example = decode-encode reference reference-IsBytes found (1 ∷ []) found-IsRegular

-- A disconnect packet, and a byte behind it.
abbrev left_bytes : List ℕ
left_bytes = replicate 16 7 ++ (7 ∷ 0 ∷ 0 ∷ 0 ∷ 1 ∷ [])

check_exact_example :
    (IsWhole left_bytes
      × (check reference left_bytes
          ≡ ok (20 + announced left_bytes, drop (20 + announced left_bytes) left_bytes)))
    ⊎ ((¬ IsWhole left_bytes) × (check reference left_bytes ≡ err not_enough_data))
check_exact_example = check_exact reference reference-IsBytes left_bytes

decode_safe_example : Decoded 0 (decode reference left_bytes)
unfolding kind_size
decode_safe_example =
    decode_safe reference reference-IsBytes left_bytes (omega arith, omega arith) (omega arith)

-- A shine packet that announces four bytes.
abbrev short_shine : List ℕ
short_shine = replicate 16 7 ++ (9 ∷ 0 ∷ 4 ∷ 0 ∷ 3 ∷ 0 ∷ 0 ∷ 0 ∷ 0 ∷ [])

decode_undersized_example :
    (decode reference short_shine ≡ panic) ⊎ (decode reference short_shine ≡ err bad_utf8)
unfolding kind_size kind_takes
decode_undersized_example =
    decode_undersized reference reference-IsBytes short_shine (omega arith, omega arith)
      (omega arith) (omega arith)

-- A shine packet with a byte of padding, as it was parsed.
abbrev padded_shine : Packet
padded_shine = record found { data_size = 6 }

encode_unresized_example :
    (wire : List ℕ) × (encode reference padded_shine [] ≡ ok (tt, wire))
    × (check reference wire ≡ err not_enough_data)
    × (decode reference wire ≡ err not_enough_data)
unfolding get_size
encode_unresized_example =
    encode_unresized reference reference-IsBytes padded_shine hero-IsGuid (omega arith)
      (omega arith) (omega arith)

abbrev origin : Vector3
origin = record { x = 0; y = 0; z = 0 }

abbrev upright : Quaternion
upright = record { w = 0x3f80_0000; i = 0; j = 0; k = 0 }

decode-cap_padded_example :
    (wire : List ℕ) × (encode reference
        (record { id = hero; data_size = 77; payload = cap origin upright true (65 ∷ []) })
        []
      ≡ ok (tt, wire))
    × (decode reference (wire ++ [])
        ≡ ok (
          record {
            id = hero;
            data_size = 77;
            payload = cap origin upright true ((65 ∷ []) ++ replicate (32 - 1) 0);
          },
          replicate 16 0 ++ [],
        ))
unfolding utf8_run
decode-cap_padded_example =
    decode-cap_padded reference reference-IsBytes hero origin upright true (65 ∷ []) [] hero-IsGuid
      (omega arith, omega arith, omega arith) (omega arith, omega arith, omega arith, omega arith)
      refl (omega arith)

-- A shine packet with a byte of padding, on the wire.
abbrev padded_wire : List ℕ
padded_wire = replicate 16 7 ++ (9 ∷ 0 ∷ 6 ∷ 0 ∷ 3 ∷ 0 ∷ 0 ∷ 0 ∷ 0 ∷ 77 ∷ [])

decode-encode_resized_example :
    (wire : List ℕ) × (encode reference (resize padded_shine) [] ≡ ok (tt, wire))
    × (decode reference (wire ++ (1 ∷ []))
        ≡ ok (resize padded_shine, unread padded_shine.payload ++ (1 ∷ [])))
    × (check reference (wire ++ (1 ∷ [])) ≡ ok (length wire, 1 ∷ []))
unfolding decode decode_data decode_shine skip_padding get_size
decode-encode_resized_example =
    decode-encode_resized reference reference-IsBytes padded_wire padded_shine [] (1 ∷ [])
      (omega arith) refl

decode-typed_example : IsPassable padded_shine × All IsU8 []
unfolding decode decode_data decode_shine skip_padding get_size
decode-typed_example =
    decode-typed reference reference-IsBytes padded_wire padded_shine [] (omega arith) refl

-- The generator for a `Cap` packet, from the bytes 0, 1, 2 and so on.
arbitrary-made_example :
    ((p : Packet) × (arbitrary reference (λ n. n) 3 ≡ some p) × (p.data_size ≡ generated_size 3))
    × (arbitrary reference (λ n. n) 9 ≡ none)
arbitrary-made_example =
    arbitrary-made reference reference-IsBytes (λ n. n) 3 (omega arith) (omega arith)
      (λ e. omega (arith, e))
