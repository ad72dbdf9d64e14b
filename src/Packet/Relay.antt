-- ===== src/Packet/Relay.antt =====
-- src/net/packet.rs: what `decode` makes of any bytes can be passed on once it is resized.
use smo_multi_rs.Base.{
  ℕ, ◌≡◌, subst, List, [], ◌++◌, Bool, true, false, ltb, length, All, arith, if◌then◌else◌,
}
use smo_multi_rs.Bytes.{
  Bytes, IsBytes, Coder, reference, next_bytes, get_le, remaining, fail_if, pure, ◌>>=◌, ◌>>◌,
}
use smo_multi_rs.Bytes.Laws.{by_reference}
use smo_multi_rs.Errors.{EncodingError, not_enough_data, ok}
use smo_multi_rs.Guid.{IsGuid}
use smo_multi_rs.Packet.{Packet, PacketData, resize, check, get_size}
use smo_multi_rs.Packet.Codec.{decode-encode}
use smo_multi_rs.Packet.Decode.{decode, decode_data, skip_padding, sub_usize}
use smo_multi_rs.Packet.Encode.{encode}
use smo_multi_rs.Packet.Header.{decode_rest}
use smo_multi_rs.Packet.Readable.{IsReadable, decode_data_yields}
use smo_multi_rs.Packet.Typed.{IsU8, IsU16, IsRegular, unread}
use smo_multi_rs.Packet.Yields.{
  Good, Yields, Any, AreBytes, then_yields, pure_yields, next_bytes_yields, get_u16_yields,
}

-- A packet that `resize` makes regular.
pub record IsPassable (p : Packet) : Type 0 where
  pub guid : IsGuid p.id
  pub readable : IsReadable p.payload

sub_usize_yields : (a b : ℕ) → Yields Any (sub_usize a b)
sub_usize_yields a b buf h = ground arith

advance_yields : (n : ℕ) → Yields Any (reference.advance n)
advance_yields n =
    then_yields (AreBytes n) Any (next_bytes n) _ (next_bytes_yields n)
      λ bs _. pure_yields Any tt tt

skip_yields : (b : Bool) (n : ℕ) → Yields Any (if b then reference.advance n else pure tt)
skip_yields true n = advance_yields n
skip_yields false n = pure_yields Any tt tt

skip_padding_yields : (n : ℕ) (d : PacketData) → Yields Any (skip_padding reference n d)
unfolding skip_padding
skip_padding_yields n d =
    then_yields Any Any (sub_usize n (get_size d)) _ (sub_usize_yields n (get_size d))
      λ k _. skip_yields (ltb 0 k) k

guard_yields :
    (b : Bool) (e : EncodingError) (m : Coder Packet)
    → Yields IsPassable m
    → Yields IsPassable (fail_if b e >> m)
guard_yields true e m h buf bytes = tt
guard_yields false e m h buf bytes = h buf bytes

decode_rest_yields :
    (id : List ℕ) (t n : ℕ)
    → AreBytes 16 id
    → IsU16 t
    → IsU16 n
    → Yields IsPassable (decode_rest id t n)
decode_rest_yields id t n hid ht hn =
    then_yields IsReadable IsPassable (decode_data reference t n) _ (decode_data_yields t n ht hn)
      λ d hd.
        then_yields Any IsPassable (skip_padding reference n d) _ (skip_padding_yields n d) λ _ _.
          pure_yields IsPassable (record { id = record { id = id }; data_size = n; payload = d })
            (record { guid = record { sized = hid.0; bytes = hid.1 }; readable = hd })

-- What `decode` does with the payload and after it, behind the test on the size.
abbrev decode_sized : List ℕ → ℕ → ℕ → Coder Packet
decode_sized id t n = do left ← remaining; fail_if (ltb left n) not_enough_data; decode_rest id t n

abbrev decode_fields : Coder Packet
decode_fields = do id ← next_bytes 16; t ← get_le 2; n ← get_le 2; decode_sized id t n

decode_fields_yields : Yields IsPassable decode_fields
decode_fields_yields =
    then_yields (AreBytes 16) IsPassable (next_bytes 16) _ (next_bytes_yields 16) λ id hid.
      then_yields IsU16 IsPassable (get_le 2) _ get_u16_yields λ t ht.
        then_yields IsU16 IsPassable (get_le 2) (decode_sized id t) get_u16_yields λ n hn buf bytes.
          guard_yields (ltb (length buf) n) not_enough_data (decode_rest id t n)
            (decode_rest_yields id t n hid ht hn) buf bytes

decode_yields : Yields IsPassable (decode reference)
unfolding decode
decode_yields buf bytes =
    guard_yields (ltb (length buf) 20) not_enough_data decode_fields decode_fields_yields buf bytes

pub resize-IsRegular : (p : Packet) → IsPassable p → IsRegular (resize p)
unfolding resize
resize-IsRegular p h = record {
  guid = h.guid;
  sized = omega (arith, h.readable.small);
  small = omega arith;
  fits = h.readable.fits;
  canonical = h.readable.canonical;
}

pub decode-IsPassable :
    (buf : List ℕ) (p : Packet) (rest : List ℕ)
    → All IsU8 buf
    → decode reference buf ≡ ok (p, rest)
    → IsPassable p
decode-IsPassable buf p rest h e = (subst (Good IsPassable) e (decode_yields buf h)).0

-- Whatever packet `decode` makes of bytes has an identifier of 16 bytes, fields in the ranges of
-- their types, and texts that are UTF-8, fit their fields and (but for that of a `cap`) have no NUL
-- at an end; a size of its payload fits the size field. What `decode` leaves are bytes.
pub decode-typed :
    (io : Bytes)
    → IsBytes io
    → (buf : List ℕ) (p : Packet) (rest : List ℕ) → All IsU8 buf
    → decode io buf ≡ ok (p, rest)
    → IsPassable p × All IsU8 rest
decode-typed io h buf p rest bytes =
    by_reference (λ io. decode io buf ≡ ok (p, rest) → IsPassable p × All IsU8 rest) io h
      (λ e. subst (Good IsPassable) e (decode_yields buf bytes))

-- Whatever packet `decode` makes of bytes, `resize` makes it regular: `encode` prints it, and
-- `decode` reads exactly this packet back, with any bytes behind it left (after a `cap` also 16
-- zeros of its own). `check` finds exactly the printed bytes.
pub decode-encode_resized :
    (io : Bytes)
    → IsBytes io
    → (buf : List ℕ) (p : Packet) (rest more : List ℕ) → All IsU8 buf
    → decode io buf ≡ ok (p, rest)
    → (wire : List ℕ) × (encode io (resize p) [] ≡ ok (tt, wire))
      × (decode io (wire ++ more) ≡ ok (resize p, unread p.payload ++ more))
      × (check io (wire ++ more) ≡ ok (length wire, more))
unfolding resize
decode-encode_resized io h buf p rest more bytes e = decode-encode io h (resize p) more (
    resize-IsRegular p (
      by_reference (λ io. decode io buf ≡ ok (p, rest) → IsPassable p) io h
        (decode-IsPassable buf p rest bytes) e))
