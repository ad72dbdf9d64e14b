-- ===== src/Packet/Readable.antt =====
-- src/net/packet.rs: what the parser's match makes of bytes can be printed and read back.
use smo_multi_rs.Base.{
  ℕ, ◌<◌, ◌≡◌, refl, List, Bool, true, false, ◌==◌, arith, length, if◌then◌else◌, ◌⊎◌, ap,
}
use smo_multi_rs.Bytes.{Coder, reference, next_bytes, get_le, ◌>>=◌, pure}
use smo_multi_rs.Packet.{
  PacketData, unhandled, init, player, cap, game, tag, connect, disconnect, costume, shine, capture,
  change_stage, command, udp_init, get_size, time, state, first_connection, reconnecting,
}
use smo_multi_rs.Packet.Decode.{
  get_bool, decode_weights, decode_data, decode_init, decode_player, decode_cap, decode_game,
  decode_tag, decode_connect, decode_costume, decode_shine, decode_capture, decode_change_stage,
  decode_udp_init, decode_unhandled,
}
use smo_multi_rs.Packet.Typed.{
  IsU8, IsU16, IsF32, IsSigned, IsVector, IsQuaternion, Fits, IsCanonical,
}
use smo_multi_rs.Packet.Yields.{
  Yields, Any, AreBytes, AreFloats, then_yields, pure_yields, next_bytes_yields, get-IsU8_yields,
  get_u16_yields, get_u32_yields, get_i8_yields, get_i32_yields, get_bool_yields, from_utf8_yields,
  text_yields, vector3_yields, IsQuaternion-yields, weights_yields,
}
use smo_multi_rs.Geometry.{decode_vector3, decode_quaternion}
use smo_multi_rs.Text.{from_utf8, buf_size_to_string}
use smo_multi_rs.Text.Laws.{IsUtf8, IsName}

-- A payload that the printer's size field can count and that reads back.
pub record IsReadable (d : PacketData) : Type 0 where
  pub fits : Fits d
  pub canonical : IsCanonical d
  pub small : IsU16 (get_size d)

module _ {B : Type 0} (Q : B → Type 0) where
  u8 : (f : ℕ → Coder B) → ((v : ℕ) → IsU8 v → Yields Q (f v)) → Yields Q (get_le 1 >>= f)
  u8 f = then_yields IsU8 Q (get_le 1) f get-IsU8_yields

  u16 : (f : ℕ → Coder B) → ((v : ℕ) → IsU16 v → Yields Q (f v)) → Yields Q (get_le 2 >>= f)
  u16 f = then_yields IsU16 Q (get_le 2) f get_u16_yields

  u32 : (f : ℕ → Coder B) → ((v : ℕ) → IsF32 v → Yields Q (f v)) → Yields Q (get_le 4 >>= f)
  u32 f = then_yields IsF32 Q (get_le 4) f get_u32_yields

  flag :
      (f : Bool → Coder B)
      → ((b : Bool) → Any b → Yields Q (f b))
      → Yields Q (get_bool reference >>= f)
  flag f = then_yields Any Q (get_bool reference) f get_bool_yields

  text :
      (n : ℕ) (f : List ℕ → Coder B)
      → ((s : List ℕ) → IsName n s → Yields Q (f s))
      → Yields Q (buf_size_to_string reference n >>= f)
  text n f = then_yields (IsName n) Q (buf_size_to_string reference n) f (text_yields n)

-- The end of an arm.
made : (d : PacketData) → Fits d → IsCanonical d → IsU16 (get_size d) → Yields IsReadable (pure d)
made d f c s = pure_yields IsReadable d (record { fits = f; canonical = c; small = s })

init_yields : Yields IsReadable (decode_init reference)
unfolding decode_init get_size
init_yields = u16 IsReadable _ λ v h. made (init v) h tt (omega arith)

player_yields : Yields IsReadable (decode_player reference)
unfolding decode_player get_size
player_yields = then_yields IsVector IsReadable (decode_vector3 reference) _ vector3_yields λ p hp.
    then_yields IsQuaternion IsReadable (decode_quaternion reference) _ IsQuaternion-yields λ q hq.
      then_yields (AreFloats 6) IsReadable (decode_weights reference 6) _ (weights_yields 6)
        λ ws hw. u16 IsReadable _ λ a ha.
          u16 IsReadable _
            λ b hb. made (player p q ws a b) (hp, hq, hw.0, hw.1, ha, hb) tt (omega arith)

cap_yields : Yields IsReadable (decode_cap reference)
unfolding decode_cap get_size
cap_yields = then_yields IsVector IsReadable (decode_vector3 reference) _ vector3_yields λ p hp.
    then_yields IsQuaternion IsReadable (decode_quaternion reference) _ IsQuaternion-yields λ q hq.
      flag IsReadable _ λ b _.
        then_yields (AreBytes 32) IsReadable (next_bytes 32) _ (next_bytes_yields 32) λ bs hb.
          then_yields (λ s. (s ≡ bs) × IsUtf8 s) IsReadable (from_utf8 bs) _ (from_utf8_yields bs)
            λ s hs.
              made (cap p q b s) (hp, hq) (omega (arith, hb.0, ap length hs.0), hs.1) (omega arith)

game_yields : Yields IsReadable (decode_game reference)
unfolding decode_game get_size
game_yields = flag IsReadable _ λ b _.
    u8 IsReadable _ λ n hn. text IsReadable 64 _ λ s hs. made (game b n s) hn hs (omega arith)

tag_yields : Yields IsReadable (decode_tag reference)
unfolding decode_tag get_size
tag_yields = u8 IsReadable _ λ u _. flag IsReadable _ λ b _. u8 IsReadable _ λ s hs.
    u16 IsReadable _
      λ m hm. made (tag (if u == 1 then time else state) b s m) (hs, hm) tt (omega arith)

connect_yields : Yields IsReadable (decode_connect reference)
unfolding decode_connect get_size
connect_yields = u32 IsReadable _ λ t _. u16 IsReadable _ λ m hm. text IsReadable 32 _ λ s hs.
    made (connect (if t == 0 then first_connection else reconnecting) m s) hm hs (omega arith)

costume_yields : Yields IsReadable (decode_costume reference)
unfolding decode_costume get_size
costume_yields = text IsReadable 32 _ λ a ha.
    text IsReadable 32 _
      λ b hb. made (costume (record { body_name = a; cap_name = b })) tt (ha, hb) (omega arith)

shine_yields : Yields IsReadable (decode_shine reference)
unfolding decode_shine get_size
shine_yields =
    then_yields (IsSigned 0x8000_0000) IsReadable reference.get_i32_le _ get_i32_yields
      λ v hv. flag IsReadable _ λ b _. made (shine v b) hv tt (omega arith)

capture_yields : Yields IsReadable (decode_capture reference)
unfolding decode_capture get_size
capture_yields = text IsReadable 32 _ λ s hs. made (capture s) tt hs (omega arith)

change_stage_yields : Yields IsReadable (decode_change_stage reference)
unfolding decode_change_stage get_size
change_stage_yields = text IsReadable 48 _ λ a ha. text IsReadable 16 _ λ b hb.
    then_yields (IsSigned 0x80) IsReadable reference.get_i8 _ get_i8_yields
      λ v hv. u8 IsReadable _ λ n hn. made (change_stage a b v n) (hv, hn) (ha, hb) (omega arith)

udp_init_yields : Yields IsReadable (decode_udp_init reference)
unfolding decode_udp_init get_size
udp_init_yields = u16 IsReadable _ λ v h. made (udp_init v) h tt (omega arith)

unhandled_yields :
    (t n : ℕ)
    → IsU16 t
    → IsU16 n
    → (t ≡ 0) ⊎ (13 < t)
    → Yields IsReadable (decode_unhandled reference t n)
unfolding decode_unhandled get_size
unhandled_yields t n ht hn other =
    then_yields (AreBytes n) IsReadable (next_bytes n) _ (next_bytes_yields n)
      λ bs q. made (unhandled t bs) (ht, q.1) other (omega (arith, q.0))

if_yields :
    {A : Type 0} (Q : A → Type 0) (b : Bool) (m k : Coder A)
    → Yields Q m
    → ((b ≡ false) → Yields Q k)
    → Yields Q (if b then m else k)
if_yields Q true m k h h' = h
if_yields Q false m k h h' = h' refl

pub decode_data_yields :
    (t n : ℕ) → IsU16 t → IsU16 n → Yields IsReadable (decode_data reference t n)
unfolding decode_data get_size
decode_data_yields t n ht hn = if_yields IsReadable (t == 1) _ _ init_yields λ n1.
    if_yields IsReadable (t == 2) _ _ player_yields λ n2.
      if_yields IsReadable (t == 3) _ _ cap_yields λ n3.
        if_yields IsReadable (t == 4) _ _ game_yields λ n4.
          if_yields IsReadable (t == 5) _ _ tag_yields λ n5.
            if_yields IsReadable (t == 6) _ _ connect_yields λ n6.
              if_yields IsReadable (t == 7) _ _ (made disconnect tt tt (omega arith)) λ n7.
                if_yields IsReadable (t == 8) _ _ costume_yields λ n8.
                  if_yields IsReadable (t == 9) _ _ shine_yields λ n9.
                    if_yields IsReadable (t == 10) _ _ capture_yields λ n10.
                      if_yields IsReadable (t == 11) _ _ change_stage_yields λ n11.
                        if_yields IsReadable (t == 12) _ _ (made command tt tt (omega arith)) λ n12.
                          if_yields IsReadable (t == 13) _ _ udp_init_yields
                            λ n13. unhandled_yields t n ht hn (ground arith)
