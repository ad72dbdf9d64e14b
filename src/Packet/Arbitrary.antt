-- ===== src/Packet/Arbitrary.antt =====
-- src/net/packet.rs: the generator of packets for tests, `impl Arbitrary for Packet`. The bytes that
-- it draws are a function of how many were drawn before; the choice of the tag is an argument.
pub mod Laws
use smo_multi_rs.Base.{
  ℕ, zero, suc, ◌+◌, ◌*◌, ◌%◌, ◌^◌, List, [], ◌∷◌, Option, none, some, ◌==◌, if◌then◌else◌, map,
}
use smo_multi_rs.Bytes.{Bytes, Coder, ◌>>◌, pure}
use smo_multi_rs.Errors.{EncodingError, Outcome, ok, err, panic}
use smo_multi_rs.Packet.{
  Packet, costume_name_size, client_name_size, stage_id_size, stage_change_name_size,
}
use smo_multi_rs.Packet.Decode.{decode}

-- The match on the tag.
unfoldable pub generated_size : ℕ → ℕ
generated_size enum_num =
    if enum_num == 1
    then 2
    else if enum_num == 2
    then 0x38
    else if enum_num == 3
    then 0x50
    else if enum_num == 4
    then 0x42
    else if enum_num == 5
    then 6
    else if enum_num == 6
    then 6 + client_name_size + 2
    else if enum_num == 7
    then 0
    else if enum_num == 8
    then costume_name_size * 2
    else if enum_num == 9
    then 4
    else if enum_num == 10
    then costume_name_size
    else if enum_num == 11
    then stage_id_size + stage_change_name_size + 2
    else if enum_num == 12
    then 0
    else if enum_num == 13
    then 2
    else 0

-- As many bytes as asked for, of those that come after the first `i`.
abbrev pub draw : (ℕ → ℕ) → ℕ → ℕ → List ℕ
draw g i zero = []
draw g i (suc n) = g i ∷ draw g (suc i) n

packet_of : Outcome EncodingError (Packet × List ℕ) → Option Packet
packet_of (ok (p, rest)) = some p
packet_of (err e) = none
packet_of panic = none

packet_in : Bytes → Outcome EncodingError (Unit {0} × List ℕ) → Option Packet
unfolding packet_of
packet_in io (ok (_, buff)) = packet_of (decode io buff)
packet_in io (err e) = none
packet_in io panic = none

module _ (io : Bytes) where
  open io use {put_u8, put_u16_le}

  abbrev pub put_all : List ℕ → Coder (Unit {0})
  put_all [] = pure tt
  put_all (b ∷ bs) = put_u8 b >> put_all bs

  unfoldable pub generate : (ℕ → ℕ) → ℕ → Coder (Unit {0})
  unfolding generated_size
  generate g enum_num = do
    put_all (draw g 0 16)
    put_u16_le enum_num
    put_u16_le (generated_size enum_num % 2 ^ 16)
    put_all (map (λ b. b % 128) (draw g 16 (generated_size enum_num)))

  -- `none` is a panic: the result of `decode` is packet_of.
  unfoldable pub arbitrary : (ℕ → ℕ) → ℕ → Option Packet
  unfolding packet_in generate
  arbitrary g enum_num = packet_in io (generate g enum_num [])
