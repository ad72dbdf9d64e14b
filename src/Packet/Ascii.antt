-- ===== src/Packet/Ascii.antt =====
-- The readers of src/net/packet.rs on ASCII bytes: no text fails.
use smo_multi_rs.Base.{
  ℕ, zero, suc, ◌≡◌, List, [], ◌∷◌, Bool, true, false, ◌==◌, not, All, if◌then◌else◌, ℤ,
}
use smo_multi_rs.Bytes.{Coder, reference, next_bytes, get_le, le_value, to_signed, ◌>>=◌, pure}
use smo_multi_rs.Errors.{EncodingError, bad_utf8, Outcome}
use smo_multi_rs.Geometry.{Vector3, Quaternion, decode_vector3, decode_quaternion}
use smo_multi_rs.Packet.{
  PacketData, init, player, cap, game, tag, connect, disconnect, costume, shine, capture,
  change_stage, command, udp_init, unhandled, time, state, first_connection, reconnecting,
}
use smo_multi_rs.Packet.Decode.{
  get_bool, decode_weights, decode_data, decode_init, decode_player, decode_cap, decode_game,
  decode_tag, decode_connect, decode_costume, decode_shine, decode_capture, decode_change_stage,
  decode_udp_init, decode_unhandled,
}
use smo_multi_rs.Packet.Reads as Reads
use smo_multi_rs.Text.{trim_nul, from_utf8, buf_size_to_string}
use smo_multi_rs.Text.Laws.{IsAscii, IsUtf8-run-ascii}

abbrev pub NotText : EncodingError → Type 0
NotText e = ¬ (e ≡ bad_utf8)

-- A run that did not fail at a text, and left ASCII bytes if it did not fail.
abbrev pub Fresh : {A : Type 0} → (A → Type 0) → Outcome EncodingError (A × List ℕ) → Type 0
Fresh P r = Reads.Good IsAscii NotText P r

abbrev pub Plain : {A : Type 0} → (A → Type 0) → Coder A → Type 0
Plain P m = Reads.Reads IsAscii NotText P m

abbrev pub Any : {A : Type 0} → A → Type 0
Any a = Unit {0}

then_plain :
    {A B : Type 0} (P : A → Type 0) (Q : B → Type 0) (m : Coder A) (f : A → Coder B)
    → Plain P m
    → ((a : A) → P a → Plain Q (f a))
    → Plain Q (m >>= f)
then_plain P Q m f = Reads.then_reads IsAscii NotText P Q m f

pure_plain : {A : Type 0} (Q : A → Type 0) (a : A) → Q a → Plain Q (pure a)
pure_plain Q a q = Reads.pure_reads IsAscii NotText Q a q

abbrev AreAscii : ℕ → List ℕ → Type 0
AreAscii n bs = Reads.AreBytes IsAscii NotText n bs

next_bytes_plain : (n : ℕ) → Plain (AreAscii n) (next_bytes n)
next_bytes_plain n = Reads.next_bytes_reads IsAscii NotText n

get_le_plain : (n : ℕ) → Plain Any (get_le n)
get_le_plain n =
    then_plain (AreAscii n) Any (next_bytes n) _ (next_bytes_plain n)
      λ bs _. pure_plain {A = ℕ} Any (le_value bs) tt

from_utf8_plain : (bs : List ℕ) → All IsAscii bs → Plain Any (from_utf8 bs)
unfolding from_utf8
from_utf8_plain bs h buf g = rw (IsUtf8-run-ascii bs h) (tt, g)

text_plain : (n : ℕ) → Plain Any (buf_size_to_string reference n)
unfolding buf_size_to_string
text_plain n = then_plain (AreAscii n) Any (next_bytes n) _ (next_bytes_plain n) λ bs q.
    then_plain Any Any (from_utf8 bs) _ (from_utf8_plain bs q.1)
      λ s _. pure_plain {A = List ℕ} Any (trim_nul s) tt

module _ {B : Type 0} where
  word : (n : ℕ) (f : ℕ → Coder B) → ((v : ℕ) → Plain Any (f v)) → Plain Any (get_le n >>= f)
  word n f h = then_plain Any Any (get_le n) f (get_le_plain n) λ v _. h v

  text :
      (n : ℕ) (f : List ℕ → Coder B)
      → ((s : List ℕ) → Plain Any (f s))
      → Plain Any (buf_size_to_string reference n >>= f)
  text n f h = then_plain Any Any (buf_size_to_string reference n) f (text_plain n) λ s _. h s

  flag :
      (f : Bool → Coder B) → ((b : Bool) → Plain Any (f b)) → Plain Any (get_bool reference >>= f)
  flag f h =
      then_plain Any Any (get_bool reference) f
        (then_plain Any Any (get_le 1) _ (get_le_plain 1)
          λ v _. pure_plain {A = Bool} Any (not (v == 0)) tt)
        λ b _. h b

done : {A : Type 0} (a : A) → Plain Any (pure a)
done a = pure_plain Any a tt

place : Plain Any (decode_vector3 reference)
unfolding decode_vector3
place =
    word 4 _ λ x. word 4 _ λ y. word 4 _ λ z. done {A = Vector3} (record { x = x; y = y; z = z })

rotation : Plain Any (decode_quaternion reference)
unfolding decode_quaternion
rotation = word 4 _ λ w.
    word 4 _
      λ i. word 4 _ λ j. word 4 _ λ k. done {A = Quaternion} (record { w = w; i = i; j = j; k = k })

weights : (n : ℕ) → Plain Any (decode_weights reference n)
unfolding decode_weights
weights zero = done {A = List ℕ} []
weights (suc n) = word 4 _ λ w.
    then_plain Any Any (decode_weights reference n) _ (weights n) λ ws _. done {A = List ℕ} (w ∷ ws)

signed : (n half : ℕ) → Plain Any (get_le n >>= λ w. pure (to_signed half w))
signed n half = word n _ λ w. done {A = ℤ} (to_signed half w)

player_plain : Plain Any (decode_player reference)
unfolding decode_player
player_plain = then_plain Any Any (decode_vector3 reference) _ place λ pos _.
    then_plain Any Any (decode_quaternion reference) _ rotation λ rot _.
      then_plain Any Any (decode_weights reference 6) _ (weights 6)
        λ ws _. word 2 _ λ act. word 2 _ λ sub_act. done (player pos rot ws act sub_act)

cap_plain : Plain Any (decode_cap reference)
unfolding decode_cap
cap_plain = then_plain Any Any (decode_vector3 reference) _ place λ pos _.
    then_plain Any Any (decode_quaternion reference) _ rotation λ rot _. flag _ λ b.
      then_plain (AreAscii 32) Any (next_bytes 32) _ (next_bytes_plain 32) λ bs h.
        then_plain Any Any (from_utf8 bs) _ (from_utf8_plain bs h.1) λ s _. done (cap pos rot b s)

game_plain : Plain Any (decode_game reference)
unfolding decode_game
game_plain = flag _ λ b. word 1 _ λ n. text 64 _ λ s. done (game b n s)

tag_plain : Plain Any (decode_tag reference)
unfolding decode_tag
tag_plain =
    word 1 _
      λ t. flag _ λ b. word 1 _ λ s. word 2 _ λ m. done (tag (if t == 1 then time else state) b s m)

connect_plain : Plain Any (decode_connect reference)
unfolding decode_connect
connect_plain = word 4 _ λ t.
    word 2 _
      λ n. text 32 _ λ s. done (connect (if t == 0 then first_connection else reconnecting) n s)

costume_plain : Plain Any (decode_costume reference)
unfolding decode_costume
costume_plain =
    text 32 _ λ b. text 32 _ λ c. done (costume (record { body_name = b; cap_name = c }))

shine_plain : Plain Any (decode_shine reference)
unfolding decode_shine
shine_plain =
    then_plain Any Any (get_le 4 >>= λ w. pure (to_signed 0x8000_0000 w)) _ (signed 4 0x8000_0000)
      λ i _. flag _ λ g. done (shine i g)

change_stage_plain : Plain Any (decode_change_stage reference)
unfolding decode_change_stage
change_stage_plain = text 48 _ λ stage. text 16 _ λ id.
    then_plain Any Any (get_le 1 >>= λ w. pure (to_signed 0x80 w)) _ (signed 1 0x80)
      λ s _. word 1 _ λ n. done (change_stage stage id s n)

if_plain :
    (b : Bool) (m k : Coder PacketData) → Plain Any m → Plain Any k → Plain Any (if b then m else k)
if_plain true m k h h' = h
if_plain false m k h h' = h'

pub decode_data_plain : (t n : ℕ) → Plain Any (decode_data reference t n)
unfolding decode_data decode_init decode_capture decode_udp_init decode_unhandled
decode_data_plain t n = if_plain (t == 1) _ _ (word 2 _ λ v. done (init v)) (
    if_plain (t == 2) _ _ player_plain (
      if_plain (t == 3) _ _ cap_plain (
        if_plain (t == 4) _ _ game_plain (
          if_plain (t == 5) _ _ tag_plain (
            if_plain (t == 6) _ _ connect_plain (
              if_plain (t == 7) _ _ (done disconnect) (
                if_plain (t == 8) _ _ costume_plain (
                  if_plain (t == 9) _ _ shine_plain (
                    if_plain (t == 10) _ _ (text 32 _ λ s. done (capture s)) (
                      if_plain (t == 11) _ _ change_stage_plain (
                        if_plain (t == 12) _ _ (done command) (
                          if_plain (t == 13) _ _ (word 2 _ λ v. done (udp_init v)) (
                            then_plain (AreAscii n) Any (next_bytes n) _ (next_bytes_plain n)
                              λ bs _. done (unhandled t bs))))))))))))))
