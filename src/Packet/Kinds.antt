-- ===== src/Packet/Kinds.antt =====
-- src/net/packet.rs: what each arm of the parser's match takes from the buffer, and the size of what
-- it makes.
use smo_multi_rs.Base.{
  ℕ, suc, zero, ◌+◌, ◌*◌, subst, ◌≡◌, refl, List, [], ◌∷◌, arith, length-drop, length-take_le, Bool,
  true, false, ◌==◌, if◌then◌else◌, not,
}
use smo_multi_rs.Bytes.{Coder, reference, next_bytes, get_le, ◌>>=◌, to_signed}
use smo_multi_rs.Bytes.Laws.{next_bytes-take}
use smo_multi_rs.Geometry.{Vector3, Quaternion, decode_vector3, decode_quaternion}
use smo_multi_rs.Packet.{
  PacketData, init, player, cap, game, tag, connect, disconnect, costume, shine, capture,
  change_stage, command, udp_init, get_size, time, state, first_connection, reconnecting,
}
use smo_multi_rs.Packet.Decode.{
  get_bool, decode_weights, decode_data, decode_init, decode_player, decode_cap, decode_game,
  decode_tag, decode_connect, decode_costume, decode_shine, decode_capture, decode_change_stage,
  decode_udp_init, decode_unhandled,
}
use smo_multi_rs.Packet.Takes.{
  Takes, Any, then_takes, pure_takes, get_le_takes, field_takes, next_bytes-Any, from_utf8_takes,
  text_takes,
}
use smo_multi_rs.Text.{from_utf8, buf_size_to_string}

abbrev pub Sized : ℕ → PacketData → Type 0
Sized n d = get_size d ≡ n

-- A reader of a payload of the size `n`, which takes `k` bytes.
abbrev pub Makes : ℕ → ℕ → Coder PacketData → Type 0
Makes k n m = Takes k (Sized n) m

module _ {B : Type 0} (k : ℕ) (Q : B → Type 0) where
  -- A little-endian number, and what follows.
  word : (n : ℕ) (f : ℕ → Coder B) → ((v : ℕ) → Takes k Q (f v)) → Takes (n + k) Q (get_le n >>= f)
  word n f t = then_takes n k Q (get_le n) f (get_le_takes n) t

  flag :
      (f : Bool → Coder B)
      → ((b : Bool) → Takes k Q (f b))
      → Takes (1 + k) Q (get_bool reference >>= f)
  flag f t = then_takes 1 k Q (get_bool reference) f (field_takes 1 (λ v. not (v == 0))) t

  text :
      (n : ℕ) (f : List ℕ → Coder B)
      → ((s : List ℕ) → Takes k Q (f s))
      → Takes (n + k) Q (buf_size_to_string reference n >>= f)
  text n f t = then_takes n k Q (buf_size_to_string reference n) f (text_takes n) t

decode_vector3_takes : Takes 12 Any (decode_vector3 reference)
unfolding decode_vector3
decode_vector3_takes = word 8 Any 4 _ λ x.
    word 4 Any 4 _
      λ y. word 0 Any 4 _ λ z. pure_takes {A = Vector3} Any (record { x = x; y = y; z = z }) tt

decode_quaternion_takes : Takes 16 Any (decode_quaternion reference)
unfolding decode_quaternion
decode_quaternion_takes = word 12 Any 4 _ λ w. word 8 Any 4 _ λ i. word 4 Any 4 _ λ j.
    word 0 Any 4 _ λ k. pure_takes {A = Quaternion} Any (record { w = w; i = i; j = j; k = k }) tt

weights_takes : (n : ℕ) → Takes (4 * n) Any (decode_weights reference n)
unfolding decode_weights
weights_takes zero = pure_takes {A = List ℕ} Any [] tt
weights_takes (suc n) =
    subst (λ k. Takes k Any (decode_weights reference (suc n))) {x = 4 + (4 * n + 0)} (omega arith)
      (word (4 * n + 0) Any 4 _ λ w.
        then_takes (4 * n) 0 Any (decode_weights reference n) _ (weights_takes n)
          λ ws. pure_takes Any (w ∷ ws) tt)

module _ {B : Type 0} (k : ℕ) (Q : B → Type 0) where
  vector :
      (f : Vector3 → Coder B)
      → ((v : Vector3) → Takes k Q (f v))
      → Takes (12 + k) Q (decode_vector3 reference >>= f)
  vector f t = then_takes 12 k Q (decode_vector3 reference) f decode_vector3_takes t

  quaternion :
      (f : Quaternion → Coder B)
      → ((q : Quaternion) → Takes k Q (f q))
      → Takes (16 + k) Q (decode_quaternion reference >>= f)
  quaternion f t = then_takes 16 k Q (decode_quaternion reference) f decode_quaternion_takes t

decode_init-Makes : Makes 2 2 (decode_init reference)
unfolding decode_init get_size
decode_init-Makes = word 0 (Sized 2) 2 _ λ v. pure_takes (Sized 2) (init v) refl

decode_player-Makes : Makes 56 56 (decode_player reference)
unfolding decode_player get_size
decode_player-Makes = vector 44 (Sized 56) _ λ p. quaternion 28 (Sized 56) _ λ q.
    then_takes 24 4 (Sized 56) (decode_weights reference 6) _ (weights_takes 6) λ ws.
      word 2 (Sized 56) 2 _
        λ a. word 0 (Sized 56) 2 _ λ b. pure_takes (Sized 56) (player p q ws a b) refl

-- It takes sixteen bytes less than its size.
decode_cap-Makes : Makes 61 77 (decode_cap reference)
unfolding decode_cap get_size
decode_cap-Makes = vector 49 (Sized 77) _ λ p. quaternion 33 (Sized 77) _ λ q.
    flag 32 (Sized 77) _ λ b. then_takes 32 0 (Sized 77) (next_bytes 32) _ (next_bytes-Any 32) λ bs.
      then_takes 0 0 (Sized 77) (from_utf8 bs) _ (from_utf8_takes bs)
        λ s. pure_takes (Sized 77) (cap p q b s) refl

decode_game-Makes : Makes 66 66 (decode_game reference)
unfolding decode_game get_size
decode_game-Makes = flag 65 (Sized 66) _ λ b.
    word 64 (Sized 66) 1 _ λ n. text 0 (Sized 66) 64 _ λ s. pure_takes (Sized 66) (game b n s) refl

decode_tag-Makes : Makes 5 5 (decode_tag reference)
unfolding decode_tag get_size
decode_tag-Makes = word 4 (Sized 5) 1 _ λ u. flag 3 (Sized 5) _ λ b. word 2 (Sized 5) 1 _ λ s.
    word 0 (Sized 5) 2 _ λ m. pure_takes (Sized 5) (tag (if u == 1 then time else state) b s m) refl

decode_connect-Makes : Makes 38 38 (decode_connect reference)
unfolding decode_connect get_size
decode_connect-Makes = word 34 (Sized 38) 4 _ λ t. word 32 (Sized 38) 2 _ λ m.
    text 0 (Sized 38) 32 _ λ s.
      pure_takes (Sized 38) (connect (if t == 0 then first_connection else reconnecting) m s) refl

decode_costume-Makes : Makes 64 64 (decode_costume reference)
unfolding decode_costume get_size
decode_costume-Makes = text 32 (Sized 64) 32 _ λ a.
    text 0 (Sized 64) 32 _
      λ b. pure_takes (Sized 64) (costume (record { body_name = a; cap_name = b })) refl

decode_shine-Makes : Makes 5 5 (decode_shine reference)
unfolding decode_shine get_size
decode_shine-Makes =
    then_takes 4 1 (Sized 5) reference.get_i32_le _ (field_takes 4 (to_signed 0x8000_0000))
      λ v. flag 0 (Sized 5) _ λ b. pure_takes (Sized 5) (shine v b) refl

decode_capture-Makes : Makes 32 32 (decode_capture reference)
unfolding decode_capture get_size
decode_capture-Makes = text 0 (Sized 32) 32 _ λ s. pure_takes (Sized 32) (capture s) refl

decode_change_stage-Makes : Makes 66 66 (decode_change_stage reference)
unfolding decode_change_stage get_size
decode_change_stage-Makes = text 18 (Sized 66) 48 _ λ a. text 2 (Sized 66) 16 _ λ b.
    then_takes 1 1 (Sized 66) reference.get_i8 _ (field_takes 1 (to_signed 0x80))
      λ v. word 0 (Sized 66) 1 _ λ n. pure_takes (Sized 66) (change_stage a b v n) refl

decode_udp_init-Makes : Makes 2 2 (decode_udp_init reference)
unfolding decode_udp_init get_size
decode_udp_init-Makes = word 0 (Sized 2) 2 _ λ v. pure_takes (Sized 2) (udp_init v) refl

decode_unhandled-Makes : (t n : ℕ) → Makes n n (decode_unhandled reference t n)
unfolding decode_unhandled get_size
decode_unhandled-Makes t n buf h =
    rw (next_bytes-take n buf h) (length-take_le n buf h, omega (arith, length-drop n buf))

-- The size of the payload of a tag, and the bytes that its reader takes; `p_size` is announced.
unfoldable pub kind_size : ℕ → ℕ → ℕ
kind_size p_type p_size =
    if p_type == 1
    then 2
    else if p_type == 2
    then 56
    else if p_type == 3
    then 77
    else if p_type == 4
    then 66
    else if p_type == 5
    then 5
    else if p_type == 6
    then 38
    else if p_type == 7
    then 0
    else if p_type == 8
    then 64
    else if p_type == 9
    then 5
    else if p_type == 10
    then 32
    else if p_type == 11
    then 66
    else if p_type == 12
    then 0
    else if p_type == 13
    then 2
    else p_size

unfoldable pub kind_takes : ℕ → ℕ → ℕ
kind_takes p_type p_size =
    if p_type == 1
    then 2
    else if p_type == 2
    then 56
    else if p_type == 3
    then 61
    else if p_type == 4
    then 66
    else if p_type == 5
    then 5
    else if p_type == 6
    then 38
    else if p_type == 7
    then 0
    else if p_type == 8
    then 64
    else if p_type == 9
    then 5
    else if p_type == 10
    then 32
    else if p_type == 11
    then 66
    else if p_type == 12
    then 0
    else if p_type == 13
    then 2
    else p_size

if_Makes :
    (b : Bool) (k n k' n' : ℕ) (m m' : Coder PacketData)
    → Makes k n m
    → Makes k' n' m'
    → Makes (if b then k else k') (if b then n else n') (if b then m else m')
if_Makes true k n k' n' m m' h h' = h
if_Makes false k n k' n' m m' h h' = h'

-- The parser's match, with as many bytes in the buffer as the tag's reader takes.
pub decode_data-Makes :
    (t n : ℕ) → Makes (kind_takes t n) (kind_size t n) (decode_data reference t n)
unfolding decode_data kind_takes kind_size get_size
decode_data-Makes t n = if_Makes (t == 1) _ _ _ _ _ _ decode_init-Makes (
    if_Makes (t == 2) _ _ _ _ _ _ decode_player-Makes (
      if_Makes (t == 3) _ _ _ _ _ _ decode_cap-Makes (
        if_Makes (t == 4) _ _ _ _ _ _ decode_game-Makes (
          if_Makes (t == 5) _ _ _ _ _ _ decode_tag-Makes (
            if_Makes (t == 6) _ _ _ _ _ _ decode_connect-Makes (
              if_Makes (t == 7) _ _ _ _ _ _ (pure_takes (Sized 0) disconnect refl) (
                if_Makes (t == 8) _ _ _ _ _ _ decode_costume-Makes (
                  if_Makes (t == 9) _ _ _ _ _ _ decode_shine-Makes (
                    if_Makes (t == 10) _ _ _ _ _ _ decode_capture-Makes (
                      if_Makes (t == 11) _ _ _ _ _ _ decode_change_stage-Makes (
                        if_Makes (t == 12) _ _ _ _ _ _ (pure_takes (Sized 0) command refl) (
                          if_Makes (t == 13) _ _ _ _ _ _ decode_udp_init-Makes
                            (decode_unhandled-Makes t n)))))))))))))
