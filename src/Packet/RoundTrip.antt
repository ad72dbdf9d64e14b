-- ===== src/Packet/RoundTrip.antt =====
-- Decoding what was encoded (src/net/packet.rs): payloads, one lemma for each kind.
use mathlib.Core.List.{append_assoc}
use smo_multi_rs.Base.{
  ℕ, ◌≡◌, refl, ap, ◌∙◌, List, ◌++◌, Bool, true, false, not, arith, ℤ, length, replicate, ◌==◌,
}
use smo_multi_rs.Bytes.{le_bytes, le_value, of_signed, reference}
use smo_multi_rs.Bytes.Laws.{next_bytes-append}
use smo_multi_rs.Errors.{ok}
use smo_multi_rs.Packet.{
  PacketData, unhandled, init, player, cap, game, tag, connect, disconnect, costume, shine, capture,
  change_stage, command, udp_init, hole_punch, get_type_id, get_size, first_connection,
  reconnecting, time, state, ConnectionType, TagUpdate,
}
use smo_multi_rs.Packet.Decode.{
  decode_data, decode_init, decode_player, decode_cap, decode_game, decode_tag, decode_connect,
  decode_costume, decode_shine, decode_capture, decode_change_stage, decode_udp_init,
  decode_unhandled,
}
use smo_multi_rs.Packet.Encode.{bool_byte}
use smo_multi_rs.Packet.Fields.{
  le1, le2, signed1, signed4, decode_vector3-bytes, decode_quaternion-bytes, decode_weights-bytes,
  next_bytes-sized,
}
use smo_multi_rs.Packet.Format.{quaternion_bytes, weights_bytes, body}
use smo_multi_rs.Packet.Typed.{Fits, IsCanonical, unread}
use smo_multi_rs.Text.{str_to_sized_array}
use smo_multi_rs.Text.Laws.{
  IsName, buf_size_to_string-sized, from_utf8-eq, str_to_sized_array_padded,
}

-- `decode_data` reads the payload back, and leaves what follows it.
abbrev pub Reads : PacketData → List ℕ → Type 0
Reads d rest =
    decode_data reference (get_type_id d) (get_size d) (body d ++ rest) ≡ ok (d, unread d ++ rest)

-- The text of `cap` takes the first 32 of its 48 bytes.
cap_field : (anim : List ℕ) → length anim ≡ 32 → str_to_sized_array 48 anim ≡ anim ++ replicate 16 0
cap_field anim e =
    str_to_sized_array_padded 48 anim (omega arith)
    ∙ ap (λ k. anim ++ replicate k 0) {y = 16} (omega arith)

flag_byte : (b : Bool) → not (le_value (le_bytes 1 (bool_byte b)) == 0) ≡ b
flag_byte true = refl
flag_byte false = refl

module _ (rest : List ℕ) where
  init-Reads : (max_players : ℕ) → Fits (init max_players) → Reads (init max_players) rest
  unfolding decode_data decode_init get_type_id get_size body
  init-Reads max_players h = rw (le2 max_players h)

  udp_init-Reads : (port : ℕ) → Fits (udp_init port) → Reads (udp_init port) rest
  unfolding decode_data decode_udp_init get_type_id get_size body
  udp_init-Reads port h = rw (le2 port h)

  unhandled-Reads :
      (p_type : ℕ) (bytes : List ℕ)
      → IsCanonical (unhandled p_type bytes)
      → Reads (unhandled p_type bytes) rest
  unfolding decode_data decode_unhandled get_type_id get_size body
  unhandled-Reads p_type bytes h = ground (arith, next_bytes-append bytes rest)

  tag-Reads :
      (u : TagUpdate) (is_it : Bool) (seconds minutes : ℕ)
      → Fits (tag u is_it seconds minutes)
      → Reads (tag u is_it seconds minutes) rest
  unfolding decode_data decode_tag get_type_id get_size body
  tag-Reads time true seconds minutes h = rw (le1 seconds h.0, le2 minutes h.1)
  tag-Reads time false seconds minutes h = rw (le1 seconds h.0, le2 minutes h.1)
  tag-Reads state true seconds minutes h = rw (le1 seconds h.0, le2 minutes h.1)
  tag-Reads state false seconds minutes h = rw (le1 seconds h.0, le2 minutes h.1)

  game-Reads :
      (is_2d : Bool) (scenario_num : ℕ) (stage : List ℕ)
      → Fits (game is_2d scenario_num stage)
      → IsName 64 stage
      → Reads (game is_2d scenario_num stage) rest
  unfolding decode_data decode_game get_type_id get_size body
  game-Reads true n stage h c = rw (buf_size_to_string-sized 64 stage rest c, le1 n h)
  game-Reads false n stage h c = rw (buf_size_to_string-sized 64 stage rest c, le1 n h)

  connect-Reads :
      (t : ConnectionType) (max_player : ℕ) (name : List ℕ)
      → Fits (connect t max_player name)
      → IsName 32 name
      → Reads (connect t max_player name) rest
  unfolding decode_data decode_connect get_type_id get_size body
  connect-Reads first_connection n name h c = rw (buf_size_to_string-sized 32 name rest c, le2 n h)
  connect-Reads reconnecting n name h c = rw (buf_size_to_string-sized 32 name rest c, le2 n h)

  capture-Reads : (model : List ℕ) → IsName 32 model → Reads (capture model) rest
  unfolding decode_data decode_capture get_type_id get_size body
  capture-Reads model c = rw (buf_size_to_string-sized 32 model rest c)

  costume-Reads :
      (body_name cap_name : List ℕ)
      → IsName 32 body_name
      → IsName 32 cap_name
      → Reads (costume (record { body_name = body_name; cap_name = cap_name })) rest
  unfolding decode_data decode_costume get_type_id get_size body
  costume-Reads a b ha hb = rw (
    append_assoc,
    buf_size_to_string-sized 32 a (str_to_sized_array 32 b ++ rest) ha,
    buf_size_to_string-sized 32 b rest hb,
  )

  shine-Reads :
      (shine_id : ℤ) (is_grand : Bool)
      → Fits (shine shine_id is_grand)
      → Reads (shine shine_id is_grand) rest
  unfolding decode_data decode_shine get_type_id get_size body
  shine-Reads id true h = rw (signed4 id h)
  shine-Reads id false h = rw (signed4 id h)

  change_stage-Reads :
      (stage id : List ℕ) (scenerio : ℤ) (sub_scenario : ℕ)
      → Fits (change_stage stage id scenerio sub_scenario)
      → IsCanonical (change_stage stage id scenerio sub_scenario)
      → Reads (change_stage stage id scenerio sub_scenario) rest
  unfolding decode_data decode_change_stage get_type_id get_size body
  change_stage-Reads stage id s n h c =
      let after_id : List ℕ = le_bytes 1 (of_signed 0x80 s) ++ (le_bytes 1 n ++ rest) in
      rw (
        append_assoc,
        append_assoc,
        buf_size_to_string-sized 48 stage (str_to_sized_array 16 id ++ after_id) c.0,
        buf_size_to_string-sized 16 id after_id c.1,
        signed1 s h.0,
        le1 n h.1,
      )

  player-Reads :
      (pos : _) (rot : _) (weights : List ℕ) (act sub_act : ℕ)
      → Fits (player pos rot weights act sub_act)
      → Reads (player pos rot weights act sub_act) rest
  unfolding decode_data decode_player get_type_id get_size body
  player-Reads pos rot ws a b h =
      let after_weights : List ℕ = le_bytes 2 a ++ (le_bytes 2 b ++ rest) in
      rw (
        append_assoc (weights_bytes ws) (le_bytes 2 a ++ le_bytes 2 b) rest,
        decode_vector3-bytes pos (quaternion_bytes rot ++ (weights_bytes ws ++ after_weights)) h.0,
        decode_quaternion-bytes rot (weights_bytes ws ++ after_weights) h.1,
        decode_weights-bytes ws after_weights h.2 h.3,
        le2 a h.4,
        le2 b h.5,
      )

  cap-Reads :
      (pos : _) (rot : _) (cap_out : Bool) (anim : List ℕ)
      → Fits (cap pos rot cap_out anim)
      → IsCanonical (cap pos rot cap_out anim)
      → Reads (cap pos rot cap_out anim) rest
  unfolding decode_data decode_cap get_type_id get_size body
  cap-Reads pos rot b anim h c =
      let after_flag : List ℕ = anim ++ (replicate 16 0 ++ rest) in
      rw (
        cap_field anim c.0,
        append_assoc anim (replicate 16 0) rest,
        decode_vector3-bytes pos (quaternion_bytes rot ++ (le_bytes 1 (bool_byte b) ++ after_flag))
            h.0,
        decode_quaternion-bytes rot (le_bytes 1 (bool_byte b) ++ after_flag) h.1,
        next_bytes-sized 32 anim (replicate 16 0 ++ rest) c.0,
        from_utf8-eq anim (replicate 16 0 ++ rest) c.1,
        flag_byte b,
      )

-- The parser's match gives every payload back that fits its types and is canonical.
pub decode_data-body : (d : PacketData) (rest : List ℕ) → Fits d → IsCanonical d → Reads d rest
decode_data-body (unhandled p_type bytes) rest h c = unhandled-Reads rest p_type bytes c
decode_data-body (init max_players) rest h c = init-Reads rest max_players h
decode_data-body (player pos rot ws a b) rest h c = player-Reads rest pos rot ws a b h
decode_data-body (cap pos rot b anim) rest h c = cap-Reads rest pos rot b anim h c
decode_data-body (game b n stage) rest h c = game-Reads rest b n stage h c
decode_data-body (tag u b s m) rest h c = tag-Reads rest u b s m h
decode_data-body (connect t n name) rest h c = connect-Reads rest t n name h c
decode_data-body disconnect rest h c = unfold decode_data get_type_id body in refl
decode_data-body (costume x) rest h c = costume-Reads rest x.body_name x.cap_name c.0 c.1
decode_data-body (shine id b) rest h c = shine-Reads rest id b h
decode_data-body (capture model) rest h c = capture-Reads rest model c
decode_data-body (change_stage stage id s n) rest h c = change_stage-Reads rest stage id s n h c
decode_data-body command rest h c = unfold decode_data get_type_id body in refl
decode_data-body (udp_init port) rest h c = udp_init-Reads rest port h
decode_data-body hole_punch rest h c = absurd c
