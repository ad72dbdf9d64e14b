-- ===== src/Packet/Frame.antt =====
-- Whole packets in a buffer (src/net/packet.rs): what `check` says of every buffer, and `decode` on
-- an encoded packet.
use mathlib.Core.List.{append_assoc}
use native.Mathlib.Decide.{dec_lt}
use smo_multi_rs.Base.{
  ℕ, suc, zero, ◌+◌, ◌-◌, ◌≡◌, ◌<◌, ◌≤◌, refl, List, [], ◌∷◌, ◌++◌, arith, length, length-append,
  length-drop, drop-append, take-append, drop-append_le, take, drop, ◌∙◌, sym, ap, ltb, ge→ltb,
  lt→ltb, tests, Bool-cases, inl, inr, subst, if◌then◌else◌,
}
use smo_multi_rs.Bytes.{le_bytes, le_value, reference, ◌>>=◌, ◌>>◌, fail_if, remaining, pure}
use smo_multi_rs.Bytes.Laws.{next_bytes-take}
use smo_multi_rs.Errors.{EncodingError, not_enough_data, Outcome, ok, err}
use smo_multi_rs.Guid.{Guid}
use smo_multi_rs.Packet.{Packet, PacketData, check, get_size, get_type_id}
use smo_multi_rs.Packet.Decode.{decode, skip_padding}
use smo_multi_rs.Packet.Fields.{le2}
use smo_multi_rs.Packet.Format.{frame, body}
use smo_multi_rs.Packet.Header.{decode-header}
use smo_multi_rs.Packet.RoundTrip.{decode_data-body}
use smo_multi_rs.Packet.Size.{length-body, length-frame, get_type_id-IsU16}
use smo_multi_rs.Packet.Typed.{IsU16, IsRegular, Fits, IsCanonical, unread}

-- The size field of a header, in the bytes 18 and 19.
abbrev pub announced : List ℕ → ℕ
announced buf = le_value (take 2 (drop 18 buf))

-- The first `n` bytes are there to take, and are taken.
abbrev pub whole_or_none : ℕ → List ℕ → Outcome EncodingError (ℕ × List ℕ)
whole_or_none n buf = if ltb (length buf) n then err not_enough_data else ok (n, drop n buf)

drop_nil : (n : ℕ) → drop {A = ℕ} n [] ≡ []
drop_nil zero = refl
drop_nil (suc n) = refl

pub drop-drop : (m n : ℕ) (xs : List ℕ) → drop n (drop m xs) ≡ drop (m + n) xs
drop-drop zero n xs = ap (λ k. drop k xs) {y = 0 + n} (omega arith)
drop-drop (suc m) n [] = drop_nil n ∙ sym (drop_nil (suc m + n))
drop-drop (suc m) n (x ∷ xs) =
    drop-drop m n xs ∙ ap (λ k. drop k (x ∷ xs)) {x = suc (m + n)} {y = suc m + n} (omega arith)

length-drop_whole : (n : ℕ) (buf : List ℕ) → n ≤ length buf → length buf - length (drop n buf) ≡ n
length-drop_whole n buf h = omega (arith, length-drop n buf)

-- The rest of `check`, with the size read and twenty bytes gone.
check_body :
    (size : ℕ) (buf : List ℕ)
    → 20 ≤ length buf
    → (fail_if (ltb (length (drop 20 buf)) size) not_enough_data
          >> (reference.advance size >> (remaining >>= λ rest. pure (length buf - rest))))
        (drop 20 buf)
      ≡ whole_or_none (20 + size) buf
check_body size buf h = elim (Bool-cases (ltb (length buf) (20 + size))) [
  | inl cut ↦ rw (lt→ltb (length (drop 20 buf)) size (omega (tests, length-drop 20 buf, cut)), cut)
  | inr all ↦
      let enough : 20 + size ≤ length buf = ground (arith, all) in
      rw (
        all,
        ge→ltb (length (drop 20 buf)) size (omega (arith, length-drop 20 buf)),
        next_bytes-take size (drop 20 buf) (omega (arith, length-drop 20 buf)),
        drop-drop 20 size buf,
        length-drop_whole (20 + size) buf enough,
      )
]

check_whole :
    (buf : List ℕ) → 20 ≤ length buf → check reference buf ≡ whole_or_none (20 + announced buf) buf
unfolding check
check_whole buf h =
    rw
      (
        ge→ltb (length buf) 20 h,
        next_bytes-take 18 buf (omega arith),
        next_bytes-take 2 (drop 18 buf) (omega (arith, length-drop 18 buf)),
        drop-drop 18 2 buf,
      )
      (check_body (announced buf) buf h)

check_short : (buf : List ℕ) → length buf < 20 → check reference buf ≡ err not_enough_data
unfolding check
check_short buf h = rw (lt→ltb (length buf) 20 h)

decode-frame' :
    (g : Guid) (n : ℕ) (d : PacketData) (rest : List ℕ)
    → length g.id ≡ 16
    → n ≡ get_size d
    → IsU16 n
    → Fits d
    → IsCanonical d
    → let p : Packet = record { id = g; data_size = n; payload = d } in
      decode reference (frame p ++ rest) ≡ ok (p, unread d ++ rest)
unfolding frame skip_padding
decode-frame' g n d rest sized e small fits c =
    let header-eq =
      decode-header g.id (get_type_id d) n sized (get_type_id-IsU16 d fits) small (body d ++ rest)
        (omega (arith, length-append (body d) rest, length-body d fits)) in
    rw (
      append_assoc g.id _ rest,
      header-eq,
      e,
      decode_data-body d rest fits c,
      ge→ltb (get_size d) (get_size d) (omega arith),
      ge→ltb 0 (get_size d - get_size d) (omega arith),
    )

-- A prefix of twenty bytes decides the announced size.
pub announced-append :
    (front back : List ℕ) → 20 ≤ length front → announced (front ++ back) ≡ announced front
announced-append front back h = rw (
  drop-append_le 18 front back (omega arith),
  take-append 2 (drop 18 front) back (omega (arith, length-drop 18 front)),
)

pub past_id : (id rest : List ℕ) → length id ≡ 16 → drop 18 (id ++ rest) ≡ drop 2 rest
past_id id rest sized =
    sym (drop-drop 16 2 (id ++ rest))
    ∙ ap (drop 2) (subst (λ n. drop n (id ++ rest) ≡ rest) sized (drop-append id rest))

pub announced-frame :
    (p : Packet) (rest : List ℕ)
    → length p.id.id ≡ 16
    → IsU16 p.data_size
    → announced (frame p ++ rest) ≡ p.data_size
unfolding frame
announced-frame p rest sized small =
    let tail : List ℕ = le_bytes 2 p.data_size ++ body p.payload in
    rw
      (
        append_assoc p.id.id (le_bytes 2 (get_type_id p.payload) ++ tail) rest,
        past_id p.id.id ((le_bytes 2 (get_type_id p.payload) ++ tail) ++ rest) sized,
      )
      (le2 p.data_size small)

-- A buffer that begins with a whole packet: a header, and as many bytes as it announces.
abbrev pub IsWhole : List ℕ → Type 0
IsWhole buf = (20 ≤ length buf) × (20 + announced buf ≤ length buf)

pub check-IsWhole :
    (buf : List ℕ)
    → IsWhole buf
    → check reference buf ≡ ok (20 + announced buf, drop (20 + announced buf) buf)
check-IsWhole buf (h, enough) =
    check_whole buf h ∙ rw (ge→ltb (length buf) (20 + announced buf) enough)

pub check-partial : (buf : List ℕ) → ¬ IsWhole buf → check reference buf ≡ err not_enough_data
check-partial buf cut = elim (dec_lt (length buf) 20) [
  | yes few ↦ check_short buf few
  | no h ↦ elim (dec_lt (length buf) (20 + announced buf)) [
    | yes q ↦ check_whole buf (omega arith) ∙ rw (lt→ltb (length buf) (20 + announced buf) q)
    | no q ↦ absurd (cut (omega arith, omega arith))
  ]
]

pub decode-frame :
    (p : Packet) (rest : List ℕ)
    → IsRegular p
    → decode reference (frame p ++ rest) ≡ ok (p, unread p.payload ++ rest)
decode-frame p rest r =
    decode-frame' p.id p.data_size p.payload rest r.guid.sized r.sized r.small r.fits r.canonical

pub check-frame :
    (p : Packet) (rest : List ℕ)
    → IsRegular p
    → check reference (frame p ++ rest) ≡ ok (length (frame p), rest)
check-frame p rest r =
    let size = announced-frame p rest r.guid.sized r.small in
    let long : length (frame p) ≡ 20 + p.data_size =
      length-frame p r.guid.sized r.fits ∙ ap (λ n. 20 + n) (sym r.sized) in
    let whole : IsWhole (frame p ++ rest) = omega (arith, length-append (frame p) rest) in
    check-IsWhole (frame p ++ rest) whole ∙ rw (size, ← long, drop-append (frame p) rest)

pub length-frame_regular : (p : Packet) → IsRegular p → length (frame p) ≡ 20 + p.data_size
length-frame_regular p r = length-frame p r.guid.sized r.fits ∙ ap (λ n. 20 + n) (sym r.sized)
