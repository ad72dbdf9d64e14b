-- ===== src/Packet/Header.antt =====
-- `decode` and `check` on a buffer that begins with a whole header (src/net/packet.rs).
use smo_multi_rs.Base.{ℕ, ◌≡◌, ◌≤◌, List, ◌++◌, arith, length, length-append, ge→ltb}
use smo_multi_rs.Bytes.{le_bytes, reference, ◌>>=◌, ◌>>◌, pure, Coder}
use smo_multi_rs.Packet.{Packet}
use smo_multi_rs.Packet.Decode.{decode, decode_data, skip_padding}
use smo_multi_rs.Packet.Fields.{le2, next_bytes-sized}
use smo_multi_rs.Packet.Typed.{IsU16}

-- The sixteen bytes of an identifier, a tag and a size.
abbrev pub header : List ℕ → ℕ → ℕ → List ℕ
header id p_type p_size = id ++ (le_bytes 2 p_type ++ le_bytes 2 p_size)

-- What `decode` does once the header is read.
abbrev pub decode_rest : List ℕ → ℕ → ℕ → Coder Packet
decode_rest id p_type p_size = do
  d ← decode_data reference p_type p_size
  skip_padding reference p_size d
  pure (record { id = record { id = id }; data_size = p_size; payload = d })

module _ (id : List ℕ) (p_type p_size : ℕ) (sized : length id ≡ 16) (t : IsU16 p_type)
    (s : IsU16 p_size) (buf : List ℕ) where
  pub decode-header :
      p_size ≤ length buf
      → decode reference (id ++ (le_bytes 2 p_type ++ (le_bytes 2 p_size ++ buf)))
        ≡ decode_rest id p_type p_size buf
  unfolding decode
  decode-header h =
      let rest : List ℕ = le_bytes 2 p_type ++ (le_bytes 2 p_size ++ buf) in
      rw (
        ge→ltb (length (id ++ rest)) 20 (omega (arith, length-append id rest)),
        next_bytes-sized 16 id rest sized,
        le2 p_type t,
        le2 p_size s,
        ge→ltb (length buf) p_size h,
      )
