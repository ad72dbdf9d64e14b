-- ===== src/Serde/Utf8.antt =====
-- `char::to_string` and `char::from_u32` of the standard library, as src/net/serializer.rs and
-- src/net/deserializer.rs use them.
use smo_multi_rs.Base.{ℕ, ◌+◌, ◌/◌, ◌%◌, List, [], ◌∷◌, Bool, ltb, not, ◌&&◌, ◌||◌, if◌then◌else◌}

abbrev pub tail_byte : ℕ → ℕ
tail_byte c = 0x80 + c % 64

abbrev pub char_utf8 : ℕ → List ℕ
char_utf8 c =
    if ltb c 0x80
    then c ∷ []
    else if ltb c 0x800
    then (0xc0 + c / 64) ∷ tail_byte c ∷ []
    else if ltb c 0x1_0000
    then (0xe0 + c / 4096) ∷ tail_byte (c / 64) ∷ tail_byte c ∷ []
    else (0xf0 + c / 262144) ∷ tail_byte (c / 4096) ∷ tail_byte (c / 64) ∷ tail_byte c ∷ []

-- The numbers that `from_u32` takes.
abbrev pub is_char : ℕ → Bool
is_char c = ltb c 0xd800 || (not (ltb c 0xe000) && ltb c 0x11_0000)
