-- ===== src/Tests/Formats.antt =====
-- The text of an identifier, and a value in the serde format.
use smo_multi_rs.Base.{
  ℕ, ◌+◌, ◌-◌, ◌*◌, ◌≡◌, refl, List, [], ◌∷◌, ◌&&◌, Bool-cases, inl, inr, Option, none, some, ltb,
  if◌then◌else◌, arith, pos,
}
use smo_multi_rs.Errors.{hex_conversion, err}
use smo_multi_rs.Guid.Display.{is_hex, fmt, from_str, RefusesOthers, from_str-fmt}
use smo_multi_rs.Serde.{reference, reference-IsScalars}
use smo_multi_rs.Serde.Deserializer.{Basic, Shape, basic}
use smo_multi_rs.Serde.RoundTrip.{of_scalar, of_newtype, Reads, deserialize-serialize}
use smo_multi_rs.Serde.Serializer.{i32, scalar, newtype_struct}
use smo_multi_rs.Tests.Samples.{hero, hero-IsGuid}

abbrev hex_value : ℕ → ℕ
hex_value c = if ltb c 58 then c - 48 else if ltb c 71 then c - 55 else c - 87

-- Two digits for each byte.
unfoldable from_hex : List ℕ → Option (List ℕ)
from_hex [] = some []
from_hex (a ∷ []) = none
from_hex (a ∷ b ∷ rest) =
    let after = from_hex rest in
    let read : Option (List ℕ) = elim after [
      | none ↦ none
      | some bs ↦ some ((hex_value a * 16 + hex_value b) ∷ bs)
    ] in
    if is_hex a && is_hex b then read else none

from_hex-RefusesOthers : RefusesOthers from_hex
unfolding from_hex
from_hex-RefusesOthers [] [] c h = refl
from_hex-RefusesOthers [] (b ∷ after) c h = rw h refl
from_hex-RefusesOthers (a ∷ []) after c h = elim (Bool-cases (is_hex a)) [
  | inl good ↦ rw (good, h) refl
  | inr bad ↦ rw bad refl
]
from_hex-RefusesOthers (a ∷ b ∷ before) after c h = elim (Bool-cases (is_hex a && is_hex b)) [
  | inl good ↦ rw (good, from_hex-RefusesOthers before after c h) refl
  | inr bad ↦ rw bad refl
]

from_str-fmt_example : from_str from_hex (fmt hero) ≡ err hex_conversion
from_str-fmt_example = from_str-fmt from_hex from_hex-RefusesOthers hero hero-IsGuid

deserialize-serialize_example :
    Reads reference
      (Shape.newtype_struct (basic Basic.i32))
      (newtype_struct (scalar (i32 (pos 70000))))
      (1 ∷ [])
deserialize-serialize_example =
    deserialize-serialize reference reference-IsScalars (Shape.newtype_struct (basic Basic.i32))
      (newtype_struct (scalar (i32 (pos 70000)))) (1 ∷ [])
      (of_newtype (basic Basic.i32) (scalar (i32 (pos 70000)))
        (of_scalar (i32 (pos 70000)) (omega arith)))
