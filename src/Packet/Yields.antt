-- ===== src/Packet/Yields.antt =====
-- What a reader of src/net/packet.rs makes of a buffer of bytes, where it does not fail.
use smo_multi_rs.Base.{
  ℕ, zero, suc, ◌+◌, ◌<◌, ◌≡◌, refl, List, [], ◌∷◌, not, ◌==◌, arith, length, All, ap, Bool-cases,
  inl, inr, some,
}
use smo_multi_rs.Bytes.{Coder, reference, next_bytes, get_le, to_signed, ◌>>=◌, pure}
use smo_multi_rs.Errors.{EncodingError, Outcome}
use smo_multi_rs.Geometry.{decode_vector3, decode_quaternion}
use smo_multi_rs.Packet.Decode.{get_bool, decode_weights}
use smo_multi_rs.Packet.Reads as Reads
use smo_multi_rs.Packet.Typed.{IsU8, IsU16, IsF32, IsSigned, IsVector, IsQuaternion}
use smo_multi_rs.Text.{boundary, utf8_run, from_utf8, buf_size_to_string}
use smo_multi_rs.Text.Laws.{IsUtf8, IsName}
use smo_multi_rs.Text.Trim.{trim_nul-IsName}

-- What may be said of an error: nothing.
abbrev Fails : EncodingError → Type 0
Fails e = Unit {0}

-- A run that, if it did not fail, made a value with `Q` and left bytes.
abbrev pub Good : {A : Type 0} → (A → Type 0) → Outcome EncodingError (A × List ℕ) → Type 0
Good Q r = Reads.Good IsU8 Fails Q r

abbrev pub Yields : {A : Type 0} → (A → Type 0) → Coder A → Type 0
Yields Q m = Reads.Reads IsU8 Fails Q m

pub then_yields :
    {A B : Type 0} (P : A → Type 0) (Q : B → Type 0) (m : Coder A) (f : A → Coder B)
    → Yields P m
    → ((a : A) → P a → Yields Q (f a))
    → Yields Q (m >>= f)
then_yields P Q m f = Reads.then_reads IsU8 Fails P Q m f

pub pure_yields : {A : Type 0} (Q : A → Type 0) (a : A) → Q a → Yields Q (pure a)
pure_yields Q a q = Reads.pure_reads IsU8 Fails Q a q

abbrev pub AreBytes : ℕ → List ℕ → Type 0
AreBytes n bs = Reads.AreBytes IsU8 Fails n bs

pub next_bytes_yields : (n : ℕ) → Yields (AreBytes n) (next_bytes n)
next_bytes_yields n = Reads.next_bytes_reads IsU8 Fails n

pub get-IsU8_yields : Yields IsU8 (get_le 1)
get-IsU8_yields [] h = tt
get-IsU8_yields (a ∷ buf) h = (omega (arith, h.0), h.1)

pub get_u16_yields : Yields IsU16 (get_le 2)
get_u16_yields [] h = tt
get_u16_yields (a ∷ []) h = tt
get_u16_yields (a ∷ b ∷ buf) h = (omega (arith, h.0, h.1.0), h.1.1)

pub get_u32_yields : Yields IsF32 (get_le 4)
get_u32_yields [] h = tt
get_u32_yields (a ∷ []) h = tt
get_u32_yields (a ∷ b ∷ []) h = tt
get_u32_yields (a ∷ b ∷ c ∷ []) h = tt
get_u32_yields (a ∷ b ∷ c ∷ d ∷ buf) h = (omega (arith, h.0, h.1.0, h.1.1.0, h.1.1.1.0), h.1.1.1.1)

to_signed-IsSigned : (half w : ℕ) → w < half + half → IsSigned half (to_signed half w)
to_signed-IsSigned half w h = ground arith

pub get_i8_yields : Yields (IsSigned 0x80) reference.get_i8
get_i8_yields = then_yields IsU8 (IsSigned 0x80) (get_le 1) _ get-IsU8_yields λ w h.
    pure_yields (IsSigned 0x80) (to_signed 0x80 w) (to_signed-IsSigned 0x80 w (omega (arith, h)))

pub get_i32_yields : Yields (IsSigned 0x8000_0000) reference.get_i32_le
get_i32_yields = then_yields IsF32 (IsSigned 0x8000_0000) (get_le 4) _ get_u32_yields λ w h.
    pure_yields (IsSigned 0x8000_0000) (to_signed 0x8000_0000 w)
      (to_signed-IsSigned 0x8000_0000 w (omega (arith, h)))

abbrev pub Any : {A : Type 0} → A → Type 0
Any a = Unit {0}

pub get_bool_yields : Yields Any (get_bool reference)
get_bool_yields =
    then_yields IsU8 Any (get_le 1) _ get-IsU8_yields λ w h. pure_yields Any (not (w == 0)) tt

pub from_utf8_yields : (bs : List ℕ) → Yields (λ s. (s ≡ bs) × IsUtf8 s) (from_utf8 bs)
unfolding from_utf8
from_utf8_yields bs buf h = elim (Bool-cases (utf8_run (some boundary) bs)) [
  | inl valid ↦ rw valid ((refl, valid), h)
  | inr bad ↦ rw bad tt
]

pub text_yields : (n : ℕ) → Yields (IsName n) (buf_size_to_string reference n)
unfolding buf_size_to_string
text_yields n = then_yields (AreBytes n) (IsName n) (next_bytes n) _ (next_bytes_yields n) λ bs q.
    then_yields (λ s. (s ≡ bs) × IsUtf8 s) (IsName n) (from_utf8 bs) _ (from_utf8_yields bs)
      λ s v. pure_yields (IsName n) _ (trim_nul-IsName n s (omega (arith, q.0, ap length v.0)) v.1)

pub vector3_yields : Yields IsVector (decode_vector3 reference)
unfolding decode_vector3
vector3_yields = then_yields IsF32 IsVector (get_le 4) _ get_u32_yields λ x hx.
    then_yields IsF32 IsVector (get_le 4) _ get_u32_yields λ y hy.
      then_yields IsF32 IsVector (get_le 4) _ get_u32_yields
        λ z hz. pure_yields IsVector (record { x = x; y = y; z = z }) (hx, hy, hz)

pub IsQuaternion-yields : Yields IsQuaternion (decode_quaternion reference)
unfolding decode_quaternion
IsQuaternion-yields = then_yields IsF32 IsQuaternion (get_le 4) _ get_u32_yields λ w hw.
    then_yields IsF32 IsQuaternion (get_le 4) _ get_u32_yields λ i hi.
      then_yields IsF32 IsQuaternion (get_le 4) _ get_u32_yields λ j hj.
        then_yields IsF32 IsQuaternion (get_le 4) _ get_u32_yields
          λ k hk. pure_yields IsQuaternion (record { w = w; i = i; j = j; k = k }) (hw, hi, hj, hk)

abbrev pub AreFloats : ℕ → List ℕ → Type 0
AreFloats n ws = All IsF32 ws × (length ws ≡ n)

pub weights_yields : (n : ℕ) → Yields (AreFloats n) (decode_weights reference n)
unfolding decode_weights
weights_yields zero = pure_yields (AreFloats 0) [] (tt, refl)
weights_yields (suc n) = then_yields IsF32 (AreFloats (suc n)) (get_le 4) _ get_u32_yields λ w hw.
    then_yields (AreFloats n) (AreFloats (suc n)) (decode_weights reference n) _ (weights_yields n)
      λ ws q. pure_yields (AreFloats (suc n)) (w ∷ ws) ((hw, q.0), omega (arith, q.1))
