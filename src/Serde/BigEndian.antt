-- ===== src/Serde/BigEndian.antt =====
-- Big-endian numbers are read back as they were written.
use smo_multi_rs.Base.{
  ℕ, zero, suc, ◌+◌, ◌*◌, ◌/◌, ◌%◌, ◌^◌, ◌<◌, ◌≤◌, ◌-◌, ◌≡◌, refl, ap, subst, ge→ltb, lt→ltb, List,
  [], ◌∷◌, ◌++◌, length, length-append, arith, ℤ, pos, negsuc,
}
use native.Mathlib.Numerals.{unary_clauses}
use smo_multi_rs.Bytes.{next_bytes, to_signed, of_signed}
use smo_multi_rs.Bytes.Laws.{next_bytes-append}
use smo_multi_rs.Errors.{ok}
use smo_multi_rs.Packet.Typed.{IsSigned}
use smo_multi_rs.Serde.{be_bytes, be_value_from, be_value, half, get_be, get_int}

be_value_from-snoc :
    (v : ℕ) (bs : List ℕ) (b : ℕ) → be_value_from v (bs ++ (b ∷ [])) ≡ be_value_from v bs * 256 + b
be_value_from-snoc v [] b = refl
be_value_from-snoc v (c ∷ bs) b = be_value_from-snoc (v * 256 + c) bs b

pub be_value-be_bytes : (n v : ℕ) → v < 256 ^ n → be_value (be_bytes n v) ≡ v
be_value-be_bytes zero v h = omega (arith, simp unary_clauses at h)
be_value-be_bytes (suc n) v h =
    let less : v < 256 ^ n * 256 = simp unary_clauses at h in
    rw
      (
        be_value_from-snoc 0 (be_bytes n (v / 256)) (v % 256),
        be_value-be_bytes n (v / 256) (omega (arith, less)),
      )
      (omega arith)

length-be_bytes : (n v : ℕ) → length (be_bytes n v) ≡ n
length-be_bytes zero v = refl
length-be_bytes (suc n) v =
    omega (arith, length-append (be_bytes n (v / 256)) (v % 256 ∷ []), length-be_bytes n (v / 256))

pub get_be-be_bytes :
    (n v : ℕ) (rest : List ℕ) → v < 256 ^ n → get_be n (be_bytes n v ++ rest) ≡ ok (v, rest)
get_be-be_bytes n v rest h =
    rw
      (
        subst (λ k. next_bytes k (be_bytes n v ++ rest) ≡ ok (be_bytes n v, rest))
            (length-be_bytes n v) (next_bytes-append (be_bytes n v) rest),
        be_value-be_bytes n v h,
      )
      refl

to_signed-of_signed : (h : ℕ) (v : ℤ) → IsSigned h v → to_signed h (of_signed h v) ≡ v
to_signed-of_signed h (pos n) small = rw (lt→ltb n h small) refl
to_signed-of_signed h (negsuc n) small =
    rw (ge→ltb (h + h - 1 - n) h (omega arith)) (ap negsuc (omega arith))

of_signed-bound : (h : ℕ) (v : ℤ) → IsSigned h v → of_signed h v < h + h
of_signed-bound h (pos n) small = omega arith
of_signed-bound h (negsuc n) small = omega arith

-- An integer whose width has two halves.
pub get_int-be_bytes :
    (n : ℕ) (v : ℤ) (rest : List ℕ)
    → half n + half n ≤ 256 ^ n
    → IsSigned (half n) v
    → get_int n (be_bytes n (of_signed (half n) v) ++ rest) ≡ ok (v, rest)
get_int-be_bytes n v rest w h =
    rw
      (
        get_be-be_bytes n (of_signed (half n) v) rest
            (omega (arith, of_signed-bound (half n) v h, w)),
        to_signed-of_signed (half n) v h,
      )
      refl
