-- ===== src/Bytes/Laws.antt =====
-- Reading and writing through the interface, and why the reference implementation is enough.
use smo_multi_rs.Base.{
  ℕ, zero, suc, ◌<◌, ◌≡◌, refl, sym, subst, List, [], ◌∷◌, ◌++◌, arith, length, take, drop, ◌≤◌,
}
use smo_multi_rs.Bytes.{Bytes, IsBytes, reference, next_bytes}
use smo_multi_rs.Errors.{ok, panic}

pub reference-IsBytes : IsBytes reference
reference-IsBytes = record {
  get_u8_lem = λ _. refl;
  get_i8_lem = λ _. refl;
  get_u16_le_lem = λ _. refl;
  get_u32_le_lem = λ _. refl;
  get_i32_le_lem = λ _. refl;
  get_f32_le_lem = λ _. refl;
  copy_to_bytes_lem = λ _ _. refl;
  advance_lem = λ _ _. refl;
  put_u8_lem = λ _ _. refl;
  put_i8_lem = λ _ _. refl;
  put_u16_le_lem = λ _ _. refl;
  put_u32_le_lem = λ _ _. refl;
  put_i32_le_lem = λ _ _. refl;
  put_f32_le_lem = λ _ _. refl;
  put_slice_lem = λ _ _. refl;
}

-- The documented behaviour determines every call.
pub IsBytes-eq : (io : Bytes) → IsBytes io → reference ≡ io
IsBytes-eq io h = λ i. record {
  get_u8 = λ b. sym (h.get_u8_lem b) i;
  get_i8 = λ b. sym (h.get_i8_lem b) i;
  get_u16_le = λ b. sym (h.get_u16_le_lem b) i;
  get_u32_le = λ b. sym (h.get_u32_le_lem b) i;
  get_i32_le = λ b. sym (h.get_i32_le_lem b) i;
  get_f32_le = λ b. sym (h.get_f32_le_lem b) i;
  copy_to_bytes = λ n b. sym (h.copy_to_bytes_lem n b) i;
  advance = λ n b. sym (h.advance_lem n b) i;
  put_u8 = λ n b. sym (h.put_u8_lem n b) i;
  put_i8 = λ n b. sym (h.put_i8_lem n b) i;
  put_u16_le = λ n b. sym (h.put_u16_le_lem n b) i;
  put_u32_le = λ n b. sym (h.put_u32_le_lem n b) i;
  put_i32_le = λ n b. sym (h.put_i32_le_lem n b) i;
  put_f32_le = λ n b. sym (h.put_f32_le_lem n b) i;
  put_slice = λ n b. sym (h.put_slice_lem n b) i;
}

-- What holds of the reference implementation holds of every other.
pub by_reference {ℓ} : (P : Bytes → Type ℓ) (io : Bytes) → IsBytes io → P reference → P io
by_reference P io h = subst P (IsBytes-eq io h)

-- A read takes the bytes that were written in front.
pub next_bytes-append : (bs rest : List ℕ) → next_bytes (length bs) (bs ++ rest) ≡ ok (bs, rest)
next_bytes-append [] rest = refl
next_bytes-append (b ∷ bs) rest = rw (next_bytes-append bs rest)

pub next_bytes-take :
    (n : ℕ) (buf : List ℕ) → n ≤ length buf → next_bytes n buf ≡ ok (take n buf, drop n buf)
next_bytes-take zero buf h = refl
next_bytes-take (suc n) [] h = absurd (omega arith)
next_bytes-take (suc n) (b ∷ buf) h = rw (next_bytes-take n buf (omega arith))

pub next_bytes-short : (n : ℕ) (buf : List ℕ) → length buf < n → next_bytes n buf ≡ panic
next_bytes-short zero buf h = absurd (omega arith)
next_bytes-short (suc n) [] h = refl
next_bytes-short (suc n) (b ∷ buf) h = rw (next_bytes-short n buf (omega arith))
