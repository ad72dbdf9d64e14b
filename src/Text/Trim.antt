-- ===== src/Text/Trim.antt =====
-- What `buf_size_to_string` makes is a text that its field can hold again.
use smo_multi_rs.Base.{
  ℕ, zero, suc, ◌≤◌, ◌<◌, ◌≡◌, refl, ap, subst, ◌∙◌, List, [], ◌∷◌, true, Option, none, some, arith,
  length, ◌==◌, ==_iff, Bool-cases, inl, inr,
}
use smo_multi_rs.Text.{
  Utf8State, boundary, inside, first_byte, next_state, utf8_step, utf8_run, trim_start, cons_kept,
  trim_end, trim_nul,
}
use smo_multi_rs.Text.Laws.{IsUtf8, IsName}

length-trim_start : (bs : List ℕ) → length (trim_start bs) ≤ length bs
unfolding trim_start
length-trim_start [] = omega arith
length-trim_start (b ∷ bs) = ground (arith, length-trim_start bs)

length-cons_kept : (b : ℕ) (bs : List ℕ) → length (cons_kept b bs) ≤ suc (length bs)
unfolding cons_kept
length-cons_kept b [] = ground arith
length-cons_kept b (c ∷ cs) = omega arith

length-trim_end : (bs : List ℕ) → length (trim_end bs) ≤ length bs
unfolding trim_end
length-trim_end [] = omega arith
length-trim_end (b ∷ bs) = omega (arith, length-cons_kept b (trim_end bs), length-trim_end bs)

trim_start_idem : (bs : List ℕ) → trim_start (trim_start bs) ≡ trim_start bs
unfolding trim_start
trim_start_idem [] = refl
trim_start_idem (b ∷ bs) = ground (arith, trim_start_idem bs)

trim_end-cons_kept :
    (b : ℕ) (bs : List ℕ) → trim_end bs ≡ bs → trim_end (cons_kept b bs) ≡ cons_kept b bs
unfolding trim_end cons_kept
trim_end-cons_kept b [] h = ground arith
trim_end-cons_kept b (c ∷ cs) h = rw h refl

trim_end_idem : (bs : List ℕ) → trim_end (trim_end bs) ≡ trim_end bs
unfolding trim_end
trim_end_idem [] = refl
trim_end_idem (b ∷ bs) = trim_end-cons_kept b (trim_end bs) (trim_end_idem bs)

trim_end_start-cons_kept :
    (b : ℕ) (t : List ℕ)
    → trim_end t ≡ t
    → trim_end (trim_start t) ≡ trim_start t
    → trim_end (trim_start (cons_kept b t)) ≡ trim_start (cons_kept b t)
unfolding trim_start trim_end cons_kept
trim_end_start-cons_kept b [] h ih = ground arith
trim_end_start-cons_kept b (c ∷ cs) h ih = elim (Bool-cases (b == 0)) [
  | inl e ↦ rw e ih
  | inr e ↦ rw (e, h) refl
]

-- Without zeros at the end it stays so when zeros at the start go.
trim_end-trim_start : (bs : List ℕ) → trim_end (trim_start (trim_end bs)) ≡ trim_start (trim_end bs)
unfolding trim_start trim_end
trim_end-trim_start [] = refl
trim_end-trim_start (b ∷ bs) =
    trim_end_start-cons_kept b (trim_end bs) (trim_end_idem bs) (trim_end-trim_start bs)

trim_nul_idem : (bs : List ℕ) → trim_nul (trim_nul bs) ≡ trim_nul bs
unfolding trim_nul
trim_nul_idem bs = ap trim_start (trim_end-trim_start bs) ∙ trim_start_idem (trim_end bs)

-- Zeros at the start are characters of their own.
utf8_run-trim_start :
    (bs : List ℕ)
    → utf8_run (some boundary) bs ≡ true
    → utf8_run (some boundary) (trim_start bs) ≡ true
unfolding utf8_run trim_start
utf8_run-trim_start [] h = refl
utf8_run-trim_start (b ∷ bs) h = elim (Bool-cases (b == 0)) [
  | inl e ↦ rw e (
      utf8_run-trim_start bs
        (subst (λ c. utf8_run (some boundary) (c ∷ bs) ≡ true) ((==_iff b 0).0 e) h))
  | inr e ↦ rw e h
]

-- In no state that is reached a continuation byte may be zero.
abbrev IsState : Option Utf8State → Type 0
IsState none = Unit {0}
IsState (some boundary) = Unit {0}
IsState (some (inside lo hi more)) = 0 < lo

step-IsState : (s : Utf8State) (b : ℕ) → IsState (utf8_step s b)
unfolding utf8_step first_byte next_state
step-IsState boundary b = ground arith
step-IsState (inside lo hi zero) b = ground arith
step-IsState (inside lo hi (suc more)) b = ground arith

no_zero :
    (lo hi more b : ℕ) → 0 < lo → b ≡ 0 → ¬ (utf8_run (utf8_step (inside lo hi more) b) [] ≡ true)
unfolding utf8_run utf8_step
no_zero lo hi more b w e h = ground arith

utf8_run-cons_kept :
    (s : Utf8State) (b : ℕ) (bs : List ℕ)
    → IsState (some s)
    → utf8_run (utf8_step s b) bs ≡ true
    → utf8_run (some s) (cons_kept b bs) ≡ true
unfolding utf8_run cons_kept
utf8_run-cons_kept boundary b [] w h = elim (Bool-cases (b == 0)) [
  | inl e ↦ rw e refl
  | inr e ↦ rw e h
]
utf8_run-cons_kept boundary b (c ∷ cs) w h = h
utf8_run-cons_kept (inside lo hi more) b [] w h = elim (Bool-cases (b == 0)) [
  | inl e ↦ absurd (no_zero lo hi more b w ((==_iff b 0).0 e) h)
  | inr e ↦ rw e h
]
utf8_run-cons_kept (inside lo hi more) b (c ∷ cs) w h = h

utf8_run-trim_end :
    (s : Option Utf8State) (bs : List ℕ)
    → IsState s
    → utf8_run s bs ≡ true
    → utf8_run s (trim_end bs) ≡ true
unfolding utf8_run trim_end
utf8_run-trim_end none bs w h = cc
utf8_run-trim_end (some boundary) [] w h = h
utf8_run-trim_end (some (inside lo hi more)) [] w h = h
utf8_run-trim_end (some boundary) (b ∷ bs) w h =
    utf8_run-cons_kept boundary b (trim_end bs) w
      (utf8_run-trim_end (utf8_step boundary b) bs (step-IsState boundary b) h)
utf8_run-trim_end (some (inside lo hi more)) (b ∷ bs) w h =
    utf8_run-cons_kept (inside lo hi more) b (trim_end bs) w (
      utf8_run-trim_end (utf8_step (inside lo hi more) b) bs (step-IsState (inside lo hi more) b) h)

-- What is left of a valid text of `n` bytes when the zeros at both ends go.
pub trim_nul-IsName : (n : ℕ) (bs : List ℕ) → length bs ≤ n → IsUtf8 bs → IsName n (trim_nul bs)
unfolding trim_nul
trim_nul-IsName n bs h valid = record {
  fits = omega (arith, length-trim_start (trim_end bs), length-trim_end bs);
  valid = utf8_run-trim_start (trim_end bs) (utf8_run-trim_end (some boundary) bs tt valid);
  trimmed = (unfold trim_nul in trim_nul_idem bs);
}
