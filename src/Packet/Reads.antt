-- ===== src/Packet/Reads.antt =====
-- Readers of src/net/packet.rs, on buffers whose bytes are of one kind, with what may be said of the
-- errors that they return.
use smo_multi_rs.Base.{ℕ, zero, suc, ◌≡◌, refl, ap, List, [], ◌∷◌, All, length}
use smo_multi_rs.Bytes.{Coder, next_bytes, then_on, ◌>>=◌, pure}
use smo_multi_rs.Errors.{EncodingError, Outcome, ok, err, panic}

module _ (IsByte : ℕ → Type 0) (Fails : EncodingError → Type 0) where
  -- A run that made a value with `Q` and left such bytes, or failed with such an error, or panicked.
  abbrev pub Good : {A : Type 0} → (A → Type 0) → Outcome EncodingError (A × List ℕ) → Type 0
  Good Q (ok (a, rest)) = Q a × All IsByte rest
  Good Q (err e) = Fails e
  Good Q panic = Unit {0}

  abbrev pub Reads : {A : Type 0} → (A → Type 0) → Coder A → Type 0
  Reads Q m = (buf : List ℕ) → All IsByte buf → Good Q (m buf)

  Good-then :
      {A B : Type 0} (P : A → Type 0) (Q : B → Type 0) (f : A → Coder B)
      (r : Outcome EncodingError (A × List ℕ))
      → Good P r
      → ((a : A) → P a → Reads Q (f a))
      → Good Q (then_on r f)
  Good-then P Q f (ok (a, rest)) h k = k a h.0 rest h.1
  Good-then P Q f (err e) h k = h
  Good-then P Q f panic h k = tt

  pub then_reads :
      {A B : Type 0} (P : A → Type 0) (Q : B → Type 0) (m : Coder A) (f : A → Coder B)
      → Reads P m
      → ((a : A) → P a → Reads Q (f a))
      → Reads Q (m >>= f)
  then_reads P Q m f t k buf h = Good-then P Q f (m buf) (t buf h) k

  pub pure_reads : {A : Type 0} (Q : A → Type 0) (a : A) → Q a → Reads Q (pure a)
  pure_reads Q a q buf h = (q, h)

  -- As many bytes as were asked for.
  abbrev pub AreBytes : ℕ → List ℕ → Type 0
  AreBytes n bs = (length bs ≡ n) × All IsByte bs

  pub next_bytes_reads : (n : ℕ) → Reads (AreBytes n) (next_bytes n)
  next_bytes_reads zero buf h = ((refl, tt), h)
  next_bytes_reads (suc n) [] h = tt
  next_bytes_reads (suc n) (b ∷ buf) h =
      Good-then (AreBytes n) (AreBytes (suc n)) (λ bs. pure (b ∷ bs)) (next_bytes n buf)
        (next_bytes_reads n buf h.1) (λ bs q rest g. ((ap suc q.0, (h.0, q.1)), g))
