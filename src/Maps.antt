-- ===== src/Maps.antt =====
-- The standard library's `HashMap<Guid, V>` and `HashSet<i32>`, as the lists of what an iteration
-- over them visits. Their order is unspecified, so that no theorem rests on where `insert` puts a key.
use smo_multi_rs.Base.{
  ◌+◌, ◌≡◌, ◌≤◌, refl, List, [], ◌∷◌, Bool, true, false, not, Option, none, some, arith, length,
  if◌then◌else◌, ◌==◌, ◌||◌, ◌&&◌, All, Bool-cases, inl, inr, ℤ, pos, negsuc,
}
use smo_multi_rs.Guid.{Guid, guid_eq, guid_eq_iff, guid_eq_refl}

abbrev pub Map : Type 0 → Type 0
Map V = List (Guid × V)

module _ {V : Type 0} where
  unfoldable pub lookup : Guid → Map V → Option V
  lookup g [] = none
  lookup g ((k, v) ∷ m) = if guid_eq k g then some v else lookup g m

  unfoldable pub insert : Guid → V → Map V → Map V
  insert g v [] = (g, v) ∷ []
  insert g v ((k, w) ∷ m) = if guid_eq k g then (k, v) ∷ m else (k, w) ∷ insert g v m

  unfoldable pub remove : Guid → Map V → Map V
  remove g [] = []
  remove g ((k, v) ∷ m) = let rest = remove g m in if guid_eq k g then rest else (k, v) ∷ rest

  -- `contains_key`
  unfoldable pub has : Guid → Map V → Bool
  has g [] = false
  has g ((k, v) ∷ m) = guid_eq k g || has g m

  pub lookup-insert :
      (k j : Guid) (v : V) (m : Map V)
      → lookup j (insert k v m) ≡ (if guid_eq k j then some v else lookup j m)
  unfolding lookup insert
  lookup-insert k j v [] = refl
  lookup-insert k j v ((i, w) ∷ m) =
      ground (arith, guid_eq_iff k j, guid_eq_iff i k, guid_eq_iff i j, lookup-insert k j v m)

  pub lookup-remove :
      (k j : Guid) (m : Map V) → lookup j (remove k m) ≡ (if guid_eq k j then none else lookup j m)
  unfolding lookup remove
  lookup-remove k j [] = ground arith
  lookup-remove k j ((i, w) ∷ m) =
      ground (arith, guid_eq_iff k j, guid_eq_iff i k, guid_eq_iff i j, lookup-remove k j m)

  pub has-insert :
      (k j : Guid) (v : V) (m : Map V) → has j (insert k v m) ≡ (guid_eq k j || has j m)
  unfolding has insert
  has-insert k j v [] = refl
  has-insert k j v ((i, w) ∷ m) =
      ground (arith, guid_eq_iff k j, guid_eq_iff i k, guid_eq_iff i j, has-insert k j v m)

  pub has-remove :
      (k j : Guid) (m : Map V) → has j (remove k m) ≡ (if guid_eq k j then false else has j m)
  unfolding has remove
  has-remove k j [] = ground arith
  has-remove k j ((i, w) ∷ m) =
      ground (arith, guid_eq_iff k j, guid_eq_iff i k, guid_eq_iff i j, has-remove k j m)

  pub has-lookup : (g : Guid) (m : Map V) → has g m ≡ true → (v : V) × (lookup g m ≡ some v)
  unfolding has lookup
  has-lookup g [] h = cc
  has-lookup g ((k, v) ∷ m) h = elim (Bool-cases (guid_eq k g)) [
    | inl hit ↦ (v, rw hit)
    | inr miss ↦ let (w, e) = has-lookup g m (rw miss at h) in (w, rw miss e)
  ]

  pub lookup-has : (g : Guid) (m : Map V) {v : V} → lookup g m ≡ some v → has g m ≡ true
  unfolding has lookup
  lookup-has g [] h = cc
  lookup-has g ((k, w) ∷ m) {v} h = ground (arith, lookup-has g m {v = v})

  has-weaken : (g k : Guid) (v : V) (m : Map V) → has g m ≡ true → has g ((k, v) ∷ m) ≡ true
  unfolding has
  has-weaken g k v m h = ground arith

  All-weaken :
      (k : Guid) (v : V) (m xs : Map V)
      → All (λ e. has e.0 m ≡ true) xs
      → All (λ e. has e.0 ((k, v) ∷ m) ≡ true) xs
  All-weaken k v m [] h = tt
  All-weaken k v m (e ∷ xs) h = (has-weaken e.0 k v m h.0, All-weaken k v m xs h.1)

  -- Every key that an iteration visits is there.
  pub entries-has : (m : Map V) → All (λ e. has e.0 m ≡ true) m
  unfolding has
  entries-has [] = tt
  entries-has ((k, v) ∷ m) = (rw (guid_eq_refl k), All-weaken k v m m (entries-has m))

  pub length-insert : (g : Guid) (v : V) (m : Map V) → length (insert g v m) ≤ length m + 1
  unfolding insert
  length-insert g v [] = omega arith
  length-insert g v ((k, w) ∷ m) = ground (arith, length-insert g v m)

  pub length-insert_new :
      (g : Guid) (v : V) (m : Map V) → has g m ≡ false → length (insert g v m) ≡ length m + 1
  unfolding insert has
  length-insert_new g v [] h = omega arith
  length-insert_new g v ((k, w) ∷ m) h = ground (arith, length-insert_new g v m)

  pub length-remove : (g : Guid) (m : Map V) → length (remove g m) ≤ length m
  unfolding remove
  length-remove g [] = omega arith
  length-remove g ((k, v) ∷ m) = ground (arith, length-remove g m)

-- `==` on `i32`.
abbrev pub int_eq : ℤ → ℤ → Bool
int_eq (pos a) (pos b) = a == b
int_eq (negsuc a) (negsuc b) = a == b
int_eq _ _ = false

-- `contains`
unfoldable pub contains : ℤ → List ℤ → Bool
contains a [] = false
contains a (x ∷ xs) = int_eq x a || contains a xs

unfoldable pub add : ℤ → List ℤ → List ℤ
unfolding contains
add a xs = if contains a xs then xs else a ∷ xs

-- `difference`
unfoldable pub difference : List ℤ → List ℤ → List ℤ
unfolding contains
difference [] ys = []
difference (x ∷ xs) ys = let rest = difference xs ys in if contains x ys then rest else x ∷ rest

int_eq→eq : (a b : ℤ) → int_eq a b ≡ true → a ≡ b
int_eq→eq (pos a) (pos b) h = ground arith
int_eq→eq (negsuc a) (negsuc b) h = ground arith
int_eq→eq (pos a) (negsuc b) h = cc
int_eq→eq (negsuc a) (pos b) h = cc

pub contains-add : (a b : ℤ) (xs : List ℤ) → contains b (add a xs) ≡ (int_eq a b || contains b xs)
unfolding add contains
contains-add a b xs = ground (arith, int_eq→eq a b)

pub contains-difference :
    (a : ℤ) (xs ys : List ℤ)
    → contains a (difference xs ys) ≡ (contains a xs && not (contains a ys))
unfolding difference contains
contains-difference a [] ys = refl
contains-difference a (x ∷ xs) ys = ground (arith, int_eq→eq x a, contains-difference a xs ys)
