-- ===== src/Guid.antt =====
-- src/guid.rs: the identifier of a player, sixteen bytes.
pub mod Display
use smo_multi_rs.Base.{
  ℕ, List, replicate, ◌<◌, ◌≡◌, length, All, [], ◌∷◌, Bool, true, false, ◌&&◌, ◌==◌, refl, arith,
  ◌↔◌,
}

pub record Guid : Type 0 where
  pub id : List ℕ

-- What the array type `[u8; 16]` says.
pub record IsGuid (g : Guid) : Type 0 where
  pub sized : length g.id ≡ 16
  pub bytes : All (λ b. b < 256) g.id

-- `Guid::default()`
abbrev pub default_guid : Guid
default_guid = record { id = replicate 16 0 }

-- `==` on byte strings.
unfoldable pub bytes_eq : List ℕ → List ℕ → Bool
bytes_eq [] [] = true
bytes_eq (a ∷ as') (b ∷ bs) = a == b && bytes_eq as' bs
bytes_eq _ _ = false

-- The derived `PartialEq`.
unfoldable pub guid_eq : Guid → Guid → Bool
unfolding bytes_eq
guid_eq a b = bytes_eq a.id b.id

bytes_eq→eq : (a b : List ℕ) → bytes_eq a b ≡ true → a ≡ b
unfolding bytes_eq
bytes_eq→eq [] [] h = refl
bytes_eq→eq [] (b ∷ bs) h = cc
bytes_eq→eq (a ∷ as') [] h = cc
bytes_eq→eq (a ∷ as') (b ∷ bs) h = ground (arith, bytes_eq→eq as' bs)

bytes_eq_refl : (a : List ℕ) → bytes_eq a a ≡ true
unfolding bytes_eq
bytes_eq_refl [] = refl
bytes_eq_refl (a ∷ as') = ground (arith, bytes_eq_refl as')

pub guid_eq_refl : (a : Guid) → guid_eq a a ≡ true
unfolding guid_eq
guid_eq_refl a = bytes_eq_refl a.id

pub guid_eq→eq : (a b : Guid) → guid_eq a b ≡ true → a ≡ b
unfolding guid_eq
guid_eq→eq a b h = ground (arith, bytes_eq→eq a.id b.id)

pub guid_eq_iff : (a b : Guid) → (guid_eq a b ≡ true) ↔ (a ≡ b)
guid_eq_iff a b = (guid_eq→eq a b, λ e. rw e (guid_eq_refl b))
