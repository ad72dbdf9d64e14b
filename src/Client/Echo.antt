-- ===== src/Client/Echo.antt =====
-- Which of the messages of a shine sync are a given shine, for a given channel (src/coordinator.rs).
use smo_multi_rs.Base.{
  ℕ, ◌≡◌, ap, ◌∙◌, List, [], ◌∷◌, ◌++◌, Bool, false, ◌&&◌, ◌==◌, Option, none, some, All, map, ℤ,
  Bool-cases, inl, inr, arith,
}
use smo_multi_rs.Commands.{Command, packet, ClientData}
use smo_multi_rs.Coordinator.Delivery.{shine_packet, missing}
use smo_multi_rs.Coordinator.Sync.{own_shines, sync_messages}
use smo_multi_rs.Guid.{default_guid}
use smo_multi_rs.Maps.{Map, lookup, contains, int_eq}
use smo_multi_rs.Packet.{PacketData, shine}

abbrev is_shine : ℤ → PacketData → Bool
is_shine i (shine j is_grand) = int_eq j i
is_shine i _ = false

-- The message is the shine `i`, and goes into `channel`.
abbrev pub is_shine_to : ℕ → ℤ → ℕ × Command → Bool
is_shine_to channel i (k, packet p) = (k == channel) && is_shine i p.payload
is_shine_to channel i (k, _) = false

-- Whoever has this channel has this cell.
abbrev pub IsChannelOf : ℕ → ℕ → Map ℕ → Map ℕ → Type 0
IsChannelOf channel cell tc clients = All (λ e. lookup e.0 tc ≡ some channel → e.1 ≡ cell) clients

module _ (channel : ℕ) (i : ℤ) where
  abbrev pub Spares : List (ℕ × Command) → Type 0
  Spares ms = All (λ m. is_shine_to channel i m ≡ false) ms

  Spares-append : (xs ys : List (ℕ × Command)) → Spares xs → Spares ys → Spares (xs ++ ys)
  Spares-append [] ys h k = k
  Spares-append (x ∷ xs) ys h k = (h.0, Spares-append xs ys h.1 k)

  elsewhere :
      (k : ℕ) (xs : List ℤ)
      → (k == channel) ≡ false
      → Spares (map (λ j. (k, packet (shine_packet default_guid j))) xs)
  elsewhere k [] h = tt
  elsewhere k (x ∷ xs) h = (rw h, elsewhere k xs h)

  without :
      (k : ℕ) (xs : List ℤ)
      → contains i xs ≡ false
      → Spares (map (λ j. (k, packet (shine_packet default_guid j))) xs)
  unfolding contains
  without k [] h = tt
  without k (x ∷ xs) h = (ground arith, without k xs (ground arith))

  module _ (cell : ℕ) (tc : Map ℕ) (bag : List ℤ) (store : ℕ → ClientData)
      (known : contains i (missing bag (store cell)) ≡ false) where
    own_shines-Spares :
        (other : ℕ) (o : Option ℕ)
        → (o ≡ some channel → other ≡ cell)
        → Spares (own_shines bag (store other) o)
    own_shines-Spares other none h = tt
    own_shines-Spares other (some k) h = elim (Bool-cases (k == channel)) [
      | inl same ↦
          without k (missing bag (store other))
            (ap (λ r. contains i (missing bag (store r))) (h (ap some (ground arith))) ∙ known)
      | inr differs ↦ elsewhere k (missing bag (store other)) differs
    ]

    pub sync_messages-Spares :
        (clients : Map ℕ)
        → IsChannelOf channel cell tc clients
        → Spares (sync_messages clients tc bag store)
    unfolding sync_messages
    sync_messages-Spares [] h = tt
    sync_messages-Spares ((g, other) ∷ rest) h =
        Spares-append (own_shines bag (store other) (lookup g tc)) _
          (own_shines-Spares other (lookup g tc) h.0) (sync_messages-Spares rest h.1)
