-- ===== src/Coordinator/Registration.antt =====
-- What the registration of a new player does to the lobby, key by key (src/coordinator.rs).
use smo_multi_rs.Base.{
  ℕ, ◌≡◌, refl, List, [], ◌∷◌, ◌++◌, Bool, true, none, some, Option, length, if◌then◌else◌,
  Bool-cases, inl, inr, sym, ap, ◌∙◌,
}
use smo_multi_rs.Commands.{server, new_player, Client}
use smo_multi_rs.Coordinator.Admission.{admitted}
use smo_multi_rs.Coordinator.Delivery.{to_all}
use smo_multi_rs.Coordinator.Handle.{handle_command}
use smo_multi_rs.Coordinator.Players.{refusal, register, own_cell}
use smo_multi_rs.Coordinator.Setup.{introductions}
use smo_multi_rs.Coordinator.State.{State, client_events}
use smo_multi_rs.Errors.{ok}
use smo_multi_rs.Guid.{Guid, guid_eq, guid_eq→eq}
use smo_multi_rs.Maps.{Map, lookup, insert, lookup-insert}
use smo_multi_rs.Packet.{Packet, connect, ConnectionType, first_connection, reconnecting, resize}

-- The cell of the player's data: its own, or that of its last visit if it reconnects.
abbrev or_own : Client → Option ℕ → ℕ
or_own c none = c.cell
or_own c (some cell) = cell

abbrev pub kept_cell : ConnectionType → Client → State → ℕ
kept_cell first_connection c s = c.cell
kept_cell reconnecting c s = or_own c (lookup c.guid s.clients)

-- The lobby `t` is `s` with the player in it: its identifier, and no other, has its cell and its
-- channel, its task runs on this cell, it has been told of all players, and all of the packet.
pub record IsRegistered (c : Client) (comm cell : ℕ) (p : Packet) (s t : State) : Type 0 where
  pub data_of :
      (k : Guid) → lookup k t.clients ≡ (if guid_eq c.guid k then some cell else lookup k s.clients)
  pub channel_of :
      (k : Guid)
      → lookup k t.to_clients ≡ (if guid_eq c.guid k then some comm else lookup k s.to_clients)
  pub task : t.spawned ≡ s.spawned ++ (client_events (record c { cell = cell }) ∷ [])
  pub told :
      t.sent
      ≡ s.sent
        ++ (introductions comm s.settings.server.max_players t.clients s.store
            ++ to_all t.to_clients (resize p))
  pub store : t.store ≡ s.store
  pub shine_bag : t.shine_bag ≡ s.shine_bag
  pub settings : t.settings ≡ s.settings

-- An entry that is there already is as good as inserted.
lookup-kept :
    (g k : Guid) {v : ℕ} (m : Map ℕ)
    → lookup g m ≡ some v
    → lookup k m ≡ (if guid_eq g k then some v else lookup k m)
lookup-kept g k m known = elim (Bool-cases (guid_eq g k)) [
  | inl same ↦ rw same (ap (λ j. lookup j m) (sym (guid_eq→eq g k same)) ∙ known)
  | inr other ↦ rw other refl
]

module _ (c : Client) (s : State) where
  own_cell-kept_cell : (t : ConnectionType) → own_cell t c s.clients ≡ kept_cell t c s
  unfolding own_cell
  own_cell-kept_cell first_connection = refl
  own_cell-kept_cell reconnecting = found_or_own (lookup c.guid s.clients)
    where
      found_or_own :
          (o : Option ℕ) → elim o as (λ _. ℕ) [ some prev ↦ prev | none ↦ c.cell ] ≡ or_own c o
      found_or_own none = refl
      found_or_own (some prev) = refl

  lookup-register :
      (t : ConnectionType) (k : Guid)
      → lookup k (register t c s.clients)
        ≡ (if guid_eq c.guid k then some (kept_cell t c s) else lookup k s.clients)
  unfolding register
  lookup-register first_connection k = lookup-insert c.guid k c.cell s.clients
  lookup-register reconnecting k = lookup-found (lookup c.guid s.clients) refl
    where
      lookup-found :
          (o : Option ℕ)
          → lookup c.guid s.clients ≡ o
          → lookup k (elim o as (λ _. Map ℕ) [
            | some prev ↦ s.clients
            | none ↦ insert c.guid c.cell s.clients
          ])
            ≡ (if guid_eq c.guid k then some (or_own c o) else lookup k s.clients)
      lookup-found none absent = lookup-insert c.guid k c.cell s.clients
      lookup-found (some prev) known = lookup-kept c.guid k s.clients known

-- Let every channel have its receiver, the packet be a connect packet, and the player not be
-- refused. The command for it succeeds. Then its identifier has its channel, in place of a former
-- one, and its cell, which is that of its last visit if it reconnects and was there; the other
-- players keep theirs. Its task is spawned on this cell, it is introduced to every player, itself
-- included, and its packet, resized, goes to all of them. Nothing else changes.
pub admitted-IsRegistered :
    (accepts : ℕ → ℕ → Bool) (up : (n channel : ℕ) → accepts n channel ≡ true) (c : Client)
    (p : Packet) (comm : ℕ) (s : State) {t : ConnectionType} {max_player : ℕ} {name : List ℕ}
    → p.payload ≡ connect t max_player name
    → refusal s.settings (length s.clients) c ≡ none
    → let (answer, s') = handle_command accepts (server (new_player c p comm)) s in
      (answer ≡ ok true) × IsRegistered c comm (kept_cell t c s) p s s'
admitted-IsRegistered accepts up c p comm s {t} connects room =
    rw (admitted accepts up c p comm s connects room) (
      refl,
      record {
        data_of = lookup-register c s t;
        channel_of = λ k. lookup-insert c.guid k comm s.to_clients;
        task =
            ap (λ cell. s.spawned ++ (client_events (record c { cell = cell }) ∷ []))
              (own_cell-kept_cell c s t);
        told = refl;
        store = refl;
        shine_bag = refl;
        settings = refl;
      },
    )
