-- ===== src/Coordinator/Sync.antt =====
-- The shine sync over all players (src/coordinator.rs), while every channel has its receiver.
use smo_multi_rs.Base.{
  ℕ, ◌≡◌, List, [], ◌∷◌, ◌++◌, Bool, true, not, ◌&&◌, Option, none, some, map, All, arith, ℤ,
}
use smo_multi_rs.Commands.{Command, packet, ClientData}
use smo_multi_rs.Errors.{ok}
use smo_multi_rs.Guid.{default_guid}
use smo_multi_rs.Maps.{
  Map, lookup, has, add, contains, contains-difference, has-lookup, entries-has,
}
use smo_multi_rs.Packet.{Packet, shine}
use smo_multi_rs.Coordinator.State.{State}
use smo_multi_rs.Coordinator.Shines.{client_sync_shines, sync_each, sync_all_shines}
use smo_multi_rs.Coordinator.Handle.{handle_packet, handle_command}
use smo_multi_rs.Coordinator.Invariant.{Inv}
use smo_multi_rs.Coordinator.SafePlayers.{All-moved}
use smo_multi_rs.Coordinator.Delivery.{
  Sends, Sends-then, Sends-nothing, shine_packet, missing, client_sync_shines_up,
}

-- The shines that one player is sent on its channel.
abbrev pub own_shines : List ℤ → ClientData → Option ℕ → List (ℕ × Command)
own_shines bag d none = []
own_shines bag d (some channel) =
    map (λ i. (channel, packet (shine_packet default_guid i))) (missing bag d)

-- The messages of a sync of the players `cs`, with the channels `tc`.
unfoldable pub sync_messages : Map ℕ → Map ℕ → List ℤ → (ℕ → ClientData) → List (ℕ × Command)
sync_messages [] tc bag store = []
sync_messages ((g, cell) ∷ rest) tc bag store =
    own_shines bag (store cell) (lookup g tc) ++ sync_messages rest tc bag store

module _ (accepts : ℕ → ℕ → Bool) (up : (n channel : ℕ) → accepts n channel ≡ true) where
  sync_each_up :
      (cs tc : Map ℕ) (s : State)
      → All (λ e. has e.0 tc ≡ true) cs
      → Sends (sync_each accepts cs tc) s (sync_messages cs tc s.shine_bag s.store)
  unfolding sync_each sync_messages
  sync_each_up [] tc s h = Sends-nothing s
  sync_each_up ((g, cell) ∷ rest) tc s h =
      let (channel, found) = has-lookup g tc h.0 in
      rw found (
        Sends-then (client_sync_shines accepts channel default_guid cell)
          (sync_each accepts rest tc) s _ (sync_messages rest tc s.shine_bag s.store)
          (client_sync_shines_up accepts up channel default_guid cell s)
          (sync_each_up rest tc _ h.1))

  -- Let every channel have its receiver and the invariant hold. A shine that a player reports is
  -- added to the server's shines; then every player is sent, on its own channel, exactly the
  -- server's shines that it has not, or nothing if it starts a speedrun. The packet itself is not
  -- passed on, and nothing else changes.
  pub handle_command-shine :
      (p : Packet) (i : ℤ) (is_grand : Bool) (s : State)
      → Inv s
      → p.payload ≡ shine i is_grand
      → handle_command accepts (packet p) s ≡ (
        ok true,
        record s {
          shine_bag = add i s.shine_bag;
          sent = s.sent ++ sync_messages s.clients s.to_clients (add i s.shine_bag) s.store;
        },
      )
  unfolding handle_command handle_packet sync_all_shines
  handle_command-shine p i is_grand s v e = rw e (
      rw (
        sync_each_up s.clients s.to_clients (record s { shine_bag = add i s.shine_bag })
          (All-moved s v s.clients (entries-has s.clients))))

-- A player is missing a shine exactly if the server has it, the player has not, and the player does
-- not start a speedrun.
pub contains-missing :
    (i : ℤ) (bag : List ℤ) (d : ClientData)
    → contains i (missing bag d)
      ≡ (contains i bag && (not (contains i d.shine_sync) && not d.speedrun_start))
unfolding contains
contains-missing i bag d = ground (arith, contains-difference i bag d.shine_sync)
