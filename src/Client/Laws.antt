-- ===== src/Client/Laws.antt =====
-- A client's task (src/client.rs) and the coordinator together: shines and speedruns.
use mathlib.Core.List.{append_assoc}
use smo_multi_rs.Base.{
  ℕ, ◌≡◌, refl, ap, ◌∙◌, All, List, [], ◌∷◌, ◌++◌, Bool, true, false, not, pos, negsuc, ◌&&◌, ◌||◌,
  some, ℤ, if◌then◌else◌, arith,
}
use smo_multi_rs.Client.Echo.{is_shine_to, IsChannelOf, sync_messages-Spares}
use smo_multi_rs.Client.{record_and_pass, handle_data, handle_packet, enter_game}
use smo_multi_rs.Commands.{Command, packet, Client, ClientData}
use smo_multi_rs.Coordinator.Delivery.{sending, to_all, missing, send_up, broadcast_up}
use smo_multi_rs.Coordinator.Handle.{handle_command, start_speedrun, enter_stage}
use smo_multi_rs.Coordinator.Handle as Handle
use smo_multi_rs.Coordinator.Invariant.{IsServed, Inv}
use smo_multi_rs.Coordinator.SafePlayers.{All-snoc}
use smo_multi_rs.Coordinator.Shines.{get_client}
use smo_multi_rs.Coordinator.State.{State, cap_world, update}
use smo_multi_rs.Coordinator.Sync.{sync_messages, handle_command-shine, contains-missing}
use smo_multi_rs.Errors.{ok}
use smo_multi_rs.Guid.{Guid, bytes_eq}
use smo_multi_rs.Maps.{lookup, add, contains, int_eq, contains-add}
use smo_multi_rs.Packet.{Packet, shine, game, resize}

-- The data of a client that has reported a shine.
abbrev with_shine : ℤ → ClientData → ClientData
with_shine i d = if d.loaded_save then record d { shine_sync = add i d.shine_sync } else d

int_eq_refl : (i : ℤ) → int_eq i i ≡ true
int_eq_refl (pos n) = ground arith
int_eq_refl (negsuc n) = ground arith

contains_own : (i : ℤ) (xs : List ℤ) → contains i (add i xs) ≡ true
contains_own i xs = contains-add i i xs ∙ ap (λ b. b || contains i xs) (int_eq_refl i)

none_left : (b : Bool) → (b && false) ≡ false
none_left true = refl
none_left false = refl

module _ (accepts : ℕ → ℕ → Bool) (up : (n channel : ℕ) → accepts n channel ≡ true) where
  pub record_and_pass_up :
      (f : ClientData → ClientData) (p : Packet) (c : Client) (s : State)
      → record_and_pass accepts f p c s ≡ (
        ok c,
        sending (record s { store = update c.cell f s.store }) ((c.to_coord, packet p) ∷ []),
      )
  unfolding record_and_pass
  record_and_pass_up f p c s =
      rw (send_up accepts up c.to_coord (packet p) (record s { store = update c.cell f s.store }))

  handle_packet-shine :
      (p : Packet) (i : ℤ) (is_grand : Bool) (c : Client) (s : State)
      → p.payload ≡ shine i is_grand
      → handle_packet accepts p c s ≡ (
        ok c,
        sending
            (record s { store = update c.cell (with_shine i) s.store })
            ((c.to_coord, packet p) ∷ []),
      )
  unfolding handle_packet handle_data
  handle_packet-shine p i is_grand c s e =
      ap (λ d. handle_data accepts d p c s) e ∙ record_and_pass_up (with_shine i) p c s

  handle_packet-game :
      (p : Packet) (is_2d : Bool) (n : ℕ) (stage : List ℕ) (c : Client) (s : State)
      → p.payload ≡ game is_2d n stage
      → handle_packet accepts p c s ≡ (
        ok c,
        sending
            (record s { store = update c.cell (enter_game is_2d n stage p) s.store })
            ((c.to_coord, packet p) ∷ []),
      )
  unfolding handle_packet handle_data
  handle_packet-game p is_2d n stage c s e =
      ap (λ d. handle_data accepts d p c s) e
      ∙ record_and_pass_up (enter_game is_2d n stage p) p c s

  update_own :
      (r : ℕ) (f : ClientData → ClientData) (store : ℕ → ClientData)
      → update r f store r ≡ f (store r)
  update_own r f store = ground arith

  -- Let every channel have its receiver and the coordinator's invariant hold, and a client that
  -- has loaded its save report a shine, with a channel that is of no player with other data. When
  -- the client's task and then the coordinator have handled the packet, the server has the shine,
  -- the client is not missing it, and among the messages that the coordinator has sent for it none
  -- is this shine in the client's channel: it is not sent back.
  pub reported_shine :
      (p : Packet) (i : ℤ) (is_grand : Bool) (c : Client) (channel : ℕ) (s : State)
      → Inv s
      → p.payload ≡ shine i is_grand
      → (s.store c.cell).loaded_save ≡ true
      → IsChannelOf channel c.cell s.to_clients s.clients
      → let s' : State = (handle_packet accepts p c s).1 in
        let s'' : State = (handle_command accepts (packet p) s').1 in
        (contains i s''.shine_bag ≡ true)
        × (contains i (missing s''.shine_bag (s''.store c.cell)) ≡ false)
        × (more : List (ℕ × Command)) × (s''.sent ≡ s'.sent ++ more)
        × All (λ m. is_shine_to channel i m ≡ false) more
  reported_shine p i is_grand c channel s v e loaded own =
      let s' : State =
        sending (record s { store = update c.cell (with_shine i) s.store })
          ((c.to_coord, packet p) ∷ []) in
      rw
        (
          handle_packet-shine p i is_grand c s e,
          handle_command-shine accepts up p i is_grand s'
              (record {
                same_keys = v.same_keys;
                room = v.room;
                served =
                    All-snoc (λ (m : ℕ × Command). IsServed m.1) s.sent (c.to_coord, packet p)
                      v.served tt;
              })
              e,
        )
        (
          contains_own i s.shine_bag,
          had,
          sync_messages s.clients s.to_clients (add i s.shine_bag) s'.store,
          refl,
          sync_messages-Spares channel i c.cell s.to_clients (add i s.shine_bag) s'.store had
              s.clients own,
        )
    where
      store : ℕ → ClientData
      store = update c.cell (with_shine i) s.store

      known : contains i (update c.cell (with_shine i) s.store c.cell).shine_sync ≡ true
      known =
          ap (λ (d : ClientData). contains i d.shine_sync)
            (update_own c.cell (with_shine i) s.store)
          ∙ rw loaded (contains_own i (s.store c.cell).shine_sync)

      had : contains i (missing (add i s.shine_bag) (store c.cell)) ≡ false
      had =
          contains-missing i (add i s.shine_bag) (store c.cell)
          ∙ ap (λ b. contains i (add i s.shine_bag) && (not b && not (store c.cell).speedrun_start))
              known
          ∙ none_left (contains i (add i s.shine_bag))

  enter_stage-cap_world :
      (g : Guid) (cell : ℕ) (s : State)
      → lookup g s.clients ≡ some cell
      → enter_stage accepts cap_world 0 g s ≡ (
        ok tt,
        record s {
          store = update cell (λ d. record d { speedrun_start = true; shine_sync = [] }) s.store;
          shine_bag = [];
        },
      )
  unfolding enter_stage start_speedrun get_client bytes_eq
  enter_stage-cap_world g cell s known = rw known

  handle_command-cap_world :
      (p : Packet) (is_2d : Bool) (cell : ℕ) (s : State)
      → p.payload ≡ game is_2d 0 cap_world
      → lookup p.id s.clients ≡ some cell
      → handle_command accepts (packet p) s ≡ (
        ok true,
        sending
            (record s {
              store =
                  update cell (λ d. record d { speedrun_start = true; shine_sync = [] }) s.store;
              shine_bag = [];
            })
            (to_all s.to_clients (resize p)),
      )
  unfolding handle_command Handle.handle_packet
  handle_command-cap_world p is_2d cell s e known =
      ap (λ d. Handle.handle_packet accepts d p s) e
      ∙ rw (enter_stage-cap_world p.id cell s known, broadcast_up accepts up p _)

  -- Let every channel have its receiver, and a client that is registered under its packet's
  -- identifier enter the first stage in the first scenario. When its task and then the coordinator
  -- have handled the packet, neither the server nor the client has a shine, the client is in a
  -- speedrun with this packet as its last game packet, and all players have been sent the packet.
  pub started_speedrun :
      (p : Packet) (is_2d : Bool) (c : Client) (s : State)
      → p.payload ≡ game is_2d 0 cap_world
      → lookup p.id s.clients ≡ some c.cell
      → let s' : State = (handle_packet accepts p c s).1 in
        let s'' : State = (handle_command accepts (packet p) s').1 in
        (s''.shine_bag ≡ [])
        × ((s''.store c.cell).shine_sync ≡ [])
        × ((s''.store c.cell).speedrun_start ≡ true)
        × ((s''.store c.cell).last_game_packet ≡ some p)
        × (s''.sent ≡ s.sent ++ ((c.to_coord, packet p) ∷ to_all s.to_clients (resize p)))
  unfolding enter_game bytes_eq
  started_speedrun p is_2d c s e known =
      let s' : State =
        sending (record s { store = update c.cell (enter_game is_2d 0 cap_world p) s.store })
          ((c.to_coord, packet p) ∷ []) in
      rw
        (
          handle_packet-game p is_2d 0 cap_world c s e,
          handle_command-cap_world p is_2d c.cell s' e known,
        )
        (
          refl,
          ap (λ (d : ClientData). d.shine_sync) own,
          ap (λ (d : ClientData). d.speedrun_start) own,
          ap (λ (d : ClientData). d.last_game_packet) own,
          append_assoc s.sent ((c.to_coord, packet p) ∷ []) (to_all s.to_clients (resize p)),
        )
    where
      start : ClientData → ClientData
      start d = record d { speedrun_start = true; shine_sync = [] }

      enter : ClientData → ClientData
      enter = enter_game is_2d 0 cap_world p

      own :
          update c.cell start (update c.cell enter s.store) c.cell ≡ start (enter (s.store c.cell))
      own =
          update_own c.cell start (update c.cell enter s.store)
          ∙ ap start (update_own c.cell enter s.store)
