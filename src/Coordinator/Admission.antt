-- ===== src/Coordinator/Admission.antt =====
-- New players: who is admitted, and what a refusal does (src/coordinator.rs).
use smo_multi_rs.Base.{
  ℕ, ◌+◌, ◌≡◌, refl, ap, ◌∙◌, List, [], ◌∷◌, ◌++◌, Bool, true, false, none, some, length,
  if◌then◌else◌, ltb, arith, ge→ltb,
}
use smo_multi_rs.Commands.{Command, packet, server, ServerCommand, new_player, Client}
use smo_multi_rs.Errors.{SmoError, ClientInitError, client_init, Outcome, ok, err}
use smo_multi_rs.Guid.{Guid, guid_eq_refl}
use smo_multi_rs.Maps.{Map, lookup, insert, remove, has, has-remove, length-insert_new}
use smo_multi_rs.Packet.{
  Packet, PacketData, connect, disconnect, ConnectionType, first_connection, resize,
}
use smo_multi_rs.Coordinator.State.{State, client_events, then_with}
use smo_multi_rs.Coordinator.Players.{
  is_banned, is_banned_ip, refusal, register, own_cell, dismiss, admit, admit_or_refuse,
  add_connected, add_client,
}
use smo_multi_rs.Coordinator.Handle.{handle_command}
use smo_multi_rs.Coordinator.Delivery.{sending, to_all, send_up, disconnect_player_up}
use smo_multi_rs.Coordinator.Setup.{introductions, setup_player_up}

-- The state with the new player in it, before it is told of the others.
abbrev pub registered : ConnectionType → Client → ℕ → State → State
registered t c comm s = record s {
  clients = register t c s.clients;
  to_clients = insert c.guid comm s.to_clients;
  spawned = s.spawned ++ (client_events (record c { cell = own_cell t c s.clients }) ∷ []);
}

room_at_max :
    (c : Client) (s : State)
    → length s.clients ≡ s.settings.server.max_players
    → is_banned c.guid s.settings.ban_list.players ≡ false
    → is_banned_ip c.conn.addr.ip s.settings.ban_list.ips ≡ false
    → refusal s.settings (length s.clients) c ≡ none
unfolding refusal
room_at_max c s full not_id not_ip =
    let h : ltb s.settings.server.max_players (length s.clients) ≡ false =
      ge→ltb s.settings.server.max_players (length s.clients) (omega arith) in
    rw (h, not_id, not_ip) refl

module _ (accepts : ℕ → ℕ → Bool) (up : (n channel : ℕ) → accepts n channel ≡ true) (c : Client)
    (p : Packet) (comm : ℕ) (s : State) where
  admit_up :
      (t : ConnectionType) (max_player : ℕ) (name : List ℕ)
      → refusal s.settings (length s.clients) c ≡ none
      → add_connected accepts (connect t max_player name) c p comm s ≡ (
        ok tt,
        sending (registered t c comm s) (
            introductions comm s.settings.server.max_players (register t c s.clients) s.store
            ++ to_all (insert c.guid comm s.to_clients) (resize p)),
      )
  unfolding add_connected admit_or_refuse admit
  admit_up t max_player name e = rw (e, setup_player_up accepts up comm p (registered t c comm s))

  -- The refused client tells the coordinator to disconnect its identifier.
  refuse_up :
      (t : ConnectionType) (max_player : ℕ) (name : List ℕ) {x : ClientInitError}
      → refusal s.settings (length s.clients) c ≡ some x
      → add_connected accepts (connect t max_player name) c p comm s ≡ (
        err (client_init x),
        sending s ((c.to_coord, server (ServerCommand.disconnect_player c.guid)) ∷ []),
      )
  unfolding add_connected admit_or_refuse dismiss
  refuse_up t max_player name e =
      rw (e, send_up accepts up c.to_coord (server (ServerCommand.disconnect_player c.guid)) s)

  -- The command for a new player, by the payload of its packet.
  new_player_by : PacketData → Outcome SmoError Bool × State
  new_player_by d = then_with (add_connected accepts d c p comm s) (λ _ s. (ok true, s))

  -- The command for a player that is not refused, in terms of the code's own functions.
  pub admitted :
      {t : ConnectionType} {max_player : ℕ} {name : List ℕ}
      → p.payload ≡ connect t max_player name
      → refusal s.settings (length s.clients) c ≡ none
      → handle_command accepts (server (new_player c p comm)) s ≡ (
        ok true,
        sending (registered t c comm s) (
            introductions comm s.settings.server.max_players (register t c s.clients) s.store
            ++ to_all (insert c.guid comm s.to_clients) (resize p)),
      )
  unfolding handle_command add_client new_player_by
  admitted {t} {max_player} {name} connects e =
      ap new_player_by connects
      ∙ ap (λ r. then_with r (λ _ s. (ok true, s))) (admit_up t max_player name e)

  -- Let every channel have its receiver, and the packet be a connect packet. A refused player
  -- changes nothing but for one message, by which the coordinator tells itself to disconnect the
  -- identifier that the player gave.
  pub refused :
      {t : ConnectionType} {max_player : ℕ} {name : List ℕ} {x : ClientInitError}
      → p.payload ≡ connect t max_player name
      → refusal s.settings (length s.clients) c ≡ some x
      → handle_command accepts (server (new_player c p comm)) s ≡ (
        err (client_init x),
        sending s ((c.to_coord, server (ServerCommand.disconnect_player c.guid)) ∷ []),
      )
  unfolding handle_command add_client new_player_by
  refused {t} {max_player} {name} connects e =
      ap new_player_by connects
      ∙ ap (λ r. then_with r (λ _ s. (ok true, s))) (refuse_up t max_player name e)

  pub disconnect_command :
      (g : Guid) (channel : ℕ) (s : State)
      → lookup g s.to_clients ≡ some channel
      → let bye : Packet = record { id = g; data_size = 0; payload = disconnect } in
        handle_command accepts (server (ServerCommand.disconnect_player g)) s ≡ (
          ok true,
          record s {
            clients = remove g s.clients;
            to_clients = remove g s.to_clients;
            sent = s.sent ++ (to_all (remove g s.to_clients) bye ++ ((channel, packet bye) ∷ []));
          },
        )
  unfolding handle_command
  disconnect_command g channel s known =
      ap (λ r. then_with r (λ _ s. (ok true, s)))
        (disconnect_player_up accepts up g channel s known)

  pub removed : {V : Type 0} (g : Guid) (m : Map V) → has g (remove g m) ≡ false
  removed g m = has-remove g g m ∙ ap (λ b. if b then false else has g m) (guid_eq_refl g)

  -- Let every channel have its receiver, and let a refused player give the identifier of a
  -- connected one. The coordinator answers with the reason of the refusal, and sends one message,
  -- to the channel of its own commands: to disconnect that identifier. When it has handled this
  -- command, the connected player is forgotten, and its channel has its own disconnect packet as
  -- the last message.
  pub refused_evicts :
      {t : ConnectionType} {max_player : ℕ} {name : List ℕ} {x : ClientInitError} {channel : ℕ}
      → p.payload ≡ connect t max_player name
      → refusal s.settings (length s.clients) c ≡ some x
      → lookup c.guid s.to_clients ≡ some channel
      → let s' : State = (handle_command accepts (server (new_player c p comm)) s).1 in
        let s'' : State =
          (handle_command accepts (server (ServerCommand.disconnect_player c.guid)) s').1 in
        let bye : Packet = record { id = c.guid; data_size = 0; payload = disconnect } in
        ((handle_command accepts (server (new_player c p comm)) s).0 ≡ err (client_init x))
        × (s'.sent ≡ s.sent ++ ((c.to_coord, server (ServerCommand.disconnect_player c.guid)) ∷ []))
        × (has c.guid s''.clients ≡ false)
        × (has c.guid s''.to_clients ≡ false)
        × (s''.sent
            ≡ s'.sent ++ (to_all (remove c.guid s.to_clients) bye ++ ((channel, packet bye) ∷ [])))
  refused_evicts {channel = channel} connects e known =
      let asked : List (ℕ × Command) =
        (c.to_coord, server (ServerCommand.disconnect_player c.guid)) ∷ [] in
      rw (refused connects e, disconnect_command c.guid channel (sending s asked) known)
        (refl, refl, removed c.guid s.clients, removed c.guid s.to_clients, refl)

-- A player that connects for the first time, is not banned and not yet registered is admitted also
-- when `max_players` players are there already: there is one more than `max_players` then.
pub admitted_over_max :
    (accepts : ℕ → ℕ → Bool) (up : (n channel : ℕ) → accepts n channel ≡ true) (c : Client)
    (p : Packet) (comm : ℕ) (s : State) {max_player : ℕ} {name : List ℕ}
    → p.payload ≡ connect first_connection max_player name
    → length s.clients ≡ s.settings.server.max_players
    → is_banned c.guid s.settings.ban_list.players ≡ false
    → is_banned_ip c.conn.addr.ip s.settings.ban_list.ips ≡ false
    → has c.guid s.clients ≡ false
    → length (handle_command accepts (server (new_player c p comm)) s).1.clients
      ≡ s.settings.server.max_players + 1
unfolding register
admitted_over_max accepts up c p comm s {max_player} {name} connects full not_id not_ip fresh =
    rw (admitted accepts up c p comm s connects (room_at_max c s full not_id not_ip))
      (length-insert_new c.guid c.cell s.clients fresh ∙ ap (λ n. n + 1) full)
