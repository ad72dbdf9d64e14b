-- ===== src/System/Reconnect.antt =====
-- A player that connects again while its former client's task still runs (src/coordinator.rs,
-- src/client.rs).
use smo_multi_rs.Base.{
  ℕ, ◌≡◌, refl, ap, ◌∙◌, List, [], ◌∷◌, ◌++◌, Bool, true, false, none, some, length,
}
use smo_multi_rs.Bytes.{Bytes}
use smo_multi_rs.Client.{handle_command, own_packet}
use smo_multi_rs.Client.Events.{
  Event, from_server, ended, is_fatal, after_error, handle_event, finish, next_turn, handle_events,
}
use smo_multi_rs.Commands.{Command, packet, server, ServerCommand, new_player, Client}
use smo_multi_rs.Connection.{SocketWrite}
use smo_multi_rs.Coordinator.Admission.{admitted, disconnect_command, removed}
use smo_multi_rs.Coordinator.Delivery.{sending, to_all, send_up}
use smo_multi_rs.Coordinator.Handle as Handle
use smo_multi_rs.Coordinator.Players.{refusal, dismiss}
use smo_multi_rs.Coordinator.State.{State}
use smo_multi_rs.Errors.{ok}
use smo_multi_rs.Guid.{Guid, guid_eq_refl}
use smo_multi_rs.Maps.{lookup, has, remove, lookup-insert}
use smo_multi_rs.Packet.{Packet, ConnectionType, connect, disconnect}

-- What a player that leaves is told last.
abbrev pub bye : Guid → Packet
bye g = record { id = g; data_size = 0; payload = disconnect }

-- What a client's task tells the coordinator at its end.
abbrev pub leaving : Client → ℕ × Command
leaving c = (c.to_coord, server (ServerCommand.disconnect_player c.guid))

module _ (accepts : ℕ → ℕ → Bool) (up : (n channel : ℕ) → accepts n channel ≡ true)
    (io : Bytes) where
  finish_up :
      (c : Client) (s : State) → finish accepts io c s ≡ (ended (ok tt), sending s (leaving c ∷ []))
  unfolding finish dismiss
  finish_up c s =
      rw (send_up accepts up c.to_coord (server (ServerCommand.disconnect_player c.guid)) s)

  -- A client whose channel has no sender any more ends.
  ends_unheard :
      (c : Client) (s : State) (rest : List (Event × List SocketWrite))
      → handle_events accepts io ((from_server none, []) ∷ rest) c s
        ≡ (ended (ok tt), sending s (leaving c ∷ []))
  unfolding handle_events handle_event next_turn after_error is_fatal
  ends_unheard c s rest = finish_up (record c { alive = false }) s

  -- A client that is told of its own departure ends.
  ends_told :
      (c : Client) (s : State) (rest : List (Event × List SocketWrite))
      → handle_events accepts io ((from_server (some (packet (bye c.guid))), []) ∷ rest) c s
        ≡ (ended (ok tt), sending s (leaving c ∷ []))
  unfolding handle_events handle_event next_turn handle_command own_packet
  ends_told c s rest = rw (guid_eq_refl c.guid) (finish_up (record c { alive = false }) s)

  -- The coordinator forgets a client whose identifier it is told to disconnect.
  forgets :
      (c : Client) (p : Packet) (comm : ℕ) (g : Guid) (s : State)
      → g ≡ c.guid
      → lookup c.guid s.to_clients ≡ some comm
      → let t : State =
          (Handle.handle_command accepts (server (ServerCommand.disconnect_player g)) s).1 in
        (has c.guid t.clients ≡ false)
        × (has c.guid t.to_clients ≡ false)
        × (t.sent
            ≡ s.sent
              ++ (to_all (remove c.guid s.to_clients) (bye c.guid)
                  ++ ((comm, packet (bye c.guid)) ∷ [])))
  forgets c p comm g s same known =
      rw (same, disconnect_command accepts up c p comm s c.guid comm s known)
        (
          removed accepts up c p comm s c.guid s.clients,
          removed accepts up c p comm s c.guid s.to_clients,
          refl,
        )

  -- The coordinator replaces the channel of an identifier it knows.
  replaces :
      (c : Client) (p : Packet) (comm : ℕ) (s : State) {t : ConnectionType} {max_player : ℕ}
      {name : List ℕ}
      → p.payload ≡ connect t max_player name
      → refusal s.settings (length s.clients) c ≡ none
      → lookup c.guid (Handle.handle_command accepts (server (new_player c p comm)) s).1.to_clients
        ≡ some comm
  replaces c p comm s connects room =
      rw
        (
          admitted accepts up c p comm s connects room,
          lookup-insert c.guid c.guid comm s.to_clients,
          guid_eq_refl c.guid,
        )
        refl

  -- Let every channel have its receiver, and a connect packet bring a client that is not refused,
  -- with the identifier of a client whose task still runs. The coordinator replaces the channel of
  -- the former client. When the channel's sender is dropped with that, the former task ends, and
  -- tells the coordinator to disconnect its identifier, which is the new client's, too. The
  -- coordinator then forgets the new client and tells it that it has left, by which its task ends.
  pub reconnect_evicts :
      (c old : Client) (p : Packet) (comm : ℕ) (s : State) (rest : List (Event × List SocketWrite))
      {t : ConnectionType} {max_player : ℕ} {name : List ℕ}
      → p.payload ≡ connect t max_player name
      → refusal s.settings (length s.clients) c ≡ none
      → old.guid ≡ c.guid
      → let s' : State = (Handle.handle_command accepts (server (new_player c p comm)) s).1 in
        let (left, s'') = handle_events accepts io ((from_server none, []) ∷ rest) old s' in
        let t : State =
          (Handle.handle_command accepts
            (server (ServerCommand.disconnect_player old.guid))
            s'').1 in
        (lookup c.guid s'.to_clients ≡ some comm)
        × (left ≡ ended (ok tt))
        × (s'' ≡ sending s' ((old.to_coord, server (ServerCommand.disconnect_player c.guid)) ∷ []))
        × (has c.guid t.clients ≡ false)
        × (has c.guid t.to_clients ≡ false)
        × (t.sent
            ≡ s''.sent
              ++ (to_all (remove c.guid s''.to_clients) (bye c.guid)
                  ++ ((comm, packet (bye c.guid)) ∷ [])))
        × ((handle_events accepts io ((from_server (some (packet (bye c.guid))), []) ∷ rest) c t).0
            ≡ ended (ok tt))
  reconnect_evicts c old p comm s rest connects room same =
      let s' : State = (Handle.handle_command accepts (server (new_player c p comm)) s).1 in
      let known = replaces c p comm s connects room in
      let left = ends_unheard old s' rest in
      let known' = ap (λ r. lookup c.guid r.1.to_clients) left ∙ known in
      let s'' : State = (handle_events accepts io ((from_server none, []) ∷ rest) old s').1 in
      let (gone, unheard, last) = forgets c p comm old.guid s'' same known' in
      (
        known,
        ap (λ r. r.0) left,
        ap (λ r. r.1) left
            ∙ ap (λ g. sending s' ((old.to_coord, server (ServerCommand.disconnect_player g)) ∷ []))
                same,
        gone,
        unheard,
        last,
        ap (λ r. r.0) (ends_told c _ rest),
      )
