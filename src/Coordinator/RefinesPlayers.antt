-- ===== src/Coordinator/RefinesPlayers.antt =====
-- Players that come and go in src/coordinator.rs, as moves of the lobby.
use mathlib.Core.Path.{fun_ext}
use smo_multi_rs.Base.{
  ℕ, ◌≡◌, refl, sym, ap, subst, ◌∙◌, List, [], ◌∷◌, Bool, true, length, ◌≤◌, ◌++◌, Option-cases,
  inl, inr, ℤ, arith,
}
use smo_multi_rs.Commands.{server, new_player, Client}
use smo_multi_rs.Coordinator.Invariant.{IsConnect, Inv, Fine}
use smo_multi_rs.Coordinator.Players.{
  refusal, register, disconnect_player, setup_player, dismiss, admit, admit_or_refuse,
  add_connected, own_cell,
}
use smo_multi_rs.Coordinator.Quiet.{
  then_core, farewell-IsQuiet, setup_player-IsQuiet, dismiss-IsQuiet,
}
use smo_multi_rs.Coordinator.Roster.{Lobby, view, enter, leave, Moves, enters, refuses, expels}
use smo_multi_rs.Coordinator.Safe.{refusal-none}
use smo_multi_rs.Coordinator.SafePlayers.{admit-Fine, has-register}
use smo_multi_rs.Coordinator.State.{
  State, Task, then_with, ◌>>=◌, recover_with, throw, return, client_events,
}
use smo_multi_rs.Errors.{SmoError, Outcome, ok, err, panic, client_init}
use smo_multi_rs.Guid.{Guid}
use smo_multi_rs.Maps.{Map, lookup, insert, remove, has, contains, has-remove}
use smo_multi_rs.Packet.{Packet, PacketData, connect, ConnectionType}

-- `view` is a function of what quiet tasks keep.
abbrev pub lobby_of : Map ℕ × List ℤ → Lobby
lobby_of (clients, bag) = record { players = λ g. has g clients; moons = λ i. contains i bag }

with_players :
    (l : Lobby) (f g : Guid → Bool)
    → ((k : Guid) → f k ≡ g k)
    → record l { players = f } ≡ record l { players = g }
with_players l f g h = ap (λ f. record l { players = f }) (fun_ext h)

leave-enter : (g : Guid) (l : Lobby) → leave g (enter g l) ≡ leave g l
leave-enter g l = with_players l _ _ λ k. ground arith

module _ (accepts : ℕ → ℕ → Bool) where
  pub view-disconnect_player :
      (g : Guid) (s : State) → view (disconnect_player accepts g s).1 ≡ leave g (view s)
  unfolding disconnect_player
  view-disconnect_player g s =
      ap lobby_of (
        farewell-IsQuiet accepts g (lookup g s.to_clients)
          (record s { clients = remove g s.clients; to_clients = remove g s.to_clients }))
      ∙ with_players (view s) _ _ (λ k. has-remove g k s.clients)

  -- What follows a failed setup: the departure, and the error again.
  abbrev gives_up : Guid → SmoError → Task (Unit {0})
  gives_up g e = disconnect_player accepts g >>= λ _. throw e

  view-gives_up : (g : Guid) (e : SmoError) (s : State) → view (gives_up g e s).1 ≡ leave g (view s)
  view-gives_up g e s =
      ap lobby_of (then_core (disconnect_player accepts g s) (λ _. throw e) (λ _ s. refl))
      ∙ view-disconnect_player g s

  -- The end of `handle_command` for a new player.
  abbrev pub answered : Outcome SmoError (Unit {0}) × State → Outcome SmoError Bool × State
  answered r = then_with r (λ _. return true)

  pub view-answered : (r : Outcome SmoError (Unit {0}) × State) → view (answered r).1 ≡ view r.1
  view-answered r = ap lobby_of (then_core r (λ _. return true) (λ _ s. refl))

  throws-fails :
      (r : Outcome SmoError (Unit {0}) × State) (e : SmoError)
      → ¬ ((answered (then_with r (λ _. throw e))).0 ≡ ok true)
  throws-fails (ok a, s) e = λ same. cc
  throws-fails (err x, s) e = λ same. cc
  throws-fails (panic, s) e = λ same. cc

  set_up-moves :
      (c : Client) (p : Packet) (comm : ℕ) (l : Lobby) (r : Outcome SmoError (Unit {0}) × State)
      → Fine (recover_with r (gives_up c.guid))
      → view r.1 ≡ enter c.guid l
      → Moves
          (server (new_player c p comm))
          (answered (recover_with r (gives_up c.guid))).0
          l
          (view (answered (recover_with r (gives_up c.guid))).1)
  set_up-moves c p comm l (ok a, s) h e =
      subst (Moves (server (new_player c p comm)) (ok true) l) (sym e) (enters c p comm l)
  set_up-moves c p comm l (err x, s) h e =
      let r = gives_up c.guid x s in
      subst (Moves (server (new_player c p comm)) (answered r).0 l)
        (sym
          (view-answered r ∙ view-gives_up c.guid x s ∙ ap (leave c.guid) e ∙ leave-enter c.guid l))
        (expels c p comm (answered r).0 l (throws-fails (disconnect_player accepts c.guid s) x))
  set_up-moves c p comm l (panic, s) h e = absurd h

  admit-moves :
      (t : ConnectionType) (c : Client) (p : Packet) (comm : ℕ) (s : State)
      → Inv s
      → length s.clients ≤ s.settings.server.max_players
      → Moves
          (server (new_player c p comm))
          (answered (admit accepts t c p comm s)).0
          (view s)
          (view (answered (admit accepts t c p comm s)).1)
  unfolding admit
  admit-moves t c p comm s v space =
      let s' : State = record s {
        clients = register t c s.clients;
        to_clients = insert c.guid comm s.to_clients;
        spawned = s.spawned ++ (client_events (record c { cell = own_cell t c s.clients }) ∷ []);
      } in
      set_up-moves c p comm (view s) (setup_player accepts comm p s')
        (admit-Fine accepts t c p comm s v space)
        (ap lobby_of (setup_player-IsQuiet accepts comm p s')
          ∙ with_players (view s) _ _ (has-register t c s.clients))

  refused-moves :
      (c : Client) (p : Packet) (comm : ℕ) (e : SmoError) (s : State)
      → Moves
          (server (new_player c p comm))
          (answered (then_with (dismiss accepts c s) (λ _. throw e))).0
          (view s)
          (view (answered (then_with (dismiss accepts c s) (λ _. throw e))).1)
  refused-moves c p comm e s =
      let r = then_with (dismiss accepts c s) (λ _. throw e) in
      subst (Moves (server (new_player c p comm)) (answered r).0 (view s))
        (sym (
          view-answered r
          ∙ ap lobby_of (
              then_core (dismiss accepts c s) (λ _. throw e) (λ _ s. refl)
              ∙ dismiss-IsQuiet accepts c s)))
        (refuses c p comm (answered r).0 (view s) (throws-fails (dismiss accepts c s) e))

  pub add_connected-moves :
      (d : PacketData) (c : Client) (p : Packet) (comm : ℕ) (s : State)
      → IsConnect d
      → Inv s
      → Moves
          (server (new_player c p comm))
          (answered (add_connected accepts d c p comm s)).0
          (view s)
          (view (answered (add_connected accepts d c p comm s)).1)
  unfolding add_connected
  add_connected-moves (connect t n name) c p comm s h v =
      elim (Option-cases (refusal s.settings (length s.clients) c)) [
        | inl e ↦
            rw (e, admit_or_refuse)
              (admit-moves t c p comm s v (refusal-none s.settings (length s.clients) c e))
        | inr (x, e) ↦ rw (e, admit_or_refuse) (refused-moves c p comm (client_init x) s)
      ]
  add_connected-moves _ c p comm s h v = absurd h
