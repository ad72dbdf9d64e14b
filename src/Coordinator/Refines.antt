-- ===== src/Coordinator/Refines.antt =====
-- The handlers of src/coordinator.rs do what the lobby allows.
use mathlib.Core.Path.{fun_ext}
use smo_multi_rs.Base.{
  ℕ, ◌≡◌, refl, sym, ap, subst, ◌∙◌, List, [], Bool, true, false, ◌&&◌, ◌==◌, none, Bool-cases,
  Option-cases, inl, inr,
}
use smo_multi_rs.Commands.{Command, packet, cli, server, ServerCommand, new_player}
use smo_multi_rs.Coordinator.Handle.{
  start_speedrun, enable_sync, enter_stage, handle_packet, handle_command,
}
use smo_multi_rs.Coordinator.Invariant.{IsServed, Inv}
use smo_multi_rs.Coordinator.Players.{disconnect_player, add_client}
use smo_multi_rs.Coordinator.Quiet.{
  IsQuiet, then-IsQuiet, then_core, broadcast-IsQuiet, sync_all_shines-IsQuiet, enable_sync-IsQuiet,
}
use smo_multi_rs.Coordinator.Roster.{
  view, reported, starts_run, Moves, leaves, stops, finds, restarts, passes,
}
use smo_multi_rs.Coordinator.Shines.{broadcast, sync_all_shines, get_client}
use smo_multi_rs.Coordinator.State.{
  State, Task, then_with, ◌>>=◌, return, cap_world, waterfall_world, update,
}
use smo_multi_rs.Guid.{Guid, bytes_eq}
use smo_multi_rs.Maps.{Map, lookup, has, contains, add, lookup-has, has-lookup, contains-add}
use smo_multi_rs.Packet.{Packet, PacketData, costume, game, shine}
use smo_multi_rs.Coordinator.RefinesPlayers.{
  lobby_of, answered, view-answered, view-disconnect_player, add_connected-moves,
}

module _ (accepts : ℕ → ℕ → Bool) where
  -- A quiet task answers a packet that neither reports a moon nor starts a speedrun.
  quiet-moves :
      (m : Task Bool) (p : Packet) (s : State)
      → IsQuiet m
      → reported p.payload ≡ none
      → starts_run p.payload ≡ false
      → Moves (packet p) (m s).0 (view s) (view (m s).1)
  quiet-moves m p s h no_moon no_run =
      subst (Moves (packet p) (m s).0 (view s)) (sym (ap lobby_of (h s)))
        (passes p (m s).0 (view s) no_moon (inl no_run))

  broadcast_on-IsQuiet : (p : Packet) → IsQuiet (broadcast accepts p >>= λ _. return true)
  broadcast_on-IsQuiet p =
      then-IsQuiet (broadcast accepts p) _ (broadcast-IsQuiet accepts p) (λ _ s. refl)

  has-lookup-none : (g : Guid) (m : Map ℕ) → lookup g m ≡ none → has g m ≡ false
  has-lookup-none g m e = elim (Bool-cases (has g m)) [
    | inl there ↦ let (v, found) = has-lookup g m there in cc
    | inr gone ↦ gone
  ]

  -- A speedrun starts for a known player alone.
  start_speedrun-moves :
      (p : Packet) (s : State) (more : Unit {0} → Task Bool)
      → ((a : Unit {0}) → IsQuiet (more a))
      → reported p.payload ≡ none
      → starts_run p.payload ≡ true
      → Moves
          (packet p)
          (then_with (start_speedrun accepts p.id s) more).0
          (view s)
          (view (then_with (start_speedrun accepts p.id s) more).1)
  unfolding start_speedrun get_client contains
  start_speedrun-moves p s more h no_moon run = elim (Option-cases (lookup p.id s.clients)) [
    | inl unknown ↦
        rw unknown (passes p _ (view s) no_moon (inr (has-lookup-none p.id s.clients unknown)))
    | inr (client, known) ↦ rw known (
        let s' : State = record s {
          store = update client (λ d. record d { speedrun_start = true; shine_sync = [] }) s.store;
          shine_bag = [];
        } in
        subst (Moves (packet p) (more tt s').0 (view s)) (sym (ap lobby_of (h tt s')))
          (restarts p (more tt s').0 (view s) run (lookup-has p.id s.clients {v = client} known)))
  ]

  enter_stage-moves :
      (stage : List ℕ) (scenario_num : ℕ) (is_2d : Bool) (p : Packet) (s : State)
      (more : Unit {0} → Task Bool)
      → ((a : Unit {0}) → IsQuiet (more a))
      → p.payload ≡ game is_2d scenario_num stage
      → Moves
          (packet p)
          (then_with (enter_stage accepts stage scenario_num p.id s) more).0
          (view s)
          (view (then_with (enter_stage accepts stage scenario_num p.id s) more).1)
  unfolding enter_stage
  enter_stage-moves stage n is_2d p s more h e =
      elim (Bool-cases (bytes_eq stage cap_world && n == 0)) [
        | inl run ↦ rw run (start_speedrun-moves p s more h (ap reported e) (ap starts_run e ∙ run))
        | inr no_run ↦ rw no_run (elim (Bool-cases (bytes_eq stage waterfall_world)) [
          | inl falls ↦ rw falls (
              quiet-moves (enable_sync accepts p.id >>= more) p s
                (then-IsQuiet (enable_sync accepts p.id) more (enable_sync-IsQuiet accepts p.id) h)
                (ap reported e) (ap starts_run e ∙ no_run))
          | inr other ↦
              rw other (quiet-moves (more tt) p s (h tt) (ap reported e) (ap starts_run e ∙ no_run))
        ])
      ]

  handle_packet-moves :
      (d : PacketData) (p : Packet) (s : State)
      → p.payload ≡ d
      → Moves
          (packet p)
          (handle_packet accepts d p s).0
          (view s)
          (view (handle_packet accepts d p s).1)
  unfolding handle_packet
  handle_packet-moves (costume c) p s e =
      quiet-moves (sync_all_shines accepts >>= λ _. broadcast accepts p >>= λ _. return true) p s
        (then-IsQuiet (sync_all_shines accepts) _ (sync_all_shines-IsQuiet accepts)
          (λ _. broadcast_on-IsQuiet p))
        (ap reported e) (ap starts_run e)
  handle_packet-moves (shine i b) p s e =
      let s' : State = record s { shine_bag = add i s.shine_bag } in
      let r = then_with (sync_all_shines accepts s') (λ _. return true) in
      subst (Moves (packet p) r.0 (view s))
        (sym (
          ap lobby_of (
            then_core (sync_all_shines accepts s') (λ _. return true) (λ _ s. refl)
            ∙ sync_all_shines-IsQuiet accepts s')
          ∙ ap (λ f. record (view s) { moons = f }) (fun_ext (λ k. contains-add i k s.shine_bag))))
        (finds p i r.0 (view s) (ap reported e))
  handle_packet-moves (game b n stage) p s e =
      enter_stage-moves stage n b p s (λ _. broadcast accepts p >>= λ _. return true)
        (λ _. broadcast_on-IsQuiet p) e
  handle_packet-moves _ p s e =
      quiet-moves (broadcast accepts p >>= λ _. return true) p s (broadcast_on-IsQuiet p)
        (ap reported e) (ap starts_run e)

  -- Seen as a set of players and a set of moons, every command that the tasks send does, from a
  -- state with the invariant and whichever channels close, only what the lobby allows with this
  -- answer: a new player enters if the answer is `true`, and is kept out or expelled otherwise; a
  -- departure removes the player; a reported moon is added; a game packet of a known player at the
  -- start of a run clears the moons; the other packets and the shutdown change nothing.
  pub handle_command-moves :
      (c : Command) (s : State)
      → IsServed c
      → Inv s
      → Moves c (handle_command accepts c s).0 (view s) (view (handle_command accepts c s).1)
  unfolding handle_command add_client
  handle_command-moves (packet p) s h v = handle_packet-moves p.payload p s refl
  handle_command-moves (cli c) s h v = absurd h
  handle_command-moves (server (new_player c p comm)) s h v =
      add_connected-moves accepts p.payload c p comm s h v
  handle_command-moves (server (ServerCommand.disconnect_player g)) s h v =
      let r = answered accepts (disconnect_player accepts g s) in
      subst (Moves (server (ServerCommand.disconnect_player g)) r.0 (view s))
        (sym (
          view-answered accepts (disconnect_player accepts g s)
          ∙ view-disconnect_player accepts g s))
        (leaves g r.0 (view s))
  handle_command-moves (server ServerCommand.shutdown) s h v = stops (view s)
