-- ===== src/Coordinator/Shutdown.antt =====
-- The shutdown of the coordinator (src/coordinator.rs), whichever channels are closed by then.
use smo_multi_rs.Base.{
  ℕ, ◌≡◌, refl, sym, ap, ◌∙◌, List, [], ◌∷◌, ◌++◌, Bool, true, false, not, ◌&&◌, All, arith,
  if◌then◌else◌,
}
use smo_multi_rs.Commands.{Command, server, ServerCommand}
use smo_multi_rs.Coordinator.Handle.{
  handle_command, disconnect_all, shutdown, after_command, handle_commands,
}
use smo_multi_rs.Coordinator.Invariant.{IsServed, Inv, Fine}
use smo_multi_rs.Coordinator.Players.{disconnect_player}
use smo_multi_rs.Coordinator.RefinesPlayers.{view-disconnect_player}
use smo_multi_rs.Coordinator.Safe.{handle_command-IsFine}
use smo_multi_rs.Coordinator.SafePlayers.{disconnect_player-IsFine}
use smo_multi_rs.Coordinator.State.{State, return, recover_with}
use smo_multi_rs.Errors.{SmoError, Outcome, ok, err, panic}
use smo_multi_rs.Guid.{Guid, guid_eq, guid_eq_refl}
use smo_multi_rs.Maps.{Map, has}

-- A map without keys is empty.
no_keys : {V : Type 0} (m : Map V) → ((g : Guid) → has g m ≡ false) → m ≡ []
unfolding has
no_keys [] h = refl
no_keys ((k, v) ∷ m) h = ground (arith, guid_eq_refl k, h k)

-- Everyone is gone.
abbrev pub IsOver : Outcome SmoError (Unit {0}) × State → Type 0
IsOver (a, s) = (a ≡ ok tt) × (s.clients ≡ []) × (s.to_clients ≡ [])

-- The players that are left are those of `s` that `cs` does not name.
Swept : Map ℕ → State → Outcome SmoError (Unit {0}) × State → Type 0
Swept cs s (a, t) =
    (a ≡ ok tt) × Inv t × ((g : Guid) → has g t.clients ≡ (has g s.clients && not (has g cs)))

Fine-Inv : {A : Type 0} (r : Outcome SmoError A × State) → Fine r → Inv r.1
Fine-Inv (ok a, s) h = h
Fine-Inv (err e, s) h = h
Fine-Inv (panic, s) h = absurd h

recovered :
    (r : Outcome SmoError (Unit {0}) × State)
    → Fine r
    → recover_with r (λ e. return tt) ≡ (ok tt, r.1)
recovered (ok a, s) h = refl
recovered (err e, s) h = refl
recovered (panic, s) h = absurd h

module _ (accepts : ℕ → ℕ → Bool) where
  left_by :
      (g k : Guid) (s : State)
      → has k (disconnect_player accepts g s).1.clients
        ≡ (if guid_eq g k then false else has k s.clients)
  left_by g k s = ap (λ l. l.players k) (view-disconnect_player accepts g s)

  disconnect_all-Swept : (cs : Map ℕ) (s : State) → Inv s → Swept cs s (disconnect_all accepts cs s)
  unfolding Swept disconnect_all has
  disconnect_all-Swept [] s v = (refl, v, λ g. ground arith)
  disconnect_all-Swept ((k, channel) ∷ cs) s v =
      let fine = disconnect_player-IsFine accepts k s v in
      let s' : State = (disconnect_player accepts k s).1 in
      let (answer, v', left) =
        disconnect_all-Swept cs s' (Fine-Inv (disconnect_player accepts k s) fine) in
      rw (recovered (disconnect_player accepts k s) fine)
        (answer, v', λ g. left g ∙ rw (left_by k g s) (ground arith))

  shutdown-IsOver : (s : State) → Inv s → IsOver (shutdown accepts s)
  unfolding shutdown Swept
  shutdown-IsOver s v =
      let (answer, v', left) = disconnect_all-Swept s.to_clients s v in
      let none_left = λ (g : Guid). left g ∙ rw (v.same_keys g) (ground arith) in
      (answer, no_keys _ none_left, no_keys _ (λ g. sym (v'.same_keys g) ∙ none_left g))

  after_command-IsOver :
      (more : State → Outcome SmoError (Unit {0}) × State) (r : Outcome SmoError Bool × State)
      → Fine r
      → ((s : State) → Inv s → IsOver (more s))
      → IsOver (after_command accepts more r)
  unfolding after_command
  after_command-IsOver more (ok true, s) v h = h s v
  after_command-IsOver more (ok false, s) v h = shutdown-IsOver s v
  after_command-IsOver more (err e, s) v h = h s v
  after_command-IsOver more (panic, s) v h = absurd v

  -- Let the coordinator's invariant hold, and the commands before the shutdown be those that the
  -- server's tasks send, and no send wait. Then the loop over the commands ends without an error or a panic, whichever
  -- commands fail, whichever channels close and whatever follows the shutdown, and at its end no
  -- player has data or a channel.
  pub handle_commands-shutdown :
      (cs rest : List Command) (s : State)
      → All IsServed cs
      → Inv s
      → IsOver (handle_commands accepts (cs ++ (server ServerCommand.shutdown ∷ rest)) s)
  unfolding handle_commands after_command handle_command
  handle_commands-shutdown [] rest s h v = shutdown-IsOver s v
  handle_commands-shutdown (c ∷ cs) rest s h v =
      after_command-IsOver (handle_commands accepts (cs ++ (server ServerCommand.shutdown ∷ rest)))
        (handle_command accepts c s) (handle_command-IsFine accepts c h.0 s v)
        (λ s v. handle_commands-shutdown cs rest s h.1 v)
