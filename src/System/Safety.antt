-- ===== src/System/Safety.antt =====
-- What holds in every reachable world.
use smo_multi_rs.Base.{
  ℕ, ◌≡◌, refl, subst, List, [], ◌∷◌, ◌++◌, Bool, length, drop, All, zero, suc, ◌==◌, Bool-cases,
  inl, inr, arith, Option,
}
use smo_multi_rs.Bytes.{Bytes}
use smo_multi_rs.Client.Safe.{
  handle_packet-IsFine, run_delayed-IsFine, Fine-Inv, initialize_client-Inv,
}
use smo_multi_rs.Commands.{Command}
use smo_multi_rs.Coordinator.Handle.{handle_command}
use smo_multi_rs.Coordinator.Invariant.{IsServed, Inv, Fine}
use smo_multi_rs.Coordinator.Refines.{handle_command-moves}
use smo_multi_rs.Coordinator.Roster.{Moves, view}
use smo_multi_rs.Coordinator.Safe.{handle_command-IsFine, after_command-Fine}
use smo_multi_rs.Coordinator.SafePlayers.{dismiss-IsFine}
use smo_multi_rs.Coordinator.State.{State}
use smo_multi_rs.Errors.{SmoError, Outcome, ok, err, panic}
use smo_multi_rs.Client.{handle_packet}
use smo_multi_rs.Coordinator.Players.{dismiss}
use smo_multi_rs.Coordinator.Shines.{run_delayed}
use smo_multi_rs.Coordinator.State.{return}
use smo_multi_rs.Server.{start_state}
use smo_multi_rs.Settings.{Settings}
use smo_multi_rs.System.{
  begun, World, for_channel, advance, take_command, Step, coordinate, receive, leave, join, wake,
  Reach, here, next,
}

-- The coordinator's invariant, and commands in its channel that it serves.
pub record IsSafe (w : World) : Type 0 where
  pub inv : Inv w.state
  pub inbox : All IsServed w.inbox

All-append : (xs ys : List Command) → All IsServed xs → All IsServed ys → All IsServed (xs ++ ys)
All-append [] ys hx hy = hy
All-append (x ∷ xs) ys hx hy = (hx.0, All-append xs ys hx.1 hy)

All-drop :
    (n : ℕ) (ms : List (ℕ × Command))
    → All (λ m. IsServed m.1) ms
    → All (λ m. IsServed m.1) (drop n ms)
All-drop zero ms h = h
All-drop (suc n) [] h = h
All-drop (suc n) (m ∷ ms) h = All-drop n ms h.1

All-for_channel :
    (channel : ℕ) (ms : List (ℕ × Command))
    → All (λ m. IsServed m.1) ms
    → All IsServed (for_channel channel ms)
unfolding for_channel
All-for_channel channel [] h = tt
All-for_channel channel ((k, c) ∷ ms) h = elim (Bool-cases (k == channel)) [
  | inl own ↦ rw own (h.0, All-for_channel channel ms h.1)
  | inr other ↦ rw other (All-for_channel channel ms h.1)
]

advance-IsSafe :
    (coord : ℕ) (w : World) (inbox : List Command) (running : Bool) (s : State)
    → All IsServed inbox
    → Inv s
    → IsSafe (advance coord w inbox running s)
unfolding advance
advance-IsSafe coord w inbox running s served v = record {
  inv = v;
  inbox = All-append inbox (for_channel coord (drop (length w.state.sent) s.sent)) served (
      All-for_channel coord (drop (length w.state.sent) s.sent)
        (All-drop (length w.state.sent) s.sent v.served));
}

take_command-Fine :
    (accepts : ℕ → ℕ → Bool) (c : Command) (s : State)
    → IsServed c
    → Inv s
    → Fine (take_command accepts c s)
unfolding take_command
take_command-Fine accepts c s h v =
    after_command-Fine accepts (return tt) (handle_command accepts c s) (λ s v. v)
      (handle_command-IsFine accepts c h s v)

module _ {accepts : ℕ → ℕ → Bool} {io : Bytes} {coord : ℕ} where
  Step-IsSafe : {w w' : World} → Step accepts io coord w w' → IsSafe w → IsSafe w'
  Step-IsSafe {w} (coordinate c rest on e) h =
      let served : All IsServed (c ∷ rest) = subst (All IsServed) e h.inbox in
      advance-IsSafe coord w rest _ _ served.1 (
        Fine-Inv (take_command accepts c w.state)
          (take_command-Fine accepts c w.state served.0 h.inv))
  Step-IsSafe {w} (receive c p) h = advance-IsSafe coord w w.inbox _ _ h.inbox (
      Fine-Inv (handle_packet accepts p c w.state) (handle_packet-IsFine accepts p c w.state h.inv))
  Step-IsSafe {w} (leave c) h =
      advance-IsSafe coord w w.inbox _ _ h.inbox
        (Fine-Inv (dismiss accepts c w.state) (dismiss-IsFine accepts c w.state h.inv))
  Step-IsSafe {w} (join a wire) h =
      advance-IsSafe coord w w.inbox _ _ h.inbox
        (initialize_client-Inv accepts io a w.state wire h.inv)
  Step-IsSafe {w} (wake t) h =
      advance-IsSafe coord w w.inbox _ _ h.inbox
        (Fine-Inv (run_delayed accepts t w.state) (run_delayed-IsFine accepts t w.state h.inv))

  Reach-IsSafe : {w w' : World} → IsSafe w → Reach accepts io coord w w' → IsSafe w'
  Reach-IsSafe h here = h
  Reach-IsSafe h (next r st) = Step-IsSafe st (Reach-IsSafe h r)

Fine-no_panic : {A : Type 0} (r : Outcome SmoError A × State) → Fine r → ¬ (r.0 ≡ panic)
Fine-no_panic (ok a, s) h e = cc
Fine-no_panic (err e, s) h same = cc
Fine-no_panic (panic, s) h e = h

-- The world of a state that nothing has been sent to yet.
started-IsSafe : (file : Option Settings) → IsSafe (begun (start_state file))
unfolding start_state
started-IsSafe file = record {
  inv = record { same_keys = λ g. refl; room = omega arith; served = tt };
  inbox = tt;
}

All-mapped :
    {P Q : Command → Type 0} (cs : List Command) → ((c : Command) → P c → Q c) → All P cs → All Q cs
All-mapped [] f h = tt
All-mapped (c ∷ cs) f h = (f c h.0, All-mapped cs f h.1)

-- The server as it starts, from any settings file or none, with any number of clients that connect,
-- send packets, leave and are sent the moons late, in any order, no commands from the command line,
-- and any channel closing at any time: in every world that the handlers reach from there, each
-- player has data exactly if it has a channel, and there is at most one player beyond
-- `max_players`; and whichever command in the coordinator's channel is taken next, the coordinator
-- does not panic, and does to the lobby of players and moons only what the command allows with its
-- answer.
pub reached-safe :
    {accepts : ℕ → ℕ → Bool} {io : Bytes} {coord : ℕ} {w : World} (file : Option Settings)
    → Reach accepts io coord (begun (start_state file)) w
    → Inv w.state
      × All
          (λ c.
            (¬ ((take_command accepts c w.state).0 ≡ panic))
            × Moves c
                (handle_command accepts c w.state).0
                (view w.state)
                (view (handle_command accepts c w.state).1))
          w.inbox
reached-safe {accepts} {w = w} file r =
    let safe = Reach-IsSafe (started-IsSafe file) r in
    (
      safe.inv,
      All-mapped w.inbox
          (λ c served. (
            Fine-no_panic (take_command accepts c w.state)
                (take_command-Fine accepts c w.state served safe.inv),
            handle_command-moves accepts c w.state served safe.inv,
          ))
          safe.inbox,
    )
