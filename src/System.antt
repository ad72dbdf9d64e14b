-- ===== src/System.antt =====
-- The tasks of the server together (src/coordinator.rs, src/client.rs, src/server.rs): the coordinator
-- and any number of client tasks on one shared state, in any interleaving. A step is one handler of
-- one task, with all its awaits.
pub mod Relayed
pub mod Reconnect
pub mod Crash
pub mod Joined
pub mod Safety
use smo_multi_rs.Base.{
  ℕ, ◌≡◌, List, [], ◌∷◌, ◌++◌, Bool, true, false, length, drop, ◌==◌, if◌then◌else◌,
}
use smo_multi_rs.Bytes.{Bytes}
use smo_multi_rs.Client.{handle_packet}
use smo_multi_rs.Client.Handshake.{Arrival, initialize_client}
use smo_multi_rs.Commands.{Command, Client}
use smo_multi_rs.Coordinator.Handle.{handle_command, after_command}
use smo_multi_rs.Coordinator.Players.{dismiss}
use smo_multi_rs.Coordinator.Shines.{run_delayed}
use smo_multi_rs.Coordinator.State.{State, Spawned, return}
use smo_multi_rs.Errors.{SmoError, Outcome, ok, err, panic}
use smo_multi_rs.Packet.{Packet}

-- The shared state, and the commands in the coordinator's channel that it has not taken yet, and
-- whether the coordinator's loop has not ended. The inbox stands for the channel of src/main.rs, whose
-- order is taken to be that of the sends; when the loop ends the source drops the receiver, while
-- this inbox goes on to grow, unread.
pub record World : Type 0 where
  pub state : State
  pub inbox : List Command
  pub running : Bool

-- The world as the program starts.
abbrev pub begun : State → World
begun s = record { state = s; inbox = []; running = true }

-- What went into one channel, oldest first.
unfoldable pub for_channel : ℕ → List (ℕ × Command) → List Command
for_channel channel [] = []
for_channel channel ((k, c) ∷ ms) =
    let rest = for_channel channel ms in if k == channel then c ∷ rest else rest

-- The world after a handler: what it sent to the coordinator is in the inbox.
unfoldable pub advance : ℕ → World → List Command → Bool → State → World
unfolding for_channel
advance coord w inbox running s = record {
  state = s;
  inbox = inbox ++ for_channel coord (drop (length w.state.sent) s.sent);
  running = running;
}

-- `handle_command` returned `Ok(false)`, which ends the loop, or panicked.
unfoldable pub goes_on : Outcome SmoError Bool → Bool
goes_on (ok b) = b
goes_on (err e) = true
goes_on panic = false

-- The coordinator takes a command; one that ends its loop is followed by the shutdown.
unfoldable pub take_command : (ℕ → ℕ → Bool) → Command → State → Outcome SmoError (Unit {0}) × State
unfolding handle_command
take_command accepts c s = after_command accepts (return tt) (handle_command accepts c s)

module _ (accepts : ℕ → ℕ → Bool) (io : Bytes) (coord : ℕ) where
  -- A client may be any: no more is asked of the clients that act than that their channel and cell
  -- are what they are.
  pub data Step (w : World) : World → Type 0 where
    coordinate :
        (c : Command) (rest : List Command)
        → w.running ≡ true
        → w.inbox ≡ c ∷ rest
        → Step w (
            advance coord w rest
              (goes_on (handle_command accepts c w.state).0)
              (take_command accepts c w.state).1)
    receive :
        (c : Client) (p : Packet)
        → Step w (advance coord w w.inbox w.running (handle_packet accepts p c w.state).1)
    leave : (c : Client) → Step w (advance coord w w.inbox w.running (dismiss accepts c w.state).1)
    join :
        (h : Arrival) (wire : List ℕ)
        → Step w
            (advance coord w w.inbox w.running (initialize_client accepts io h (w.state, wire)).1.0)
    wake :
        (t : Spawned) → Step w (advance coord w w.inbox w.running (run_delayed accepts t w.state).1)

  pub data Reach (w : World) : World → Type 0 where
    here : Reach w w
    next : {u v : World} → Reach w u → Step u v → Reach w v
