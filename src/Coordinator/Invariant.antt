-- ===== src/Coordinator/Invariant.antt =====
-- The invariant of the coordinator (src/coordinator.rs), and rules for tasks that keep it and do not
-- panic.
use smo_multi_rs.Base.{◌+◌, ◌≡◌, ◌≤◌, Bool, true, false, All, length, if◌then◌else◌}
use smo_multi_rs.Commands.{Command, packet, cli, server, ServerCommand, new_player}
use smo_multi_rs.Packet.{PacketData, connect}
use smo_multi_rs.Errors.{SmoError, Outcome, ok, err, panic}
use smo_multi_rs.Guid.{Guid}
use smo_multi_rs.Maps.{has}
use smo_multi_rs.Coordinator.State.{State, Task, then_with, ◌>>=◌, recover_with, recover}

-- Only a connect packet comes with a new player.
abbrev pub IsConnect : PacketData → Type 0
IsConnect (connect c_type max_player client_name) = Unit {0}
IsConnect _ = ⊥

-- What the server's tasks send: no command line, and a connect packet with every new player.
abbrev pub IsServed : Command → Type 0
IsServed (packet p) = Unit {0}
IsServed (cli c) = ⊥
IsServed (server (new_player c p comm)) = IsConnect p.payload
IsServed (server (ServerCommand.disconnect_player g)) = Unit {0}
IsServed (server ServerCommand.shutdown) = Unit {0}

-- A player has data exactly if it has a channel, and there is at most one player beyond the
-- limit; every message in a channel is one that the tasks send.
pub record Inv (s : State) : Type 0 where
  pub same_keys : (g : Guid) → has g s.clients ≡ has g s.to_clients
  pub room : length s.clients ≤ s.settings.server.max_players + 1
  pub served : All (λ m. IsServed m.1) s.sent

-- The invariant holds afterwards, after an error too, and there was no panic.
abbrev pub Fine : {A : Type 0} → Outcome SmoError A × State → Type 0
Fine (ok a, s) = Inv s
Fine (err e, s) = Inv s
Fine (panic, s) = ⊥

abbrev pub IsFine : {A : Type 0} → Task A → Type 0
IsFine m = (s : State) → Inv s → Fine (m s)

pub Fine-then :
    {A B : Type 0} (r : Outcome SmoError A × State) (f : A → Task B)
    → Fine r
    → ((a : A) → IsFine (f a))
    → Fine (then_with r f)
Fine-then (ok a, s) f h k = k a s h
Fine-then (err e, s) f h k = h
Fine-then (panic, s) f h k = h

pub then-IsFine :
    {A B : Type 0} (m : Task A) (f : A → Task B)
    → IsFine m
    → ((a : A) → IsFine (f a))
    → IsFine (m >>= f)
then-IsFine m f h k s v = Fine-then (m s) f (h s v) k

pub Fine-recover :
    (r : Outcome SmoError (Unit {0}) × State) (f : SmoError → Task (Unit {0}))
    → Fine r
    → ((e : SmoError) → IsFine (f e))
    → Fine (recover_with r f)
Fine-recover (ok a, s) f h k = h
Fine-recover (err e, s) f h k = k e s h
Fine-recover (panic, s) f h k = h

pub recover-IsFine :
    (m : Task (Unit {0})) (f : SmoError → Task (Unit {0}))
    → IsFine m
    → ((e : SmoError) → IsFine (f e))
    → IsFine (recover m f)
recover-IsFine m f h k s v = Fine-recover (m s) f (h s v) k

pub if_Fine :
    {A : Type 0} (b : Bool) (m k : Task A) (s : State)
    → Fine (m s)
    → Fine (k s)
    → Fine ((if b then m else k) s)
if_Fine true m k s h h' = h
if_Fine false m k s h h' = h'
