-- ===== src/Coordinator/Roster.antt =====
-- What the coordinator of src/coordinator.rs promises, without its maps, channels and order: who
-- plays, and which moons the server knows.
use smo_multi_rs.Base.{
  ℕ, ◌≡◌, Bool, true, false, ◌||◌, ◌&&◌, ◌⊎◌, ◌==◌, Option, none, some, ℤ, if◌then◌else◌,
}
use smo_multi_rs.Commands.{Command, packet, server, ServerCommand, new_player, Client}
use smo_multi_rs.Coordinator.State.{State, cap_world}
use smo_multi_rs.Errors.{SmoError, Outcome, ok}
use smo_multi_rs.Guid.{Guid, guid_eq, bytes_eq}
use smo_multi_rs.Maps.{has, contains, int_eq}
use smo_multi_rs.Packet.{Packet, PacketData, shine, game}

pub record Lobby : Type 0 where
  pub players : Guid → Bool
  pub moons : ℤ → Bool

abbrev pub view : State → Lobby
view s = record { players = λ g. has g s.clients; moons = λ i. contains i s.shine_bag }

abbrev pub enter : Guid → Lobby → Lobby
enter g l = record l { players = λ k. guid_eq g k || l.players k }

abbrev pub leave : Guid → Lobby → Lobby
leave g l = record l { players = λ k. if guid_eq g k then false else l.players k }

abbrev pub find : ℤ → Lobby → Lobby
find i l = record l { moons = λ k. int_eq i k || l.moons k }

abbrev pub restart : Lobby → Lobby
restart l = record l { moons = λ k. false }

-- The moon that a packet reports.
abbrev pub reported : PacketData → Option ℤ
reported (shine i is_grand) = some i
reported _ = none

-- A packet that starts a speedrun.
abbrev pub starts_run : PacketData → Bool
starts_run (game is_2d scenario_num stage) = bytes_eq stage cap_world && scenario_num == 0
starts_run _ = false

-- A command, its answer, and what it may do to the lobby.
pub data Moves : Command → Outcome SmoError Bool → Lobby → Lobby → Type 0 where
  enters :
      (c : Client) (p : Packet) (comm : ℕ) (l : Lobby)
      → Moves (server (new_player c p comm)) (ok true) l (enter c.guid l)
  refuses :
      (c : Client) (p : Packet) (comm : ℕ) (a : Outcome SmoError Bool) (l : Lobby)
      → ¬ (a ≡ ok true)
      → Moves (server (new_player c p comm)) a l l
  expels :
      (c : Client) (p : Packet) (comm : ℕ) (a : Outcome SmoError Bool) (l : Lobby)
      → ¬ (a ≡ ok true)
      → Moves (server (new_player c p comm)) a l (leave c.guid l)
  leaves :
      (g : Guid) (a : Outcome SmoError Bool) (l : Lobby)
      → Moves (server (ServerCommand.disconnect_player g)) a l (leave g l)
  stops : (l : Lobby) → Moves (server ServerCommand.shutdown) (ok false) l l
  finds :
      (p : Packet) (i : ℤ) (a : Outcome SmoError Bool) (l : Lobby)
      → reported p.payload ≡ some i
      → Moves (packet p) a l (find i l)
  restarts :
      (p : Packet) (a : Outcome SmoError Bool) (l : Lobby)
      → starts_run p.payload ≡ true
      → l.players p.id ≡ true
      → Moves (packet p) a l (restart l)
  passes :
      (p : Packet) (a : Outcome SmoError Bool) (l : Lobby)
      → reported p.payload ≡ none
      → (starts_run p.payload ≡ false) ⊎ (l.players p.id ≡ false)
      → Moves (packet p) a l l
