-- ===== src/Server.antt =====
-- src/server.rs: the listener, and src/main.rs: what it starts from.
pub mod File
pub mod Ports
use smo_multi_rs.Base.{
  ℕ, zero, suc, ◌+◌, ◌%◌, ◌^◌, List, [], ◌∷◌, Bool, true, false, Option, none, some, if◌then◌else◌,
}
use smo_multi_rs.Commands.{default_data}
use smo_multi_rs.Coordinator.State.{State}
use smo_multi_rs.Errors.{SmoError, io, json_error, Outcome, ok, err, panic}
use smo_multi_rs.Settings.{Settings, default_settings}

-- The settings are shared with the coordinator, and stand in its state.
pub record Server : Type 0 where
  pub to_coord : ℕ
  pub udp_port : ℕ

-- A client task that the listener has spawned: the accepted socket, and the port for its UDP socket.
pub record Accepted (A : Type 0) : Type 0 where
  pub socket : A
  pub udp_port : ℕ

-- The loop of `listen_for_clients` over what `accept` brings, a socket or an error, which ends it.
-- The addition of the `u16` ports wraps where overflow is not checked.
unfoldable pub accept_all :
    {A : Type 0} → ℕ → ℕ → List (Option A) → List (Accepted A) × Outcome SmoError (Unit {0})
accept_all base udp_offset [] = ([], ok tt)
accept_all base udp_offset (none ∷ rest) = ([], err io)
accept_all base udp_offset (some socket ∷ rest) =
    let (spawned, answer) = accept_all base ((udp_offset + 1) % 2) rest in
    (record { socket = socket; udp_port = (base + udp_offset) % 2 ^ 16 } ∷ spawned, answer)

-- `listen_for_clients`, once the address is bound. At the end of the list the loop waits.
unfoldable pub listen_for_clients :
    {A : Type 0} → Server → List (Option A) → List (Accepted A) × Outcome SmoError (Unit {0})
unfolding accept_all
listen_for_clients server sockets = accept_all server.udp_port 0 sockets

-- `read_settings().unwrap_or_default()`
unfoldable pub settings_or_default : Option Settings → Settings
settings_or_default none = default_settings
settings_or_default (some settings) = settings

-- The coordinator's state at the start.
unfoldable pub start_state : Option Settings → State
unfolding settings_or_default
start_state file = record {
  shine_bag = [];
  settings = settings_or_default file;
  clients = [];
  to_clients = [];
  store = λ _. default_data;
  sent = [];
  spawned = [];
}

-- The calls of the crate `serde_json`, with the derivations of src/settings.rs: what settings a text
-- stands for, and which bytes get into the file and whether the call succeeds.
pub record Json : Type 0 where
  pub from_reader : List ℕ → Option Settings
  pub to_writer_pretty : Settings → List ℕ × Bool

-- The settings file: its bytes, if it can be opened.
abbrev pub Disk : Type 0
Disk = Option (List ℕ)

from_json : Option Settings → Outcome SmoError Settings
from_json none = err json_error
from_json (some settings) = ok settings

unfoldable pub read_settings : Json → Disk → Outcome SmoError Settings
unfolding from_json
read_settings json none = err io
read_settings json (some bytes) = from_json (json.from_reader bytes)

written : List ℕ × Bool → Outcome SmoError (Unit {0}) × Disk
written (bytes, true) = (ok tt, some bytes)
written (bytes, false) = (err json_error, some bytes)

-- `creates` says whether the file can be created, which empties it.
unfoldable pub save_settings : Json → Bool → Settings → Disk → Outcome SmoError (Unit {0}) × Disk
unfolding written
save_settings json creates settings disk =
    if creates then written (json.to_writer_pretty settings) else (err io, disk)

unwrapped : Outcome SmoError Settings → Option Settings
unwrapped (ok settings) = some settings
unwrapped (err e) = none
unwrapped panic = none

saved :
    ℕ
    → Option Settings
    → Outcome SmoError (Unit {0}) × Disk
    → Outcome SmoError (Server × State) × Disk
unfolding start_state
saved to_coord file (ok a, disk) =
    (ok (record { to_coord = to_coord; udp_port = 51888 }, start_state file), disk)
saved to_coord file (err e, disk) = (panic, disk)
saved to_coord file (panic, disk) = (panic, disk)

-- `create_default_server`, with the coordinator's channel as an argument: the file that cannot be
-- read is written anew with the defaults. The logging and the panic hook are left out.
unfoldable pub create_default_server :
    Json → Bool → ℕ → Disk → Outcome SmoError (Server × State) × Disk
unfolding read_settings save_settings settings_or_default unwrapped saved
create_default_server json creates to_coord disk =
    let file = unwrapped (read_settings json disk) in
    saved to_coord file (save_settings json creates (settings_or_default file) disk)
