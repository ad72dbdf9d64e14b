-- ===== src/Commands.antt =====
-- src/cmds.rs: the commands that the tasks exchange; src/client.rs: the data of a client.
-- A shared `Arc<RwLock<ClientData>>` is a reference into the store of the coordinator's state, and
-- the sending half of a channel is the channel's number.
use smo_multi_rs.Base.{ℕ, List, Bool, Option, ℤ, false, none, [], if◌then◌else◌}
use smo_multi_rs.Connection.{Connection}
use smo_multi_rs.Errors.{Outcome, panic}
use smo_multi_rs.Guid.{Guid, bytes_eq}
use smo_multi_rs.Packet.{Packet, Costume}
use smo_multi_rs.Settings.{codes}
use smo_multi_rs.Udp.{UdpConnection}

-- `Costume::default()`
abbrev pub default_costume : Costume
default_costume = record { body_name = codes "Mario"; cap_name = codes "Mario" }

-- The settings, which all tasks share, are left out here; `time` is in seconds.
pub record ClientData : Type 0 where
  pub name : List ℕ
  pub shine_sync : List ℤ
  pub scenario : ℕ
  pub is_2d : Bool
  pub is_seeking : Bool
  pub last_game_packet : Option Packet
  pub speedrun_start : Bool
  pub loaded_save : Bool
  pub time : ℕ
  pub costume : Costume

-- `ClientData::default()`
abbrev pub default_data : ClientData
default_data = record {
  name = [];
  shine_sync = [];
  scenario = 0;
  is_2d = false;
  is_seeking = false;
  last_game_packet = none;
  speedrun_start = false;
  loaded_save = false;
  time = 0;
  costume = default_costume;
}

-- `cell` is the reference to the client's data.
pub record Client : Type 0 where
  pub display_name : List ℕ
  pub cell : ℕ
  pub guid : Guid
  pub alive : Bool
  pub conn : Connection
  pub udp_conn : UdpConnection
  pub to_coord : ℕ
  pub from_server : ℕ

pub data PlayerSelect : Type 0 where
  one_player : List ℕ → PlayerSelect
  all_players : PlayerSelect

-- `PlayerSelect::from_str`
unfoldable pub player_select : List ℕ → PlayerSelect
player_select s = if bytes_eq s (codes "*") then all_players else one_player s

pub data FlipValues : Type 0 where
  both_sides player_side other_side : FlipValues

-- `FlipValues::from_str`, `unimplemented!()`; its error type is `Infallible`.
unfoldable pub flip_values : List ℕ → Outcome ⊥ FlipValues
flip_values s = panic

pub data ScenarioCommand : Type 0 where
  merge : (enabled : Option Bool) → ScenarioCommand

pub data TagCommand : Type 0 where
  tag_time : (player : PlayerSelect) (minutes seconds : ℕ) → TagCommand
  seeking : (player : PlayerSelect) (is_seeking : Bool) → TagCommand
  start : (countdown : ℕ) (seekers : List ℕ) → TagCommand

pub data FlipCommand : Type 0 where
  flip_list : FlipCommand
  flip_add : (player : Guid) → FlipCommand
  flip_remove : (player : Guid) → FlipCommand
  flip_set : (is_flipped : Bool) → FlipCommand
  pov : (value : FlipValues) → FlipCommand

pub data ShineCommand : Type 0 where
  shine_list shine_clear shine_sync : ShineCommand
  shine_send : (id : ℕ) (player : PlayerSelect) → ShineCommand

pub data CliCommand : Type 0 where
  send_all : (stage : List ℕ) → CliCommand
  send_stage : (stage id : List ℕ) (scenario : ℤ) (players : List PlayerSelect) → CliCommand
  ban crash rejoin : (players : List PlayerSelect) → CliCommand
  set_scenario : ScenarioCommand → CliCommand
  set_tag : TagCommand → CliCommand
  max_players : (player_count : ℕ) → CliCommand
  list_players : CliCommand
  set_flip : FlipCommand → CliCommand
  set_shine : ShineCommand → CliCommand
  load_settings : CliCommand

-- `comm` is the channel to the new client.
pub data ServerCommand : Type 0 where
  new_player : (cli : Client) (connect_packet : Packet) (comm : ℕ) → ServerCommand
  disconnect_player : (guid : Guid) → ServerCommand
  shutdown : ServerCommand

pub data Command : Type 0 where
  packet : Packet → Command
  cli : CliCommand → Command
  server : ServerCommand → Command
