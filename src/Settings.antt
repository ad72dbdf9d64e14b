-- ===== src/Settings.antt =====
-- src/settings.rs: the configuration and its defaults. An `IpAddr` is a number, a `String` the list
-- of its bytes.
use Prim.Native.Char.{code}
use Prim.Native.String.{String}
use smo_multi_rs.Base.{ℕ, List, [], ◌∷◌, Bool, true, false, Option, none}
use smo_multi_rs.Guid.{Guid}

-- The bytes of an ASCII text.
abbrev pub codes : String → List ℕ
codes String.[] = []
codes (String.◌∷◌ c s) = code c ∷ codes s

pub record ServerSettings : Type 0 where
  pub address : ℕ
  pub port : ℕ
  pub max_players : ℕ

pub data FlipPovSettings : Type 0 where
  both player others : FlipPovSettings

pub record FlipSettings : Type 0 where
  pub enabled : Bool
  pub players : List Guid
  pub pov : FlipPovSettings

pub record ScenarioSettings : Type 0 where
  pub merge_enabled : Bool

pub record BanListSettings : Type 0 where
  pub enabled : Bool
  pub players : List Guid
  pub ips : List ℕ

pub record DiscordSettings : Type 0 where
  pub token : Option (List ℕ)
  pub prefix : List ℕ
  pub log_channel : Option (List ℕ)

pub record PersistShine : Type 0 where
  pub enabled : Bool
  pub filename : List ℕ

pub record Settings : Type 0 where
  pub server : ServerSettings
  pub flip : FlipSettings
  pub scenario : ScenarioSettings
  pub ban_list : BanListSettings
  pub discord : DiscordSettings
  pub persist_shines : PersistShine

-- `0.0.0.0` is 0.
abbrev pub default_server : ServerSettings
default_server = record { address = 0; port = 1027; max_players = 8 }

abbrev pub default_flip : FlipSettings
default_flip = record { enabled = true; players = []; pov = both }

abbrev pub default_scenario : ScenarioSettings
default_scenario = record { merge_enabled = false }

abbrev pub default_ban_list : BanListSettings
default_ban_list = record { enabled = false; players = []; ips = [] }

abbrev pub default_discord : DiscordSettings
default_discord = record { token = none; prefix = codes "$"; log_channel = none }

abbrev pub default_persist_shine : PersistShine
default_persist_shine = record { enabled = false; filename = codes "./moons.json" }

abbrev pub default_settings : Settings
default_settings = record {
  server = default_server;
  flip = default_flip;
  scenario = default_scenario;
  ban_list = default_ban_list;
  discord = default_discord;
  persist_shines = default_persist_shine;
}
