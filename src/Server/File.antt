-- ===== src/Server/File.antt =====
-- The settings file that a start of the server leaves (src/main.rs).
use smo_multi_rs.Base.{ℕ, none, some}
use smo_multi_rs.Coordinator.State.{State}
use smo_multi_rs.Server.{Server, Json, Disk, settings_or_default, start_state}
use smo_multi_rs.Settings.{Settings, default_settings}

-- The settings that a start takes from the file.
abbrev pub settings_of : Json → Disk → Settings
settings_of json none = default_settings
settings_of json (some bytes) = settings_or_default (json.from_reader bytes)

-- The server and the coordinator that a start with some settings makes.
abbrev pub started : ℕ → Settings → Server × State
started to_coord settings =
    (record { to_coord = to_coord; udp_port = 51888 }, start_state (some settings))
