-- ===== src/Tests/Samples.antt =====
-- Players and packets for the tests.
use smo_multi_rs.Base.{ℕ, refl, [], ◌∷◌, Bool, true, false, replicate, arith, pos}
use smo_multi_rs.Commands.{Client, default_data}
use smo_multi_rs.Connection.{Connection, SocketAddr}
use smo_multi_rs.Coordinator.State.{State}
use smo_multi_rs.Guid.{Guid, IsGuid}
use smo_multi_rs.Packet.{Packet, shine, connect, disconnect, first_connection, get_size}
use smo_multi_rs.Packet.Typed.{IsRegular}
use smo_multi_rs.Settings.{codes, default_settings}
use smo_multi_rs.Udp.{pending}

abbrev pub hero : Guid
hero = record { id = replicate 16 7 }

abbrev pub foe : Guid
foe = record { id = replicate 16 9 }

pub hero-IsGuid : IsGuid hero
hero-IsGuid = record { sized = refl; bytes = ground arith }

abbrev pub found : Packet
found = record { id = hero; data_size = 5; payload = shine (pos 3) false }

pub found-IsRegular : IsRegular found
unfolding get_size
found-IsRegular = record {
  guid = hero-IsGuid;
  sized = refl;
  small = omega arith;
  fits = omega arith;
  canonical = tt;
}

abbrev pub left : Packet
left = record { id = hero; data_size = 0; payload = disconnect }

pub left-IsRegular : IsRegular left
unfolding get_size
left-IsRegular = record {
  guid = hero-IsGuid;
  sized = refl;
  small = omega arith;
  fits = tt;
  canonical = tt;
}

abbrev pub joins : Packet
joins = record { id = hero; data_size = 38; payload = connect first_connection 8 (codes "Mario") }

abbrev pub home : SocketAddr
home = record { ip = 5; port = 1027 }

abbrev pub idle : Connection
idle = record { addr = home; buff = [] }

-- The hero, with data in cell 1, before the coordinator knows it.
abbrev pub hero_client : Client
hero_client = record {
  display_name = codes "Mario";
  cell = 1;
  guid = hero;
  alive = true;
  conn = idle;
  udp_conn = record { buff = []; send_addr = pending 5 };
  to_coord = 0;
  from_server = 11;
}

-- One player, with its data in cell 2 and the channel 12.
abbrev pub lobby : State
lobby = record {
  shine_bag = pos 4 ∷ [];
  settings = default_settings;
  clients = (foe, 2) ∷ [];
  to_clients = (foe, 12) ∷ [];
  store = λ _. default_data;
  sent = [];
  spawned = [];
}

-- Every channel has its receiver.
abbrev pub all_up : ℕ → ℕ → Bool
all_up n channel = true
