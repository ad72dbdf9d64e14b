-- ===== src/Coordinator/State.antt =====
-- src/coordinator.rs: the state of the coordinator, and the code that runs on it. Each method is a
-- `Task`, a function of the state; what a method did before an error stays done.
use smo_multi_rs.Base.{ℕ, List, Option, none, some, ◌==◌, if◌then◌else◌, ℤ}
use smo_multi_rs.Commands.{Command, Client, ClientData}
use smo_multi_rs.Errors.{SmoError, Outcome, ok, err, panic}
use smo_multi_rs.Guid.{Guid}
use smo_multi_rs.Maps.{Map}
use smo_multi_rs.Packet.{Packet, PacketData, new}
use smo_multi_rs.Settings.{Settings, codes}

-- A task that the coordinator has spawned: the loop of a new client, or a shine sync after 15 seconds.
pub data Spawned : Type 0 where
  client_events : Client → Spawned
  delayed_sync : (channel : ℕ) (guid : Guid) (client : ℕ) → Spawned

-- `clients` holds references into `store`, `to_clients` holds channels. `sent` is what went into the
-- channels, oldest first. `from_clients` is left out: the commands that come are an argument.
pub record State : Type 0 where
  pub shine_bag : List ℤ
  pub settings : Settings
  pub clients : Map ℕ
  pub to_clients : Map ℕ
  pub store : ℕ → ClientData
  pub sent : List (ℕ × Command)
  pub spawned : List Spawned

abbrev pub Task : Type 0 → Type 0
Task A = State → Outcome SmoError A × State

abbrev pub then_with :
    {A B : Type 0} → Outcome SmoError A × State → (A → Task B) → Outcome SmoError B × State
then_with (ok a, s) f = f a s
then_with (err e, s) f = (err e, s)
then_with (panic, s) f = (panic, s)

infixl 5 ◌>>=◌ ◌>>◌
abbrev pub ◌>>=◌ : {A B : Type 0} → Task A → (A → Task B) → Task B
◌>>=◌ m f s = then_with (m s) f

abbrev pub ◌>>◌ : {B : Type 0} → Task (Unit {0}) → Task B → Task B
m >> k = m >>= λ _. k

abbrev pub return : {A : Type 0} → A → Task A
return a s = (ok a, s)

abbrev pub throw : {A : Type 0} → SmoError → Task A
throw e s = (err e, s)

abbrev pub crash : {A : Type 0} → Task A
crash s = (panic, s)

abbrev pub get : Task State
get s = (ok s, s)

abbrev pub modify : (State → State) → Task (Unit {0})
modify f s = (ok tt, f s)

-- `.ok_or(e)?`
abbrev pub or_throw : {A : Type 0} → SmoError → Option A → Task A
or_throw e none = throw e
or_throw e (some a) = return a

-- `.unwrap()`
abbrev pub unwrap : {A : Type 0} → Option A → Task A
unwrap none = crash
unwrap (some a) = return a

-- `Packet::new`, which panics on a payload of 65536 bytes or more.
abbrev pub make : Guid → PacketData → Task Packet
make g d s = (new g d, s)

-- The stages that `handle_command` compares with.
abbrev pub cap_world : List ℕ
cap_world = codes "CapWorldHomeStage"

abbrev pub waterfall_world : List ℕ
waterfall_world = codes "WaterfallWordHomeStage"

abbrev pub update : ℕ → (ClientData → ClientData) → (ℕ → ClientData) → ℕ → ClientData
update r f store k = if k == r then f (store k) else store k

-- `if let Err(e) = result { … }`
abbrev pub recover_with :
    Outcome SmoError (Unit {0}) × State
    → (SmoError → Task (Unit {0}))
    → Outcome SmoError (Unit {0}) × State
recover_with (ok a, s) f = (ok a, s)
recover_with (err e, s) f = f e s
recover_with (panic, s) f = (panic, s)

abbrev pub recover : Task (Unit {0}) → (SmoError → Task (Unit {0})) → Task (Unit {0})
recover m f s = recover_with (m s) f
