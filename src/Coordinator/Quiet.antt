-- ===== src/Coordinator/Quiet.antt =====
-- Tasks of src/coordinator.rs that leave the players and the moons as they are.
use smo_multi_rs.Base.{
  ℕ, ◌≡◌, refl, ◌∙◌, List, [], ◌∷◌, Bool, true, false, Option, none, some, length, Bool-cases, inl,
  inr, ℤ,
}
use smo_multi_rs.Commands.{Command, packet, Client, ClientData}
use smo_multi_rs.Coordinator.Handle.{schedule_sync, enable_sync}
use smo_multi_rs.Coordinator.Players.{
  farewell, send_last, introduce, introduce_all, setup_player, dismiss,
}
use smo_multi_rs.Coordinator.Shines.{
  send, send_all, broadcast, send_shines, client_sync_shines, sync_each, sync_all_shines,
  get_client, get_channel,
}
use smo_multi_rs.Coordinator.State.{State, Task, then_with, ◌>>=◌, unwrap, or_throw, update}
use smo_multi_rs.Errors.{SmoError, Outcome, ok, err, panic, invalid_id}
use smo_multi_rs.Guid.{Guid}
use smo_multi_rs.Maps.{Map, lookup, difference}
use smo_multi_rs.Packet.{
  Packet, connect, costume, shine, disconnect, first_connection, resize, new, get_size,
}

-- What a quiet task keeps.
abbrev pub core : State → Map ℕ × List ℤ
core s = (s.clients, s.shine_bag)

abbrev pub IsQuiet : {A : Type 0} → Task A → Type 0
IsQuiet m = (s : State) → core (m s).1 ≡ core s

pub then_core :
    {A B : Type 0} (r : Outcome SmoError A × State) (f : A → Task B)
    → ((a : A) → IsQuiet (f a))
    → core (then_with r f).1 ≡ core r.1
then_core (ok a, s) f k = k a s
then_core (err e, s) f k = refl
then_core (panic, s) f k = refl

pub then-IsQuiet :
    {A B : Type 0} (m : Task A) (f : A → Task B)
    → IsQuiet m
    → ((a : A) → IsQuiet (f a))
    → IsQuiet (m >>= f)
then-IsQuiet m f h k s = then_core (m s) f k ∙ h s

unwrap-IsQuiet : {A : Type 0} (o : Option A) → IsQuiet (unwrap o)
unwrap-IsQuiet none s = refl
unwrap-IsQuiet (some a) s = refl

or_throw-IsQuiet : {A : Type 0} (e : SmoError) (o : Option A) → IsQuiet (or_throw e o)
or_throw-IsQuiet e none s = refl
or_throw-IsQuiet e (some a) s = refl

module _ (accepts : ℕ → ℕ → Bool) where
  send-IsQuiet : (channel : ℕ) (c : Command) → IsQuiet (send accepts channel c)
  unfolding send
  send-IsQuiet channel c s = elim (Bool-cases (accepts (length s.sent) channel)) [
    | inl there ↦ rw there refl
    | inr gone ↦ rw gone refl
  ]

  send_all-IsQuiet : (cs : Map ℕ) (p : Packet) → IsQuiet (send_all accepts cs p)
  unfolding send_all
  send_all-IsQuiet [] p = λ s. refl
  send_all-IsQuiet ((g, channel) ∷ rest) p =
      then-IsQuiet (send accepts channel (packet p)) _ (send-IsQuiet channel (packet p))
        (λ _. send_all-IsQuiet rest p)

  pub broadcast-IsQuiet : (p : Packet) → IsQuiet (broadcast accepts p)
  unfolding broadcast
  broadcast-IsQuiet p s = send_all-IsQuiet s.to_clients (resize p) s

  send_shines-IsQuiet :
      (channel : ℕ) (g : Guid) (ids : List ℤ) → IsQuiet (send_shines accepts channel g ids)
  unfolding send_shines new get_size
  send_shines-IsQuiet channel g [] = λ s. refl
  send_shines-IsQuiet channel g (i ∷ ids) =
      let p : Packet = record { id = g; data_size = 5; payload = shine i false } in
      then-IsQuiet (send accepts channel (packet p)) _ (send-IsQuiet channel (packet p))
        (λ _. send_shines-IsQuiet channel g ids)

  client_sync_shines-IsQuiet :
      (channel : ℕ) (g : Guid) (client : ℕ) → IsQuiet (client_sync_shines accepts channel g client)
  unfolding client_sync_shines
  client_sync_shines-IsQuiet channel g client s =
      elim (Bool-cases (s.store client).speedrun_start) [
        | inl on ↦ rw on refl
        | inr off ↦
            rw off
              (send_shines-IsQuiet channel g (difference s.shine_bag (s.store client).shine_sync) s)
      ]

  sync_each-IsQuiet : (cs tc : Map ℕ) → IsQuiet (sync_each accepts cs tc)
  unfolding sync_each
  sync_each-IsQuiet [] tc = λ s. refl
  sync_each-IsQuiet ((g, client) ∷ rest) tc =
      then-IsQuiet (unwrap (lookup g tc)) _ (unwrap-IsQuiet (lookup g tc)) λ channel.
        then-IsQuiet (client_sync_shines accepts channel _ client) _
          (client_sync_shines-IsQuiet channel _ client) (λ _. sync_each-IsQuiet rest tc)

  pub sync_all_shines-IsQuiet : IsQuiet (sync_all_shines accepts)
  unfolding sync_all_shines
  sync_all_shines-IsQuiet s = sync_each-IsQuiet s.clients s.to_clients s

  pub farewell-IsQuiet : (g : Guid) (channel : Option ℕ) → IsQuiet (farewell accepts g channel)
  unfolding farewell new get_size
  farewell-IsQuiet g none = λ s. refl
  farewell-IsQuiet g (some comm) =
      let p : Packet = record { id = g; data_size = 0; payload = disconnect } in
      then-IsQuiet (broadcast accepts p) _ (broadcast-IsQuiet p) (λ _. send-IsQuiet comm (packet p))

  send_last-IsQuiet : (comm : ℕ) (p : Option Packet) → IsQuiet (send_last accepts comm p)
  unfolding send_last
  send_last-IsQuiet comm none = λ s. refl
  send_last-IsQuiet comm (some p) = send-IsQuiet comm (packet p)

  introduce-IsQuiet :
      (comm max_player : ℕ) (g : Guid) (d : ClientData)
      → IsQuiet (introduce accepts comm max_player g d)
  unfolding introduce new get_size
  introduce-IsQuiet comm max_player g d =
      let p : Packet = record {
        id = g;
        data_size = 38;
        payload = connect first_connection max_player d.name;
      } in
      let q : Packet = record { id = g; data_size = 64; payload = costume d.costume } in
      then-IsQuiet (send accepts comm (packet p)) _ (send-IsQuiet comm (packet p)) λ _.
        then-IsQuiet (send accepts comm (packet q)) _ (send-IsQuiet comm (packet q))
          λ _. send_last-IsQuiet comm d.last_game_packet

  introduce_all-IsQuiet :
      (comm max_player : ℕ) (cs : Map ℕ) → IsQuiet (introduce_all accepts comm max_player cs)
  unfolding introduce_all
  introduce_all-IsQuiet comm max_player [] s = refl
  introduce_all-IsQuiet comm max_player ((g, cell) ∷ rest) s =
      then-IsQuiet (introduce accepts comm max_player g (s.store cell)) _
        (introduce-IsQuiet comm max_player g (s.store cell))
        (λ _. introduce_all-IsQuiet comm max_player rest) s

  pub setup_player-IsQuiet : (comm : ℕ) (p : Packet) → IsQuiet (setup_player accepts comm p)
  unfolding setup_player
  setup_player-IsQuiet comm p s =
      then-IsQuiet (introduce_all accepts comm s.settings.server.max_players s.clients) _
        (introduce_all-IsQuiet comm s.settings.server.max_players s.clients)
        (λ _. broadcast-IsQuiet p) s

  pub dismiss-IsQuiet : (c : Client) → IsQuiet (dismiss accepts c)
  unfolding dismiss
  dismiss-IsQuiet c = send-IsQuiet c.to_coord _

  schedule_sync-IsQuiet :
      (b : Bool) (id : Guid) (client : ℕ) → IsQuiet (schedule_sync accepts b id client)
  unfolding schedule_sync get_channel
  schedule_sync-IsQuiet false id client s = refl
  schedule_sync-IsQuiet true id client s =
      then-IsQuiet (or_throw (invalid_id id.id) (lookup id s.to_clients)) _
        (or_throw-IsQuiet (invalid_id id.id) (lookup id s.to_clients)) (λ channel s. refl) s

  pub enable_sync-IsQuiet : (id : Guid) → IsQuiet (enable_sync accepts id)
  unfolding enable_sync get_client
  enable_sync-IsQuiet id s =
      then-IsQuiet (or_throw (invalid_id id.id) (lookup id s.clients)) _
        (or_throw-IsQuiet (invalid_id id.id) (lookup id s.clients))
        (λ client s.
          schedule_sync-IsQuiet (s.store client).speedrun_start id client
            (record s { store = update client (λ d. record d { speedrun_start = false }) s.store }))
        s
