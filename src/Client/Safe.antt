-- ===== src/Client/Safe.antt =====
-- The steps of src/client.rs keep the coordinator's invariant, and send the coordinator only commands
-- that it serves.
use smo_multi_rs.Base.{
  ℕ, ◌≡◌, refl, sym, subst, List, Bool, true, if◌then◌else◌, Option, none, some,
}
use smo_multi_rs.Bytes.{Bytes}
use smo_multi_rs.Client.{enter_game, update_tag, record_and_pass, handle_data, handle_packet}
use smo_multi_rs.Client.Handshake.{
  Arrival, Progress, came, waits, Hand, then_hand, ◌>>=◌, shared, write_tcp, read_tcp, bind_udp,
  new_client, new_data, greet, initialize_client,
}
use smo_multi_rs.Commands.{packet, server, new_player, Client, ClientData}
use smo_multi_rs.Connection.{Connection, SocketWrite, SocketRead, read_packet, write_packet}
use smo_multi_rs.Connection as Connection
use smo_multi_rs.Coordinator.Invariant.{IsConnect, Inv, Fine, IsFine, then-IsFine}
use smo_multi_rs.Coordinator.SafePlayers.{send-IsFine, client_sync_shines-IsFine}
use smo_multi_rs.Coordinator.Shines.{send, run_delayed}
use smo_multi_rs.Coordinator.State.{
  State, Task, Spawned, client_events, delayed_sync, then_with, modify, update,
}
use smo_multi_rs.Errors.{Outcome, ok, err, panic, SmoError}
use smo_multi_rs.Guid.{default_guid}
use smo_multi_rs.Maps.{add}
use smo_multi_rs.Packet.{
  Packet, PacketData, game, tag, costume, shine, udp_init, connect, init, new, get_size,
}

-- A write to the store.
stored : (s : State) (store : ℕ → ClientData) → Inv s → Inv (record s { store = store })
stored s store v = record { same_keys = v.same_keys; room = v.room; served = v.served }

module _ (accepts : ℕ → ℕ → Bool) where
  passed-IsFine :
      (p : Packet) (c : Client)
      → IsFine (λ s. then_with (send accepts c.to_coord (packet p) s) (λ _ s. (ok c, s)))
  passed-IsFine p c =
      then-IsFine (send accepts c.to_coord (packet p)) _
        (send-IsFine accepts c.to_coord (packet p) tt) (λ _ s v. v)

  record_and_pass-IsFine :
      (f : ClientData → ClientData) (p : Packet) (c : Client)
      → IsFine (record_and_pass accepts f p c)
  unfolding record_and_pass
  record_and_pass-IsFine f p c s v =
      passed-IsFine p c (record s { store = update c.cell f s.store })
        (stored s (update c.cell f s.store) v)

  handle_data-IsFine :
      (d : PacketData) (p : Packet) (c : Client) → IsFine (handle_data accepts d p c)
  unfolding handle_data
  handle_data-IsFine (costume worn) p c =
      record_and_pass-IsFine (λ d. record d { costume = worn; loaded_save = true }) p c
  handle_data-IsFine (game is_2d n stage) p c =
      record_and_pass-IsFine (enter_game is_2d n stage p) p c
  handle_data-IsFine (tag t i s m) p c = record_and_pass-IsFine (update_tag t i s m) p c
  handle_data-IsFine (shine i g) p c =
      record_and_pass-IsFine
        (λ d. if d.loaded_save then record d { shine_sync = add i d.shine_sync } else d) p c
  handle_data-IsFine (udp_init port) p c = λ s v. v
  handle_data-IsFine _ p c = passed-IsFine p c

  pub handle_packet-IsFine : (p : Packet) (c : Client) → IsFine (handle_packet accepts p c)
  unfolding handle_packet
  handle_packet-IsFine p c = handle_data-IsFine p.payload p c

  pub run_delayed-IsFine : (t : Spawned) → IsFine (run_delayed accepts t)
  unfolding run_delayed
  run_delayed-IsFine (client_events c) = λ s v. v
  run_delayed-IsFine (delayed_sync channel g client) =
      client_sync_shines-IsFine accepts channel g client

-- The invariant holds wherever the handshake stops.
abbrev Keeps : {A : Type 0} → Hand A → Type 0
Keeps m = (w : State × List ℕ) → Inv w.0 → Inv (m w).1.0

then_hand-Inv :
    {A B : Type 0} (r : Progress A × (State × List ℕ)) (f : A → Hand B)
    → Inv r.1.0
    → ((a : A) → Keeps (f a))
    → Inv (then_hand r f).1.0
then_hand-Inv (came (ok a), w) f v k = k a w v
then_hand-Inv (came (err e), w) f v k = v
then_hand-Inv (came panic, w) f v k = v
then_hand-Inv (waits, w) f v k = v

then-Keeps :
    {A B : Type 0} (m : Hand A) (f : A → Hand B)
    → Keeps m
    → ((a : A) → Keeps (f a))
    → Keeps (m >>= f)
then-Keeps m f h k w v = then_hand-Inv (m w) f (h w v) k

pub Fine-Inv : {A : Type 0} (r : Outcome SmoError A × State) → Fine r → Inv r.1
Fine-Inv (ok a, s) h = h
Fine-Inv (err e, s) h = h
Fine-Inv (panic, s) h = absurd h

shared-Keeps : {A : Type 0} (m : Task A) → IsFine m → Keeps (shared m)
shared-Keeps m h (s, wire) v = Fine-Inv (m s) (h s v)

write_tcp-Keeps :
    (b : Bytes) (p : Packet) (writes : List SocketWrite) → Keeps (write_tcp b p writes)
unfolding write_tcp
write_tcp-Keeps b p writes (s, wire) v = v

read_tcp-Keeps : (b : Bytes) (reads : List SocketRead) (c : Connection) → Keeps (read_tcp b reads c)
unfolding read_tcp
read_tcp-Keeps b reads c (s, wire) v = v

bind_udp-Keeps : (bound : Option ℕ) → Keeps (bind_udp bound)
unfolding bind_udp
bind_udp-Keeps none w v = v
bind_udp-Keeps (some port) w v = v

module _ (accepts : ℕ → ℕ → Bool) (b : Bytes) (h : Arrival) where
  greet-Keeps :
      (port : ℕ) (d : PacketData) (p : Packet) (conn : Connection)
      → p.payload ≡ d
      → Keeps (greet accepts b h port d p conn)
  unfolding greet new get_size
  greet-Keeps port (connect t n name) p conn e =
      let c : Client = new_client h name p conn in
      let q : Packet = record { id = default_guid; data_size = 2; payload = udp_init port } in
      then-Keeps (write_tcp b q h.port_writes) _ (write_tcp-Keeps b q h.port_writes) λ _.
        let keep : Task (Unit {0}) =
          modify (λ s. record s { store = update h.cell (λ _. new_data name) s.store }) in
        then-Keeps (shared keep)
          (λ _. shared (send accepts h.to_coord (server (new_player c p h.channel))))
          (shared-Keeps keep (λ s v. stored s (update h.cell (λ _. new_data name) s.store) v))
          λ _. shared-Keeps (send accepts h.to_coord (server (new_player c p h.channel))) (
            send-IsFine accepts h.to_coord (server (new_player c p h.channel))
              (subst IsConnect (sym e) tt))
  greet-Keeps port _ p conn e = λ w v. v

  pub initialize_client-Inv :
      (s : State) (wire : List ℕ) → Inv s → Inv (initialize_client accepts b h (s, wire)).1.0
  unfolding initialize_client new get_size
  initialize_client-Inv s wire v =
      let q : Packet = record {
        id = default_guid;
        data_size = 2;
        payload = init s.settings.server.max_players;
      } in
      then-Keeps (write_tcp b q h.init_writes) _ (write_tcp-Keeps b q h.init_writes)
        (λ _. then-Keeps (bind_udp h.bound) _ (bind_udp-Keeps h.bound) λ port.
          then-Keeps (read_tcp b h.reads (Connection.new h.peer)) _
            (read_tcp-Keeps b h.reads (Connection.new h.peer))
            λ (a : Packet × Connection). greet-Keeps port a.0.payload a.0 a.1 refl)
        (s, wire) v
