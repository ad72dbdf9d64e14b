-- ===== src/Coordinator/SafePlayers.antt =====
-- Tasks of src/coordinator.rs about players and shines: they keep the invariant and do not panic.
use smo_multi_rs.Base.{
  ℕ, ◌+◌, ◌≡◌, ◌≤◌, sym, ◌∙◌, List, [], ◌∷◌, ◌++◌, Bool, true, false, ◌||◌, Option, none, some,
  length, All, Bool-cases, Option-cases, inl, inr, arith, ℤ,
}
use smo_multi_rs.Commands.{Command, packet, Client, ClientData}
use smo_multi_rs.Guid.{Guid, guid_eq, guid_eq→eq}
use smo_multi_rs.Maps.{
  Map, lookup, insert, remove, has, has-insert, has-remove, has-lookup, lookup-has, entries-has,
  length-insert, length-remove,
}
use smo_multi_rs.Packet.{
  Packet, connect, costume, shine, disconnect, ConnectionType, first_connection, reconnecting,
  resize, new, get_size,
}
use smo_multi_rs.Coordinator.State.{client_events, State}
use smo_multi_rs.Coordinator.Shines.{
  send, send_all, broadcast, send_shines, client_sync_shines, sync_each, sync_all_shines,
}
use smo_multi_rs.Coordinator.Players.{
  register, own_cell, farewell, disconnect_player, send_last, introduce, introduce_all,
  setup_player, dismiss, admit,
}
use smo_multi_rs.Coordinator.Invariant.{
  IsServed, Inv, Fine, IsFine, then-IsFine, recover-IsFine, if_Fine,
}

pub All-snoc :
    {A : Type 0} (P : A → Type 0) (xs : List A) (x : A) → All P xs → P x → All P (xs ++ (x ∷ []))
All-snoc P [] x h q = (q, tt)
All-snoc P (y ∷ xs) x h q = (h.0, All-snoc P xs x h.1 q)

-- Who has data has a channel.
pub All-moved :
    (s : State)
    → Inv s
    → (xs : Map ℕ) → All (λ e. has e.0 s.clients ≡ true) xs
    → All (λ e. has e.0 s.to_clients ≡ true) xs
All-moved s v [] h = tt
All-moved s v (e ∷ xs) h = (sym (v.same_keys e.0) ∙ h.0, All-moved s v xs h.1)

pub has-register :
    (t : ConnectionType) (c : Client) (m : Map ℕ) (g : Guid)
    → has g (register t c m) ≡ (guid_eq c.guid g || has g m)
unfolding register
has-register first_connection c m g = has-insert c.guid g c.cell m
has-register reconnecting c m g = elim (Option-cases (lookup c.guid m)) [
  | inl e ↦ rw (e, register) (has-insert c.guid g c.cell m)
  | inr (cell, e) ↦
      rw (e, register) (ground (arith, guid_eq→eq c.guid g, lookup-has c.guid m {v = cell} e))
]

length-register :
    (t : ConnectionType) (c : Client) (m : Map ℕ) → length (register t c m) ≤ length m + 1
unfolding register
length-register first_connection c m = length-insert c.guid c.cell m
length-register reconnecting c m = elim (Option-cases (lookup c.guid m)) [
  | inl e ↦ rw (e, register) (length-insert c.guid c.cell m)
  | inr (cell, e) ↦ rw (e, register) (omega arith)
]

module _ (accepts : ℕ → ℕ → Bool) where
  pub send-IsFine : (channel : ℕ) (c : Command) → IsServed c → IsFine (send accepts channel c)
  unfolding send
  send-IsFine channel c h s v = elim (Bool-cases (accepts (length s.sent) channel)) [
    | inl there ↦ rw there (record {
      same_keys = v.same_keys;
      room = v.room;
      served = All-snoc (λ (m : ℕ × Command). IsServed m.1) s.sent (channel, c) v.served h;
    })
    | inr gone ↦ rw gone v
  ]

  send_all-IsFine : (cs : Map ℕ) (p : Packet) → IsFine (send_all accepts cs p)
  unfolding send_all
  send_all-IsFine [] p = λ s v. v
  send_all-IsFine ((g, channel) ∷ rest) p =
      then-IsFine (send accepts channel (packet p)) _ (send-IsFine channel (packet p) tt)
        (λ _. send_all-IsFine rest p)

  pub broadcast-IsFine : (p : Packet) → IsFine (broadcast accepts p)
  unfolding broadcast
  broadcast-IsFine p s v = send_all-IsFine s.to_clients (resize p) s v

  send_shines-IsFine :
      (channel : ℕ) (g : Guid) (ids : List ℤ) → IsFine (send_shines accepts channel g ids)
  unfolding send_shines new get_size
  send_shines-IsFine channel g [] = λ s v. v
  send_shines-IsFine channel g (i ∷ ids) =
      let p : Packet = record { id = g; data_size = 5; payload = shine i false } in
      then-IsFine (send accepts channel (packet p)) _ (send-IsFine channel (packet p) tt)
        (λ _. send_shines-IsFine channel g ids)

  pub client_sync_shines-IsFine :
      (channel : ℕ) (g : Guid) (client : ℕ) → IsFine (client_sync_shines accepts channel g client)
  unfolding client_sync_shines
  client_sync_shines-IsFine channel g client s v =
      if_Fine (s.store client).speedrun_start _ _ s v (send_shines-IsFine channel g _ s v)

  sync_each-IsFine :
      (cs tc : Map ℕ) → All (λ e. has e.0 tc ≡ true) cs → IsFine (sync_each accepts cs tc)
  unfolding sync_each
  sync_each-IsFine [] tc h = λ s v. v
  sync_each-IsFine ((g, client) ∷ rest) tc h =
      let (channel, found) = has-lookup g tc h.0 in
      rw found (
        then-IsFine (client_sync_shines accepts channel _ client) _
          (client_sync_shines-IsFine channel _ client) (λ _. sync_each-IsFine rest tc h.1))

  pub sync_all_shines-IsFine : IsFine (sync_all_shines accepts)
  unfolding sync_all_shines
  sync_all_shines-IsFine s v =
      sync_each-IsFine s.clients s.to_clients (All-moved s v s.clients (entries-has s.clients)) s v

  farewell-IsFine : (g : Guid) (channel : Option ℕ) → IsFine (farewell accepts g channel)
  unfolding farewell new get_size
  farewell-IsFine g none = λ s v. v
  farewell-IsFine g (some comm) =
      let p : Packet = record { id = g; data_size = 0; payload = disconnect } in
      then-IsFine (broadcast accepts p) _ (broadcast-IsFine p) (λ _. send-IsFine comm (packet p) tt)

  pub disconnect_player-IsFine : (g : Guid) → IsFine (disconnect_player accepts g)
  unfolding disconnect_player
  disconnect_player-IsFine g s v =
      farewell-IsFine g (lookup g s.to_clients)
        (record s { clients = remove g s.clients; to_clients = remove g s.to_clients })
        (record {
          same_keys =
              λ j. rw (has-remove g j s.clients, has-remove g j s.to_clients, v.same_keys j);
          room = omega (arith, length-remove g s.clients, v.room);
          served = v.served;
        })

  send_last-IsFine : (comm : ℕ) (p : Option Packet) → IsFine (send_last accepts comm p)
  unfolding send_last
  send_last-IsFine comm none = λ s v. v
  send_last-IsFine comm (some p) = send-IsFine comm (packet p) tt

  introduce-IsFine :
      (comm max_player : ℕ) (g : Guid) (d : ClientData)
      → IsFine (introduce accepts comm max_player g d)
  unfolding introduce new get_size
  introduce-IsFine comm max_player g d =
      let p : Packet = record {
        id = g;
        data_size = 38;
        payload = connect first_connection max_player d.name;
      } in
      let q : Packet = record { id = g; data_size = 64; payload = costume d.costume } in
      then-IsFine (send accepts comm (packet p)) _ (send-IsFine comm (packet p) tt) λ _.
        then-IsFine (send accepts comm (packet q)) _ (send-IsFine comm (packet q) tt)
          λ _. send_last-IsFine comm d.last_game_packet

  introduce_all-IsFine :
      (comm max_player : ℕ) (cs : Map ℕ) → IsFine (introduce_all accepts comm max_player cs)
  unfolding introduce_all
  introduce_all-IsFine comm max_player [] = λ s v. v
  introduce_all-IsFine comm max_player ((g, cell) ∷ rest) = λ s v.
      then-IsFine (introduce accepts comm max_player g (s.store cell)) _
        (introduce-IsFine comm max_player g (s.store cell))
        (λ _. introduce_all-IsFine comm max_player rest) s v

  setup_player-IsFine : (comm : ℕ) (p : Packet) → IsFine (setup_player accepts comm p)
  unfolding setup_player
  setup_player-IsFine comm p s v =
      then-IsFine (introduce_all accepts comm s.settings.server.max_players s.clients) _
        (introduce_all-IsFine comm s.settings.server.max_players s.clients)
        (λ _. broadcast-IsFine p) s v

  pub dismiss-IsFine : (c : Client) → IsFine (dismiss accepts c)
  unfolding dismiss
  dismiss-IsFine c = send-IsFine c.to_coord _ tt

  pub admit-Fine :
      (t : ConnectionType) (c : Client) (p : Packet) (comm : ℕ) (s : State)
      → Inv s
      → length s.clients ≤ s.settings.server.max_players
      → Fine (admit accepts t c p comm s)
  unfolding admit
  admit-Fine t c p comm s v space =
      recover-IsFine (setup_player accepts comm p) _ (setup_player-IsFine comm p)
        (λ e.
          then-IsFine (disconnect_player accepts c.guid) _ (disconnect_player-IsFine c.guid)
            (λ _ s v. v))
        (record s {
          clients = register t c s.clients;
          to_clients = insert c.guid comm s.to_clients;
          spawned = s.spawned ++ (client_events (record c { cell = own_cell t c s.clients }) ∷ []);
        })
        (record {
          same_keys = λ g.
              rw (
                has-register t c s.clients g,
                has-insert c.guid g comm s.to_clients,
                v.same_keys g,
              );
          room = omega (arith, length-register t c s.clients);
          served = v.served;
        })
