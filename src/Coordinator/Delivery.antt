-- ===== src/Coordinator/Delivery.antt =====
-- Who is sent what (src/coordinator.rs), while every channel has its receiver.
use mathlib.Core.List.{append_assoc, append-nil}
use smo_multi_rs.Base.{
  ℕ, ◌≡◌, sym, ap, ◌∙◌, List, [], ◌∷◌, ◌++◌, Bool, true, false, some, length, map, if◌then◌else◌,
  Bool-cases, inl, inr, ℤ,
}
use smo_multi_rs.Commands.{Command, packet, ClientData}
use smo_multi_rs.Errors.{send_channel, ok, err}
use smo_multi_rs.Guid.{Guid}
use smo_multi_rs.Maps.{Map, lookup, remove, difference}
use smo_multi_rs.Packet.{Packet, shine, disconnect, resize, new, get_size}
use smo_multi_rs.Coordinator.State.{State, Task, ◌>>◌, return}
use smo_multi_rs.Coordinator.Shines.{send, send_all, broadcast, send_shines, client_sync_shines}
use smo_multi_rs.Coordinator.Players.{farewell, disconnect_player}

-- The state with more messages sent.
abbrev pub sending : State → List (ℕ × Command) → State
sending s xs = record s { sent = s.sent ++ xs }

-- The task succeeds, and does nothing but to send these messages.
abbrev pub Sends : Task (Unit {0}) → State → List (ℕ × Command) → Type 0
Sends m s xs = m s ≡ (ok tt, sending s xs)

pub Sends-then :
    (m k : Task (Unit {0})) (s : State) (xs ys : List (ℕ × Command))
    → Sends m s xs
    → Sends k (sending s xs) ys
    → Sends (m >> k) s (xs ++ ys)
Sends-then m k s xs ys h h' =
    rw h (h' ∙ ap (λ zs. (ok tt, record s { sent = zs })) (append_assoc s.sent xs ys))

pub Sends-nothing : (s : State) → Sends (return tt) s []
Sends-nothing s = ap (λ zs. (ok tt, record s { sent = zs })) (sym (append-nil s.sent))

-- The same packet to every client of a map.
abbrev pub to_all : Map ℕ → Packet → List (ℕ × Command)
to_all cs p = map (λ e. (e.1, packet p)) cs

-- A shine as the server announces it.
abbrev pub shine_packet : Guid → ℤ → Packet
shine_packet g i = record { id = g; data_size = 5; payload = shine i false }

-- What a client is missing of the server's shines; nothing at the start of a speedrun.
abbrev pub missing : List ℤ → ClientData → List ℤ
missing bag d = if d.speedrun_start then [] else difference bag d.shine_sync

module _ (accepts : ℕ → ℕ → Bool) (up : (n channel : ℕ) → accepts n channel ≡ true) where
  pub send_up :
      (channel : ℕ) (c : Command) (s : State) → Sends (send accepts channel c) s ((channel, c) ∷ [])
  unfolding send
  send_up channel c s = rw (up (length s.sent) channel)

  pub send_all_up :
      (cs : Map ℕ) (p : Packet) (s : State) → Sends (send_all accepts cs p) s (to_all cs p)
  unfolding send_all
  send_all_up [] p s = Sends-nothing s
  send_all_up ((g, channel) ∷ rest) p s =
      Sends-then (send accepts channel (packet p)) (send_all accepts rest p) s _ (to_all rest p)
        (send_up channel (packet p) s) (send_all_up rest p _)

  -- Let every channel have its receiver. `broadcast` sends the resized packet to every client,
  -- once each, and changes nothing else.
  pub broadcast_up :
      (p : Packet) (s : State) → Sends (broadcast accepts p) s (to_all s.to_clients (resize p))
  unfolding broadcast
  broadcast_up p s = send_all_up s.to_clients (resize p) s

  -- Let every channel have its receiver. A known player that disconnects is forgotten; all the
  -- others are told, and the player last.
  pub disconnect_player_up :
      (g : Guid) (comm : ℕ) (s : State)
      → lookup g s.to_clients ≡ some comm
      → let bye : Packet = record { id = g; data_size = 0; payload = disconnect } in
        disconnect_player accepts g s ≡ (
          ok tt,
          record s {
            clients = remove g s.clients;
            to_clients = remove g s.to_clients;
            sent = s.sent ++ (to_all (remove g s.to_clients) bye ++ ((comm, packet bye) ∷ []));
          },
        )
  unfolding disconnect_player farewell new get_size resize
  disconnect_player_up g comm s known =
      let bye : Packet = record { id = g; data_size = 0; payload = disconnect } in
      let s' : State = record s {
        clients = remove g s.clients;
        to_clients = remove g s.to_clients;
      } in
      rw known (
        Sends-then (broadcast accepts bye) (send accepts comm (packet bye)) s'
          (to_all (remove g s.to_clients) bye) ((comm, packet bye) ∷ []) (broadcast_up bye s')
          (send_up comm (packet bye) _))

  pub send_shines_up :
      (channel : ℕ) (g : Guid) (ids : List ℤ) (s : State)
      → Sends
          (send_shines accepts channel g ids)
          s
          (map (λ i. (channel, packet (shine_packet g i))) ids)
  unfolding send_shines new get_size
  send_shines_up channel g [] s = Sends-nothing s
  send_shines_up channel g (i ∷ ids) s =
      Sends-then (send accepts channel (packet (shine_packet g i)))
        (send_shines accepts channel g ids) s ((channel, packet (shine_packet g i)) ∷ [])
        (map (λ i. (channel, packet (shine_packet g i))) ids)
        (send_up channel (packet (shine_packet g i)) s) (send_shines_up channel g ids _)

  pub client_sync_shines_up :
      (channel : ℕ) (g : Guid) (client : ℕ) (s : State)
      → Sends
          (client_sync_shines accepts channel g client)
          s
          (map (λ i. (channel, packet (shine_packet g i))) (missing s.shine_bag (s.store client)))
  unfolding client_sync_shines
  client_sync_shines_up channel g client s = elim (Bool-cases (s.store client).speedrun_start) [
    | inl running ↦ rw running (Sends-nothing s)
    | inr normal ↦
        rw normal (send_shines_up channel g (difference s.shine_bag (s.store client).shine_sync) s)
  ]

-- The channels of `xs` are other than `channel`.
unfoldable pub Avoids : ℕ → Map ℕ → Type 0
Avoids channel [] = Unit
Avoids channel ((g, k) ∷ xs) = (¬ (k ≡ channel)) × Avoids channel xs

module _ (accepts : ℕ → ℕ → Bool) (channel : ℕ) (closed : (n : ℕ) → accepts n channel ≡ false)
    (others : (n k : ℕ) → ¬ (k ≡ channel) → accepts n k ≡ true) where
  send_all_closed :
      (xs ys : Map ℕ) (g : Guid) (p : Packet) (s : State)
      → Avoids channel xs
      → send_all accepts (xs ++ ((g, channel) ∷ ys)) p s
        ≡ (err send_channel, sending s (to_all xs p))
  unfolding send_all send Avoids
  send_all_closed [] ys g p s h =
      rw (closed (length s.sent))
        (ap (λ zs. (err send_channel, record s { sent = zs })) (sym (append-nil s.sent)))
  send_all_closed ((i, k) ∷ xs) ys g p s h =
      rw
        (
          others (length s.sent) k h.0,
          send_all_closed xs ys g p (sending s ((k, packet p) ∷ [])) h.1,
        )
        (ap (λ zs. (err send_channel, record s { sent = zs }))
          (append_assoc s.sent ((k, packet p) ∷ []) (to_all xs p)))

  -- Let one client's channel have lost its receiver, and the others not. A broadcast fails, and
  -- reaches only the clients that come before this one in the map.
  pub broadcast_closed :
      (xs ys : Map ℕ) (g : Guid) (p : Packet) (s : State)
      → Avoids channel xs
      → s.to_clients ≡ xs ++ ((g, channel) ∷ ys)
      → broadcast accepts p s ≡ (err send_channel, sending s (to_all xs (resize p)))
  unfolding broadcast
  broadcast_closed xs ys g p s h here =
      ap (λ m. send_all accepts m (resize p) s) here ∙ send_all_closed xs ys g (resize p) s h
