-- ===== src/System/Relayed.antt =====
-- A packet on its way from one player to the others: through the task of its client, the
-- coordinator, and the tasks of the other clients (src/client.rs, src/coordinator.rs).
use smo_multi_rs.Base.{
  ℕ, ◌≡◌, refl, sym, ap, ◌∙◌, List, [], ◌∷◌, ◌++◌, Bool, true, false, not, ◌&&◌, ◌==◌, length,
  Bool-cases, inl, inr, if◌then◌else◌,
}
use mathlib.Core.List.{append_assoc}
use smo_multi_rs.Bytes.{Bytes, IsBytes}
use smo_multi_rs.Bytes.Laws.{by_reference}
use smo_multi_rs.Client.{
  own_packet, Sent, nothing, by_tcp, by_udp, enter_game, update_tag, handle_data, send_packet,
}
use smo_multi_rs.Client as Client
use smo_multi_rs.Client.Laws.{record_and_pass_up}
use smo_multi_rs.Client.Routes.{goes_fast, send_packet-routes}
use smo_multi_rs.Commands.{packet, Client, ClientData}
use smo_multi_rs.Connection.{SocketWrite, WriteEnd, wrote, finished}
use smo_multi_rs.Coordinator.Delivery.{sending, to_all, send_up, broadcast_up}
use smo_multi_rs.Coordinator.Handle.{enter_stage, handle_packet, handle_command}
use smo_multi_rs.Coordinator.State.{State, cap_world, waterfall_world, update}
use smo_multi_rs.Errors.{ok}
use smo_multi_rs.Guid.{IsGuid, guid_eq, bytes_eq}
use smo_multi_rs.Packet.{
  Packet, PacketData, game, tag, costume, shine, udp_init, disconnect, resize,
}
use smo_multi_rs.Packet.Format.{frame}
use smo_multi_rs.Packet.Relay.{IsPassable, resize-IsRegular}
use smo_multi_rs.Packet.Decode.{decode}
use smo_multi_rs.Packet.Frame.{decode-frame}
use smo_multi_rs.Packet.Typed.{Fits, unread}
use smo_multi_rs.Udp.{UdpSenderStatus, pending, connected}

-- The packets that the server only passes on: all but shines, costumes, the two that steer it, and
-- the game packets of the two stages that a speedrun starts from.
abbrev pub is_plain : PacketData → Bool
is_plain (shine i is_grand) = false
is_plain (costume c) = false
is_plain (udp_init port) = false
is_plain disconnect = false
is_plain (game is_2d scenario_num stage) =
    not (bytes_eq stage cap_world && scenario_num == 0) && not (bytes_eq stage waterfall_world)
is_plain _ = true

-- The store with what the sender's client notes of a packet in its cell.
abbrev pub noted : PacketData → Packet → ℕ → (ℕ → ClientData) → ℕ → ClientData
noted (game is_2d scenario_num stage) p cell store =
    update cell (enter_game is_2d scenario_num stage p) store
noted (tag update_type is_it seconds minutes) p cell store =
    update cell (update_tag update_type is_it seconds minutes) store
noted _ p cell store = store

-- By which way a packet of another player leaves.
abbrev pub delivery : UdpSenderStatus → Packet → Sent
delivery (pending ip) p = by_tcp (frame p)
delivery (connected a) p =
    if goes_fast p.payload
    then by_udp (record { bytes = frame p; sender = a } ∷ [])
    else by_tcp (frame p)

both : (a b : Bool) → (not a && not b) ≡ true → (a ≡ false) × (b ≡ false)
both true b h = cc
both false true h = cc
both false false h = (refl, refl)

module _ (accepts : ℕ → ℕ → Bool) (up : (n channel : ℕ) → accepts n channel ≡ true) where
  handle_data-plain :
      (d : PacketData) (p : Packet) (c : Client) (s : State)
      → is_plain d ≡ true
      → handle_data accepts d p c s ≡ (
        ok c,
        sending (record s { store = noted d p c.cell s.store }) ((c.to_coord, packet p) ∷ []),
      )
  unfolding handle_data
  handle_data-plain (shine i g) p c s h = cc
  handle_data-plain (costume worn) p c s h = cc
  handle_data-plain (udp_init port) p c s h = cc
  handle_data-plain disconnect p c s h = cc
  handle_data-plain (game is_2d n stage) p c s h =
      record_and_pass_up accepts up (enter_game is_2d n stage p) p c s
  handle_data-plain (tag t i n m) p c s h = record_and_pass_up accepts up (update_tag t i n m) p c s
  handle_data-plain _ p c s h = rw (send_up accepts up c.to_coord (packet p) s)

  enter_stage-elsewhere :
      (stage : List ℕ) (n : ℕ) (p : Packet) (s : State)
      → (not (bytes_eq stage cap_world && n == 0) && not (bytes_eq stage waterfall_world)) ≡ true
      → enter_stage accepts stage n p.id s ≡ (ok tt, s)
  unfolding enter_stage
  enter_stage-elsewhere stage n p s h =
      let (start, falls) =
        both (bytes_eq stage cap_world && n == 0) (bytes_eq stage waterfall_world) h in
      rw (start, falls)

  handle_packet-plain :
      (d : PacketData) (p : Packet) (s : State)
      → is_plain d ≡ true
      → handle_packet accepts d p s ≡ (ok true, sending s (to_all s.to_clients (resize p)))
  unfolding handle_packet
  handle_packet-plain (shine i g) p s h = cc
  handle_packet-plain (costume worn) p s h = cc
  handle_packet-plain (udp_init port) p s h = cc
  handle_packet-plain disconnect p s h = cc
  handle_packet-plain (game is_2d n stage) p s h =
      rw (enter_stage-elsewhere stage n p s h, broadcast_up accepts up p s)
  handle_packet-plain _ p s h = rw (broadcast_up accepts up p s)

received-by :
    (io : Bytes)
    → IsBytes io
    → (q : Packet) (writes : List SocketWrite) (d : Client) (buff : List ℕ) (st : UdpSenderStatus)
    → IsGuid q.id
    → Fits q.payload
    → guid_eq q.id d.guid ≡ false
    → send_packet io q
        (wrote (length (frame q)) ∷ writes)
        (record d { udp_conn = record { buff = buff; send_addr = st } })
      ≡ (finished (ok tt), delivery st q)
received-by io h q writes d buff (pending ip) g fits other =
    (send_packet-routes io h q writes d buff ip (record { ip = 0; port = 0 }) g fits other).0
received-by io h q writes d buff (connected a) g fits other =
    (send_packet-routes io h q writes d buff 0 a g fits other).1

-- A client's own packet does not come back; own disconnect packets are set apart.
own_packet-plain :
    (payload : PacketData) (d : Client) → is_plain payload ≡ true → own_packet payload d ≡ d
unfolding own_packet
own_packet-plain disconnect d h = cc
own_packet-plain _ d h = refl

handle_command-plain :
    (io : Bytes)
    → IsBytes io
    → (q : Packet) (writes : List SocketWrite) (d : Client) → IsGuid q.id
    → Fits q.payload
    → is_plain q.payload ≡ true
    → Client.handle_command io (packet q) (wrote (length (frame q)) ∷ writes) d ≡ (
      (finished (ok tt), if guid_eq q.id d.guid then nothing else delivery d.udp_conn.send_addr q),
      d,
    )
unfolding Client.handle_command
handle_command-plain io h q writes d g fits plain = elim (Bool-cases (guid_eq q.id d.guid)) [
  | inl own ↦
      rw own (ap (λ d. ((finished (ok tt), nothing), d)) (own_packet-plain q.payload d plain))
  | inr other ↦
      let ws : List SocketWrite = wrote (length (frame q)) ∷ writes in
      ap
        (λ (b : Bool).
          if b
          then ((finished (ok tt), nothing), own_packet q.payload d)
          else (send_packet io q ws d, d))
        other
      ∙ ap (λ (r : WriteEnd × Sent). (r, d))
          (received-by io h q writes d d.udp_conn.buff d.udp_conn.send_addr g fits other)
      ∙ ap
          (λ (b : Bool).
            ((finished (ok tt), if b then nothing else delivery d.udp_conn.send_addr q), d))
          (sym other)
]

-- Let every channel have its receiver, and a packet be one that `decode` can make, and of the kinds
-- that the server only passes on. When the sender's client and then the coordinator have handled
-- it, every registered player has been sent the packet once, with its size corrected, and nothing
-- has changed but what the sender's client notes of it. The client of any player that handles this
-- message, with sockets that take what they are offered, sends its player the whole frame, by UDP
-- or by TCP as its status and the packet's kind say, and nothing if the player is the sender. What
-- the player then reads is the packet with its size corrected.
pub relayed :
    (accepts : ℕ → ℕ → Bool)
    → ((n channel : ℕ) → accepts n channel ≡ true)
    → (io : Bytes) → IsBytes io
    → (p : Packet) (c : Client) (s : State) (d : Client) (writes : List SocketWrite) (more : List ℕ)
    → IsPassable p
    → is_plain p.payload ≡ true
    → let q = resize p in
      let (r, s') = Client.handle_packet accepts p c s in
      (r ≡ ok c)
      × (handle_command accepts (packet p) s' ≡ (
        ok true,
        sending
            (record s { store = noted p.payload p c.cell s.store })
            ((c.to_coord, packet p) ∷ to_all s.to_clients q),
      ))
      × (Client.handle_command io (packet q) (wrote (length (frame q)) ∷ writes) d ≡ (
        (
          finished (ok tt),
          if guid_eq p.id d.guid then nothing else delivery d.udp_conn.send_addr q,
        ),
        d,
      ))
      × (decode io (frame q ++ more) ≡ ok (q, unread p.payload ++ more))
unfolding Client.handle_packet handle_command resize
relayed accepts up io h p c s d writes more passable plain =
    let r = resize-IsRegular p passable in
    rw (handle_data-plain accepts up p.payload p c s plain) (
      refl,
      rw
          (handle_packet-plain accepts up p.payload p
            (sending (record s { store = noted p.payload p c.cell s.store })
              ((c.to_coord, packet p) ∷ []))
            plain)
          (ap (λ xs. (ok true, record s { store = noted p.payload p c.cell s.store; sent = xs }))
            (append_assoc s.sent ((c.to_coord, packet p) ∷ []) (to_all s.to_clients (resize p)))),
      handle_command-plain io h (resize p) writes d r.guid r.fits plain,
      by_reference
          (λ io. decode io (frame (resize p) ++ more) ≡ ok (resize p, unread p.payload ++ more)) io
          h (decode-frame (resize p) more r),
    )
