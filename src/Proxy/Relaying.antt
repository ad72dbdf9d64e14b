-- ===== src/Proxy/Relaying.antt =====
-- What the proxy of examples/proxy/src/main.rs makes of the packets that it reads.
use smo_multi_rs.Base.{
  ℕ, ◌≡◌, refl, sym, ap, subst, ◌∙◌, List, [], ◌∷◌, ◌&&◌, not, All, map, length, Bool-cases, inl,
  inr, if◌then◌else◌, arith,
}
use smo_multi_rs.Bytes.{Bytes, IsBytes}
use smo_multi_rs.Connection.{SocketAddr, wrote}
use smo_multi_rs.Connection.Writes.{write_packet-whole}
use smo_multi_rs.Errors.{ok}
use smo_multi_rs.Guid.{default_guid, IsGuid}
use smo_multi_rs.Packet.{Packet, PacketData, player, cap, udp_init, resize, new, get_size}
use smo_multi_rs.Packet.Format.{frame}
use smo_multi_rs.Packet.Relay.{IsPassable}
use smo_multi_rs.Packet.Size.{length-body}
use smo_multi_rs.Packet.Typed.{IsU16, Fits}
use smo_multi_rs.Proxy.{
  Origin, client, server, opposite, origin_eq, Socket, udp, cli, serv, origin_of, Sent, sent_to,
  sent_by_udp, running, or_stop, or_crash, is_fast, forward_by_udp, forward_by_tcp, forward,
  answer_init, relay, next_turn, then_turn, proxy_loop,
}
use smo_multi_rs.Proxy.Crossings.{
  Read, reply, corrected, outgoing, event, peer_after, goes_by_udp, crossing, answering, deliveries,
  peer_at_end,
}
use smo_multi_rs.Udp.{UdpConnection, connected, set_client_port}
use smo_multi_rs.Udp.Laws.{write_packet-status}

resize-corrected : (p : Packet) → IsPassable p → resize p ≡ corrected p
unfolding resize
resize-corrected p h =
    ap (λ n. record p { data_size = n })
      (omega (arith, length-body p.payload h.readable.fits, h.readable.small))

-- By which way a packet goes, in terms of the code.
abbrev delivery : Origin → ℕ → SocketAddr → PacketData → Origin → Packet → Sent
delivery plex port a (udp_init _) origin p = sent_to server (frame (reply port))
delivery plex port a d origin p =
    if not (origin_eq origin plex) && is_fast d
    then sent_by_udp (record { bytes = frame (resize p); sender = a } ∷ [])
    else sent_to (opposite origin) (frame (resize p))

is_fast-goes_by_udp : (d : PacketData) → is_fast d ≡ goes_by_udp d
is_fast-goes_by_udp (player pos rot weights act sub_act) = refl
is_fast-goes_by_udp (cap pos rot cap_out cap_anim) = refl
is_fast-goes_by_udp _ = refl

-- The choice of the code is the table.
chosen :
    (plex : Origin) (socket : Socket) (a : SocketAddr) (q : Packet)
    → (if not (origin_eq (origin_of plex socket) plex) && is_fast q.payload
        then sent_by_udp (record { bytes = frame q; sender = a } ∷ [])
        else sent_to (opposite (origin_of plex socket)) (frame q))
      ≡ crossing plex socket a q
unfolding origin_of
chosen server cli a q = rw (is_fast-goes_by_udp q.payload) refl
chosen server serv a q = refl
chosen server udp a q = refl
chosen client cli a q = refl
chosen client serv a q = rw (is_fast-goes_by_udp q.payload) refl
chosen client udp a q = refl

delivery-answering :
    (plex : Origin) (port : ℕ) (a : SocketAddr) (d : PacketData) (socket : Socket) (p : Packet)
    → p.payload ≡ d
    → delivery plex port a d (origin_of plex socket) p ≡ answering plex port a d socket (resize p)
unfolding resize
delivery-answering plex port a (udp_init _) socket p e = refl
delivery-answering plex port a d socket p e =
    ap
      (λ d.
        if not (origin_eq (origin_of plex socket) plex) && is_fast d
        then sent_by_udp (record { bytes = frame (resize p); sender = a } ∷ [])
        else sent_to (opposite (origin_of plex socket)) (frame (resize p)))
      (sym e)
    ∙ chosen plex socket a (resize p)

abbrev at : List ℕ → SocketAddr → UdpConnection
at buff a = record { buff = buff; send_addr = connected a }

module _ (io : Bytes) (lawful : IsBytes io) (plex : Origin) (port : ℕ) where
  forward_by_tcp-whole :
      (dest : Origin) (p : Packet) (c : UdpConnection)
      → IsGuid p.id
      → Fits p.payload
      → forward_by_tcp io plex port dest p (wrote (length (frame p)) ∷ []) c
        ≡ (running c, sent_to dest (frame p))
  unfolding forward_by_tcp or_stop
  forward_by_tcp-whole dest p c g fits = rw (write_packet-whole io lawful p [] g fits) refl

  forward_by_udp-whole :
      (p : Packet) (buff : List ℕ) (a : SocketAddr)
      → IsGuid p.id
      → Fits p.payload
      → forward_by_udp io plex port p (wrote (length (frame p)) ∷ []) (at buff a)
        ≡ (running (at buff a), sent_by_udp (record { bytes = frame p; sender = a } ∷ []))
  unfolding forward_by_udp or_crash
  forward_by_udp-whole p buff a g fits =
      rw ((write_packet-status io lawful p buff 0 a [] g fits).1) refl

  forward-whole :
      (origin : Origin) (p : Packet) (buff : List ℕ) (a : SocketAddr)
      → IsGuid p.id
      → Fits p.payload
      → forward io plex port origin p (wrote (length (frame p)) ∷ []) (at buff a) ≡ (
        running (at buff a),
        if not (origin_eq origin plex) && is_fast p.payload
            then sent_by_udp (record { bytes = frame p; sender = a } ∷ [])
            else sent_to (opposite origin) (frame p),
      )
  unfolding forward
  forward-whole origin p buff a g fits =
      elim (Bool-cases (not (origin_eq origin plex) && is_fast p.payload)) [
        | inl fast ↦ rw fast (forward_by_udp-whole p buff a g fits)
        | inr slow ↦ rw slow (forward_by_tcp-whole (opposite origin) p (at buff a) g fits)
      ]

  default_guid-bytes : IsGuid default_guid
  default_guid-bytes = record { sized = refl; bytes = omega arith }

  forward-resized :
      (d : PacketData) (origin : Origin) (p : Packet) (buff : List ℕ) (a : SocketAddr)
      → IsGuid p.id
      → Fits p.payload
      → p.payload ≡ d
      → forward io plex port origin (resize p) (wrote (length (frame (resize p))) ∷ []) (at buff a)
        ≡ (
          running (at buff a),
          if not (origin_eq origin plex) && is_fast d
              then sent_by_udp (record { bytes = frame (resize p); sender = a } ∷ [])
              else sent_to (opposite origin) (frame (resize p)),
        )
  unfolding resize
  forward-resized d origin p buff a g fits e =
      forward-whole origin (resize p) buff a g fits
      ∙ ap
          (λ d. (
            running (at buff a),
            if not (origin_eq origin plex) && is_fast d
                then sent_by_udp (record { bytes = frame (resize p); sender = a } ∷ [])
                else sent_to (opposite origin) (frame (resize p)),
          ))
          e

  relay-delivers :
      (d : PacketData) (origin : Origin) (p : Packet) (buff : List ℕ) (a : SocketAddr)
      → IsU16 port
      → IsGuid p.id
      → Fits p.payload
      → p.payload ≡ d
      → relay io plex port d origin
          (resize p)
          (wrote (length (frame (outgoing port d (resize p)))) ∷ [])
          (at buff a)
        ≡ (running (at buff (peer_after a d)), delivery plex port a d origin p)
  unfolding relay answer_init set_client_port new get_size
  relay-delivers (udp_init other) origin p buff a small g fits e =
      forward_by_tcp-whole server (reply port) (at buff (record { ip = a.ip; port = other }))
        default_guid-bytes small
  relay-delivers _ origin p buff a small g fits e = forward-resized _ origin p buff a g fits e

  -- One turn.
  next_turn-resized :
      (socket : Socket) (p : Packet) (buff : List ℕ) (a : SocketAddr)
      → IsU16 port
      → IsPassable p
      → next_turn io plex port socket
          (ok p)
          (wrote (length (frame (outgoing port p.payload (resize p)))) ∷ [])
          (at buff a)
        ≡ (
          running (at buff (peer_after a p.payload)),
          answering plex port a p.payload socket (resize p),
        )
  unfolding next_turn resize
  next_turn-resized socket p buff a small h =
      relay-delivers p.payload (origin_of plex socket) p buff a small h.guid h.readable.fits refl
      ∙ ap (λ m. (running (at buff (peer_after a p.payload)), m))
          (delivery-answering plex port a p.payload socket p refl)

  next_turn-delivers :
      (socket : Socket) (p : Packet) (buff : List ℕ) (a : SocketAddr)
      → IsU16 port
      → IsPassable p
      → next_turn io plex port socket (ok p) (event port (socket, p)).writes (at buff a) ≡ (
        running (at buff (peer_after a p.payload)),
        answering plex port a p.payload socket (corrected p),
      )
  next_turn-delivers socket p buff a small h =
      subst
        (λ q.
          next_turn io plex port socket (ok p)
            (wrote (length (frame (outgoing port p.payload q))) ∷ []) (at buff a)
          ≡ (running (at buff (peer_after a p.payload)), answering plex port a p.payload socket q))
        (resize-corrected p h) (next_turn-resized socket p buff a small h)

  -- Let every packet that the proxy reads be one that `decode` can make, every socket take what it
  -- is offered as a whole, the proxy's own port be a `u16`, and a UDP peer be set. Then the proxy
  -- goes on for as long as packets come, and sends one message for each, in order: the packet with
  -- its size corrected goes to the other side, by UDP for the `Player` and `Cap` packets to the
  -- side that speaks UDP, by TCP otherwise; a `UdpInit` packet goes nowhere, but sets the peer for
  -- UDP, and the server is sent the proxy's own port.
  pub proxy_loop-delivers :
      (reads : List Read) (buff : List ℕ) (a : SocketAddr)
      → IsU16 port
      → All (λ r. IsPassable r.1) reads
      → proxy_loop io plex port (map (event port) reads) (at buff a)
        ≡ (running (at buff (peer_at_end a reads)), deliveries plex port a reads)
  unfolding proxy_loop then_turn
  proxy_loop-delivers [] buff a small h = refl
  proxy_loop-delivers ((socket, p) ∷ reads) buff a small h = rw (
    next_turn-delivers socket p buff a small h.0,
    proxy_loop-delivers reads buff (peer_after a p.payload) small h.1,
  )
