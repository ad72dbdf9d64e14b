-- ===== src/Client/Routes.antt =====
-- The ways by which a packet reaches a client: `send_packet` of src/client.rs.
use smo_multi_rs.Base.{
  ℕ, ◌≡◌, refl, List, [], ◌∷◌, Bool, true, false, length, if◌then◌else◌, Bool-cases, inl, inr,
}
use smo_multi_rs.Bytes.{Bytes, IsBytes}
use smo_multi_rs.Client.{by_tcp, by_udp, is_fast, send_packet}
use smo_multi_rs.Commands.{Client}
use smo_multi_rs.Connection.{SocketAddr, SocketWrite, wrote, finished}
use smo_multi_rs.Connection.Writes.{write_packet-whole}
use smo_multi_rs.Errors.{ok}
use smo_multi_rs.Guid.{IsGuid, guid_eq}
use smo_multi_rs.Packet.{Packet, PacketData, player, cap}
use smo_multi_rs.Packet.Format.{frame}
use smo_multi_rs.Packet.Typed.{Fits}
use smo_multi_rs.Udp.{connected, pending, is_client_udp}
use smo_multi_rs.Udp.Laws.{write_packet-status}

-- The packets that are to go by UDP where it is there: `Player` and `Cap`.
abbrev pub goes_fast : PacketData → Bool
goes_fast (player pos rot weights act sub_act) = true
goes_fast (cap pos rot cap_out cap_anim) = true
goes_fast _ = false

is_fast-goes_fast : (d : PacketData) → is_fast d ≡ goes_fast d
unfolding is_fast
is_fast-goes_fast (player pos rot weights act sub_act) = refl
is_fast-goes_fast (cap pos rot cap_out cap_anim) = refl
is_fast-goes_fast _ = refl

-- How a packet of another player, with fields in the ranges of their types, reaches a client
-- whose sockets take all that they are offered: as one datagram with the whole frame where UDP
-- is there and the packet is a `Player` or a `Cap`, and otherwise by TCP, the whole frame too.
pub send_packet-routes :
    (io : Bytes)
    → IsBytes io
    → (p : Packet) (writes : List SocketWrite) (c : Client) (buff : List ℕ) (ip : ℕ)
      (a : SocketAddr)
    → IsGuid p.id
    → Fits p.payload
    → guid_eq p.id c.guid ≡ false
    → (send_packet io p
          (wrote (length (frame p)) ∷ writes)
          (record c { udp_conn = record { buff = buff; send_addr = pending ip } })
        ≡ (finished (ok tt), by_tcp (frame p)))
      × (send_packet io p
            (wrote (length (frame p)) ∷ writes)
            (record c { udp_conn = record { buff = buff; send_addr = connected a } })
          ≡ (
            finished (ok tt),
            if goes_fast p.payload
                then by_udp (record { bytes = frame p; sender = a } ∷ [])
                else by_tcp (frame p),
          ))
unfolding send_packet is_client_udp
send_packet-routes io h p writes c buff ip a g fits other =
    let tcp = write_packet-whole io h p writes g fits in
    let udp = (write_packet-status io h p buff ip a writes g fits).1 in
    (
      rw (other, tcp),
      elim (Bool-cases (goes_fast p.payload)) [
        | inl fast ↦ rw (other, is_fast-goes_fast p.payload, fast, udp)
        | inr slow ↦ rw (other, is_fast-goes_fast p.payload, slow, tcp)
      ],
    )
