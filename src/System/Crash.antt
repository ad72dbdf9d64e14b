-- ===== src/System/Crash.antt =====
-- A packet that ends the server: what src/net/connection.rs, src/client.rs and the panic hook of
-- src/main.rs make of it.
use smo_multi_rs.Base.{ℕ, ◌≡◌, ◌<◌, ap, List, [], ◌∷◌, Bool, length}
use smo_multi_rs.Bytes.{Bytes, IsBytes}
use smo_multi_rs.Bytes.Laws.{by_reference}
use smo_multi_rs.Client.Events.{
  Turn, crashed, arrivals, arrival, handle_event, next_turn, handle_events,
}
use smo_multi_rs.Commands.{Client}
use smo_multi_rs.Connection.{SocketRead, received, answered, read_packet}
use smo_multi_rs.Connection.Undersized.{udp_init_sized, read_packet-panics}
use smo_multi_rs.Coordinator.State.{State}
use smo_multi_rs.Errors.{panic}

-- The process: it goes on with what is left of a task, or has ended with an exit code.
pub data Process : Type 0 where
  going : Turn → Process
  exited : (code : ℕ) → Process

-- `create_default_server` sets this hook for panics, of whichever task.
unfoldable pub panic_hook : Turn → Process
panic_hook crashed = exited 1
panic_hook t = going t

-- Let one read bring a connection that holds nothing a `UdpInit` packet whose size field says less
-- than its two bytes. Then `read_packet` panics, the task of the client panics with it, in whatever
-- state, and by the panic hook the whole server exits.
pub handle_events-crash :
    (accepts : ℕ → ℕ → Bool) (io : Bytes)
    → IsBytes io
    → (id : List ℕ) (n a b : ℕ) (reads : List SocketRead) (turns : List (List SocketRead))
      (c : Client) (s : State)
    → length id ≡ 16
    → n < 2
    → c.conn.buff ≡ []
    → let brought = received (udp_init_sized id n a b) ∷ reads in
      (read_packet io brought c.conn
        ≡ answered panic (record c.conn { buff = udp_init_sized id n a b }) reads)
      × (panic_hook (handle_events accepts io (arrivals io (brought ∷ turns) c.conn) c s).0
          ≡ exited 1)
unfolding handle_events handle_event next_turn arrivals panic_hook
handle_events-crash accepts io h id n a b reads turns c s sized short empty =
    let fails =
      by_reference
        (λ io.
          read_packet io (received (udp_init_sized id n a b) ∷ reads) c.conn
          ≡ answered panic (record c.conn { buff = udp_init_sized id n a b }) reads)
        io h (read_packet-panics id n a b reads c.conn sized short empty) in
    (
      fails,
      ap (λ r. panic_hook (handle_events accepts io (arrival (arrivals io turns) r) c s).0) fails,
    )
