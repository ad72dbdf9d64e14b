-- ===== src/Client/Events.antt =====
-- src/client.rs: the event loop of a client's task. What `read_event` brings, and what the sockets
-- take, is an argument of each turn.
use smo_multi_rs.Base.{
  ℕ, suc, ◌≡◌, refl, ap, ◌∙◌, List, [], ◌∷◌, Bool, true, false, Option, none, some, if◌then◌else◌,
  length,
}
use smo_multi_rs.Bytes.{Bytes}
use smo_multi_rs.Client.{Sent, handle_packet, handle_command}
use smo_multi_rs.Commands.{Command, Client}
use smo_multi_rs.Connection.{
  Connection, SocketRead, SocketWrite, WriteEnd, finished, writing, ReadEnd, answered, waiting,
  read_packet, parse_packet,
}
use smo_multi_rs.Connection.Stuck.{read_packet-stuck}
use smo_multi_rs.Coordinator.Players.{dismiss}
use smo_multi_rs.Coordinator.State.{State}
use smo_multi_rs.Errors.{
  connection_close, connection_reset, SmoError, encoding, recv_channel, Outcome, ok, err, panic,
}
use smo_multi_rs.Packet.{Packet}

-- What `read_event` brings: the answer of one of the two `read_packet`, or what came from the
-- coordinator's channel, `none` when that is closed.
pub data Event : Type 0 where
  from_player : Outcome SmoError Packet → Event
  from_server : Option Command → Event

-- How a turn, or the loop, leaves the task: with the client, out of the loop with the client, after
-- the disconnect, at a panic, or waiting for a write.
pub data Turn : Type 0 where
  running : Client → Turn
  stopped : Client → Turn
  ended : Outcome SmoError (Unit {0}) → Turn
  crashed : Turn
  blocked : Turn

-- `Err(e)` is logged, and the loop goes on.
after_packet : Client → Outcome SmoError Client × State → Turn × State
after_packet c (ok c', s) = (running c', s)
after_packet c (err e, s) = (running c, s)
after_packet c (panic, s) = (crashed, s)

after_command : (WriteEnd × Sent) × Client → Turn
after_command ((finished (ok _), sent), c) = running c
after_command ((finished (err e), sent), c) = running c
after_command ((finished panic, sent), c) = crashed
after_command ((writing, sent), c) = blocked

-- The errors that end the loop.
unfoldable pub is_fatal : SmoError → Bool
is_fatal (encoding connection_close) = true
is_fatal (encoding connection_reset) = true
is_fatal recv_channel = true
is_fatal _ = false

unfoldable pub after_error : SmoError → Client → Turn
unfolding is_fatal
after_error e c = if is_fatal e then stopped (record c { alive = false }) else running c

module _ (accepts : ℕ → ℕ → Bool) (io : Bytes) where
  unfoldable pub handle_event : Event → List SocketWrite → Client → State → Turn × State
  unfolding after_packet after_command after_error
  handle_event (from_player (ok p)) writes c s = after_packet c (handle_packet accepts p c s)
  handle_event (from_player (err e)) writes c s = (after_error e c, s)
  handle_event (from_player panic) writes c s = (crashed, s)
  handle_event (from_server none) writes c s = (after_error recv_channel c, s)
  handle_event (from_server (some x)) writes c s = (after_command (handle_command io x writes c), s)

  -- `self.disconnect().await?`
  unfoldable pub finish : Client → State → Turn × State
  finish c s = let (answer, s') = dismiss accepts c s in (ended answer, s')

  -- The end of a turn, with the next turns as `more`.
  unfoldable pub next_turn : (Client → State → Turn × State) → Turn × State → Turn × State
  unfolding finish
  next_turn more (running c, s) = if c.alive then more c s else finish c s
  next_turn more (stopped c, s) = finish c s
  next_turn more (ended answer, s) = (ended answer, s)
  next_turn more (crashed, s) = (crashed, s)
  next_turn more (blocked, s) = (blocked, s)

  -- The loop, from a client that is alive. At the end of the list it waits for the next event.
  unfoldable pub handle_events : List (Event × List SocketWrite) → Client → State → Turn × State
  unfolding next_turn handle_event
  handle_events [] c s = (running c, s)
  handle_events ((event, writes) ∷ rest) c s =
      next_turn (handle_events rest) (handle_event event writes c s)

after_error-running : (e : SmoError) (c : Client) → is_fatal e ≡ false → after_error e c ≡ running c
unfolding after_error
after_error-running e c h = rw h

next_turn-alive :
    (accepts : ℕ → ℕ → Bool) (io : Bytes) (more : Client → State → Turn × State) (c : Client)
    (s : State)
    → c.alive ≡ true
    → next_turn accepts io more (running c, s) ≡ more c s
unfolding next_turn
next_turn-alive accepts io more c s alive =
    ap (λ (b : Bool). if b then more c s else finish accepts io c s) alive

pub arrival :
    (Connection → List (Event × List SocketWrite)) → ReadEnd → List (Event × List SocketWrite)
arrival more (answered r conn reads) = (from_player r, []) ∷ more conn
arrival more (waiting conn) = more conn

-- What the TCP connection of a client brings, turn after turn, where each turn has its own reads to
-- come; a turn in which `read_packet` still waits brings nothing.
unfoldable pub arrivals :
    Bytes → List (List SocketRead) → Connection → List (Event × List SocketWrite)
unfolding arrival
arrivals io [] conn = []
arrivals io (reads ∷ turns) conn = arrival (arrivals io turns) (read_packet io reads conn)

-- When the parser fails on the buffer of a client that is alive, by an error that is not a closed
-- connection, the event loop never ends by what the TCP connection brings: in every turn the reader
-- fails again, whatever the socket has, the client and the state stay as they are, and the
-- coordinator is not told.
pub handle_events-stuck :
    (accepts : ℕ → ℕ → Bool) (io : Bytes) (e : SmoError) (turns : List (List SocketRead))
    (c : Client) (s : State)
    → (parse_packet io c.conn).0 ≡ err e
    → is_fatal e ≡ false
    → c.alive ≡ true
    → (handle_events accepts io (arrivals io turns c.conn) c s ≡ (running c, s))
      × (length (arrivals io turns c.conn) ≡ length turns)
unfolding handle_events handle_event arrivals
handle_events-stuck accepts io e [] c s fails h alive = (refl, refl)
handle_events-stuck accepts io e (reads ∷ turns) c s fails h alive =
    let (same, count) = handle_events-stuck accepts io e turns c s fails h alive in
    let stuck : arrivals io (reads ∷ turns) c.conn
        ≡ (from_player (err e), []) ∷ arrivals io turns c.conn =
      ap (arrival (arrivals io turns)) (read_packet-stuck io c.conn e reads fails) in
    (
      ap (λ es. handle_events accepts io es c s) stuck
          ∙ ap
              (λ t.
                next_turn accepts io (handle_events accepts io (arrivals io turns c.conn)) (t, s))
              (after_error-running e c h)
          ∙ next_turn-alive accepts io (handle_events accepts io (arrivals io turns c.conn)) c s
              alive
          ∙ same,
      ap length stuck ∙ ap suc count,
    )
