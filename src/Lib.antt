-- ===== src/Lib.antt =====
-- The server of smo-multi-rs: players of a game connect by TCP and UDP, and the server passes their
-- packets on.
--
-- The parts. A listener (src/server.rs) accepts sockets; `initialize_client` (src/client.rs) makes a
-- client task of each, and tells the coordinator (src/coordinator.rs) of it by a command. A client
-- task reads packets from its connections (src/net/connection.rs, src/net/udp_conn.rs), which parse
-- them with src/net/packet.rs, and sends them as commands to the coordinator; the coordinator keeps
-- the players, answers by commands in the players' channels, and shares each player's data with its
-- task.
--
-- Which file models which code:
--   Bytes: the crate `bytes` as an interface, a parameter of all code that reads or writes bytes, with
--     its documented behaviour as the laws `IsBytes`; `reference` is an implementation of them.
--   Errors: src/types/errors.rs.  Geometry: src/types/vec.rs, src/types/quat.rs.
--   Guid, Guid.Display: src/guid.rs, with the crate `hex` as a parameter.
--   Text: the text fields of src/net/packet.rs.
--   Packet, Packet.Decode, Packet.Encode: src/net/packet.rs, with one function for each arm of the
--     parser. A cursor or buffer is the list of the bytes that remain or were written.
--     Packet.Arbitrary: its generator of test packets. Packet.Names: the names for the log.
--   Connection: src/net/connection.rs.  Udp: src/net/udp_conn.rs. A socket is what its reads bring and
--     how many bytes its writes take.
--   Settings: src/settings.rs.  Commands: src/cmds.rs, and the records of src/client.rs.
--   Maps: the standard library's hash maps and sets, as far as they are used.
--   Coordinator.State, .Shines, .Players, .Handle: src/coordinator.rs. A method is a function of the
--     state to an outcome and a state; `sent` records what went into the channels, `spawned` the
--     tasks. Whether a channel has a receiver is a parameter. The locks are left out: a command is
--     handled without another task's step in between.
--     Coordinator.Roster: what the coordinator promises, as a lobby of players and moons without maps,
--     channels and order, and the moves that a command with its answer may make.
--   Client: `handle_packet`, `handle_command` and `send_packet` of src/client.rs, which act on the same
--     store and channels as the coordinator. Client.Events: `handle_events`, with what `read_event`
--     brings as an argument. Client.Handshake: `initialize_client`, with what the sockets do and the
--     references that are made as an argument.
--   Server: src/server.rs, with what `accept` brings as an argument, and from src/main.rs the settings
--     file and the state that the program starts from, with the crate `serde_json` as a parameter.
--   Console: the command line reader of src/main.rs, whose task is not started, with the parser that
--     the crate `clap` derives as a parameter.
--   System: the tasks together, in any interleaving of their handlers, as a step relation on the
--     shared state, the coordinator's inbox and whether its loop goes on. A handler is one step: the
--     locks and the awaits inside a handler are no points of interleaving in the model. System.Joined,
--     .Relayed and .Reconnect follow a player that joins, a packet, and a player that comes back,
--     through the tasks;
--     System.Crash has the panic hook of src/main.rs.
--   Proxy: `proxy_client` of examples/proxy/src/main.rs, on the same connections. Proxy.Crossings: what
--     it is to send for each packet, as a table that is independent of the code. Proxy.Modes:
--     its `main`, with the parser of addresses and the resolver as parameters.
--   Serde: src/net/serializer.rs and src/net/deserializer.rs, which the server does not use, over the
--     crate `bytes` as an interface of their own (`Scalars`, `IsScalars`), as their numbers are
--     big-endian. A value is one of serde's data model, with the method that serde calls for it.
--   Tests: concrete inputs.
-- The other files hold lemmas and theorems, each about the module above it.
--
-- Numbers are ℕ with the width of the source's type written out where it wraps; `IsU16` and the like
-- say what the types of a packet's fields say. The loops over reads and writes are recursions on the
-- list of what the socket does; where the list ends the task waits. No fuel is used, but for
-- the two `read_packets`, which count calls: their theorems hold for every count that is large enough. A panic
-- is an outcome of its own. A hash map's order is that of a list; no theorem depends on it but
-- through the list itself.
--
-- Not modelled: the choice of `select!`, the serde and clap derivations, and log messages. The
-- channels have no bound: the source's hold 10 messages (src/client.rs) and 100 (src/main.rs), and its
-- coordinator waits in a send as long as a player's channel is full, for ever if the player's socket
-- takes nothing; no theorem says that this does not happen. The flush of a connection and the shutdown
-- of a refused client's socket are left out, and so are their errors. The sum of a UDP port and its
-- offset wraps, as in a release build.
pub mod Base
pub mod Errors
pub mod Bytes
pub mod Text
pub mod Geometry
pub mod Guid
pub mod Packet
pub mod Connection
pub mod Maps
pub mod Udp
pub mod Settings
pub mod Commands
pub mod Coordinator
pub mod Client
pub mod Server
pub mod Console
pub mod Serde
pub mod Proxy
pub mod System
pub mod Tests
