-- ===== src/Proxy/Modes.antt =====
-- examples/proxy/src/main.rs: the addresses that `main` chooses by its arguments, and its loop. What
-- the standard library makes of a text for an address is a parameter, and so is what it resolves
-- a host to.
use smo_multi_rs.Base.{
  ℕ, zero, suc, ◌+◌, ◌*◌, List, [], ◌∷◌, Bool, Option, none, some, if◌then◌else◌,
}
use smo_multi_rs.Connection.{SocketAddr}
use smo_multi_rs.Errors.{SmoError, io, Outcome, ok, err, panic}
use smo_multi_rs.Guid.{bytes_eq}
use smo_multi_rs.Proxy.{Origin, client, server}
use smo_multi_rs.Settings.{codes}

-- `LocalAddrs` and `RemoteAddrs`
pub record Mode : Type 0 where
  pub local_tcp : SocketAddr
  pub local_udp : SocketAddr
  pub remote_tcp : SocketAddr
  pub remote_udp : SocketAddr
  pub plex : Origin

-- `a.b.c.d:port`
abbrev v4 : (a b c d port : ℕ) → SocketAddr
v4 a b c d port = record { ip = ((a * 256 + b) * 256 + c) * 256 + d; port = port }

unfoldable pub client_mode : Mode
client_mode = record {
  local_tcp = v4 0 0 0 0 1027;
  local_udp = v4 0 0 0 0 55446;
  remote_tcp = v4 192 168 1 39 1028;
  remote_udp = v4 192 168 1 39 55445;
  plex = server;
}

unfoldable pub server_mode : Mode
server_mode = record {
  local_tcp = v4 0 0 0 0 61885;
  local_udp = v4 0 0 0 0 55445;
  remote_tcp = v4 64 201 219 20 1027;
  remote_udp = v4 192 168 1 39 55446;
  plex = client;
}

-- `.unwrap()`: without a value the program panics.
infixl 5 ◌>>=◌
abbrev ◌>>=◌ : {A B : Type 0} → Option A → (A → Option B) → Option B
none >>= f = none
some a >>= f = f a

-- `std::env::args().nth(n)`
nth : ℕ → List (List ℕ) → Option (List ℕ)
nth n [] = none
nth zero (a ∷ args) = some a
nth (suc n) (a ∷ args) = nth n args

module _ (parse : List ℕ → Option SocketAddr)
    (to_socket_addrs : List ℕ → Option (List SocketAddr)) where
  -- The first address that the server's name resolves to, or the name parsed as an address.
  first_or_parsed : List ℕ → List SocketAddr → Option SocketAddr
  first_or_parsed serv_ip [] = parse serv_ip
  first_or_parsed serv_ip (addr ∷ addrs) = some addr

  unfoldable pub proxy_mode : List (List ℕ) → Option Mode
  unfolding first_or_parsed nth
  proxy_mode args = do
    serv_ip ← nth 2 args
    local_tcp_ip ← nth 3 args
    local_udp_ip ← nth 4 args
    local_tcp ← parse local_tcp_ip
    local_udp ← parse local_udp_ip
    server_addrs ← to_socket_addrs serv_ip
    server_addr ← first_or_parsed serv_ip server_addrs
    some (record {
      local_tcp = local_tcp;
      local_udp = local_udp;
      remote_tcp = server_addr;
      remote_udp = v4 127 0 0 1 55445;
      plex = server;
    })

  by_type : List ℕ → List (List ℕ) → Option Mode
  unfolding proxy_mode client_mode server_mode
  by_type proxy_type args =
      if bytes_eq proxy_type (codes "client")
      then some client_mode
      else if bytes_eq proxy_type (codes "server")
      then some server_mode
      else if bytes_eq proxy_type (codes "proxy")
      then proxy_mode args
      else none

  -- `none` is a panic.
  unfoldable pub choose_mode : List (List ℕ) → Option Mode
  unfolding by_type nth
  choose_mode args = do proxy_type ← nth 1 args; by_type proxy_type args

-- A task that runs `proxy_client`: the accepted socket, the address for its UDP socket, and the
-- remote addresses.
pub record Accepted (A : Type 0) : Type 0 where
  pub from_socket : A
  pub udp_addr : SocketAddr
  pub remote : SocketAddr × SocketAddr × Origin

-- The loop of `main` over what `accept` brings, a socket or an error, which ends it.
unfoldable pub accept_all :
    {A : Type 0} → Mode → List (Option A) → List (Accepted A) × Outcome SmoError (Unit {0})
accept_all mode [] = ([], ok tt)
accept_all mode (none ∷ rest) = ([], err io)
accept_all mode (some socket ∷ rest) =
    let (spawned, answer) = accept_all mode rest in
    (
      record {
        from_socket = socket;
        udp_addr = mode.local_udp;
        remote = (mode.remote_tcp, mode.remote_udp, mode.plex);
      }
          ∷ spawned,
      answer,
    )

listen :
    {A : Type 0}
    → Option Mode
    → Bool
    → List (Option A)
    → List (Accepted A) × Outcome SmoError (Unit {0})
unfolding accept_all
listen none binds sockets = ([], panic)
listen (some mode) binds sockets = if binds then accept_all mode sockets else ([], err io)

-- `main`: its arguments, whether the address of its mode can be bound, and what `accept` brings.
unfoldable pub main :
    {A : Type 0}
    → (List ℕ → Option SocketAddr)
    → (List ℕ → Option (List SocketAddr))
    → List (List ℕ)
    → Bool
    → List (Option A)
    → List (Accepted A) × Outcome SmoError (Unit {0})
unfolding choose_mode listen
main parse to_socket_addrs args binds sockets =
    listen (choose_mode parse to_socket_addrs args) binds sockets
