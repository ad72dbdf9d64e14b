-- ===== src/Server/Ports.antt =====
-- The UDP ports of the listener's clients (src/server.rs).
use smo_multi_rs.Base.{
  ℕ, ◌≡◌, ◌+◌, ◌%◌, ◌^◌, ◌<◌, ◌∙◌, ap, List, [], ◌∷◌, zero, suc, Option, none, some, length, map,
  arith,
}
use smo_multi_rs.Server.{Server, Accepted, accept_all, listen_for_clients}

-- The port of the n-th client, from 0.
abbrev pub port_of : {A : Type 0} → ℕ → List (Accepted A) → Option ℕ
port_of n [] = none
port_of zero (a ∷ rest) = some a.udp_port
port_of (suc n) (a ∷ rest) = port_of n rest

accept_all-port :
    {A : Type 0} (base offset : ℕ) (sockets : List A) (n : ℕ)
    → offset < 2
    → n < length sockets
    → port_of n (accept_all base offset (map some sockets)).0
      ≡ some ((base + (offset + n) % 2) % 2 ^ 16)
unfolding accept_all
accept_all-port base offset [] n o h = absurd (omega arith)
accept_all-port base offset (x ∷ xs) zero o h = ap (λ k. some ((base + k) % 2 ^ 16)) (omega arith)
accept_all-port base offset (x ∷ xs) (suc n) o h =
    accept_all-port base ((offset + 1) % 2) xs n (omega arith) (omega arith)
    ∙ ap (λ k. some ((base + k) % 2 ^ 16)) (omega arith)

-- While `accept` brings sockets, the n-th client (from 0) gets the port `udp_port` if n is even,
-- and the one after it if n is odd, modulo 2 ^ 16.
pub listen_for_clients-port :
    {A : Type 0} (server : Server) (sockets : List A) (n : ℕ)
    → n < length sockets
    → port_of n (listen_for_clients server (map some sockets)).0
      ≡ some ((server.udp_port + n % 2) % 2 ^ 16)
unfolding listen_for_clients
listen_for_clients-port server sockets n h =
    accept_all-port server.udp_port 0 sockets n (omega arith) h
    ∙ ap (λ k. some ((server.udp_port + k % 2) % 2 ^ 16)) (omega arith)
