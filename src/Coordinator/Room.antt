-- ===== src/Coordinator/Room.antt =====
-- How much goes into each channel while the coordinator shuts down (src/coordinator.rs).
use mathlib.Core.List.{append_assoc, append-nil}
use smo_multi_rs.Base.{
  ℕ, suc, ◌≡◌, refl, sym, ap, ◌∙◌, ◌+◌, ◌*◌, ◌≤◌, List, [], ◌∷◌, ◌++◌, Bool, length, ◌==◌, Option,
  none, some, if◌then◌else◌, Bool-cases, inl, inr, arith,
}
use smo_multi_rs.Commands.{Command, packet, server, ServerCommand}
use smo_multi_rs.Coordinator.Handle.{
  disconnect_all, shutdown, after_command, handle_command, handle_commands,
}
use smo_multi_rs.Coordinator.Invariant.{Inv}
use smo_multi_rs.Coordinator.Players.{farewell, disconnect_player}
use smo_multi_rs.Coordinator.Shines.{send, send_all, broadcast}
use smo_multi_rs.Coordinator.Shutdown.{IsOver, handle_commands-shutdown}
use smo_multi_rs.Coordinator.State.{State, Task, then_with, recover_with, return}
use smo_multi_rs.Errors.{SmoError, Outcome, ok, err, panic}
use smo_multi_rs.Guid.{Guid}
use smo_multi_rs.Maps.{Map, lookup, remove}
use smo_multi_rs.Packet.{Packet, disconnect, new, get_size, resize}

-- How many of the messages go into the channel.
abbrev pub for_it : ℕ → List (ℕ × Command) → ℕ
for_it channel [] = 0
for_it channel ((k, c) ∷ ms) = (if k == channel then 1 else 0) + for_it channel ms

-- How many players have the channel.
abbrev pub holders : ℕ → Map ℕ → ℕ
holders channel [] = 0
holders channel ((g, k) ∷ m) = (if k == channel then 1 else 0) + holders channel m

abbrev held : ℕ → Option ℕ → ℕ
held channel none = 0
held channel (some k) = if k == channel then 1 else 0

-- From `s` to `t` no more than so many messages went into each channel.
abbrev pub IsWithin : (ℕ → ℕ) → State → State → Type 0
IsWithin bound s t =
    (more : List (ℕ × Command)) × (t.sent ≡ s.sent ++ more)
    × ((channel : ℕ) → for_it channel more ≤ bound channel)

-- And the players are the same.
Keeps : (ℕ → ℕ) → State → State → Type 0
Keeps bound s t = IsWithin bound s t × (t.to_clients ≡ s.to_clients)

for_it-append :
    (channel : ℕ) (xs ys : List (ℕ × Command))
    → for_it channel (xs ++ ys) ≡ for_it channel xs + for_it channel ys
for_it-append channel [] ys = omega arith
for_it-append channel (x ∷ xs) ys = omega (arith, for_it-append channel xs ys)

holders-remove :
    (channel : ℕ) (g : Guid) (m : Map ℕ)
    → (held channel (lookup g m) + holders channel (remove g m) ≤ holders channel m)
      × (holders channel (remove g m) ≤ holders channel m)
unfolding lookup remove
holders-remove channel g [] = (omega arith, omega arith)
holders-remove channel g ((k, v) ∷ m) =
    let (both, rest) = holders-remove channel g m in (ground arith, ground arith)

one_more : (n limit x : ℕ) → x ≤ limit → x + n * limit ≤ suc n * limit
one_more n limit x h = grind arith

IsWithin-nothing : (bound : ℕ → ℕ) (s : State) → IsWithin bound s s
IsWithin-nothing bound s = ([], sym (append-nil s.sent), λ channel. omega arith)

IsWithin-both :
    (f g h : ℕ → ℕ) (s t u : State)
    → IsWithin f s t
    → IsWithin g t u
    → ((channel : ℕ) → f channel + g channel ≤ h channel)
    → IsWithin h s u
IsWithin-both f g h s t u (xs, e, small) (ys, e', small') sum = (
  xs ++ ys,
  e' ∙ ap (λ ms. ms ++ ys) e ∙ append_assoc s.sent xs ys,
  λ channel. omega (arith, for_it-append channel xs ys, small channel, small' channel, sum channel),
)

Keeps-then :
    {A B : Type 0} (f g h : ℕ → ℕ) (s : State) (r : Outcome SmoError A × State) (more : A → Task B)
    → Keeps f s r.1
    → ((a : A) (t : State) → t.to_clients ≡ s.to_clients → Keeps g t (more a t).1)
    → ((channel : ℕ) → f channel + g channel ≤ h channel)
    → Keeps h s (then_with r more).1
unfolding Keeps
Keeps-then f g h s (ok a, t) more (within, same) k sum =
    let (within', same') = k a t same in
    (IsWithin-both f g h s t (more a t).1 within within' sum, same' ∙ same)
Keeps-then f g h s (err e, t) more ((xs, e', small), same) k sum =
    ((xs, e', λ channel. omega (arith, small channel, sum channel)), same)
Keeps-then f g h s (panic, t) more ((xs, e', small), same) k sum =
    ((xs, e', λ channel. omega (arith, small channel, sum channel)), same)

module _ (accepts : ℕ → ℕ → Bool) where
  send-Keeps :
      (k : ℕ) (c : Command) (s : State)
      → Keeps (λ channel. if k == channel then 1 else 0) s (send accepts k c s).1
  unfolding Keeps send
  send-Keeps k c s = elim (Bool-cases (accepts (length s.sent) k)) [
    | inl takes ↦ rw takes (((k, c) ∷ [], refl, λ channel. omega arith), refl)
    | inr closed ↦ rw closed (IsWithin-nothing _ s, refl)
  ]

  send_all-Keeps :
      (cs : Map ℕ) (p : Packet) (s : State)
      → Keeps (λ channel. holders channel cs) s (send_all accepts cs p s).1
  unfolding Keeps send_all
  send_all-Keeps [] p s = (IsWithin-nothing _ s, refl)
  send_all-Keeps ((g, k) ∷ cs) p s =
      Keeps-then _ (λ channel. holders channel cs) _ s (send accepts k (packet p) s) _
        (send-Keeps k (packet p) s) (λ _ t same. send_all-Keeps cs p t) (λ channel. omega arith)

  farewell-Keeps :
      (g : Guid) (o : Option ℕ) (s : State)
      → Keeps
          (λ channel. held channel o + holders channel s.to_clients)
          s
          (farewell accepts g o s).1
  unfolding Keeps farewell broadcast new get_size
  farewell-Keeps g none s = (IsWithin-nothing _ s, refl)
  farewell-Keeps g (some k) s =
      let bye : Packet = record { id = g; data_size = 0; payload = disconnect } in
      Keeps-then (λ channel. holders channel s.to_clients)
        (λ channel. if k == channel then 1 else 0) _ s (broadcast accepts bye s) _
        (send_all-Keeps s.to_clients (resize bye) s) (λ _ t same. send-Keeps k (packet bye) t)
        (λ channel. omega arith)

  -- A player that leaves: no channel is sent more than its players.
  disconnect_player-IsWithin :
      (g : Guid) (s : State)
      → let t : State = (disconnect_player accepts g s).1 in
        IsWithin (λ channel. holders channel s.to_clients) s t
        × ((channel : ℕ) → holders channel t.to_clients ≤ holders channel s.to_clients)
  unfolding disconnect_player Keeps
  disconnect_player-IsWithin g s =
      let s' : State = record s {
        clients = remove g s.clients;
        to_clients = remove g s.to_clients;
      } in
      let ((more, e, small), same) = farewell-Keeps g (lookup g s.to_clients) s' in
      (
        (
          more,
          e,
          λ channel. omega (arith, small channel, (holders-remove channel g s.to_clients).0),
        ),
        λ channel.
            omega (arith, (holders-remove channel g s.to_clients).1, ap (holders channel) same),
      )

  disconnect_all-IsWithin :
      (cs : Map ℕ) (s : State) (limit : ℕ → ℕ)
      → ((channel : ℕ) → holders channel s.to_clients ≤ limit channel)
      → IsWithin (λ channel. length cs * limit channel) s (disconnect_all accepts cs s).1
  unfolding disconnect_all
  disconnect_all-IsWithin [] s limit h = IsWithin-nothing _ s
  disconnect_all-IsWithin ((g, k) ∷ cs) s limit h =
      let (within, fewer) = disconnect_player-IsWithin g s in
      after (disconnect_player accepts g s) within (λ t. disconnect_all-IsWithin cs t limit)
        (λ channel. omega (arith, fewer channel, h channel))
    where
      after :
          (r : Outcome SmoError (Unit {0}) × State)
          → IsWithin (λ channel. holders channel s.to_clients) s r.1
          → ((t : State)
              → ((channel : ℕ) → holders channel t.to_clients ≤ limit channel)
              → IsWithin (λ channel. length cs * limit channel) t (disconnect_all accepts cs t).1)
          → ((channel : ℕ) → holders channel r.1.to_clients ≤ limit channel)
          → IsWithin
              (λ channel. length ((g, k) ∷ cs) * limit channel)
              s
              (then_with (recover_with r (λ e. return tt)) (λ _. disconnect_all accepts cs)).1
      after (ok a, t) w more small =
          IsWithin-both _ _ _ s t (disconnect_all accepts cs t).1 w (more t small)
            (λ channel. one_more _ _ _ (h channel))
      after (err e, t) w more small =
          IsWithin-both _ _ _ s t (disconnect_all accepts cs t).1 w (more t small)
            (λ channel. one_more _ _ _ (h channel))
      after (panic, t) (xs, e, few) more small = (
        xs,
        e,
        λ channel. omega (arith, few channel, one_more (length cs) (limit channel) _ (h channel)),
      )

  -- Let the coordinator's invariant hold, and the next command be the shutdown. Then the loop ends
  -- without an error or a panic, whichever channels have closed or close meanwhile and whatever
  -- follows in the queue, and at its end no player has data or a channel. Until then each channel is
  -- sent no more messages than there are players, for each player that has it: where the channels
  -- have so much room, none of these sends has to wait.
  pub shutdown-ends :
      (rest : List Command) (s : State)
      → Inv s
      → let r = handle_commands accepts (server ServerCommand.shutdown ∷ rest) s in
        IsOver r × IsWithin (λ channel. length s.to_clients * holders channel s.to_clients) s r.1
  unfolding handle_commands after_command handle_command shutdown
  shutdown-ends rest s v = (
    handle_commands-shutdown accepts [] rest s tt v,
    disconnect_all-IsWithin s.to_clients s (λ channel. holders channel s.to_clients)
        (λ channel. omega arith),
  )
