-- ===== src/Coordinator/Order.antt =====
-- The order of the hash maps of src/coordinator.rs: what it may change.
use mathlib.Core.List.{append_assoc, Permᴰ}
use mathlib.Core.List.Permᴰ
use smo_multi_rs.Base.{
  ℕ, suc, ◌≡◌, refl, sym, ap, subst, ◌∙◌, List, [], ◌∷◌, ◌++◌, Bool, true, Option, length, arith, ℤ,
  fun_ext, Bool-cases, inl, inr,
}
use smo_multi_rs.Commands.{packet, ClientData}
use smo_multi_rs.Coordinator.Handle.{handle_command}
use smo_multi_rs.Coordinator.Invariant.{Inv}
use smo_multi_rs.Coordinator.State.{State}
use smo_multi_rs.Coordinator.Sync.{own_shines, sync_messages, handle_command-shine}
use smo_multi_rs.Errors.{SmoError, Outcome}
use smo_multi_rs.Guid.{Guid}
use smo_multi_rs.Maps.{Map, lookup, has, has-lookup, lookup-has, add}
use smo_multi_rs.Packet.{Packet, shine}

-- The same hash map, visited in another order.
pub record IsSameMap {V : Type 0} (m m' : Map V) : Type 0 where
  pub entries : Permᴰ m m'
  pub lookups : (g : Guid) → lookup g m ≡ lookup g m'

length-Perm : {A : Type 0} {xs ys : List A} → Permᴰ xs ys → length xs ≡ length ys
length-Perm Permᴰ.nil = refl
length-Perm (Permᴰ.cons e d) = ap suc (length-Perm d)
length-Perm (Permᴰ.swap e e') = refl
length-Perm (Permᴰ.trans d d') = length-Perm d ∙ length-Perm d'

-- The lists of the elements, one after the other.
each : {A B : Type 0} → (A → List B) → List A → List B
each f [] = []
each f (x ∷ xs) = f x ++ each f xs

each-Perm :
    {A B : Type 0} (f : A → List B) {xs ys : List A} → Permᴰ xs ys → Permᴰ (each f xs) (each f ys)
unfolding each
each-Perm f Permᴰ.nil = Permᴰ.nil
each-Perm f (Permᴰ.cons {a = a} {l₁ = xs} {l₂ = ys} e d) =
    subst (λ b. Permᴰ (f a ++ each f xs) (f b ++ each f ys)) e
      (Permᴰ.append_left (f a) (each-Perm f d))
each-Perm f (Permᴰ.swap {a = a} {b = b} {b' = b'} {l = l} e e') =
    subst (λ a'. Permᴰ (f a ++ (f b ++ each f l)) (f a' ++ (f b' ++ each f l))) e'
      (subst (λ z. Permᴰ (f a ++ (f b ++ each f l)) (f b ++ (f z ++ each f l))) e
        (subst (λ r. Permᴰ r (f b ++ (f a ++ each f l))) (append_assoc (f a) (f b) (each f l))
          (subst (λ r. Permᴰ ((f a ++ f b) ++ each f l) r) (append_assoc (f b) (f a) (each f l))
            (Permᴰ.append_right (each f l) (Permᴰ.append_comm (f a) (f b))))))
each-Perm f (Permᴰ.trans d d') = Permᴰ.trans (each-Perm f d) (each-Perm f d')

-- The messages of a sync, player by player.
sync_messages-each :
    (cs tc : Map ℕ) (bag : List ℤ) (store : ℕ → ClientData)
    → sync_messages cs tc bag store ≡ each (λ e. own_shines bag (store e.1) (lookup e.0 tc)) cs
unfolding sync_messages each
sync_messages-each [] tc bag store = refl
sync_messages-each ((g, cell) ∷ cs) tc bag store =
    ap (◌++◌ (own_shines bag (store cell) (lookup g tc))) (sync_messages-each cs tc bag store)

sync_messages-Perm :
    {cs cs' tc tc' : Map ℕ} (bag : List ℤ) (store : ℕ → ClientData)
    → IsSameMap cs cs'
    → IsSameMap tc tc'
    → Permᴰ (sync_messages cs tc bag store) (sync_messages cs' tc' bag store)
sync_messages-Perm {cs} {cs'} {tc} {tc'} bag store c t =
    let same : (λ (g : Guid). lookup g tc) ≡ (λ g. lookup g tc') = fun_ext t.lookups in
    subst (λ r. Permᴰ r (sync_messages cs' tc' bag store))
      (sym (sync_messages-each cs tc bag store))
      (subst (λ r. Permᴰ (each (λ e. own_shines bag (store e.1) (lookup e.0 tc)) cs) r)
        (ap (λ (look : Guid → Option ℕ). each (λ e. own_shines bag (store e.1) (look e.0)) cs') same
          ∙ sym (sync_messages-each cs' tc' bag store))
        (each-Perm (λ (e : Guid × ℕ). own_shines bag (store e.1) (lookup e.0 tc)) c.entries))

has-IsSameMap : {V : Type 0} {m m' : Map V} → IsSameMap m m' → (g : Guid) → has g m ≡ has g m'
has-IsSameMap {m = m} {m' = m'} h g = elim (Bool-cases (has g m)) [
  | inl there ↦
      let (v, e) = has-lookup g m there in
      there ∙ sym (lookup-has g m' {v = v} (sym (h.lookups g) ∙ e))
  | inr gone ↦ elim (Bool-cases (has g m')) [
    | inl there' ↦
        let (v, e) = has-lookup g m' there' in lookup-has g m {v = v} (h.lookups g ∙ e) ∙ sym there'
    | inr gone' ↦ gone ∙ sym gone'
  ]
]

-- An order of its maps does not matter to the invariant.
Inv-order :
    (s : State) (cs tc : Map ℕ)
    → IsSameMap s.clients cs
    → IsSameMap s.to_clients tc
    → Inv s
    → Inv (record s { clients = cs; to_clients = tc })
Inv-order s cs tc c t v = record {
  same_keys = λ g. sym (has-IsSameMap c g) ∙ v.same_keys g ∙ has-IsSameMap t g;
  room = omega (arith, v.room, length-Perm c.entries);
  served = v.served;
}

-- The same answer, and states that differ only in the order of the maps and of what was sent.
abbrev pub IsSameRun : Outcome SmoError Bool × State → Outcome SmoError Bool × State → Type 0
IsSameRun (a, s) (b, t) =
    (a ≡ b)
    × IsSameMap s.clients t.clients
    × IsSameMap s.to_clients t.to_clients
    × (s.shine_bag ≡ t.shine_bag)
    × (s.store ≡ t.store)
    × (s.spawned ≡ t.spawned)
    × Permᴰ s.sent t.sent

module _ (accepts : ℕ → ℕ → Bool) (up : (n channel : ℕ) → accepts n channel ≡ true) where
  -- Let every channel have its receiver and the invariant hold. The order in which an iteration
  -- visits the two hash maps does not change what the coordinator makes of a reported shine, but
  -- for the order of the messages that it sends.
  pub handle_command-order :
      (p : Packet) (i : ℤ) (is_grand : Bool) (s : State) (cs tc : Map ℕ)
      → Inv s
      → p.payload ≡ shine i is_grand
      → IsSameMap s.clients cs
      → IsSameMap s.to_clients tc
      → IsSameRun
          (handle_command accepts (packet p) s)
          (handle_command accepts (packet p) (record s { clients = cs; to_clients = tc }))
  handle_command-order p i is_grand s cs tc v e c t =
      let s' : State = record s { clients = cs; to_clients = tc } in
      rw
        (
          handle_command-shine accepts up p i is_grand s v e,
          handle_command-shine accepts up p i is_grand s' (Inv-order s cs tc c t v) e,
        )
        (
          refl,
          c,
          t,
          refl,
          refl,
          refl,
          Permᴰ.append_left s.sent (sync_messages-Perm (add i s.shine_bag) s.store c t),
        )
