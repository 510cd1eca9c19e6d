-- ===== src/Ws/Hub/Order.antt =====
-- The invariant of the hub, and that connecting and leaving keep it and never panic.
use otp_relay_backend.Base.{
  ℕ, suc, ◌≤◌, ◌<◌, ◌≡◌, String, true, false, List, [], none, some, arith, eqb, length, lookup,
  remove, lookup-insert, lookup-remove, eq_iff, eq_refl, Bool-cases, Option-cases, inl, inr,
}
use otp_relay_backend.Ws.{Envelope}
use otp_relay_backend.Ws.Hub.{
  Hub, Client, returns, write, set_current, unregister, connect, send_buffer, new_hub,
}

-- The connection that a device has, if `c` is it.
abbrev pub IsCurrent : ℕ → Hub → Type 0
IsCurrent c h = lookup (h.cells c).device_id h.clients ≡ some c

pub record IsSound (h : Hub) : Type 0 where
  pub owner : (d : String) (c : ℕ) → lookup d h.clients ≡ some c → (h.cells c).device_id ≡ d
  pub known : (d : String) (c : ℕ) → lookup d h.clients ≡ some c → c < h.next
  pub opened : (d : String) (c : ℕ) → lookup d h.clients ≡ some c → (h.cells c).closed ≡ false
  pub stale : (c : ℕ) → c < h.next → (h.cells c).closed ≡ false → IsCurrent c h
  pub bounded : (c : ℕ) → length (h.cells c).queue ≤ send_buffer

pub new_hub-IsSound : IsSound new_hub
unfolding lookup
new_hub-IsSound = record {
  owner = λ d c e. absurd (ground arith);
  known = λ d c e. absurd (ground arith);
  opened = λ d c e. absurd (ground arith);
  stale = λ c lt e. absurd (omega arith);
  bounded = λ c. omega arith;
}

-- A new connection of a device that has none.
module _ (device_id device_type : String) (h : Hub) (s : IsSound h) where
  abbrev pub fresh : Client
  fresh = record { device_id = device_id; device_type = device_type; queue = []; closed = false }

  abbrev pub arrived : Hub
  arrived = set_current device_id h.next (write h.next fresh (record h { next = suc h.next }))

  pub arrived-IsSound : lookup device_id h.clients ≡ none → IsSound arrived
  arrived-IsSound none_before = record {
    owner = λ d c e. ground (
      arith,
      lookup-insert device_id d h.next h.clients,
      eq_iff device_id d,
      s.owner d c,
      s.known d c,
    );
    known = λ d c e. ground (arith, lookup-insert device_id d h.next h.clients, s.known d c);
    opened = λ d c e. ground (arith, lookup-insert device_id d h.next h.clients, s.opened d c);
    stale = λ c lt e. elim (Bool-cases (eqb h.next c)) [
      | inl hit ↦
          ground (arith, lookup-insert device_id device_id h.next h.clients, eq_refl device_id)
      | inr miss ↦
          let d = (h.cells c).device_id in
          let old : lookup d h.clients ≡ some c = s.stale c (ground arith) (ground arith) in
          ground (arith, lookup-insert device_id d h.next h.clients, eq_iff device_id d)
    ];
    bounded = λ c. ground (arith, s.bounded c);
  }

  -- The connection that is displaced is closed first.
  abbrev pub displaced : ℕ → Hub
  displaced old = set_current device_id h.next (
      write old (record (h.cells old) { closed = true })
        (write h.next fresh (record h { next = suc h.next })))

  pub displaced-IsSound :
      (old : ℕ) → lookup device_id h.clients ≡ some old → IsSound (displaced old)
  displaced-IsSound old before = record {
    owner = λ d c e. ground (
      arith,
      lookup-insert device_id d h.next h.clients,
      eq_iff device_id d,
      s.owner d c,
      s.known d c,
      s.owner device_id old before,
      s.known device_id old before,
    );
    known = λ d c e. ground (arith, lookup-insert device_id d h.next h.clients, s.known d c);
    opened = λ d c e. ground (
      arith,
      lookup-insert device_id d h.next h.clients,
      eq_iff device_id d,
      s.opened d c,
      s.owner d c,
      s.known d c,
      s.owner device_id old before,
      s.known device_id old before,
    );
    stale = λ c lt e. elim (Bool-cases (eqb h.next c)) [
      | inl hit ↦ ground (
        arith,
        lookup-insert device_id device_id h.next h.clients,
        eq_refl device_id,
        s.known device_id old before,
      )
      | inr miss ↦
          let d = (h.cells c).device_id in
          let was : lookup d h.clients ≡ some c = s.stale c (ground arith) (ground arith) in
          ground (arith, lookup-insert device_id d h.next h.clients, eq_iff device_id d)
    ];
    bounded = λ c. ground (arith, s.bounded c, s.bounded old);
  }

  pub connect-none :
      lookup device_id h.clients ≡ none
      → connect device_id device_type h ≡ returns (h.next, arrived)
  unfolding connect
  connect-none e = ground arith

  pub connect-some :
      (old : ℕ)
      → lookup device_id h.clients ≡ some old
      → connect device_id device_type h ≡ returns (h.next, displaced old)
  unfolding connect
  connect-some old e = ground (arith, s.known device_id old e, s.opened device_id old e)

-- A connection that leaves.
module _ (c : ℕ) (h : Hub) (s : IsSound h) where
  abbrev pub left : Hub
  left =
      write c (record (h.cells c) { closed = true })
        (record h { clients = remove (h.cells c).device_id h.clients })

  pub left-IsSound : IsCurrent c h → IsSound left
  left-IsSound current = record {
    owner = λ d k e. ground (arith, lookup-remove (h.cells c).device_id d h.clients, s.owner d k);
    known = λ d k e. ground (arith, lookup-remove (h.cells c).device_id d h.clients, s.known d k);
    opened = λ d k e. ground (
      arith,
      lookup-remove (h.cells c).device_id d h.clients,
      eq_iff (h.cells c).device_id d,
      s.opened d k,
      s.owner d k,
    );
    stale = λ k lt e.
        let d = (h.cells k).device_id in
        let was : lookup d h.clients ≡ some k = s.stale k lt (ground arith) in
        ground
          (arith, lookup-remove (h.cells c).device_id d h.clients, eq_iff (h.cells c).device_id d);
    bounded = λ k. ground (arith, s.bounded k, s.bounded c);
  }

  pub unregister_current : IsCurrent c h → unregister c h ≡ returns left
  unfolding unregister
  unregister_current current = ground (arith, s.opened (h.cells c).device_id c current)

  -- A connection that another one has displaced leaves the hub as it is.
  pub unregister_stale : ¬ IsCurrent c h → unregister c h ≡ returns h
  unfolding unregister
  unregister_stale other = elim (Option-cases (lookup (h.cells c).device_id h.clients)) [
    | inl e ↦ rw (e, unregister)
    | inr (cur, e) ↦
        rw (e, unregister)
          (elim (Bool-cases (eqb cur c)) [
            | inl hit ↦ absurd (other (ground arith))
            | inr miss ↦ rw miss
          ])
  ]

-- The channel of one client gets another queue.
pub write_queue-IsSound :
    (h : Hub) (c : ℕ) (q : List Envelope)
    → IsSound h
    → length q ≤ send_buffer
    → IsSound (write c (record (h.cells c) { queue = q }) h)
write_queue-IsSound h c q s le = record {
  owner = λ d k e. ground (arith, s.owner d k);
  known = λ d k e. s.known d k e;
  opened = λ d k e. ground (arith, s.opened d k);
  stale = λ k lt e. ground (arith, s.stale k lt);
  bounded = λ k. ground (arith, s.bounded k);
}
