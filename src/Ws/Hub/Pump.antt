-- ===== src/Ws/Hub/Pump.antt =====
-- internal/ws/hub.go: readPump as a loop over what arrives, with the deadline that a pong sets, and
-- the period of writePump's pings that it goes with. Times are in nanoseconds.
use otp_relay_backend.Base.{
  ℕ, suc, ◌+◌, ◌*◌, ◌/◌, ◌^◌, ◌≤◌, ◌≡◌, refl, ◌∙◌, true, List, [], ◌∷◌, Option, none, some, arith,
  ltb, Bool-cases, inl, inr, String, lookup, lookup-remove, eq_refl, if◌then◌else◌, Bool, false,
}
use otp_relay_backend.Ws.{Envelope}
use otp_relay_backend.Ws.Hub.Order.{IsSound, IsCurrent, left, left-IsSound, unregister_current}
use otp_relay_backend.Ws.Hub.Safety.{only_hub, read_frame-Succeeds}
use otp_relay_backend.Ws.Hub.{
  Hub, Dispatch, Outcome, returns, panics, ◌>>=◌, unregister, read_frame, handle, handle_push,
  handle_claim, send_error, try_send, offer,
}

abbrev pub pong_wait : ℕ
pong_wait = 60 * 10 ^ 9

abbrev pub ping_period : ℕ
ping_period = pong_wait * 9 / 10

-- What ReadMessage meets: a pong, which it hands to the pong handler; a message, `none` if it is no
-- JSON envelope; or an error of the connection, a message over the read limit among them.
pub data Inbound : Type 0 where
  pong fails : Inbound
  message : Option Envelope → Inbound

-- The end of a pump: the calls of the dispatcher so far, the hub, and whether the connection of the
-- two pumps, `c.conn`, is open.
abbrev pub Finish : Type 0
Finish = List Dispatch × (Hub × Bool)

-- The deferred calls: `unregister`, and `c.conn.Close()`.
unfoldable pub leave : ℕ → Hub → Outcome Finish
unfolding unregister
leave c h = unregister c h >>= λ h'. returns ([], (h', false))

abbrev pub dispatched : Dispatch → Outcome Finish → Outcome Finish
dispatched d r = r >>= λ q. returns (d ∷ q.0, q.1)

-- When nothing arrives any more, the deadline passes.
unfoldable pub read_pump : ℕ → List (ℕ × Inbound) → ℕ → Hub → Outcome Finish
unfolding leave read_frame
read_pump c [] deadline h = leave c h
read_pump c ((t, fails) ∷ later) deadline h = leave c h
read_pump c ((t, pong) ∷ later) deadline h =
    let more = read_pump c later (t + pong_wait) h in if ltb deadline t then leave c h else more
read_pump c ((t, message e) ∷ later) deadline h =
    let more = read_frame c e h >>= λ r. dispatched r.0 (read_pump c later deadline r.1) in
    if ltb deadline t then leave c h else more

-- The messages, one after the other, with no deadline.
unfoldable pub read_all : ℕ → List (ℕ × Inbound) → Hub → Outcome Finish
unfolding leave read_frame
read_all c [] h = leave c h
read_all c ((t, message e) ∷ later) h =
    read_frame c e h >>= λ r. dispatched r.0 (read_all c later r.1)
read_all c ((t, _) ∷ later) h = read_all c later h

-- The time at which writePump, started at `start`, sends its ping of this number.
abbrev pub ping_at : ℕ → ℕ → ℕ
ping_at start n = start + n * ping_period

-- A peer that has answered `n` pings answers each further one within six seconds, and sends nothing
-- later than its next answer is due. The connection reports no error.
abbrev pub Answers : ℕ → ℕ → List (ℕ × Inbound) → Type 0
Answers start n [] = Unit
Answers start n ((t, fails) ∷ later) = ⊥
Answers start n ((t, pong) ∷ later) =
    (ping_at start (suc n) ≤ t)
    × (t ≤ ping_at start (suc n) + 6 * 10 ^ 9)
    × Answers start (suc n) later
Answers start n ((t, message e) ∷ later) =
    (t ≤ ping_at start (suc n) + 6 * 10 ^ 9) × Answers start n later

-- A frame changes the queue of its connection only.
read_frame-keeps :
    (c : ℕ) (e : Option Envelope) (h h' : Hub) (d : Dispatch)
    → read_frame c e h ≡ returns (d, h')
    → (h'.clients ≡ h.clients) × ((h'.cells c).device_id ≡ (h.cells c).device_id)
unfolding read_frame handle handle_push handle_claim send_error try_send offer
read_frame-keeps c none h h' d e = ground arith
read_frame-keeps c (some m) h h' d e = ground arith

read_frame-returns :
    (c : ℕ) (e : Option Envelope) (h : Hub)
    → IsSound h
    → (h.cells c).closed ≡ false
    → (d : Dispatch) × (h' : Hub) × (read_frame c e h ≡ returns (d, h')) × IsSound h'
read_frame-returns c e h s o =
    let (h', runs, s') = read_frame-Succeeds c h s o e in returned (read_frame c e h) runs s'
  where
    returned :
        {h' : Hub} (r : Outcome (Dispatch × Hub))
        → only_hub r ≡ returns h'
        → IsSound h'
        → (d : Dispatch) × (k : Hub) × (r ≡ returns (d, k)) × IsSound k
    returned {h' = h'} (returns (d, k)) e s' =
        let same : k ≡ h' = ground arith in (d, k, refl, rw same s')
    returned panics e s' = absurd (ground arith)

-- The pump has ended without a panic and has closed the connection, the hub is in order, the device
-- has no connection there, and the channel of this one is closed.
abbrev pub Ended : ℕ → String → Outcome Finish → Type 0
Ended c device r =
    (ds : List Dispatch) × (h : Hub) × (r ≡ returns (ds, (h, false)))
    × IsSound h
    × (lookup device h.clients ≡ none)
    × ((h.cells c).closed ≡ true)

leave-Ended :
    (c : ℕ) (h : Hub) → IsSound h → IsCurrent c h → Ended c (h.cells c).device_id (leave c h)
unfolding leave
leave-Ended c h s current =
    let d = (h.cells c).device_id in
    (
      [],
      left c h s,
      rw (unregister_current c h s current),
      left-IsSound c h s current,
      lookup-remove d d h.clients ∙ rw (eq_refl d) refl,
      ground arith,
    )

dispatched-Ended :
    (c : ℕ) (device : String) (d : Dispatch) (r : Outcome Finish)
    → Ended c device r
    → Ended c device (dispatched d r)
dispatched-Ended c device d r (ds, h, e, s, gone, shut) = (d ∷ ds, h, rw e refl, s, gone, shut)

-- On a hub in order, with nothing but the reader of a device's current connection at work: whatever
-- arrives, and whatever the deadline is, readPump ends without a panic, and afterwards the hub is in
-- order, the device is not connected, and the connection and its channel are closed.
pub read_pump-Ended :
    (c : ℕ) (as' : List (ℕ × Inbound)) (deadline : ℕ) (h : Hub)
    → IsSound h
    → IsCurrent c h
    → Ended c (h.cells c).device_id (read_pump c as' deadline h)
unfolding read_pump
read_pump-Ended c [] deadline h s current = leave-Ended c h s current
read_pump-Ended c ((t, fails) ∷ later) deadline h s current = leave-Ended c h s current
read_pump-Ended c ((t, pong) ∷ later) deadline h s current = elim (Bool-cases (ltb deadline t)) [
  | inl late ↦ rw late (leave-Ended c h s current)
  | inr early ↦ rw early (read_pump-Ended c later (t + pong_wait) h s current)
]
read_pump-Ended c ((t, message e) ∷ later) deadline h s current =
    elim (Bool-cases (ltb deadline t)) [
      | inl late ↦ rw late (leave-Ended c h s current)
      | inr early ↦
          let (d, h', runs, s') =
            read_frame-returns c e h s (s.opened (h.cells c).device_id c current) in
          let (clients, same) = read_frame-keeps c e h h' d runs in
          let current' : IsCurrent c h' = rw (clients, same) current in
          rw (early, runs)
            (dispatched-Ended c (h.cells c).device_id d (read_pump c later deadline h')
              (rw (← same) (read_pump-Ended c later deadline h' s' current')))
    ]
