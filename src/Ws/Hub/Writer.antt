-- ===== src/Ws/Hub/Writer.antt =====
-- internal/ws/hub.go: writePump as a loop over what wakes it.
use otp_relay_backend.Base.{
  ℕ, suc, ◌<◌, ◌≡◌, refl, ap, ◌∙◌, true, false, List, [], ◌∷◌, ◌++◌, map, none, arith, Bool, length,
  String, lookup, All, if◌then◌else◌, List-cases, inl, inr,
}
use otp_relay_backend.Ws.{Envelope}
use otp_relay_backend.Ws.Hub.{
  Hub, Outcome, Dispatch, returns, write, Written, waits, text, goodbye, write_frame,
}
use otp_relay_backend.Ws.Hub.Order.{IsSound, IsCurrent}
use otp_relay_backend.Ws.Hub.Pump.{Inbound, Finish, read_pump, read_pump-Ended}

-- The channel or the ticker, and whether the network takes what is then written; or, in between, the
-- reader of the same connection closes it.
pub data Wake : Type 0 where
  channel ticker : (reaches : Bool) → Wake
  cut : Wake

-- What the peer gets: a text message, a ping, a close message.
pub data Sent : Type 0 where
  message : Envelope → Sent
  ping bye : Sent

pub record Pumped : Type 0 where
  pub sent : List Sent
  pub ended : Bool
  pub hub : Hub
  -- `c.conn` is open.
  pub is_open : Bool

abbrev pub after_sending : Sent → Pumped → Pumped
after_sending x r = record r { sent = x ∷ r.sent }

-- The end, with the deferred `c.conn.Close()`.
abbrev pub stopped : List Sent → Hub → Pumped
stopped xs h = record { sent = xs; ended = true; hub = h; is_open = false }

-- A write on a closed connection fails.
abbrev pub goes_through : Bool → Bool → Bool
goes_through is_open reaches = if is_open then reaches else false

-- What was taken from the channel is written, and `rest` follows. An empty channel that is open does
-- not wake the pump. The result of the close message is ignored.
abbrev pub after_channel : Bool → Written → Hub → Pumped → Pumped
after_channel succeeds waits h rest = rest
after_channel succeeds goodbye h rest = stopped (if succeeds then bye ∷ [] else []) h
after_channel succeeds (text e) h rest =
    if succeeds then after_sending (message e) rest else stopped [] h

unfoldable pub write_pump : ℕ → List Wake → Hub → Bool → Pumped
unfolding write_frame
write_pump c [] h is_open = record { sent = []; ended = false; hub = h; is_open = is_open }
write_pump c (cut ∷ later) h is_open = write_pump c later h false
write_pump c (ticker reaches ∷ later) h is_open =
    let rest = write_pump c later h is_open in
    if goes_through is_open reaches then after_sending ping rest else stopped [] h
write_pump c (channel reaches ∷ later) h is_open =
    let taken = write_frame c h in
    after_channel (goes_through is_open reaches) taken.0 taken.1
      (write_pump c later taken.1 is_open)

-- The network takes what is written, and the reader is still at work.
abbrev pub GoesThrough : Wake → Type 0
GoesThrough (channel reaches) = reaches ≡ true
GoesThrough (ticker reaches) = reaches ≡ true
GoesThrough cut = ⊥

abbrev pub channel_wakes : List Wake → ℕ
channel_wakes [] = 0
channel_wakes (channel reaches ∷ ws) = suc (channel_wakes ws)
channel_wakes (_ ∷ ws) = channel_wakes ws

abbrev pub wakes : List Wake → ℕ
wakes [] = 0
wakes (cut ∷ ws) = wakes ws
wakes (_ ∷ ws) = suc (wakes ws)

abbrev pub without_pings : List Sent → List Sent
without_pings [] = []
without_pings (ping ∷ xs) = without_pings xs
without_pings (message e ∷ xs) = message e ∷ without_pings xs
without_pings (bye ∷ xs) = bye ∷ without_pings xs

-- The pump has written what waited, in order, has said goodbye, and has ended, the connection closed.
abbrev pub HasDrained : List Envelope → Pumped → Type 0
HasDrained q r =
    (without_pings r.sent ≡ map message q ++ bye ∷ []) × (r.ended ≡ true) × (r.is_open ≡ false)

-- The pump has written nothing, and has ended.
abbrev pub GaveUp : Pumped → Type 0
GaveUp r = (r.sent ≡ []) × (r.ended ≡ true) × (r.is_open ≡ false)

write_frame-text :
    (c : ℕ) (f : Envelope) (q : List Envelope) (h : Hub)
    → (h.cells c).queue ≡ f ∷ q
    → write_frame c h ≡ (text f, write c (record (h.cells c) { queue = q }) h)
unfolding write_frame
write_frame-text c f q h e = rw (e, write_frame) refl

pub write_pump-HasDrained :
    (c : ℕ) (ws : List Wake) (q : List Envelope) (h : Hub)
    → (h.cells c).closed ≡ true
    → (h.cells c).queue ≡ q
    → All GoesThrough ws
    → length q < channel_wakes ws
    → HasDrained q (write_pump c ws h true)
unfolding write_pump write_frame
write_pump-HasDrained c [] q h shut e all enough = absurd (omega arith)
write_pump-HasDrained c (cut ∷ ws) q h shut e (now, all) enough = absurd now
write_pump-HasDrained c (ticker ok ∷ ws) q h shut e (now, all) enough =
    rw (now, write_pump) (write_pump-HasDrained c ws q h shut e all (omega arith))
write_pump-HasDrained c (channel ok ∷ ws) [] h shut e (now, all) enough =
    rw (e, shut, now, write_pump, write_frame) (refl, refl, refl)
write_pump-HasDrained c (channel ok ∷ ws) (f ∷ q) h shut e (now, all) enough =
    let h' = write c (record (h.cells c) { queue = q }) h in
    let (drained, ended, closed) =
      write_pump-HasDrained c ws q h' (ground arith) (ground arith) all (omega arith) in
    let step : write_pump c (channel ok ∷ ws) h true
        ≡ after_sending (message f) (write_pump c ws h' true) =
      ap (λ (p : Written × Hub). after_channel ok p.0 p.1 (write_pump c ws p.1 true))
        (write_frame-text c f q h e)
      ∙ rw now refl in
    (
      ap (λ r. without_pings r.sent) step ∙ ap (◌∷◌ (message f)) drained,
      ap (λ r. r.ended) step ∙ ended,
      ap (λ r. r.is_open) step ∙ closed,
    )

write_pump-GaveUp :
    (c : ℕ) (ws : List Wake) (h : Hub)
    → (h.cells c).closed ≡ true
    → 0 < wakes ws
    → GaveUp (write_pump c ws h false)
unfolding write_pump write_frame
write_pump-GaveUp c [] h shut woken = absurd (omega arith)
write_pump-GaveUp c (cut ∷ ws) h shut woken = write_pump-GaveUp c ws h shut woken
write_pump-GaveUp c (ticker ok ∷ ws) h shut woken = (refl, refl, refl)
write_pump-GaveUp c (channel ok ∷ ws) h shut woken = elim (List-cases (h.cells c).queue) [
  | inl e ↦ rw (e, shut, write_pump, write_frame) (refl, refl, refl)
  | inr (f, q, e) ↦ rw (e, write_pump, write_frame) (refl, refl, refl)
]

-- The reader has ended as `Ended` says, and the writer, woken by `ws` afterwards, has given up.
abbrev pub IsOver : ℕ → String → List Wake → Outcome Finish → Type 0
IsOver c device ws r =
    (ds : List Dispatch) × (h : Hub) × (is_open : Bool) × (r ≡ returns (ds, (h, is_open)))
    × IsSound h
    × (lookup device h.clients ≡ none)
    × GaveUp (write_pump c ws h is_open)

-- How a connection ends: on a hub in order, with nothing but the two pumps of a device's current
-- connection at work. Whatever arrives, and whatever the deadline is, readPump ends without a panic,
-- and afterwards the hub is in order and the device is not connected. writePump, as soon as its
-- channel or its ticker wakes it after that, ends too, with the connection closed; it writes nothing
-- more, so that the peer gets neither what still waits in the channel nor a goodbye.
pub connection-IsOver :
    (c : ℕ) (as' : List (ℕ × Inbound)) (deadline : ℕ) (ws : List Wake) (h : Hub)
    → IsSound h
    → IsCurrent c h
    → 0 < wakes ws
    → IsOver c (h.cells c).device_id ws (read_pump c as' deadline h)
connection-IsOver c as' deadline ws h s current woken =
    let (ds, h', ended, s', gone, shut) = read_pump-Ended c as' deadline h s current in
    (ds, h', false, ended, s', gone, write_pump-GaveUp c ws h' shut woken)
