-- ===== src/Ws/Hub/Channel.antt =====
-- The send channel as a queue: what is sent to a device is written to it, in that order.
use otp_relay_backend.Base.{
  ℕ, zero, suc, ◌+◌, ◌≤◌, ◌<◌, ◌≡◌, refl, ap, String, true, false, List, [], ◌∷◌, ◌++◌, some, arith,
  length, length-append, lookup, map,
}
use mathlib.Core.List.{append_assoc, append-nil}
use otp_relay_backend.Ws.{Envelope}
use otp_relay_backend.Ws.Hub.{
  Hub, Outcome, returns, ◌>>=◌, write, offer, send_to_device, send_buffer, Written, text,
  write_frame,
}
use otp_relay_backend.Ws.Hub.Safety.{only_hub}
use otp_relay_backend.Ws.Hub.Order.{IsSound}

-- Several messages to one device.
unfoldable pub send_all : String → List Envelope → Hub → Outcome Hub
send_all d [] h = returns h
send_all d (e ∷ es) h = only_hub (send_to_device d e h) >>= λ h'. send_all d es h'

-- The writer of one client runs `n` rounds.
unfoldable pub write_frames : ℕ → ℕ → Hub → List Written
write_frames zero c h = []
write_frames (suc n) c h = (write_frame c h).0 ∷ write_frames n c (write_frame c h).1

-- The device has the connection `c`, whose channel holds `q`.
record Holds (h : Hub) (d : String) (c : ℕ) (q : List Envelope) : Type 0 where
  current : lookup d h.clients ≡ some c
  opened : (h.cells c).closed ≡ false
  queue : (h.cells c).queue ≡ q

send-Holds :
    (h : Hub) (d : String) (c : ℕ) (q : List Envelope) (e : Envelope)
    → Holds h d c q
    → length q < send_buffer
    → (h' : Hub) × (send_to_device d e h ≡ returns (true, h')) × Holds h' d c (q ++ e ∷ [])
unfolding send_to_device offer
send-Holds h d c q e s le = (
  write c (record (h.cells c) { queue = q ++ e ∷ [] }) h,
  ground arith,
  record { current = s.current; opened = ground arith; queue = ground arith },
)

send_all-Holds :
    (d : String) (c : ℕ) (es : List Envelope) (h : Hub) (q : List Envelope)
    → Holds h d c q
    → length q + length es ≤ send_buffer
    → (h' : Hub) × (send_all d es h ≡ returns h') × Holds h' d c (q ++ es)
unfolding send_all
send_all-Holds d c [] h q s le = (h, refl, rw (append-nil q) s)
send_all-Holds d c (e ∷ es) h q s le =
    let (h', sent, s') = send-Holds h d c q e s (omega arith) in
    let (h'', done, s'') =
      send_all-Holds d c es h' (q ++ e ∷ []) s' (omega (arith, length-append q (e ∷ []))) in
    (h'', rw (sent, send_all) done, rw (append_assoc q (e ∷ []) es) at s'')

write_frames_lem :
    (c : ℕ) (q : List Envelope) (h : Hub)
    → (h.cells c).queue ≡ q
    → write_frames (length q) c h ≡ map text q
unfolding write_frames write_frame
write_frames_lem c [] h e = refl
write_frames_lem c (f ∷ q) h e =
    rw (e, write_frame)
      (ap (◌∷◌ (text f))
        (write_frames_lem c q (write c (record (h.cells c) { queue = q }) h) (ground arith)))

-- On a hub in order, messages to a connected device are queued without loss as long as no more than
-- sixteen frames wait, and its writer then writes them out, after those that waited before, in the
-- order in which they were sent.
pub sent_in_order :
    (d : String) (c : ℕ) (es : List Envelope) (h : Hub)
    → IsSound h
    → lookup d h.clients ≡ some c
    → length (h.cells c).queue + length es ≤ send_buffer
    → (h' : Hub) × (send_all d es h ≡ returns h')
      × (write_frames (length ((h.cells c).queue ++ es)) c h' ≡ map text ((h.cells c).queue ++ es))
sent_in_order d c es h s e le =
    let (h', sent, holds) =
      send_all-Holds d c es h (h.cells c).queue
        (record { current = e; opened = s.opened d c e; queue = refl }) le in
    (h', sent, write_frames_lem c ((h.cells c).queue ++ es) h' holds.queue)
