-- ===== src/Ws/Hub/Displaced.antt =====
-- internal/ws/hub.go: how the two pumps of a displaced connection end.
use otp_relay_backend.Base.{
  ℕ, ◌<◌, ◌≡◌, refl, true, false, List, [], ◌∷◌, Bool, some, arith, eqb, All, Bool-cases, inl, inr,
  String, lookup, lookup-insert, eq_refl, ◌∙◌, List-cases,
}
use otp_relay_backend.Ws.Hub.{
  Hub, returns, unregister, send_buffer, write_frame, Written, waits, text, goodbye,
}
use otp_relay_backend.Ws.Hub.Order.{IsSound, displaced, connect-some}
use otp_relay_backend.Ws.Hub.Safety.{hub_step, connects}
use otp_relay_backend.Ws.Hub.Pump.{fails, read_pump, leave}
use otp_relay_backend.Ws.Hub.Writer.{
  Wake, channel, ticker, cut, Pumped, after_channel, goes_through, write_pump, GoesThrough,
  channel_wakes, HasDrained, write_pump-HasDrained,
}

-- The connections of the devices are the same, and `c` is one of the same device.
abbrev Keeps : ℕ → Hub → Hub → Type 0
Keeps c h k = (k.clients ≡ h.clients) × ((k.cells c).device_id ≡ (h.cells c).device_id)

after_channel-Keeps :
    (c : ℕ) (h k : Hub) (ok : Bool) (w : Written) (rest : Pumped)
    → Keeps c h k
    → Keeps c h rest.hub
    → Keeps c h (after_channel ok w k rest).hub
after_channel-Keeps c h k ok waits rest a b = b
after_channel-Keeps c h k ok goodbye rest a b = a
after_channel-Keeps c h k true (text e) rest a b = b
after_channel-Keeps c h k false (text e) rest a b = a

write_frame-Keeps : (c : ℕ) (h : Hub) → Keeps c h (write_frame c h).1
unfolding write_frame
write_frame-Keeps c h = elim (List-cases (h.cells c).queue) [
  | inl e ↦ rw (e, write_frame) (refl, refl)
  | inr (f, q, e) ↦ rw (e, write_frame) (refl, ground arith)
]

write_pump-Keeps :
    (c : ℕ) (ws : List Wake) (h k : Hub) (is_open : Bool)
    → Keeps c h k
    → Keeps c h (write_pump c ws k is_open).hub
unfolding write_pump
write_pump-Keeps c [] h k is_open a = a
write_pump-Keeps c (cut ∷ ws) h k is_open a = write_pump-Keeps c ws h k false a
write_pump-Keeps c (ticker ok ∷ ws) h k is_open a = elim (Bool-cases (goes_through is_open ok)) [
  | inl through ↦ rw through (write_pump-Keeps c ws h k is_open a)
  | inr failed ↦ rw failed a
]
write_pump-Keeps c (channel ok ∷ ws) h k is_open a =
    let k' = (write_frame c k).1 in
    let (same, owner) = write_frame-Keeps c k in
    let b : Keeps c h k' = (same ∙ a.0, owner ∙ a.1) in
    after_channel-Keeps c h k' (goes_through is_open ok) (write_frame c k).0
      (write_pump c ws k' is_open) b (write_pump-Keeps c ws h k' is_open b)

unregister_other :
    (c n : ℕ) (h k : Hub)
    → Keeps c h k
    → lookup (h.cells c).device_id h.clients ≡ some n
    → eqb n c ≡ false
    → unregister c k ≡ returns k
unfolding unregister
unregister_other c n h k (same, owner) e miss =
    let found : lookup (k.cells c).device_id k.clients ≡ some n = rw (same, owner) e in
    rw (found, miss, unregister) refl

-- How a displaced connection ends: on a hub in order, when a device connects again, with nothing but
-- the two pumps of its connection `old` at work from then on, and `old` open. If the network takes
-- what writePump writes, and its channel wakes it seventeen times, writePump writes what waits in the
-- channel, in order, says goodbye, ends and closes the connection. readPump, whose ReadMessage then
-- fails, ends without a panic and leaves the hub as it is, so that the device stays connected, by its
-- new connection.
pub displaced-HasDrained :
    (d device_type : String) (old : ℕ) (h : Hub) (ws : List Wake) (t deadline : ℕ)
    → IsSound h
    → lookup d h.clients ≡ some old
    → All GoesThrough ws
    → send_buffer < channel_wakes ws
    → (h' : Hub) × (hub_step (connects d device_type) h ≡ returns h')
      × HasDrained (h.cells old).queue (write_pump old ws h' true)
      × (read_pump old ((t, fails) ∷ []) deadline (write_pump old ws h' true).hub
          ≡ returns ([], ((write_pump old ws h' true).hub, false)))
      × (lookup d (write_pump old ws h' true).hub.clients ≡ some h.next)
unfolding hub_step read_pump leave
displaced-HasDrained d ty old h ws t deadline s e all enough =
    let h' = displaced d ty h s old in
    let known = s.known d old e in
    let owner = s.owner d old e in
    let look = lookup-insert d d h.next h.clients in
    let now : lookup d h'.clients ≡ some h.next = ground (arith, look, eq_refl d) in
    let owner' : (h'.cells old).device_id ≡ d = ground (arith, owner, known) in
    let keeps = write_pump-Keeps old ws h' h' true (refl, refl) in
    let after = (write_pump old ws h' true).hub in
    let stays : unregister old after ≡ returns after =
      unregister_other old h.next h' after keeps (rw owner' now) (ground (arith, known)) in
    (
      h',
      rw (connect-some d ty h s old e),
      write_pump-HasDrained old ws (h.cells old).queue h' (ground arith) (ground (arith, known)) all
          (omega (arith, s.bounded old)),
      rw stays refl,
      rw keeps.0 now,
    )
