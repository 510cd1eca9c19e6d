-- ===== src/Ws/Hub/Reconnect.antt =====
-- internal/ws/hub.go: a device that connects again.
use otp_relay_backend.Base.{ℕ, ◌≡◌, String, true, some, arith, lookup, lookup-insert, eq_refl}
use otp_relay_backend.Ws.Hub.{Hub, returns, is_connected}
use otp_relay_backend.Ws.Hub.Order.{
  IsSound, displaced, connect-some, displaced-IsSound, unregister_stale,
}
use otp_relay_backend.Ws.Hub.Safety.{hub_step, connects, leaves}

-- On a hub in order, the newest connection of a device replaces the one before, which is closed. When
-- the old one leaves afterwards, the hub is not changed, so that the device stays connected by the
-- new one.
pub reconnect_survives :
    (d device_type : String) (old : ℕ) (h : Hub)
    → IsSound h
    → lookup d h.clients ≡ some old
    → (h' : Hub) × (hub_step (connects d device_type) h ≡ returns h')
      × ((h'.cells old).closed ≡ true)
      × (lookup d h'.clients ≡ some h.next)
      × (hub_step (leaves old) h' ≡ returns h')
      × (is_connected d h' ≡ true)
unfolding hub_step is_connected
reconnect_survives d t old h s e =
    let look = lookup-insert d d h.next h.clients in
    (
      displaced d t h s old,
      rw (connect-some d t h s old e),
      ground arith,
      ground (arith, look, eq_refl d),
      unregister_stale old (displaced d t h s old) (displaced-IsSound d t h s old e)
          (λ current. ground (arith, look, eq_refl d, s.owner d old e, s.known d old e)),
      ground (arith, look, eq_refl d),
    )
