-- ===== src/Relay/Revoked.antt =====
-- internal/registry/registry.go and internal/ws/hub.go: a device that is revoked while its WebSocket
-- connection is open.
use otp_relay_backend.Base.{
  ℕ, ◌<◌, ◌≡◌, ◌≢◌, String, pos, ◌+ℤ◌, ◌≤ℤ◌, [], some, none, arith, length, lookup,
}
use otp_relay_backend.Db.{Db, Otp, ok}
use otp_relay_backend.Db.Devices.{revoke_device}
use otp_relay_backend.Push.{PushService}
use otp_relay_backend.Ws.{Envelope, type_otp_claim}
use otp_relay_backend.Ws.Hub.{Hub, ◌>>=◌, send_buffer}
use otp_relay_backend.Ws.Hub.Order.{IsSound}
use otp_relay_backend.Claim.{Manager}
use otp_relay_backend.Claim.Window.{with_db}
use otp_relay_backend.Claim.Scenarios.{IsReady, IsLive}
use otp_relay_backend.Registry.{revoke}
use otp_relay_backend.Registry.History.{registry_run}
use otp_relay_backend.Registry.Revocation.{IsRevoked, out_for_good}
use otp_relay_backend.Relay.Delivery.{Delivered, relay_frame, relay_timer, claim-Delivered}

revoke_device-otps : (a : String) (d : Db) → (revoke_device a d).1.otps ≡ d.otps
unfolding revoke_device
revoke_device-otps a d = ground arith

revoke_device-replies : (a : String) (d : Db) → d.replies ≡ [] → (revoke_device a d).1.replies ≡ []
unfolding revoke_device
revoke_device-replies a d e = ground arith

module _ {m : Manager} {o : Otp} (service : PushService) (e : Envelope) (r : IsReady m e.otp_id o)
    (c : ℕ) (a id : String) (first late : ℕ) (h : Hub) (s : IsSound h)
    (current : lookup a h.clients ≡ some c) where
  abbrev revoked_manager : Manager
  revoked_manager = with_db (revoke a m.db).1 m

  revoked-IsReady : IsReady revoked_manager e.otp_id o
  revoked-IsReady = record {
    answers = revoke_device-replies a m.db r.answers;
    stored = ground (arith, revoke_device-otps a m.db, r.stored);
    is_pending = r.is_pending;
  }

  -- A device is revoked, and the registry reports that as done: no token of it is accepted any more.
  -- But on its connection, which is open, it claims an OTP afterwards and gets its payload: on a hub
  -- in order, the connection is the device's current one, of a destination, and its queue has room;
  -- the OTP is stored as pending and has no window, and the database answers; the next that happens
  -- is that the window's timer fires, when the window is over; and the OTP is live at both times.
  pub IsRevoked-still_claims :
      (revoke a m.db).0 ≡ ok tt
      → (h.cells c).device_type ≡ "destination"
      → length (h.cells c).queue < send_buffer
      → e.type ≡ type_otp_claim
      → e.otp_id ≢ ""
      → lookup e.otp_id m.windows ≡ none
      → IsLive o first
      → IsLive o late
      → pos first +ℤ m.window ≤ℤ pos late
      → IsRevoked a revoked_manager.db
        × Delivered a c h e.otp_id o (
            relay_frame service c (some e) id first (h, revoked_manager)
            >>= relay_timer m.next_timer late)
  unfolding registry_run
  IsRevoked-still_claims done kind room type named none_open live live' over = (
    out_for_good a m.db [] done,
    claim-Delivered service e revoked-IsReady c a id first h s current late kind room type named
        none_open live live' over,
  )
