-- ===== src/Relay/Tests.antt =====
-- A frame from the reader to the coordinator.
use otp_relay_backend.Base.{refl, pos, [], ◌∷◌, some, true, false, none}
use otp_relay_backend.Db.Otps.{insert_otp}
use otp_relay_backend.Push.{PushService}
use otp_relay_backend.Ws.{Envelope, empty_envelope, type_otp_push}
use otp_relay_backend.Ws.Hub.{Hub, Client, read_frame, new_hub}
use otp_relay_backend.Claim.{Manager, new}
use otp_relay_backend.Claim.Ingest.{ingest}
use otp_relay_backend.Relay.{receive, dispatch, dispatch_on_push}
use otp_relay_backend.Relay.Entry.{Entry, receive-Entry}
use otp_relay_backend.Config.{
  getenv_int, getenv_duration, load, missing, read_config, validate_config,
}
use otp_relay_backend.Base.{String, ◌≡◌, ◌||◌, ◌==◌, ◌*ℤ◌, wrap64, if◌then◌else◌}
use otp_relay_backend.Relay.Start.{Driver, signalled, open_db, run, exit_status}
use otp_relay_backend.Base.{ne_of_eq, arith, lookup, insert, quot, ◌+ℤ◌}
use otp_relay_backend.Db.{Otp}
use otp_relay_backend.Db.Table.{find, update, affected}
use otp_relay_backend.Db.Devices.{revoke_device}
use otp_relay_backend.Registry.{new_device, revoke}
use otp_relay_backend.Registry.Revocation.{IsRevoked}
use otp_relay_backend.Relay.Revoked.{IsRevoked-still_claims}
use otp_relay_backend.Ws.{type_otp_claim}
use otp_relay_backend.Ws.Hub.{◌>>=◌}
use otp_relay_backend.Ws.Hub.Order.{new_hub-IsSound, arrived, arrived-IsSound}
use otp_relay_backend.Claim.Ingest.{new_otp}
use otp_relay_backend.Relay.Delivery.{Delivered, relay_frame, relay_timer, claim-Delivered}

abbrev service : PushService
service = record { parses = λ sub. true; respond = λ sub s. some 201 }

abbrev sms_phone : Client
sms_phone = record { device_id = "d1"; device_type = "source"; queue = []; closed = false }

-- The phone has the connection 0.
abbrev hub : Hub
hub = record new_hub { cells = λ c. sms_phone; clients = ("d1", 0) ∷ []; next = 1 }

abbrev manager : Manager
manager =
    new (record { otps = []; devices = []; invites = []; replies = [] }) (pos 7000000000)
      (pos 120000000000)

abbrev message : Envelope
message = record empty_envelope { type = type_otp_push; ciphertext = "X"; iv = "Y" }

receive-Entry_example :
    Entry service
      (hub.cells 0)
      (some message)
      "otp1"
      1000000
      manager
      (ingest service "otp1" "d1" "X" "Y" 1000000 manager).1
unfolding receive read_frame dispatch dispatch_on_push insert_otp
receive-Entry_example =
    receive-Entry service 0 (some message) "otp1" 1000000 hub hub manager
      (ingest service "otp1" "d1" "X" "Y" 1000000 manager).1 refl

-- Only the four secrets are set; SQLite opens an empty database.
abbrev secrets_only : String → String
secrets_only key =
    if key == "TOTP_SECRET"
      || (key == "SESSION_SECRET" || (key == "VAPID_PUBLIC_KEY" || key == "VAPID_PRIVATE_KEY"))
    then "secret"
    else ""

abbrev sqlite : Driver
sqlite = record {
  opens = λ _. true;
  pings = λ _. true;
  applies = λ _. some (record { otps = []; devices = []; invites = []; replies = [] });
}

exit_status_test : exit_status (run secrets_only sqlite (signalled true)).1 ≡ 0
unfolding run load getenv_duration getenv_int validate_config missing read_config wrap64 ◌*ℤ◌
    open_db exit_status
exit_status_test = refl

-- A destination device with one stored OTP.
abbrev tablet_hub : Hub
tablet_hub = arrived "tablet" "destination" new_hub new_hub-IsSound

abbrev otp : Otp
otp = new_otp "otp1" "d1" "X" "Y" 0 (pos 120000000000)

abbrev holding : Manager
holding =
    new (record { otps = otp ∷ []; devices = []; invites = []; replies = [] }) (pos 7000000000)
      (pos 120000000000)

abbrev claim_message : Envelope
claim_message = record empty_envelope { type = type_otp_claim; otp_id = "otp1" }

claim-Delivered_example : Delivered "tablet" 0 tablet_hub "otp1" otp (
    relay_frame service 0 (some claim_message) "" 1000000000 (tablet_hub, holding)
    >>= relay_timer 0 8000000000)
unfolding lookup insert find wrap64 quot ◌+ℤ◌
claim-Delivered_example =
    claim-Delivered service claim_message
      (record { answers = refl; stored = refl; is_pending = refl }) 0 "tablet" "" 1000000000
      tablet_hub (arrived-IsSound "tablet" "destination" new_hub new_hub-IsSound refl) refl
      8000000000 refl (omega arith) refl (ne_of_eq "otp1" "" refl) refl refl refl (omega arith)

-- The device is registered too, and is revoked before it claims.
abbrev with_tablet : Manager
with_tablet = record holding {
  db = record holding.db { devices = new_device "Tab" "destination" none "tablet" "t2" 0 ∷ [] };
}

IsRevoked-still_claims_example :
    IsRevoked "tablet" (revoke "tablet" with_tablet.db).1
    × Delivered "tablet" 0 tablet_hub "otp1" otp (
        relay_frame service 0
          (some claim_message)
          ""
          1000000000
          (tablet_hub, record with_tablet { db = (revoke "tablet" with_tablet.db).1 })
        >>= relay_timer 0 8000000000)
unfolding lookup insert find wrap64 quot ◌+ℤ◌ revoke_device update affected
IsRevoked-still_claims_example =
    IsRevoked-still_claims {m = with_tablet} service claim_message
      (record { answers = refl; stored = refl; is_pending = refl }) 0 "tablet" "" 1000000000
      8000000000 tablet_hub (arrived-IsSound "tablet" "destination" new_hub new_hub-IsSound refl)
      refl refl refl (omega arith) refl (ne_of_eq "otp1" "" refl) refl refl refl (omega arith)
