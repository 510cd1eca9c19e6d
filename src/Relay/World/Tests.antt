-- ===== src/Relay/World/Tests.antt =====
-- A run of the whole relay, and its theorem at this run.
use otp_relay_backend.Base.{
  ℕ, ◌+◌, ◌≤◌, ◌≡◌, refl, pos, ◌+ℤ◌, wrap64, quot, List, [], ◌∷◌, some, true, arith, lookup, insert,
  remove, total,
}
use otp_relay_backend.Db.Table.{find, update, affected}
use otp_relay_backend.Db.Otps.{get_otp, set_otp_status}
use otp_relay_backend.Push.{PushService}
use otp_relay_backend.Ws.{empty_envelope, type_otp_claim}
use otp_relay_backend.Ws.Hub.{Outcome, returns, connect, write_frame}
use otp_relay_backend.Ws.Hub.Payloads.{payload, waiting}
use otp_relay_backend.Claim.{Manager, new}
use otp_relay_backend.Claim.Window.{payload_envelope}
use otp_relay_backend.Claim.Ingest.{new_otp}
use otp_relay_backend.Relay.{dispatch}
use otp_relay_backend.Relay.World.{
  RelayEvent, arrives, receives, writes, fires, World, new_world, relay_step, relay_run,
}
use otp_relay_backend.Relay.World.Once.{payload_once}

abbrev service : PushService
service = record { parses = λ _. true; respond = λ _ _. some 201 }

-- One OTP is stored; a claim window is seven seconds.
abbrev start : Manager
start =
    new
      (record {
        otps = new_otp "otp1" "src" "ct" "iv" 0 (pos 120000000000) ∷ [];
        devices = [];
        invites = [];
        replies = [];
      })
      (pos 7000000000) (pos 120000000000)

-- A device connects and claims; the window is over; and the connection's writer writes.
abbrev one_claim : List (ℕ × RelayEvent)
one_claim =
    (0, arrives "tablet" "destination")
    ∷ (0, receives 0 (some (record empty_envelope { type = type_otp_claim; otp_id = "otp1" })) "")
    ∷ (7000000000, fires 0)
    ∷ (7000000000, writes 0)
    ∷ []

-- A test names this definition to see through the relay.
world_after : List (ℕ × RelayEvent) → Outcome World
unfolding relay_run relay_step lookup insert remove find update affected get_otp set_otp_status
    wrap64 quot ◌+ℤ◌ connect write_frame dispatch
world_after es = relay_run service es (new_world start)

world_after_test :
    (w : World) × (world_after one_claim ≡ returns w)
    × (w.out ≡ payload_envelope "otp1" (new_otp "otp1" "src" "ct" "iv" 0 (pos 120000000000)) ∷ [])
unfolding world_after
world_after_test = (_, refl, refl)

payload_once_example :
    (w : World) × (relay_run service one_claim (new_world start) ≡ returns w)
    × (total (payload "otp1") w.out + waiting "otp1" w.hub ≤ 1)
unfolding world_after
payload_once_example =
    payload_once service (pos 7000000000) "otp1" start.db (pos 120000000000) one_claim
      (tt, ((omega arith, refl), (tt, (omega arith, tt))))
