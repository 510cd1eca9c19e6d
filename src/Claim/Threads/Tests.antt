-- ===== src/Claim/Threads/Tests.antt =====
-- Runs of the goroutines of the coordinator, and the theorems at these inputs.
use otp_relay_backend.Base.{
  ℕ, ◌≡◌, refl, pos, ◌+ℤ◌, ◌≤◌, List, [], ◌∷◌, some, true, arith, lookup, insert, remove, wrap64,
  quot, length, contains,
}
use otp_relay_backend.Db.Table.{find, update, affected}
use otp_relay_backend.Db.Otps.{insert_otp, get_otp, set_otp_status, expire_stale_otps}
use otp_relay_backend.Push.{PushService}
use otp_relay_backend.Claim.{Manager, new}
use otp_relay_backend.Claim.Window.{find_timer, sweep}
use otp_relay_backend.Claim.Ingest.{new_otp}
use otp_relay_backend.Claim.Effect.{recipients}
use otp_relay_backend.Claim.Threads.{Action, arrives, fires, turns, act, schedule, idle}
use otp_relay_backend.Claim.Threads.Apart.{Apart, sent_once}
use otp_relay_backend.Claim.Threads.Races.{overtaking, double_delivery}
use otp_relay_backend.Claim.Threads.Attended.Closes.{CanClose, window-CanClose}
use otp_relay_backend.Claim.Threads.Early.{early, early_delivery}
use otp_relay_backend.Claim.Threads.Claimants.{arrivals, only_claimants}

abbrev service : PushService
service = record { parses = λ _. true; respond = λ _ _. some 201 }

-- One OTP is stored; a claim window is seven seconds.
abbrev start : Manager
start =
    new
      (record {
        otps = new_otp "otp1" "src" "ct" "iv" 0 (pos 120000000000) ∷ [];
        devices = [];
        invites = [];
        replies = [];
      })
      (pos 7000000000) (pos 120000000000)

-- A device claims the OTP, and its window is over.
abbrev one_delivery : List (ℕ × Action)
one_delivery =
    (0, arrives "deviceA" "otp1")
    ∷ (0, turns 0)
    ∷ (0, turns 0)
    ∷ (7000000000, fires 0)
    ∷ (7000000000, turns 1)
    ∷ (7000000000, turns 1)
    ∷ (7000000000, turns 1)
    ∷ (7000000000, turns 1)
    ∷ []

-- A test names this definition to see through the coordinator.
after_schedule : List (ℕ × Action) → Manager
unfolding schedule act insert_otp get_otp set_otp_status expire_stale_otps find update affected
    lookup insert remove recipients ◌+ℤ◌ wrap64 quot sweep
after_schedule as' = (schedule service as' (idle start)).manager

one_delivery_test : recipients "otp1" (after_schedule one_delivery).sent ≡ "deviceA" ∷ []
unfolding after_schedule
one_delivery_test = refl

-- Seven seconds each, and the first device is overtaken.
double_delivery_example :
    recipients "otp1"
      (schedule service
        (overtaking "otp1" "deviceA" "deviceB" 0 7000000000 7000000001 14000000001 14000000002
          start)
        (idle start)).manager.sent
    ≡ "deviceA" ∷ "deviceB" ∷ []
unfolding after_schedule
double_delivery_example =
    double_delivery service "otp1" (new_otp "otp1" "src" "ct" "iv" 0 (pos 120000000000)) "deviceA"
      "deviceB" 0 7000000000 7000000001 14000000001 14000000002 start
      (record { answers = refl; stored = refl; is_pending = refl }) refl refl refl refl refl
      (omega arith) (omega arith)

-- The condition of the theorem, on this schedule.
one_delivery-Apart : Apart service "otp1" one_delivery (idle start)
unfolding after_schedule
one_delivery-Apart =
    let z : 0 ≤ 1 = omega arith in
    let one : 1 ≤ 1 = omega arith in (z, (z, (z, (z, (z, (z, (one, (z, z))))))))

sent_once_example :
    length (recipients "otp1" (schedule service one_delivery (idle start)).manager.sent) ≤ 1
sent_once_example =
    sent_once service start.db (pos 7000000000) (pos 120000000000) one_delivery "otp1"
      one_delivery-Apart

only_claimants_example : contains (arrivals "otp1" one_delivery) "deviceA" ≡ true
unfolding after_schedule
only_claimants_example =
    only_claimants service start.db (pos 7000000000) (pos 120000000000) one_delivery "otp1"
      "deviceA" refl

-- The device has claimed.
abbrev one_claim : List (ℕ × Action)
one_claim = (0, arrives "deviceA" "otp1") ∷ (0, turns 0) ∷ (0, turns 0) ∷ []

window-CanClose_example : CanClose service "otp1" (schedule service one_claim (idle start))
unfolding after_schedule
window-CanClose_example =
    window-CanClose service start.db (pos 7000000000) (pos 120000000000) one_claim "otp1"
      (record { claimants = "deviceA" ∷ []; timer = 0 }) refl

-- The third device gets the payload of the OTP as its window opens.
early_delivery_example :
    let after =
      (schedule service
        (early "otp1" "deviceA" "deviceB" "deviceC" 0 6000000000 7000000000 start)
        (idle start)).manager in
    (recipients "otp1" after.sent ≡ "deviceC" ∷ [])
    × (find_timer 1 after.timers
        ≡ some (record { handle = 1; otp_id = "otp1"; due = pos 14000000000 }))
unfolding after_schedule
early_delivery_example =
    early_delivery service "otp1" (new_otp "otp1" "src" "ct" "iv" 0 (pos 120000000000)) "deviceA"
      "deviceB" "deviceC" 0 6000000000 7000000000 start
      (record { answers = refl; stored = refl; is_pending = refl }) refl refl refl refl refl
      (omega arith)
