-- ===== src/Claim/Contract/Tests.antt =====
-- A history, seen as the life of one OTP, and the refinement at its last event.
use otp_relay_backend.Base.{
  ℕ, ◌≡◌, refl, pos, ◌+ℤ◌, List, [], ◌∷◌, some, none, true, lookup, insert, remove, wrap64, quot,
}
use otp_relay_backend.Db.{Db}
use otp_relay_backend.Db.Table.{find, update, affected}
use otp_relay_backend.Db.Otps.{insert_otp, get_otp, set_otp_status, expire_stale_otps}
use otp_relay_backend.Db.Devices.{list_push_targets, push_targets}
use otp_relay_backend.Push.{PushService, requests}
use otp_relay_backend.Claim.{Manager, new}
use otp_relay_backend.Claim.Window.{claim, fire, sweep, payload_envelope}
use otp_relay_backend.Claim.Ingest.{ingest, subscriptions, new_otp}
use otp_relay_backend.Claim.Step.{Event, ingests, claims, fires, step, run}
use otp_relay_backend.Claim.Contract.{Life, taken, life, about, input, respond_to}
use otp_relay_backend.Claim.Contract.Refinement.{refines}

abbrev service : PushService
service = record { parses = λ _. true; respond = λ _ _. some 201 }

abbrev empty_db : Db
empty_db = record { otps = []; devices = []; invites = []; replies = [] }

abbrev one_claim : List (ℕ × Event)
one_claim = (0, ingests "otp1" "src" "ct" "iv") ∷ (1000000000, claims "deviceA" "otp1") ∷ []

-- Seven seconds and two minutes.
abbrev start : Manager
start = new empty_db (pos 7000000000) (pos 120000000000)

-- A test names this definition to see through the coordinator and its contract.
after_events : List (ℕ × Event) → Manager
unfolding run step ingest claim fire sweep insert_otp get_otp set_otp_status expire_stale_otps
    list_push_targets push_targets requests subscriptions find update affected lookup insert remove
    about input respond_to ◌+ℤ◌ wrap64 quot
after_events es = run service es start

-- The contract's answer to the end of the window.
abbrev delivered : Life
delivered = record {
  fate = taken (some "deviceA");
  candidates = none;
  told =
      ("deviceA", payload_envelope "otp1" (new_otp "otp1" "src" "ct" "iv" 0 (pos 120000000000)))
      ∷ [];
}

respond_to_test :
    let m = run service one_claim start in
    respond_to "otp1" (input "otp1" 8000000000 (fires 0) m) 8000000000 (life "otp1" m) ≡ delivered
unfolding after_events
respond_to_test = refl

refines_example :
    let m = run service one_claim (new empty_db (pos 7000000000) (pos 120000000000)) in
    life "otp1" (step service (8000000000, fires 0) m)
    ≡ respond_to "otp1" (input "otp1" 8000000000 (fires 0) m) 8000000000 (life "otp1" m)
unfolding after_events
refines_example =
    refines service empty_db (pos 7000000000) (pos 120000000000) one_claim 8000000000 (fires 0)
      "otp1" refl
