-- ===== src/Claim/Tests.antt =====
-- Runs of the coordinator on a small history, and the theorems at these inputs.
use otp_relay_backend.Base.{
  ℕ, inl, inr, ap, ◌≡◌, refl, ◌⊎◌, String, ℤ, pos, ◌+ℤ◌, List, [], ◌∷◌, some, arith, lookup, insert,
  remove, wrap64, quot, true, ne_of_eq,
}
use otp_relay_backend.Db.{Db, Otp, Reply, done, failed, claimed, expired}
use otp_relay_backend.Db.Table.{find, update, affected}
use otp_relay_backend.Db.Otps.{
  insert_otp, get_otp, set_otp_status, expire_stale_otps, with_status, expire,
}
use otp_relay_backend.Db.Otps.Laws.{row}
use otp_relay_backend.Db.Devices.{list_push_targets, push_targets}
use otp_relay_backend.Push.{PushService, requests}
use otp_relay_backend.Claim.{Manager, new}
use otp_relay_backend.Claim.Window.{claim, fire, sweep, payload_envelope, invalidated_envelope}
use otp_relay_backend.Claim.Ingest.{ingest, subscriptions, new_otp}
use otp_relay_backend.Claim.Step.{Event, ingests, claims, fires, sweeps, step, run}
use otp_relay_backend.Claim.Effect.{recipients}
use otp_relay_backend.Claim.Safety.{one_recipient}
use otp_relay_backend.Claim.History.{Delivery, settled_for_good, payload_after_window}
use otp_relay_backend.Claim.Scenarios.{IsReady, IsKilled, dual_claim, sole_claim}
use otp_relay_backend.Claim.Armed.{Occurs, here, there}
use otp_relay_backend.Claim.Starved.{InOrder, never_delivered}
use otp_relay_backend.Claim.Faults.{invalidation_lost}
use otp_relay_backend.Claim.Secrecy.{push_hides_payload}

abbrev service : PushService
service = record { parses = λ _. true; respond = λ _ _. some 201 }

abbrev empty_db : Db
empty_db = record { otps = []; devices = []; invites = []; replies = [] }

-- Seven seconds and two minutes, in nanoseconds.
abbrev window : ℤ
window = pos 7000000000

abbrev ttl : ℤ
ttl = pos 120000000000

abbrev start : Manager
start = new empty_db window ttl

-- A source device pushes an OTP, and a device claims it a second later.
abbrev one_claim : List (ℕ × Event)
one_claim = (0, ingests "otp1" "src" "ct" "iv") ∷ (1000000000, claims "deviceA" "otp1") ∷ []

abbrev stored_otp : Otp
stored_otp = new_otp "otp1" "src" "ct" "iv" 0 ttl

abbrev delivered : List (ℕ × Event)
delivered =
    (0, ingests "otp1" "src" "ct" "iv")
    ∷ (1000000000, claims "deviceA" "otp1")
    ∷ (8000000000, fires 0)
    ∷ []

-- A test names this definition to see through the whole coordinator.
after_events : List (ℕ × Event) → Manager
unfolding run step ingest claim fire sweep insert_otp get_otp set_otp_status expire_stale_otps
    list_push_targets push_targets requests subscriptions find update affected lookup insert remove
    recipients ◌+ℤ◌ wrap64 quot
after_events es = run service es start

delivered_test : recipients "otp1" (after_events delivered).sent ≡ "deviceA" ∷ []
unfolding after_events
delivered_test = refl

-- The sweep leaves a live OTP alone and flips it after two minutes.
swept_test :
    row "otp1"
      (after_events
        ((0, ingests "otp1" "src" "ct" "iv") ∷ (1, sweeps) ∷ (120000000000, sweeps) ∷ [])).db
    ≡ some (record stored_otp { status = expired })
unfolding after_events expire
swept_test = refl

one_recipient_example :
    let m = run service delivered (new empty_db window ttl) in
    (recipients "otp1" m.sent ≡ [])
    ⊎ ((o : Otp) × (d : String) × (row "otp1" m.db ≡ some o)
        × (o.status ≡ claimed)
        × (o.claimed_by ≡ some d)
        × (recipients "otp1" m.sent ≡ d ∷ []))
one_recipient_example = one_recipient service empty_db window ttl delivered "otp1"

-- After the delivery a second device claims, and its timer fires.
settled_for_good_example :
    let m = run service delivered (new empty_db window ttl) in
    let more : List (ℕ × Event) =
      (8000000001, claims "deviceB" "otp1") ∷ (20000000000, fires 1) ∷ [] in
    (row "otp1" (run service more m).db ≡ some (with_status claimed (some "deviceA") stored_otp))
    × (recipients "otp1" (run service more m).sent ≡ recipients "otp1" m.sent)
unfolding after_events
settled_for_good_example =
    settled_for_good service empty_db window ttl delivered
      ((8000000001, claims "deviceB" "otp1") ∷ (20000000000, fires 1) ∷ []) "otp1"
      (with_status claimed (some "deviceA") stored_otp) refl (λ e. cc)

payload_after_window_example :
    let m = run service one_claim (new empty_db window ttl) in
    Delivery one_claim window "otp1" 8000000000 m (step service (8000000000, fires 0) m)
unfolding after_events
payload_after_window_example =
    payload_after_window service empty_db window ttl one_claim 8000000000 (fires 0) "otp1" (λ e. cc)

-- A coordinator that holds one pending OTP.
abbrev holding : List Reply → Manager
holding replies = new (record empty_db { otps = stored_otp ∷ []; replies = replies }) window ttl

holding-IsReady : IsReady (holding []) "otp1" stored_otp
unfolding after_events
holding-IsReady = record { answers = refl; stored = refl; is_pending = refl }

dual_claim_example :
    IsKilled
      (holding [])
      "otp1"
      stored_otp
      "deviceA"
      "deviceB"
      (claim "deviceB" "otp1" 2000000000 (claim "deviceA" "otp1" 1000000000 (holding [])))
unfolding after_events
dual_claim_example =
    dual_claim holding-IsReady refl "deviceA" "deviceB" (ne_of_eq "deviceA" "deviceB" refl)
      1000000000 2000000000 refl refl

sole_claim_example :
    (fire 0 8000000000 (claim "deviceA" "otp1" 1000000000 (holding []))).sent
    ≡ ("deviceA", payload_envelope "otp1" stored_otp) ∷ []
unfolding after_events
sole_claim_example =
    ((sole_claim holding-IsReady refl "deviceA" 1000000000 8000000000 refl refl).0 (omega arith)).1

-- An OTP is stored and claimed, and its window, as long as the time to live, is over.
abbrev long_wait : List (ℕ × Event)
long_wait =
    (0, ingests "otp1" "src" "ct" "iv")
    ∷ (1000000000, claims "deviceA" "otp1")
    ∷ (121000000000, fires 0)
    ∷ []

Occurs-cases : {e d : ℕ × Event} {es : List (ℕ × Event)} → Occurs e (d ∷ es) → (e ≡ d) ⊎ Occurs e es
Occurs-cases here = inl refl
Occurs-cases (there o) = inr o

stored_first :
    (at : ℕ) (src ct iv : String) → Occurs (at, ingests "otp1" src ct iv) long_wait → at ≡ 0
stored_first at src ct iv o = elim (Occurs-cases o) [
  | inl p ↦ ap (λ e. e.0) p
  | inr o1 ↦ elim (Occurs-cases o1) [
    | inl p ↦ absurd (ground (arith, ap (λ e. e.1) p))
    | inr o2 ↦ elim (Occurs-cases o2) [
      | inl p ↦ absurd (ground (arith, ap (λ e. e.1) p))
      | inr o3 ↦ elim o3 [ ]
    ]
  ]
]

long_wait-InOrder : InOrder long_wait "otp1" 120000000000
unfolding quot ◌+ℤ◌
long_wait-InOrder = record {
  fits = λ at src ct iv o.
      rw (stored_first at src ct iv o) (record { below = omega arith; above = omega arith });
  follows = λ at later src ct iv c o o'. rw (stored_first at src ct iv o) (omega arith);
}

never_delivered_example : recipients "otp1" (run service long_wait (new empty_db ttl ttl)).sent ≡ []
unfolding after_events
never_delivered_example =
    never_delivered ttl 120000000000 "otp1" (omega arith) service empty_db long_wait refl
      long_wait-InOrder

-- The third statement, the write of the dual claim, fails; then the first device claims again.
invalidation_lost_example :
    let m = holding (done ∷ done ∷ failed ∷ []) in
    let dual = claim "deviceB" "otp1" 2000000000 (claim "deviceA" "otp1" 1000000000 m) in
    (fire 1 10000000000 (claim "deviceA" "otp1" 3000000000 dual)).sent
    ≡ ("deviceA", payload_envelope "otp1" stored_otp)
      ∷ ("deviceB", invalidated_envelope "otp1")
      ∷ ("deviceA", invalidated_envelope "otp1")
      ∷ []
unfolding after_events
invalidation_lost_example =
    invalidation_lost (holding (done ∷ done ∷ failed ∷ [])) "otp1" stored_otp refl refl refl refl
      "deviceA" "deviceB" (ne_of_eq "deviceA" "deviceB" refl) 1000000000 2000000000 refl refl
      "deviceA" 3000000000 10000000000 refl refl (omega arith)

push_hides_payload_example :
    ((ingest service "otp1" "a" "X" "Y" 1000000 start).1.pushed
      ≡ (ingest service "otp1" "b" "P" "Q" 1000000 start).1.pushed)
    × ((ingest service "otp1" "a" "X" "Y" 1000000 start).0
        ≡ (ingest service "otp1" "b" "P" "Q" 1000000 start).0)
push_hides_payload_example = push_hides_payload service "otp1" 1000000 start "a" "X" "Y" "b" "P" "Q"
