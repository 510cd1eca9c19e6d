-- ===== src/Relay/Entry.antt =====
-- What a frame of a WebSocket connection can do to the coordinator.
use otp_relay_backend.Base.{
  ℕ, ◌≡◌, refl, ◌≢◌, ◌⊎◌, inl, inr, String, Option, some, arith, ◌==◌, eq_iff, ◌||◌, Bool-cases,
}
use otp_relay_backend.Push.{PushService}
use otp_relay_backend.Ws.{Envelope}
use otp_relay_backend.Ws.Hub.{
  Hub, Client, Dispatch, nothing, on_push, on_claim, Outcome, returns, panics, read_frame,
}
use otp_relay_backend.Ws.Hub.Capability.{MayDispatch, capability}
use otp_relay_backend.Claim.{Manager}
use otp_relay_backend.Claim.Window.{claim}
use otp_relay_backend.Claim.Ingest.{ingest}
use otp_relay_backend.Relay.{dispatch, dispatch_on_push, dispatch_on_claim, receive}

-- What a frame `e` may do: nothing; from a source, the ingestion of its ciphertext and iv; from a
-- destination, a claim of its OTP id. Each is complete, and made in the name of the connection's device.
pub data Entry (service : PushService) (cell : Client) (frame : Option Envelope) (id : String)
    (now : ℕ) (m m' : Manager) : Type 0 where
  idle : m' ≡ m → Entry service cell frame id now m m'
  ingested :
      (e : Envelope)
      → frame ≡ some e
      → cell.device_type ≡ "source"
      → e.ciphertext ≢ ""
      → e.iv ≢ ""
      → m' ≡ (ingest service id cell.device_id e.ciphertext e.iv now m).1
      → Entry service cell frame id now m m'
  claimed :
      (e : Envelope)
      → frame ≡ some e
      → cell.device_type ≡ "destination"
      → e.otp_id ≢ ""
      → m' ≡ claim cell.device_id e.otp_id now m
      → Entry service cell frame id now m m'

dispatch-Entry :
    (service : PushService) (cell : Client) (frame : Option Envelope) (id : String) (now : ℕ)
    (m : Manager) (d : Dispatch)
    → MayDispatch cell frame d
    → Entry service cell frame id now m (dispatch service d id now m)
unfolding dispatch dispatch_on_push dispatch_on_claim
dispatch-Entry service cell frame id now m nothing may = Entry.idle refl
dispatch-Entry service cell frame id now m (on_push source e) (is, own, type, capable) =
    elim (Bool-cases (e.ciphertext == "" || e.iv == "")) [
      | inl missing ↦ Entry.idle (rw missing)
      | inr given ↦
          Entry.ingested e is capable (λ s. ground (arith, (eq_iff e.ciphertext "").1 s))
            (λ s. ground (arith, (eq_iff e.iv "").1 s)) (rw (given, own))
    ]
dispatch-Entry service cell frame id now m (on_claim claimant e) (is, own, type, capable) =
    elim (Bool-cases (e.otp_id == "")) [
      | inl missing ↦ Entry.idle (rw missing)
      | inr given ↦
          Entry.claimed e is capable (λ s. ground (arith, (eq_iff e.otp_id "").1 s))
            (rw (given, own))
    ]

Outcome-cases {ℓ} : {A : Type ℓ} (r : Outcome A) → (r ≡ panics) ⊎ ((a : A) × (r ≡ returns a))
Outcome-cases (returns a) = inr (a, refl)
Outcome-cases panics = inl refl

-- A frame changes the coordinator only by the ingestion of what a source sent with a ciphertext and
-- an iv, or by the claim of the OTP that a destination named; both in the name of the device to
-- which the connection belongs.
pub receive-Entry :
    (service : PushService) (c : ℕ) (frame : Option Envelope) (id : String) (now : ℕ) (h h' : Hub)
    (m m' : Manager)
    → receive service c frame id now (h, m) ≡ returns (h', m')
    → Entry service (h.cells c) frame id now m m'
unfolding receive
receive-Entry service c frame id now h h' m m' e = elim (Outcome-cases (read_frame c frame h)) [
  | inl p ↦ absurd (ground arith)
  | inr ((d, after), f) ↦
      let same : m' ≡ dispatch service d id now m = ground arith in
      rw same (dispatch-Entry service (h.cells c) frame id now m d (capability c frame h after d f))
]
