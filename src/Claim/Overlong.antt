-- ===== src/Claim/Overlong.antt =====
-- A claim window that is at least as long as an OTP lives, which internal/config/config.go admits.
use otp_relay_backend.Base.{
  ℕ, ℤ, ◌+◌, ◌/◌, ◌≤◌, ◌≡◌, refl, ap, ◌∙◌, String, pos, ◌+ℤ◌, ◌≤ℤ◌, [], ◌∷◌, none, some, arith,
  lookup, eq_refl, int_laws, +ℤ_parts, Fits64, wrap64, wrap64_of_Fits64, quot,
}
use otp_relay_backend.Db.{Otp}
use otp_relay_backend.Db.Otps.{insert_otp}
use otp_relay_backend.Db.Devices.{list_push_targets}
use otp_relay_backend.Db.Otps.Laws.{row, insert_otp_runs}
use otp_relay_backend.Push.{PushService}
use otp_relay_backend.Claim.{Manager}
use otp_relay_backend.Claim.Window.{now_millis, claim, fire, error_envelope}
use otp_relay_backend.Claim.Ingest.{ingest, new_otp, dispatch_push}
use otp_relay_backend.Claim.Scenarios.{IsReady, IsLive, sole_claim_expired}
use otp_relay_backend.Claim.Contract.Refinement.{row-ingest, ingest-rest}

-- What is stored at `stored_at` has expired when a window is over that opened no earlier.
pub expires-le :
    (stored_at lifetime first late : ℕ) (window : ℤ)
    → Fits64 (now_millis stored_at +ℤ quot (pos lifetime) 1000000)
    → stored_at ≤ first
    → pos lifetime ≤ℤ window
    → pos first +ℤ window ≤ℤ pos late
    → wrap64 (now_millis stored_at +ℤ quot (pos lifetime) 1000000) ≤ℤ now_millis late
unfolding quot
expires-le stored_at lifetime first late window fits order long over =
    let sum : stored_at + lifetime ≤ late = omega (int_laws, +ℤ_parts (pos first) window) in
    let millis : stored_at / 1000000 + lifetime / 1000000 ≤ late / 1000000 = omega arith in
    rw (wrap64_of_Fits64 (now_millis stored_at +ℤ quot (pos lifetime) 1000000) fits)
      (omega (int_laws, +ℤ_parts (now_millis stored_at) (pos (lifetime / 1000000))))

module _ (service : PushService) (j source_id ciphertext iv : String) (stored_at : ℕ) (m : Manager)
    (answers : m.db.replies ≡ []) where
  abbrev pub ingested : Manager
  ingested = (ingest service j source_id ciphertext iv stored_at m).1

  abbrev pub otp : Otp
  otp = new_otp j source_id ciphertext iv stored_at m.ttl

  ingest-keeps : (ingested.db.replies ≡ []) × (ingested.window ≡ m.window)
  unfolding ingest dispatch_push insert_otp list_push_targets
  ingest-keeps = ground arith

  ingested-IsReady : row j m.db ≡ none → IsReady ingested j otp
  ingested-IsReady unknown = record {
    answers = ingest-keeps.0;
    stored =
        row-ingest j m answers stored_at service j source_id ciphertext iv
        ∙ insert_otp_runs j otp m.db answers
        ∙ rw (unknown, eq_refl j) refl;
    is_pending = refl;
  }

  -- The claim window is at least as long as the time to live, which is not negative, and the time of
  -- expiry is an int64. An OTP with a new id and no window is stored while the database answers; later
  -- on, while it is live, one device claims it, and no other does. When the timer fires, in time or
  -- late, the device is told that the OTP has expired, and gets nothing else; the OTP stays as it is.
  pub overlong_window :
      (a : String) (lifetime first late : ℕ)
      → m.ttl ≡ pos lifetime
      → Fits64 (now_millis stored_at +ℤ quot m.ttl 1000000)
      → m.ttl ≤ℤ m.window
      → row j m.db ≡ none
      → lookup j m.windows ≡ none
      → stored_at ≤ first
      → IsLive otp first
      → pos first +ℤ m.window ≤ℤ pos late
      → let m' = fire ingested.next_timer late (claim a j first ingested) in
        (row j m'.db ≡ some otp) × (m'.sent ≡ (a, error_envelope j "otp expired") ∷ m.sent)
  overlong_window a lifetime first late ttl fits long unknown none_open order live over =
      let (replies, window) = ingest-keeps in
      let (windows, sent) = ingest-rest j m answers stored_at service j source_id ciphertext iv in
      let over' : pos first +ℤ ingested.window ≤ℤ pos late = rw window over in
      let late_expiry : otp.expires_at ≤ℤ now_millis late = rw ttl (
        expires-le stored_at lifetime first late m.window (rw ttl at fits) order (rw ttl at long)
          over) in
      let (stored, told) =
        sole_claim_expired (ingested-IsReady unknown) (ap (lookup j) windows ∙ none_open) a first
          late live late_expiry over' in
      (stored, told ∙ ap (λ s. (a, error_envelope j "otp expired") ∷ s) sent)
