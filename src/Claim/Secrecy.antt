-- ===== src/Claim/Secrecy.antt =====
-- internal/claim/claim.go: what the push services learn of an OTP.
use otp_relay_backend.Base.{ℕ, ◌≡◌, String, arith}
use otp_relay_backend.Db.Otps.{insert_otp}
use otp_relay_backend.Db.Devices.{list_push_targets}
use otp_relay_backend.Push.{PushService}
use otp_relay_backend.Claim.{Manager}
use otp_relay_backend.Claim.Ingest.{ingest, dispatch_push}

-- What the source device sends, its ciphertext, its iv and even which device it is, changes neither
-- the signals that go to the push services nor what the device is answered.
pub push_hides_payload :
    (service : PushService) (id : String) (now : ℕ) (m : Manager)
    (source ciphertext iv source' ciphertext' iv' : String)
    → let one = ingest service id source ciphertext iv now m in
      let other = ingest service id source' ciphertext' iv' now m in
      (one.1.pushed ≡ other.1.pushed) × (one.0 ≡ other.0)
unfolding ingest dispatch_push insert_otp list_push_targets
push_hides_payload service id now m source ciphertext iv source' ciphertext' iv' = ground arith
