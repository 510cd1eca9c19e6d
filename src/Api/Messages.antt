-- ===== src/Api/Messages.antt =====
-- internal/api/otp.go: pushing and claiming by REST.
use mathlib.Core.Bool.{not}
use otp_relay_backend.Base.{ℕ, String, ◌||◌, Option, none, some, ◌==◌, if◌then◌else◌}
use otp_relay_backend.Db.{Device, Result, ok, err}
use otp_relay_backend.Push.{PushService}
use otp_relay_backend.Claim.{Manager}
use otp_relay_backend.Claim.Window.{claim}
use otp_relay_backend.Claim.Ingest.{ingest}
use otp_relay_backend.Api.{Response, write_json, write_error, otp, claim_registered}

pub record OtpPushRequest : Type 0 where
  pub ciphertext : String
  pub iv : String

abbrev pub push_response : Result String → Response
push_response (err e) = write_error 500 "could not store otp"
push_response (ok otp_id) = write_json 201 (otp otp_id)

unfoldable pub push_body :
    PushService → Device → OtpPushRequest → String → ℕ → Manager → Response × Manager
unfolding ingest
push_body service dev req id now m =
    if req.ciphertext == "" || req.iv == ""
    then (write_error 400 "ciphertext and iv are required", m)
    else let done = ingest service id dev.id req.ciphertext req.iv now m in
      (push_response done.0, done.1)

unfoldable pub handle_otp_push :
    PushService → Device → Option OtpPushRequest → String → ℕ → Manager → Response × Manager
unfolding push_body
handle_otp_push service dev req id now m =
    if not (dev.type == "source")
    then (write_error 403 "only source devices may push", m)
    else elim req [
      | none ↦ (write_error 400 "invalid request body", m)
      | some body ↦ push_body service dev body id now m
    ]

unfoldable pub claim_body : Device → String → ℕ → Manager → Response × Manager
unfolding claim
claim_body dev otp_id now m =
    if otp_id == ""
    then (write_error 400 "otpId is required", m)
    else (write_json 202 claim_registered, claim dev.id otp_id now m)

-- The body holds the OTP id alone.
unfoldable pub handle_otp_claim : Device → Option String → ℕ → Manager → Response × Manager
unfolding claim_body
handle_otp_claim dev req now m =
    if not (dev.type == "destination")
    then (write_error 403 "only destination devices may claim", m)
    else elim req [
      | none ↦ (write_error 400 "invalid request body", m)
      | some otp_id ↦ claim_body dev otp_id now m
    ]
