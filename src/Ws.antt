-- ===== src/Ws.antt =====
-- internal/ws: the wire format of hub.go, and below it the hub.
pub mod Hub
pub mod Handler
use otp_relay_backend.Base.{String}

abbrev pub type_otp_push : String
type_otp_push = "otp_push"

abbrev pub type_otp_claim : String
type_otp_claim = "otp_claim"

abbrev pub type_otp_payload : String
type_otp_payload = "otp_payload"

abbrev pub type_otp_invalidated : String
type_otp_invalidated = "otp_invalidated"

abbrev pub type_error : String
type_error = "error"

abbrev pub type_ping : String
type_ping = "ping"

abbrev pub type_pong : String
type_pong = "pong"

-- A field that is left out on the wire is the empty text.
pub record Envelope : Type 0 where
  pub type : String
  pub otp_id : String
  pub ciphertext : String
  pub iv : String
  pub reason : String
  pub error : String

abbrev pub empty_envelope : Envelope
empty_envelope = record {
  type = "";
  otp_id = "";
  ciphertext = "";
  iv = "";
  reason = "";
  error = "";
}
