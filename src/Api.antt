-- ===== src/Api.antt =====
-- internal/api: requests, responses, and the shapes of their bodies. A JSON body is what decodeJSON
-- makes of it, `none` if it fails.
pub mod Devices
pub mod Onboard
pub mod Onboarding
pub mod Messages
pub mod Views
pub mod Bearer
pub mod Routes
pub mod Access
pub mod Pushing
pub mod Claiming
mod Tests
use otp_relay_backend.Base.{ℕ, String, ℤ, Bool, List, Option, none}
use otp_relay_backend.Totp.{Cookie}
use otp_relay_backend.Totp.Decimal.{Bytes}

-- What the handlers read of a request: the header Authorization, the `token` of the query, the
-- session cookie, the header Origin, the method, and what the URL of an invite is made of.
pub record Request : Type 0 where
  pub authorization : String
  pub query_token : String
  pub session : Option Bytes
  pub origin : String
  pub is_options : Bool
  pub host : String
  pub has_tls : Bool
  pub forwarded_proto : String

pub record DeviceView : Type 0 where
  pub id : String
  pub name : String
  pub type : String
  pub has_push : Bool
  pub created_at : ℤ
  pub revoked : Bool

pub data Body : Type 0 where
  empty : Body
  error_text : String → Body
  ok_true : Body
  devices : List DeviceView → Body
  created_device : DeviceView → String → Body
  invite : (token url : String) → ℤ → Body
  png : Bytes → Body
  otp : String → Body
  claim_registered : Body

-- `allow_origin` is set together with the other CORS headers.
pub record Response : Type 0 where
  pub status : ℕ
  pub body : Body
  pub set_cookie : Option Cookie
  pub allow_origin : Option String

abbrev pub write_json : ℕ → Body → Response
write_json status body = record {
  status = status;
  body = body;
  set_cookie = none;
  allow_origin = none;
}

abbrev pub write_error : ℕ → String → Response
write_error status message = write_json status (error_text message)
