-- ===== src/Api/Routes.antt =====
-- internal/api/router.go, middleware.go and auth.go: the routes and what guards them. chi's matching
-- of a path to its route is a third party's; a call names the route and carries its decoded body.
use otp_relay_backend.Base.{ℕ, String, Bool, Option, none, some, ◌==◌, if◌then◌else◌}
use otp_relay_backend.Db.{Db, Device, not_found}
use otp_relay_backend.Push.{PushService}
use otp_relay_backend.Registry.{accepted, refused, database, revoked, RegistryError, authenticate}
use otp_relay_backend.Claim.{Manager}
use otp_relay_backend.Claim.Window.{with_db}
use otp_relay_backend.Totp.{
  Authenticator, Cookie, valid, invalid, validate_request, issue_cookie, clear_cookie, verify,
}
use otp_relay_backend.Totp.Decimal.{Bytes}
use otp_relay_backend.Api.{Request, Response, write_json, write_error, empty, ok_true}
use otp_relay_backend.Api.Bearer.{bearer_token}
use otp_relay_backend.Api.Devices.{
  CreateDeviceRequest, handle_list_devices, handle_create_device, handle_delete_device,
}
use otp_relay_backend.Api.Onboard.{handle_create_invite, handle_invite_qr}
use otp_relay_backend.Api.Messages.{OtpPushRequest, handle_otp_push, handle_otp_claim}

pub data Call : Type 0 where
  login : Option String → Call
  logout list_devices create_invite invite_qr : Call
  create_device : Option CreateDeviceRequest → Call
  delete_device : String → Call
  otp_push : Option OtpPushRequest → Call
  otp_claim : Option String → Call

-- What the API is built over: third-party code, the authenticator, and the texts that this call
-- draws for identifiers. `validates` is the check of a TOTP code.
pub record Environment : Type 0 where
  pub service : PushService
  pub mac : Bytes → Bytes → Bytes
  pub validates : String → String → Bool
  pub encode_qr : String → Option Bytes
  pub auth : Authenticator
  pub drawn_id : String
  pub drawn_token : String
  pub now : ℕ

abbrev on_db : (Db → Response × Db) → Manager → Response × Manager
on_db f m = ((f m.db).0, with_db (f m.db).1 m)

abbrev with_cookie : Cookie → Response → Response
with_cookie cookie res = record res { set_cookie = some cookie }

-- The bearer token, or else that of the query.
unfoldable pub device_token_of : Request → String
unfolding bearer_token
device_token_of r =
    let token = bearer_token r.authorization in if token == "" then r.query_token else token

abbrev pub refusal : RegistryError → Response
refusal (database not_found) = write_error 401 "unknown device token"
refusal revoked = write_error 403 "device revoked"
refusal _ = write_error 500 "auth error"

-- The API's own state is the coordinator's, which holds the database.
module _ (env : Environment) where
  unfoldable pub handle_login : Option String → Manager → Response × Manager
  unfolding issue_cookie verify
  handle_login none m = (write_error 400 "invalid request body", m)
  handle_login (some code) m =
      if verify env.validates env.auth code
      then (with_cookie (issue_cookie env.mac env.auth env.now) (write_json 200 ok_true), m)
      else (write_error 401 "invalid code", m)

  unfoldable pub handle_logout : Manager → Response × Manager
  unfolding clear_cookie
  handle_logout m = (with_cookie (clear_cookie env.mac env.auth) (write_json 200 ok_true), m)

  unfoldable pub require_session :
      Request → (Manager → Response × Manager) → Manager → Response × Manager
  unfolding validate_request
  require_session r next m = elim (validate_request env.mac env.auth r.session env.now) [
    | invalid ↦ (write_error 401 "authentication required", m)
    | valid ↦ next m
  ]

  unfoldable pub require_device_token :
      Request → (Device → Manager → Response × Manager) → Manager → Response × Manager
  unfolding device_token_of authenticate
  require_device_token r next m =
      if device_token_of r == ""
      then (write_error 401 "missing device token", m)
      else let found = authenticate (device_token_of r) m.db in
        elim found.0 [
          | refused e ↦ (refusal e, with_db found.1 m)
          | accepted dev ↦ next dev (with_db found.1 m)
        ]

  -- The handlers behind the session.
  unfoldable pub dashboard : Request → Call → Manager → Response × Manager
  unfolding handle_logout
  dashboard r list_devices m = on_db handle_list_devices m
  dashboard r (create_device req) m =
      on_db (handle_create_device req env.drawn_id env.drawn_token env.now) m
  dashboard r (delete_device id) m = on_db (handle_delete_device id) m
  dashboard r create_invite m = on_db (handle_create_invite r env.drawn_token env.now) m
  dashboard r invite_qr m = on_db (handle_invite_qr env.encode_qr r) m
  dashboard r _ m = handle_logout m

  unfoldable pub routes : Request → Call → Manager → Response × Manager
  unfolding handle_login require_session require_device_token dashboard
  routes r (login code) m = handle_login code m
  routes r (otp_push req) m =
      require_device_token r (λ dev m'. handle_otp_push env.service dev req env.drawn_id env.now m')
        m
  routes r (otp_claim req) m =
      require_device_token r (λ dev m'. handle_otp_claim dev req env.now m') m
  routes r call m = require_session r (dashboard r call) m

  abbrev pub reflect : String → Response → Response
  reflect origin res = if origin == "" then res else record res { allow_origin = some origin }

  -- The CORS middleware around all routes.
  unfoldable pub serve : Request → Call → Manager → Response × Manager
  unfolding routes
  serve r call m =
      if r.is_options
      then (reflect r.origin (write_json 204 empty), m)
      else (reflect r.origin (routes r call m).0, (routes r call m).1)
