-- ===== src/Api/Access.antt =====
-- Who may do what through the API.
use otp_relay_backend.Base.{refl, String, ℕ, ◌≡◌, ◌≢◌, Bool, true, false, if◌then◌else◌, arith}
use otp_relay_backend.Db.{Db, Device, not_found, driver_error}
use otp_relay_backend.Db.Devices.{get_device_by_token}
use otp_relay_backend.Registry.{
  accepted, refused, admit, database, revoked, invalid_type, RegistryError, authenticate,
}
use otp_relay_backend.Claim.{Manager}
use otp_relay_backend.Claim.Window.{with_db}
use otp_relay_backend.Totp.{invalid, validate_request}
use otp_relay_backend.Api.{Request, Response, write_json, empty}
use otp_relay_backend.Api.Routes.{
  Call, login, otp_push, otp_claim, Environment, routes, serve, require_session, device_token_of,
  refusal, reflect,
}

-- A call of the dashboard that needs a session.
abbrev pub is_guarded : Call → Bool
is_guarded (login code) = false
is_guarded (otp_push req) = false
is_guarded (otp_claim req) = false
is_guarded _ = true

-- Without a valid session, no call of the dashboard but the login does anything: it is answered by
-- status 401, or by 204 if it is an OPTIONS request, and the state stays as it is.
pub session_gate :
    (env : Environment) (r : Request) (call : Call) (m : Manager)
    → is_guarded call ≡ true
    → validate_request env.mac env.auth r.session env.now ≡ invalid
    → ((serve env r call m).0.status ≡ (if r.is_options then 204 else 401))
      × ((serve env r call m).1 ≡ m)
unfolding serve routes require_session
session_gate env r call m g e = ground arith

-- The state behind the token check, where the database has been read once.
abbrev pub checked : Request → Manager → Manager
checked r m = with_db (authenticate (device_token_of r) m.db).1 m

-- The request holds a token of a live device.
abbrev pub Holds : Request → Manager → Device → Type 0
Holds r m dev =
    (device_token_of r ≢ "") × ((authenticate (device_token_of r) m.db).0 ≡ accepted dev)

-- No OTP and no window is touched.
abbrev pub IsUntouched : Manager → Manager → Type 0
IsUntouched m m' = (m'.db.otps ≡ m.db.otps) × (m'.windows ≡ m.windows) × (m'.sent ≡ m.sent)

pub checked-IsUntouched : (r : Request) (m : Manager) → IsUntouched m (checked r m)
unfolding authenticate get_device_by_token
checked-IsUntouched r m = ground arith

-- Why a request is not let through to a device's handler, with the status of the answer.
pub data TokenFailure (r : Request) (m : Manager) (status : ℕ) : Type 0 where
  no_token : device_token_of r ≡ "" → status ≡ 401 → TokenFailure r m status
  unknown :
      device_token_of r ≢ ""
      → (authenticate (device_token_of r) m.db).0 ≡ refused (database not_found)
      → status ≡ 401
      → TokenFailure r m status
  is_revoked :
      device_token_of r ≢ ""
      → (authenticate (device_token_of r) m.db).0 ≡ refused revoked
      → status ≡ 403
      → TokenFailure r m status
  unanswered :
      device_token_of r ≢ ""
      → (authenticate (device_token_of r) m.db).0 ≡ refused (database driver_error)
      → status ≡ 500
      → TokenFailure r m status

authenticate-valid_type :
    (token : String) (d : Db) → (authenticate token d).0 ≢ refused invalid_type
unfolding authenticate admit
authenticate-valid_type token d e = ground arith

pub refusal-TokenFailure :
    (r : Request) (m : Manager) (e : RegistryError)
    → device_token_of r ≢ ""
    → (authenticate (device_token_of r) m.db).0 ≡ refused e
    → TokenFailure r m (refusal e).status
refusal-TokenFailure r m (database not_found) given f = TokenFailure.unknown given f refl
refusal-TokenFailure r m (database driver_error) given f = TokenFailure.unanswered given f refl
refusal-TokenFailure r m revoked given f = TokenFailure.is_revoked given f refl
refusal-TokenFailure r m invalid_type given f =
    absurd (authenticate-valid_type (device_token_of r) m.db f)

pub serve-options :
    (env : Environment) (r : Request) (call : Call) (m : Manager)
    → r.is_options ≡ true
    → serve env r call m ≡ (reflect env r.origin (write_json 204 empty), m)
unfolding serve
serve-options env r call m e = ground arith

pub serve-direct :
    (env : Environment) (r : Request) (call : Call) (m : Manager)
    → r.is_options ≡ false
    → serve env r call m ≡ (reflect env r.origin (routes env r call m).0, (routes env r call m).1)
unfolding serve
serve-direct env r call m e = ground arith

-- The CORS headers leave the status alone.
pub status-reflect :
    (env : Environment) (r : Request) (res : Response)
    → (reflect env r.origin res).status ≡ res.status
status-reflect env r res = ground arith
