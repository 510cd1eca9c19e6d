-- ===== src/Api/Tests.antt =====
-- The API at concrete requests.
use otp_relay_backend.Base.{wrap64, ◌+ℤ◌, ◌≡◌, refl, pos, [], ◌∷◌, Option, some, none, true, false}
use otp_relay_backend.Db.Table.{find}
use otp_relay_backend.Db.Devices.{get_device_by_token}
use otp_relay_backend.Db.Otps.{insert_otp}
use otp_relay_backend.Registry.{new_device, authenticate, admit}
use otp_relay_backend.Claim.Ingest.{ingest}
use otp_relay_backend.Claim.{Manager, new}
use otp_relay_backend.Totp.{validate_request}
use otp_relay_backend.Api.{Request}
use otp_relay_backend.Api.Messages.{OtpPushRequest, handle_otp_push, push_body}
use otp_relay_backend.Totp.{new_authenticator}
use otp_relay_backend.Api.Bearer.{bearer_token}
use otp_relay_backend.Api.Routes.{
  Environment, list_devices, otp_push, otp_claim, serve, routes, require_device_token,
  device_token_of,
}
use otp_relay_backend.Api.{write_json, invite, png}
use otp_relay_backend.Api.Onboard.{new_invite, invite_url, handle_create_invite, handle_invite_qr}
use otp_relay_backend.Api.Onboarding.{new_invite_shown}
use otp_relay_backend.Api.Access.{session_gate}
use otp_relay_backend.Api.Pushing.{PushOutcome, push_outcome}
use otp_relay_backend.Api.Claiming.{ClaimOutcome, claim_outcome}

abbrev env : Environment
env = record {
  service = record { parses = λ sub. true; respond = λ sub s. some 201 };
  mac = λ key payload. key;
  validates = λ code secret. false;
  encode_qr = λ url. none;
  auth = new_authenticator "secret" (1 ∷ []) (pos 86400000000000) true;
  drawn_id = "otp1";
  drawn_token = "t9";
  now = 5000000;
}

abbrev request : Request
request = record {
  authorization = "Bearer t1";
  query_token = "";
  session = none;
  origin = "";
  is_options = false;
  host = "relay";
  has_tls = false;
  forwarded_proto = "https";
}

-- A source and a destination are registered.
abbrev manager : Manager
manager =
    new
      (record {
        otps = [];
        devices =
            new_device "Phone" "source" none "d1" "t1" 0
            ∷ new_device "Tab" "destination" none "d2" "t2" 0
            ∷ [];
        invites = [];
        replies = [];
      })
      (pos 7000000000) (pos 120000000000)

session_gate_example :
    ((serve env request list_devices manager).0.status ≡ 401)
    × ((serve env request list_devices manager).1 ≡ manager)
unfolding validate_request
session_gate_example = session_gate env request list_devices manager refl refl

abbrev push : Option OtpPushRequest
push = some (record { ciphertext = "X"; iv = "Y" })

push_outcome_example :
    PushOutcome env request push manager
      (serve env request (otp_push push) manager).0
      (serve env request (otp_push push) manager).1
push_outcome_example = push_outcome env request manager push

claim_outcome_example :
    ClaimOutcome env
      (record request { authorization = "Bearer t2" })
      (some "otp1")
      manager
      (serve env
        (record request { authorization = "Bearer t2" })
        (otp_claim (some "otp1"))
        manager).0
      (serve env
        (record request { authorization = "Bearer t2" })
        (otp_claim (some "otp1"))
        manager).1
claim_outcome_example =
    claim_outcome env (record request { authorization = "Bearer t2" }) manager (some "otp1")

pushed_status : (serve env request (otp_push push) manager).0.status ≡ 201
unfolding serve routes require_device_token device_token_of authenticate admit get_device_by_token
    find handle_otp_push push_body ingest insert_otp
pushed_status = refl

-- A token within white space, and another scheme.
bearer_token_test : bearer_token "Bearer  t1 " ≡ "t1"
unfolding bearer_token
bearer_token_test = refl

other_scheme_test : bearer_token "Basic t1" ≡ ""
unfolding bearer_token
other_scheme_test = refl

-- The QR code is the same for every text here; one invite is older.
new_invite_shown_example :
    let old = record manager.db { invites = new_invite "old" 1000000 ∷ [] } in
    let made = handle_create_invite request "t9" 5000000 old in
    (made.0 ≡ write_json 201 (invite "t9" "https://relay/onboard?invite=t9" (pos 900005)))
    × ((handle_invite_qr (λ url. some (3 ∷ [])) request made.1).0 ≡ write_json 200 (png (3 ∷ [])))
unfolding find invite_url wrap64 ◌+ℤ◌
new_invite_shown_example =
    new_invite_shown "t9" 5000000 (record manager.db { invites = new_invite "old" 1000000 ∷ [] })
      refl refl (λ url. some (3 ∷ [])) request request (refl, tt)
