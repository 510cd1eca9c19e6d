-- ===== src/Api/Onboard.antt =====
-- internal/api/onboard.go: invites. The QR encoder is a parameter, which may fail.
use Prim.Native.String
use mathlib.Core.Bool.{not}
use otp_relay_backend.Base.{
  ℕ, ◌*◌, String, ℤ, pos, ◌+ℤ◌, wrap64, false, ◌&&◌, Option, none, some, ◌==◌, if◌then◌else◌,
}
use otp_relay_backend.Db.{Db, InviteToken, ok, err, not_found, driver_error}
use otp_relay_backend.Db.Invites.{insert_invite, get_latest_invite}
use otp_relay_backend.Claim.Window.{now_millis}
use otp_relay_backend.Totp.Decimal.{Bytes}
use otp_relay_backend.Api.{Request, Response, write_json, write_error, invite, png}

-- `inviteTTL` in milliseconds.
abbrev pub invite_ttl : ℤ
invite_ttl = pos (15 * 60 * 1000)

unfoldable pub invite_url : Request → String → String
invite_url r token =
    let scheme =
      if not r.has_tls && (r.forwarded_proto == "" && r.host == "") then "http" else "https" in
    String.◌++◌ scheme
      (String.◌++◌ "://" (String.◌++◌ r.host (String.◌++◌ "/onboard?invite=" token)))

abbrev pub new_invite : String → ℕ → InviteToken
new_invite token now = record {
  token = token;
  created_at = now_millis now;
  expires_at = wrap64 (now_millis now +ℤ invite_ttl);
  used = false;
}

unfoldable pub handle_create_invite : Request → String → ℕ → Db → Response × Db
unfolding invite_url
handle_create_invite r token now d =
    let tok = new_invite token now in
    let stored = insert_invite tok d in
    (
      elim stored.0 [
        | err e ↦ write_error 500 "could not create invite"
        | ok _ ↦ write_json 201 (invite tok.token (invite_url r tok.token) tok.expires_at)
      ],
      stored.1,
    )

abbrev pub qr_response : Option Bytes → Response
qr_response none = write_error 500 "could not render qr"
qr_response (some image) = write_json 200 (png image)

unfoldable pub handle_invite_qr : (String → Option Bytes) → Request → Db → Response × Db
unfolding invite_url
handle_invite_qr encode_qr r d =
    let loaded = get_latest_invite d in
    (
      elim loaded.0 [
        | err not_found ↦ write_error 404 "no invite exists; create one first"
        | err driver_error ↦ write_error 500 "could not load invite"
        | ok tok ↦ qr_response (encode_qr (invite_url r tok.token))
      ],
      loaded.1,
    )
