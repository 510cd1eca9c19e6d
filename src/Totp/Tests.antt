-- ===== src/Totp/Tests.antt =====
-- A run of a session, and the theorems at concrete inputs.
use otp_relay_backend.Base.{
  ℕ, ◌+◌, ◌*◌, ◌^◌, ◌%◌, ◌≡◌, refl, ◌↔◌, [], ◌∷◌, ◌++◌, map, some, arith, pos, true, All, ◌+ℤ◌,
}
use otp_relay_backend.Totp.{
  Authenticator, new_authenticator, valid, validate, validate_request, issue_cookie, sign,
}
use otp_relay_backend.Totp.Decimal.{Bytes, format_int, digits}
use otp_relay_backend.Totp.Base64.{IsByte, encode, digit}
use otp_relay_backend.Totp.Cookies.{Session, validate_iff, issued_session}

-- A MAC for tests: the key and the payload themselves, as bytes.
abbrev toy_mac : Bytes → Bytes → Bytes
toy_mac key payload = map (λ b. b % 256) (key ++ payload)

map-All : (s : Bytes) → All IsByte (map (λ b. b % 256) s)
map-All [] = tt
map-All (b ∷ s) = (omega arith, map-All s)

-- A session of one day.
abbrev dashboard : Authenticator
dashboard = new_authenticator "JBSWY3DP" (7 ∷ 200 ∷ []) (pos (24 * 3600 * 10 ^ 9)) true

abbrev start : ℕ
start = 1700000000 * 10 ^ 9

issued_session_example :
    validate_request toy_mac dashboard
      (some (issue_cookie toy_mac dashboard start).value)
      (start + 3600 * 10 ^ 9)
    ≡ valid
unfolding ◌+ℤ◌
issued_session_example =
    issued_session toy_mac dashboard start (start + 3600 * 10 ^ 9)
      (λ payload. map-All (7 ∷ 200 ∷ [] ++ payload)) (omega arith)
      (record { above = omega arith; below = omega arith }) (omega arith)

-- The cookie of a session up to the second 5, read in the first second of 1970.
abbrev cookie : Bytes
cookie = b'5' ∷ b'.' ∷ b'B' ∷ b'8' ∷ b'g' ∷ b'1' ∷ []

sign_5 : sign toy_mac dashboard (pos 5) ≡ cookie
unfolding sign format_int digits encode digit
sign_5 = refl

validate_iff_example :
    (validate toy_mac dashboard cookie 0 ≡ valid) ↔ Session toy_mac (7 ∷ 200 ∷ []) cookie 0
validate_iff_example = validate_iff toy_mac dashboard cookie 0
