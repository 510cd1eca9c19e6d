-- ===== src/Totp.antt =====
-- internal/totp/totp.go: the session cookies of the dashboard. A text is the list of its bytes
-- here. The HMAC is a parameter, and so is the third-party check of a TOTP code.
pub mod Decimal
pub mod Base64
pub mod Parts
pub mod Cookies
mod Tests
use otp_relay_backend.Base.{
  ℕ, ◌/◌, ◌^◌, String, ℤ, pos, negsuc, ◌+ℤ◌, ltb_ℤ, quot, Bool, true, false, ◌&&◌, [], ◌∷◌, ◌++◌,
  Option, none, some, eqb, trim_space, if◌then◌else◌,
}
use otp_relay_backend.Totp.Decimal.{Bytes, format_int, parse_int}
use otp_relay_backend.Totp.Base64.{encode, decode}

-- The time to live is in nanoseconds.
pub record Authenticator : Type 0 where
  pub secret : String
  pub signing_key : Bytes
  pub session_ttl : ℤ
  pub cookie_secure : Bool

pub record Cookie : Type 0 where
  pub name : String
  pub value : Bytes
  pub path : String
  pub http_only : Bool
  pub secure : Bool
  pub same_site : String
  pub expires : Option ℤ
  pub max_age : ℤ

abbrev pub session_cookie_name : String
session_cookie_name = "otp_relay_session"

-- `ErrInvalidSession` is the only error.
pub data Verdict : Type 0 where
  valid invalid : Verdict

abbrev pub new_authenticator : String → Bytes → ℤ → Bool → Authenticator
new_authenticator totp_secret session_secret session_ttl cookie_secure = record {
  secret = totp_secret;
  signing_key = session_secret;
  session_ttl = session_ttl;
  cookie_secure = cookie_secure;
}

-- `Verify`; `validates code secret` stands for the check of a TOTP code by the package otp.
unfoldable pub verify : (String → String → Bool) → Authenticator → String → Bool
unfolding trim_space
verify validates a code = validates (trim_space code) a.secret

-- The whole seconds of a time in nanoseconds, rounded down.
unfoldable pub unix : ℤ → ℤ
unix (pos n) = pos (n / 10 ^ 9)
unix (negsuc n) = negsuc (n / 10 ^ 9)

-- `LastIndexByte(value, '.')`: what stands before and after the last dot.
unfoldable pub split_last : Bytes → Option (Bytes × Bytes)
split_last [] = none
split_last (c ∷ s) = elim (split_last s) [
  | some (before, after) ↦ some (c ∷ before, after)
  | none ↦ if eqb c b'.' then some ([], s) else none
]

-- `hmac.Equal`.
unfoldable pub equal_bytes : Bytes → Bytes → Bool
equal_bytes [] [] = true
equal_bytes [] (d ∷ t) = false
equal_bytes (c ∷ s) [] = false
equal_bytes (c ∷ s) (d ∷ t) = eqb c d && equal_bytes s t

-- `mac key payload` stands for the HMAC with SHA-256.
module _ (mac : Bytes → Bytes → Bytes) where
  unfoldable pub sign : Authenticator → ℤ → Bytes
  sign a expiry = format_int expiry ++ b'.' ∷ encode (mac a.signing_key (format_int expiry))

  -- The expiry time of a session that starts at `now`.
  unfoldable pub expiry_of : Authenticator → ℕ → ℤ
  unfolding unix
  expiry_of a now = unix (pos now +ℤ a.session_ttl)

  -- `max_age` is exact for a time to live of whole seconds, and config.go reads it in hours.
  unfoldable pub issue_cookie : Authenticator → ℕ → Cookie
  unfolding sign expiry_of
  issue_cookie a now = record {
    name = session_cookie_name;
    value = sign a (expiry_of a now);
    path = "/";
    http_only = true;
    secure = a.cookie_secure;
    same_site = "Strict";
    expires = some (expiry_of a now);
    max_age = quot a.session_ttl (10 ^ 9);
  }

  unfoldable pub clear_cookie : Authenticator → Cookie
  clear_cookie a = record {
    name = session_cookie_name;
    value = [];
    path = "/";
    http_only = true;
    secure = a.cookie_secure;
    same_site = "Strict";
    expires = none;
    max_age = negsuc 0;
  }

  -- The last test: the text of the expiry time, and the clock.
  unfoldable pub check_expiry : Bytes → ℕ → Verdict
  check_expiry payload now = elim (parse_int payload) [
    | none ↦ invalid
    | some expiry ↦ if ltb_ℤ expiry (unix (pos now)) then invalid else valid
  ]

  unfoldable pub check_parts : Authenticator → Bytes → Bytes → ℕ → Verdict
  unfolding check_expiry equal_bytes
  check_parts a payload sig now = elim (decode sig) [
    | none ↦ invalid
    | some got ↦
        if equal_bytes got (mac a.signing_key payload) then check_expiry payload now else invalid
  ]

  -- The dot must not be the first byte.
  unfoldable pub validate : Authenticator → Bytes → ℕ → Verdict
  unfolding check_parts split_last
  validate a value now = elim (split_last value) [
    | none ↦ invalid
    | some ([], sig) ↦ invalid
    | some (c ∷ payload, sig) ↦ check_parts a (c ∷ payload) sig now
  ]

  -- `none` is a request without the cookie.
  unfoldable pub validate_request : Authenticator → Option Bytes → ℕ → Verdict
  unfolding validate
  validate_request a none now = invalid
  validate_request a (some value) now = validate a value now
