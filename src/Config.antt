-- ===== src/Config.antt =====
-- internal/config/config.go. The environment, after .env has been read, is a function; a variable
-- that is not set is the empty text. A duration is an int64 of nanoseconds.
pub mod Limits
mod Tests
use text.Mathlib.TextBridge.{to_list}
use Prim.Native.Char.{code}
use mathlib.Core.Bool.{not}
use otp_relay_backend.Base.{
  ◌*◌, ◌^◌, String, ℤ, pos, ◌*ℤ◌, ltb_ℤ, wrap64, Bool, List, [], ◌∷◌, ◌++◌, map, Option, none, some,
  ◌==◌, if◌then◌else◌,
}
use otp_relay_backend.Totp.Decimal.{parse_int}

pub record Config : Type 0 where
  pub port : String
  pub db_path : String
  pub totp_secret : String
  pub vapid_public_key : String
  pub vapid_private_key : String
  pub vapid_subject : String
  pub claim_window : ℤ
  pub otp_ttl : ℤ
  pub session_secret : String
  pub session_duration : ℤ
  pub cookie_secure : Bool

pub data ConfigError : Type 0 where
  not_an_integer : (key : String) → ConfigError
  missing_config : List String → ConfigError
  ttl_too_low : ℤ → ConfigError

pub data Loaded {ℓ} (A : Type ℓ) : Type ℓ where
  loaded : A → Loaded A
  rejected : ConfigError → Loaded A

infixl 5 ◌>>=◌
abbrev pub ◌>>=◌ {ℓ κ} : {A : Type ℓ} {B : Type κ} → Loaded A → (A → Loaded B) → Loaded B
loaded a >>= f = f a
rejected e >>= f = rejected e

abbrev pub millisecond : ℤ
millisecond = pos (10 ^ 6)

abbrev pub hour : ℤ
hour = pos (3600 * 10 ^ 9)

-- `Atoi`: a text of other than ASCII characters is no integer, so that the characters' codes do for
-- the bytes.
unfoldable pub atoi : String → Option ℤ
unfolding parse_int
atoi s = parse_int (map code (to_list s))

module _ (env : String → String) where
  unfoldable pub getenv : String → String → String
  getenv key fallback = if env key == "" then fallback else env key

  unfoldable pub getenv_int : String → ℤ → Loaded ℤ
  unfolding atoi
  getenv_int key fallback =
      if env key == ""
      then loaded fallback
      else elim (atoi (env key)) [ none ↦ rejected (not_an_integer key) | some n ↦ loaded n ]

  -- A number of units as a duration, which wraps around.
  unfoldable pub getenv_duration : String → ℤ → ℤ → Loaded ℤ
  unfolding getenv_int
  getenv_duration key fallback unit = getenv_int key fallback >>= λ n. loaded (wrap64 (n *ℤ unit))

  unfoldable pub read_config : ℤ → ℤ → ℤ → Config
  unfolding getenv
  read_config claim_window otp_ttl session_duration = record {
    port = getenv "RELAY_PORT" "8080";
    db_path = getenv "DB_PATH" "/data/relay.db";
    totp_secret = env "TOTP_SECRET";
    vapid_public_key = env "VAPID_PUBLIC_KEY";
    vapid_private_key = env "VAPID_PRIVATE_KEY";
    vapid_subject = getenv "VAPID_SUBJECT" "mailto:admin@sarvinshrivastava.space";
    claim_window = claim_window;
    otp_ttl = otp_ttl;
    session_secret = env "SESSION_SECRET";
    session_duration = session_duration;
    cookie_secure = not (getenv "RELAY_ENV" "production" == "development");
  }

abbrev if_missing : String → String → List String
if_missing key value = if value == "" then key ∷ [] else []

unfoldable pub missing : Config → List String
missing c =
    if_missing "TOTP_SECRET" c.totp_secret
    ++ if_missing "SESSION_SECRET" c.session_secret
    ++ if_missing "VAPID_PUBLIC_KEY" c.vapid_public_key
    ++ if_missing "VAPID_PRIVATE_KEY" c.vapid_private_key

unfoldable pub validate_config : Config → Loaded Config
unfolding missing
validate_config c = elim (missing c) [
  | key ∷ keys ↦ rejected (missing_config (key ∷ keys))
  | [] ↦ if ltb_ℤ c.otp_ttl (pos (30 * 10 ^ 9)) then rejected (ttl_too_low c.otp_ttl) else loaded c
]

unfoldable pub load : (String → String) → Loaded Config
unfolding getenv_duration read_config validate_config
load env = getenv_duration env "CLAIM_WINDOW_MS" (pos 7000) millisecond >>= λ claim_window.
    getenv_duration env "OTP_TTL_MS" (pos 120000) millisecond >>= λ otp_ttl.
    getenv_duration env "SESSION_DURATION_HOURS" (pos 24) hour >>= λ session_duration.
    validate_config (read_config env claim_window otp_ttl session_duration)
