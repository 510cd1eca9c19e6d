-- ===== src/Config/Tests.antt =====
-- A configuration by the defaults.
use otp_relay_backend.Base.{◌≡◌, refl, String, pos, ◌*ℤ◌, wrap64, ◌||◌, ◌==◌, if◌then◌else◌}
use otp_relay_backend.Config.{
  Config, loaded, load, read_config, validate_config, missing, getenv_int, getenv_duration,
}

-- Only the four secrets are set.
abbrev secrets_only : String → String
secrets_only key =
    if key == "TOTP_SECRET"
      || (key == "SESSION_SECRET" || (key == "VAPID_PUBLIC_KEY" || key == "VAPID_PRIVATE_KEY"))
    then "secret"
    else ""

abbrev by_default : Config
by_default = read_config secrets_only (pos 7000000000) (pos 120000000000) (pos 86400000000000)

load_test : load secrets_only ≡ loaded by_default
unfolding load getenv_duration getenv_int validate_config missing read_config wrap64 ◌*ℤ◌
load_test = refl
