-- ===== src/Ws/Handler.antt =====
-- internal/ws/handler.go: the upgrade of a request to a connection of the hub.
pub mod Gate
mod Tests
use otp_relay_backend.Base.{ℕ, String, Bool, ◌==◌, if◌then◌else◌}
use otp_relay_backend.Db.{Db, not_found}
use otp_relay_backend.Registry.{accepted, refused, database, revoked, RegistryError, authenticate}
use otp_relay_backend.Ws.Hub.{Hub, Outcome, returns, ◌>>=◌, connect}

-- How the request ends: with an error of this status and text; with an error that the upgrader has
-- written; or as a connection, whose pumps are started.
pub data Upgraded : Type 0 where
  http_error : ℕ → String → Upgraded
  upgrade_failed : Upgraded
  connected : ℕ → Upgraded

abbrev pub auth_error : RegistryError → Upgraded
auth_error (database not_found) = http_error 401 "unknown token"
auth_error revoked = http_error 403 "device revoked"
auth_error _ = http_error 500 "auth error"

-- `upgrades` is whether the upgrader succeeds.
unfoldable pub serve_http : String → Bool → Db → Hub → Outcome (Upgraded × Db × Hub)
unfolding authenticate connect
serve_http token upgrades d h =
    if token == ""
    then returns (http_error 401 "missing token", d, h)
    else let found = authenticate token d in
      elim found.0 [
        | refused e ↦ returns (auth_error e, found.1, h)
        | accepted dev ↦
            if upgrades
            then (connect dev.id dev.type h >>= λ r. returns (connected r.0, found.1, r.1))
            else returns (upgrade_failed, found.1, h)
      ]
