-- ===== src/Relay/Start.antt =====
-- main.go: run and main, from the configuration to the shutdown, with Open of internal/db/db.go. What
-- they do is a list of deeds; SQLite, the HTTP server and the signals are inputs.
use otp_relay_backend.Base.{
  ℕ, String, ◌*◌, ◌^◌, Bool, List, [], ◌∷◌, ◌++◌, Option, none, some, if◌then◌else◌,
}
use Prim.Native.String
use otp_relay_backend.Db.{Db}
use otp_relay_backend.Ws.Hub.{Hub, new_hub}
use otp_relay_backend.Claim.{Manager, new}
use otp_relay_backend.Config.{Config, ConfigError, loaded, rejected, load}

-- SQLite: whether it opens a connection string, whether it answers a ping, and the tables that are
-- there when the schema has been applied, or an error.
pub record Driver : Type 0 where
  pub opens : String → Bool
  pub pings : String → Bool
  pub applies : String → Option Db

pub data OpenError : Type 0 where
  open_sqlite ping_sqlite apply_schema : OpenError

pub data Opened : Type 0 where
  opened : Db → Opened
  failed : OpenError → Opened

abbrev pub dsn : String → String
dsn path =
    String.◌++◌ "file:" (String.◌++◌ path "?_journal_mode=WAL&_busy_timeout=5000&_foreign_keys=on")

-- `Open`.
unfoldable pub open_db : Driver → String → Opened
open_db driver path =
    if driver.opens (dsn path)
    then (if driver.pings (dsn path)
        then elim (driver.applies (dsn path)) [ none ↦ failed apply_schema | some d ↦ opened d ]
        else failed ping_sqlite)
    else failed open_sqlite

abbrev pub expiry_sweep_interval : ℕ
expiry_sweep_interval = 30 * 10 ^ 9

-- What happens to things that outlive a statement. `fails` is the server's end by an error;
-- `shuts_down` is a call of Shutdown, which returns in time or not.
pub data Deed : Type 0 where
  opens_db : (path : String) → Deed
  starts_janitor : (interval : ℕ) → Deed
  serves : (address : String) → Hub → Manager → Deed
  fails : Deed
  shuts_down : (in_time : Bool) → Deed
  stops_janitor closes_db : Deed

-- What `select` receives: an error of the server, or a signal, after which the shutdown returns in
-- time or does not.
pub data Ending : Type 0 where
  server_fails : Ending
  signalled : (in_time : Bool) → Ending

pub data RunError : Type 0 where
  bad_config : ConfigError → RunError
  no_database : OpenError → RunError
  server_failed shutdown_failed : RunError

-- The end of `run`, before its deferred calls.
unfoldable pub await : Ending → List Deed × Option RunError
await server_fails = (fails ∷ [], some server_failed)
await (signalled in_time) =
    (shuts_down in_time ∷ [], if in_time then none else some shutdown_failed)

-- `run` with a database: the deferred calls come last, in reverse.
unfoldable pub run_with : Config → Db → Ending → List Deed × Option RunError
unfolding await
run_with c d ending =
    let ended = await ending in
    (
      opens_db c.db_path
            ∷ starts_janitor expiry_sweep_interval
            ∷ serves (String.◌++◌ ":" c.port) new_hub (new d c.claim_window c.otp_ttl)
            ∷ ended.0
          ++ stops_janitor ∷ closes_db ∷ [],
      ended.1,
    )

unfoldable pub run : (String → String) → Driver → Ending → List Deed × Option RunError
unfolding load open_db run_with
run env driver ending = elim (load env) [
  | rejected e ↦ ([], some (bad_config e))
  | loaded c ↦ elim (open_db driver c.db_path) [
    | failed e ↦ ([], some (no_database e))
    | opened d ↦ run_with c d ending
  ]
]

-- The exit status of `main`.
unfoldable pub exit_status : Option RunError → ℕ
exit_status none = 0
exit_status (some e) = 1
