-- ===== src/Relay/Lifecycle.antt =====
-- What main.go promises of a run of the relay, whatever fails.
use otp_relay_backend.Base.{
  ◌≡◌, ◌⊎◌, String, Bool, true, false, List, [], ◌∷◌, Option, none, some, All,
}
use Prim.Native.String
use otp_relay_backend.Ws.Hub.{new_hub}
use otp_relay_backend.Claim.{Manager, new}
use otp_relay_backend.Config.{Config, loaded, load}
use otp_relay_backend.Config.Limits.{IsSafe, IsUnsafe}
use otp_relay_backend.Db.{Db}
use otp_relay_backend.Relay.Start.{
  Driver, dsn, Deed, opens_db, starts_janitor, serves, fails, shuts_down, stops_janitor, closes_db,
  Ending, server_fails, signalled, RunError, exit_status,
}

-- What is up: nothing; the database; the janitor too; the server too, which takes connections.
pub data Phase : Type 0 where
  down open_ sweeping serving : Phase

-- The order in which things may go up and down.
abbrev pub next : Phase → Deed → Option Phase
next down (opens_db path) = some open_
next open_ (starts_janitor interval) = some sweeping
next open_ closes_db = some down
next sweeping (serves address h m) = some serving
next sweeping stops_janitor = some open_
next serving fails = some sweeping
next serving (shuts_down in_time) = some sweeping
next _ _ = none

abbrev pub replay : Phase → List Deed → Option Phase
replay p [] = some p
replay p (d ∷ ds) = elim (next p d) [ none ↦ none | some q ↦ replay q ds ]

-- SQLite opens the file, answers, and has applied the schema, with these tables.
abbrev pub Accepts : Driver → String → Db → Type 0
Accepts driver path d =
    (driver.opens (dsn path) ≡ true)
    × (driver.pings (dsn path) ≡ true)
    × (driver.applies (dsn path) ≡ some d)

abbrev pub Refuses : Driver → String → Type 0
Refuses driver path =
    (driver.opens (dsn path) ≡ false)
    ⊎ (driver.pings (dsn path) ≡ false)
    ⊎ (driver.applies (dsn path) ≡ none)

-- What is served is a fresh hub and a fresh coordinator, by a configuration that has loaded and on the
-- database that it names.
pub record IsConfigured (env : String → String) (driver : Driver) (address : String) (m : Manager)
    : Type 0 where
  pub config : Config
  pub is_loaded : load env ≡ loaded config
  pub is_safe : IsSafe env config
  pub accepts : Accepts driver config.db_path m.db
  pub listens : address ≡ String.◌++◌ ":" config.port
  pub is_new : m ≡ new m.db config.claim_window config.otp_ttl

abbrev pub IsServed : (String → String) → Driver → Deed → Type 0
IsServed env driver (serves address h m) = IsConfigured env driver address m × (h ≡ new_hub)
IsServed env driver _ = Unit

-- How the server's time has ended, by the deeds: it was never up, it failed, or it was shut down.
pub data Close : Type 0 where
  unserved broken : Close
  shut : (in_time : Bool) → Close

abbrev pub close_of : List Deed → Close
close_of [] = unserved
close_of (fails ∷ ds) = broken
close_of (shuts_down in_time ∷ ds) = shut in_time
close_of (_ ∷ ds) = close_of ds

-- The relay cannot come up.
abbrev pub CannotStart : (String → String) → Driver → Type 0
CannotStart env driver =
    IsUnsafe env ⊎ ((c : Config) × (load env ≡ loaded c) × Refuses driver c.db_path)

-- How the relay ends, with the exit status of each way.
pub data Exit (env : String → String) (driver : Driver) (ending : Ending) (ds : List Deed)
    (e : Option RunError) : Type 0 where
  before :
      CannotStart env driver
      → close_of ds ≡ unserved
      → exit_status e ≡ 1
      → Exit env driver ending ds e
  by_error :
      ending ≡ server_fails → close_of ds ≡ broken → exit_status e ≡ 1 → Exit env driver ending ds e
  too_slow :
      ending ≡ signalled false
      → close_of ds ≡ shut false
      → exit_status e ≡ 1
      → Exit env driver ending ds e
  clean :
      ending ≡ signalled true
      → close_of ds ≡ shut true
      → exit_status e ≡ 0
      → Exit env driver ending ds e

abbrev pub Orderly : (String → String) → Driver → Ending → List Deed × Option RunError → Type 0
Orderly env driver ending r =
    (replay down r.0 ≡ some down) × All (IsServed env driver) r.0 × Exit env driver ending r.0 r.1
