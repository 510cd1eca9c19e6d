-- ===== src/Claim.antt =====
-- internal/claim/claim.go: the coordinator. One call of a handler is one step here: `now` is the
-- clock, in nanoseconds, that the handler reads.
pub mod Window
pub mod Ingest
pub mod Step
pub mod Janitor
pub mod Motion
pub mod Armed
pub mod Effect
pub mod Safety
pub mod History
pub mod Scenarios
pub mod Faults
pub mod Log
pub mod Secrecy
pub mod Contract
pub mod Overlong
pub mod Starved
pub mod Threads
mod Tests
use otp_relay_backend.Base.{ℕ, String, ℤ, List, []}
use otp_relay_backend.Db.{Db}
use otp_relay_backend.Push.{Signal}
use otp_relay_backend.Ws.{Envelope}

-- `timer` is the handle of the runtime's timer.
pub record ClaimState : Type 0 where
  pub claimants : List String
  pub timer : ℕ

-- A timer of the runtime that has not fired: it runs `resolve` of an OTP id from `due` on.
pub record Timer : Type 0 where
  pub handle : ℕ
  pub otp_id : String
  pub due : ℤ

-- `sent` holds what went to the `Sender`, `pushed` what went to the push service, the newest first.
-- `windows` is the field `pending` of the source.
pub record Manager : Type 0 where
  pub db : Db
  pub window : ℤ
  pub ttl : ℤ
  pub windows : List (String × ClaimState)
  pub timers : List Timer
  pub next_timer : ℕ
  pub sent : List (String × Envelope)
  pub pushed : List (String × Signal)

abbrev pub new : Db → ℤ → ℤ → Manager
new db window ttl = record {
  db = db;
  window = window;
  ttl = ttl;
  windows = [];
  timers = [];
  next_timer = 0;
  sent = [];
  pushed = [];
}
