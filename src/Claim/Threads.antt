-- ===== src/Claim/Threads.antt =====
-- internal/claim/claim.go as it runs: each call of Claim, and each timer that has fired, is a
-- goroutine of its own, and the goroutines take turns. One turn is one statement of the database or
-- one section under the lock `m.mu`, with what the goroutine does by itself after it.
pub mod Moves
pub mod Apart
pub mod Stages
pub mod Attended
pub mod Races
pub mod Early
pub mod Fair
pub mod Claimants
mod Tests
use otp_relay_backend.Base.{
  ℕ, String, pos, leb_ℤ, List, [], ◌∷◌, ◌++◌, ◌||◌, Option, none, some, lookup, remove, contains,
  get_elem?, set, if◌then◌else◌,
}
use mathlib.Core.Bool.{not}
use otp_relay_backend.Db.{Otp, claimed, invalidated, Result, ok, err, not_found, driver_error}
use otp_relay_backend.Db.Otps.{get_otp, set_otp_status, is_pending}
use otp_relay_backend.Push.{PushService}
use otp_relay_backend.Claim.{ClaimState, Manager}
use otp_relay_backend.Claim.Window.{
  now_millis, with_db, send, reject, send_invalidated, notify_all, open_window, close_window,
  is_past, payload_envelope, find_timer, stop, sweep,
}
use otp_relay_backend.Claim.Ingest.{ingest}

-- Where a goroutine stands, with the local variables that it still needs.
pub data Goroutine : Type 0 where
  -- `Claim`: before the lookup; before the lock, the row being pending and live when it was read.
  claiming entering : (claimant otp_id : String) → Goroutine
  -- `invalidate`: before the write; before the messages.
  killing telling : (otp_id : String) (claimants : List String) → Goroutine
  -- `resolve`: before the lock; before the lookup; before the write; before the payload is sent.
  resolving : (otp_id : String) → Goroutine
  reloading : (winner otp_id : String) → Goroutine
  marking handing : (winner otp_id : String) (o : Otp) → Goroutine
  finished : Goroutine

abbrev pub Turn : Type 0
Turn = Goroutine × Manager

-- `Claim` after its lookup.
unfoldable pub after_lookup : Result Otp → String → String → ℕ → Manager → Turn
unfolding reject send_invalidated
after_lookup (err not_found) claimant otp_id now m =
    (finished, reject claimant otp_id "otp not found" m)
after_lookup (err driver_error) claimant otp_id now m =
    (finished, reject claimant otp_id "internal error" m)
after_lookup (ok o) claimant otp_id now m =
    if is_past o now then (finished, reject claimant otp_id "otp expired" m) else elim o.status [
      | claimed ↦ (finished, reject claimant otp_id "otp already claimed" m)
      | invalidated ↦ (finished, send_invalidated claimant otp_id m)
      | _ ↦ (entering claimant otp_id, m)
    ]

-- `Claim` under the lock.
unfoldable pub enter : String → String → ℕ → Option ClaimState → Manager → Turn
unfolding open_window
enter claimant otp_id now none m = (finished, open_window claimant otp_id now m)
enter claimant otp_id now (some st) m =
    if contains st.claimants claimant
    then (finished, m)
    else (killing otp_id (st.claimants ++ claimant ∷ []), close_window otp_id st.timer m)

-- `resolve` after its locked section.
abbrev pub after_window : List String → String → Goroutine
after_window (winner ∷ []) otp_id = reloading winner otp_id
after_window claimants otp_id = killing otp_id claimants

-- `resolve` under the lock.
unfoldable pub take_window : String → Option ClaimState → Manager → Turn
take_window otp_id none m = (finished, m)
take_window otp_id (some st) m =
    (after_window st.claimants otp_id, record m { windows = remove otp_id m.windows })

-- `resolve` after its lookup.
unfoldable pub after_reload : Result Otp → String → String → ℕ → Manager → Turn
unfolding reject
after_reload (err e) winner otp_id now m = (finished, reject winner otp_id "internal error" m)
after_reload (ok o) winner otp_id now m =
    if not (is_pending o.status) || leb_ℤ o.expires_at (now_millis now)
    then (finished, reject winner otp_id "otp expired" m)
    else (marking winner otp_id o, m)

-- `resolve` after its write.
unfoldable pub after_mark : Result (Unit {0}) → String → String → Otp → Manager → Turn
unfolding reject
after_mark (err e) winner otp_id o m = (finished, reject winner otp_id "internal error" m)
after_mark (ok _) winner otp_id o m = (handing winner otp_id o, m)

unfoldable pub advance : Goroutine → ℕ → Manager → Turn
unfolding after_lookup enter take_window after_reload after_mark
advance (claiming claimant otp_id) now m =
    let loaded = get_otp otp_id m.db in
    after_lookup loaded.0 claimant otp_id now (with_db loaded.1 m)
advance (entering claimant otp_id) now m = enter claimant otp_id now (lookup otp_id m.windows) m
advance (killing otp_id claimants) now m =
    (telling otp_id claimants, with_db (set_otp_status otp_id invalidated none m.db).1 m)
advance (telling otp_id claimants) now m = (finished, notify_all claimants otp_id m)
advance (resolving otp_id) now m = take_window otp_id (lookup otp_id m.windows) m
advance (reloading winner otp_id) now m =
    let loaded = get_otp otp_id m.db in after_reload loaded.0 winner otp_id now (with_db loaded.1 m)
advance (marking winner otp_id o) now m =
    let written = set_otp_status otp_id claimed (some winner) m.db in
    after_mark written.0 winner otp_id o (with_db written.1 m)
advance (handing winner otp_id o) now m = (finished, send winner (payload_envelope otp_id o) m)
advance finished now m = (finished, m)

pub record System : Type 0 where
  pub manager : Manager
  pub running : List Goroutine

-- `arrives` is a new call of Claim; `fires` is a timer of the runtime, which starts its goroutine;
-- `turns` is a turn of the goroutine at that place. An ingestion is one turn: of what goroutines
-- share it touches the OTP's row alone, in one statement.
pub data Action : Type 0 where
  ingests : (id source_id ciphertext iv : String) → Action
  arrives : (claimant otp_id : String) → Action
  fires : (handle : ℕ) → Action
  sweeps : Action
  turns : (place : ℕ) → Action

abbrev pub start : Goroutine → System → System
start g s = record s { running = s.running ++ g ∷ [] }

unfoldable pub fire_timer : ℕ → ℕ → System → System
unfolding find_timer stop
fire_timer handle now s = elim (find_timer handle s.manager.timers) [
  | none ↦ s
  | some t ↦
      if leb_ℤ t.due (pos now)
      then start (resolving t.otp_id)
          (record s { manager = record s.manager { timers = stop handle s.manager.timers } })
      else s
]

unfoldable pub turn : ℕ → ℕ → System → System
unfolding advance
turn place now s = elim (get_elem? s.running place) [
  | none ↦ s
  | some g ↦
      let after = advance g now s.manager in
      record { manager = after.1; running = set s.running place after.0 }
]

module _ (service : PushService) where
  unfoldable pub act : ℕ × Action → System → System
  unfolding fire_timer turn
  act (now, ingests id source_id ciphertext iv) s = record s {
    manager = (ingest service id source_id ciphertext iv now s.manager).1;
  }
  act (now, arrives claimant otp_id) s = start (claiming claimant otp_id) s
  act (now, fires handle) s = fire_timer handle now s
  act (now, sweeps) s = record s { manager = sweep now s.manager }
  act (now, turns place) s = turn place now s

  unfoldable pub schedule : List (ℕ × Action) → System → System
  schedule [] s = s
  schedule (a ∷ as') s = schedule as' (act a s)

abbrev pub idle : Manager → System
idle m = record { manager = m; running = [] }
