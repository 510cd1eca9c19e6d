-- ===== src/Claim/Threads/Attended/Runs.antt =====
-- Every action of a schedule keeps each open window attended.
use otp_relay_backend.Base.{
  ℕ, ◌≤◌, ◌≡◌, refl, ◌⊎◌, inl, inr, String, ℤ, pos, leb_ℤ, List, [], ◌∷◌, ◌++◌, none, some, arith,
  Bool-cases, Option-cases, lookup, total, total-append,
}
use otp_relay_backend.Db.{Db}
use otp_relay_backend.Db.Otps.{insert_otp}
use otp_relay_backend.Push.{PushService}
use otp_relay_backend.Claim.{ClaimState, Timer, Manager, new}
use otp_relay_backend.Claim.Window.{with_db, find_timer, stop, sweep}
use otp_relay_backend.Claim.Ingest.{new_otp, ingest, dispatch_push}
use otp_relay_backend.Claim.Threads.{
  Goroutine, claiming, resolving, System, Action, ingests, arrives, fires, sweeps, turns, start,
  fire_timer, act, schedule, idle,
}
use otp_relay_backend.Claim.Threads.Attended.{Attended, quiet-Attended, fired-Attended}
use otp_relay_backend.Claim.Threads.Attended.Turns.{comes, table_of, table, IsSame, turn-Attended}

start-Attended : (g : Goroutine) (s : System) → Attended (table s) → Attended (table (start g s))
start-Attended g s a =
    quiet-Attended (table s) a (table (start g s)) refl refl refl
      (λ j. omega (arith, total-append (comes j) s.running (g ∷ [])))

fire_timer-Attended :
    (handle now : ℕ) (s : System) → Attended (table s) → Attended (table (fire_timer handle now s))
unfolding fire_timer
fire_timer-Attended handle now s a = elim (Option-cases (find_timer handle s.manager.timers)) [
  | inl e ↦ rw (e, fire_timer) a
  | inr (t, e) ↦ elim (Bool-cases (leb_ℤ t.due (pos now))) [
    | inl due ↦
        rw (e, due, fire_timer)
          (fired-Attended (table s) a
            (table_of (record s.manager { timers = stop handle s.manager.timers })
              (λ j. total (comes j) (s.running ++ resolving t.otp_id ∷ [])))
            handle t e refl refl refl
            (λ j. omega (arith, total-append (comes j) s.running (resolving t.otp_id ∷ []))))
    | inr early ↦ rw (e, early, fire_timer) a
  ]
]

dispatch_push-IsSame :
    (service : PushService) (id : String) (m : Manager) → IsSame m (dispatch_push service id m)
unfolding dispatch_push
dispatch_push-IsSame service id m = ground arith

ingest-IsSame :
    (service : PushService) (id source_id ciphertext iv : String) (now : ℕ) (m : Manager)
    → IsSame m (ingest service id source_id ciphertext iv now m).1
unfolding ingest
ingest-IsSame service id source_id ciphertext iv now m =
    let stored = insert_otp (new_otp id source_id ciphertext iv now m.ttl) m.db in
    ground (arith, dispatch_push-IsSame service id (with_db stored.1 m))

module _ (service : PushService) where
  act-Attended :
      (a : ℕ × Action) (s : System) → Attended (table s) → Attended (table (act service a s))
  unfolding act sweep
  act-Attended (now, ingests id source_id ciphertext iv) s a =
      let m' = (ingest service id source_id ciphertext iv now s.manager).1 in
      let (w, t, n) = ingest-IsSame service id source_id ciphertext iv now s.manager in
      quiet-Attended (table s) a (table_of m' (λ j. total (comes j) s.running)) w t n
        (λ j. omega arith)
  act-Attended (now, arrives claimant otp_id) s a = start-Attended (claiming claimant otp_id) s a
  act-Attended (now, fires handle) s a = fire_timer-Attended handle now s a
  act-Attended (now, sweeps) s a =
      quiet-Attended (table s) a (table_of (sweep now s.manager) (λ j. total (comes j) s.running))
        refl refl refl (λ j. omega arith)
  act-Attended (now, turns place) s a = turn-Attended place now s a

  schedule-Attended :
      (as' : List (ℕ × Action)) (s : System)
      → Attended (table s)
      → Attended (table (schedule service as' s))
  unfolding schedule
  schedule-Attended [] s a = a
  schedule-Attended (a ∷ as') s before =
      schedule-Attended as' (act service a s) (act-Attended a s before)

  idle-Attended : (db : Db) (window ttl : ℤ) → Attended (table (idle (new db window ttl)))
  unfolding find_timer lookup
  idle-Attended db window ttl = record {
    awaited = λ j st e. let closed : none ≡ some st = e in absurd (ground arith);
    known = λ j st e. let closed : none ≡ some st = e in absurd (ground arith);
    fresh = λ h le. refl;
  }

  -- A window is never stranded: after any schedule of a new coordinator's goroutines, if a window
  -- is open, either its timer is armed, for the window's OTP, or a goroutine is running that has
  -- still to take the lock of `resolve` for the OTP.
  pub never_stranded :
      (db : Db) (window ttl : ℤ) (as' : List (ℕ × Action)) (j : String) (st : ClaimState)
      → let s = schedule service as' (idle (new db window ttl)) in
        lookup j s.manager.windows ≡ some st
        → ((t : Timer) × (find_timer st.timer s.manager.timers ≡ some t) × (t.otp_id ≡ j))
          ⊎ (1 ≤ total (comes j) s.running)
  never_stranded db window ttl as' j st e =
      let a = schedule-Attended as' (idle (new db window ttl)) (idle-Attended db window ttl) in
      elim (a.awaited j st e) [ inl armed ↦ inl armed | inr (gone, one) ↦ inr one ]
