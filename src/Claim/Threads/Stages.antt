-- ===== src/Claim/Threads/Stages.antt =====
-- Stretches of a schedule: a claim that opens a window, a timer whose goroutine comes up to the
-- write, and the write with the sending of the payload.
use otp_relay_backend.Base.{
  ℕ, ◌≡◌, refl, ap, ◌∙◌, String, pos, leb_ℤ, List, [], ◌∷◌, ◌++◌, true, none, some, arith, lookup,
  false, ◌==◌, remove, length, get_elem?, set, get_elem?-append, set-append,
}
use otp_relay_backend.Db.{Otp, claimed}
use otp_relay_backend.Db.Otps.{get_otp, set_otp_status}
use otp_relay_backend.Db.Otps.Laws.{row, set_otp_status_runs}
use otp_relay_backend.Push.{PushService}
use otp_relay_backend.Claim.{Timer, Manager}
use otp_relay_backend.Claim.Window.{with_db, open_window, close_window, find_timer, stop}
use otp_relay_backend.Claim.Scenarios.{IsReady, IsLive}
use otp_relay_backend.Claim.Threads.{
  Goroutine, claiming, entering, killing, enter, resolving, reloading, marking, handing, finished,
  advance, after_lookup, after_reload, after_mark, System, Action, arrives, fires, turns, start,
  fire_timer, turn, act, schedule,
}

-- A claim, and two turns of its goroutine.
abbrev pub opening : String → String → ℕ → ℕ → List (ℕ × Action)
opening j c now place = (now, arrives c j) ∷ (now, turns place) ∷ (now, turns place) ∷ []

-- A timer that fires, and two turns of its goroutine.
abbrev pub taking : ℕ → ℕ → ℕ → List (ℕ × Action)
taking h now place = (now, fires h) ∷ (now, turns place) ∷ (now, turns place) ∷ []

-- The manager after the timer has fired and the window was taken.
abbrev pub taken_by : String → ℕ → Manager → Manager
taken_by j h m = record m { timers = stop h m.timers; windows = remove j m.windows }

-- The manager after the row was marked as claimed.
abbrev pub marked_by : String → String → Manager → Manager
marked_by j c m = with_db (set_otp_status j claimed (some c) m.db).1 m

module _ (j : String) (o : Otp) (c : String) (now : ℕ) (m : Manager) where
  pub advance-claiming :
      IsReady m j o → IsLive o now → advance (claiming c j) now m ≡ (entering c j, m)
  unfolding advance get_otp after_lookup
  advance-claiming r live = ground arith

  pub advance-entering :
      lookup j m.windows ≡ none → advance (entering c j) now m ≡ (finished, open_window c j now m)
  unfolding advance
  advance-entering e = rw (e, advance)

  -- A second claim closes the window.
  pub advance-second :
      (a : String) (h : ℕ)
      → lookup j m.windows ≡ some (record { claimants = a ∷ []; timer = h })
      → (a == c) ≡ false
      → advance (entering c j) now m ≡ (killing j (a ∷ c ∷ []), close_window j h m)
  unfolding advance enter
  advance-second a h e other = ground arith

  pub advance-resolving :
      (h : ℕ)
      → lookup j m.windows ≡ some (record { claimants = c ∷ []; timer = h })
      → advance (resolving j) now m ≡ (reloading c j, record m { windows = remove j m.windows })
  unfolding advance
  advance-resolving h e = rw (e, advance)

  pub advance-reloading :
      IsReady m j o → IsLive o now → advance (reloading c j) now m ≡ (marking c j o, m)
  unfolding advance get_otp after_reload
  advance-reloading r live = ground arith

  pub advance-marking :
      (p : Otp)
      → m.db.replies ≡ []
      → row j m.db ≡ some p
      → advance (marking c j o) now m ≡ (handing c j o, marked_by j c m)
  unfolding advance after_mark
  advance-marking p answers stored =
      let (done, found, quiet) = set_otp_status_runs j claimed (some c) m.db p answers stored in
      rw (done, after_mark)

pub turn_lem :
    (place now : ℕ) (s : System) (g g' : Goroutine) (m' : Manager)
    → get_elem? s.running place ≡ some g
    → advance g now s.manager ≡ (g', m')
    → turn place now s ≡ record { manager = m'; running = set s.running place g' }
unfolding turn
turn_lem place now s g g' m' e f = rw (e, f, turn)

-- A turn of the goroutine that was started last.
turn_last :
    (now : ℕ) (m : Manager) (xs : List Goroutine) (g g' : Goroutine) (m' : Manager)
    → advance g now m ≡ (g', m')
    → turn (length xs) now (record { manager = m; running = xs ++ g ∷ [] })
      ≡ record { manager = m'; running = xs ++ g' ∷ [] }
turn_last now m xs g g' m' f =
    turn_lem (length xs) now _ g g' m' (get_elem?-append xs g []) f
    ∙ ap (λ r. record { manager = m'; running = r }) (set-append xs g g' [])

pub fire_timer_lem :
    (h now : ℕ) (s : System) (tm : Timer)
    → find_timer h s.manager.timers ≡ some tm
    → leb_ℤ tm.due (pos now) ≡ true
    → fire_timer h now s
      ≡ start
          (resolving tm.otp_id)
          (record s { manager = record s.manager { timers = stop h s.manager.timers } })
unfolding fire_timer
fire_timer_lem h now s tm armed due = rw (armed, due, fire_timer)

module _ (service : PushService) where
  pub by_act :
      (a : ℕ × Action) (later : List (ℕ × Action)) (s : System) {t u : System}
      → act service a s ≡ t
      → schedule service later t ≡ u
      → schedule service (a ∷ later) s ≡ u
  unfolding schedule
  by_act a later s e f = ap (schedule service later) e ∙ f

  pub done : (s : System) → schedule service [] s ≡ s
  unfolding schedule
  done s = refl

  module _ (j : String) (o : Otp) (c : String) (now : ℕ) (m : Manager) (xs : List Goroutine)
      (r : IsReady m j o) (live : IsLive o now) where
    pub schedule-opening :
        lookup j m.windows ≡ none
        → schedule service (opening j c now (length xs)) (record { manager = m; running = xs })
          ≡ record { manager = open_window c j now m; running = xs ++ finished ∷ [] }
    unfolding act
    schedule-opening e =
        by_act (now, arrives c j) _ _ refl
          (by_act (now, turns (length xs)) _ _
            (turn_last now m xs (claiming c j) (entering c j) m
              (advance-claiming j o c now m r live))
            (by_act (now, turns (length xs)) _ _
              (turn_last now m xs (entering c j) finished (open_window c j now m)
                (advance-entering j o c now m e))
              (done _)))

    pub schedule-taking :
        (h : ℕ) (tm : Timer)
        → find_timer h m.timers ≡ some tm
        → tm.otp_id ≡ j
        → leb_ℤ tm.due (pos now) ≡ true
        → lookup j m.windows ≡ some (record { claimants = c ∷ []; timer = h })
        → schedule service (taking h now (length xs)) (record { manager = m; running = xs })
          ≡ record { manager = taken_by j h m; running = xs ++ marking c j o ∷ [] }
    unfolding act
    schedule-taking h tm armed mine due e =
        let fired = record m { timers = stop h m.timers } in
        by_act (now, fires h) _ _
          (fire_timer_lem h now (record { manager = m; running = xs }) tm armed due
            ∙ ap (λ id. start (resolving id) (record { manager = fired; running = xs })) mine)
          (by_act (now, turns (length xs)) _ _
            (turn_last now fired xs (resolving j) (reloading c j) (taken_by j h m)
              (advance-resolving j o c now fired h e))
            (by_act (now, turns (length xs)) _ _
              (turn_last now (taken_by j h m) xs (reloading c j) (marking c j o) (taken_by j h m) (
                advance-reloading j o c now (taken_by j h m)
                  (record { answers = r.answers; stored = r.stored; is_pending = r.is_pending })
                  live))
              (done _)))
