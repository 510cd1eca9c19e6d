-- ===== src/Claim/Threads/Early.antt =====
-- What goes wrong when `resolve` of internal/claim/claim.go is late for its own window: it looks the
-- window up by the OTP alone, so that it takes one that was opened since.
use otp_relay_backend.Base.{
  ℕ, suc, none, ◌+ℤ◌, ◌≤ℤ◌, le→leb_ℤ, arith, ◌≡◌, leb_ℤ, refl, ap, ◌∙◌, String, pos, List, [], ◌∷◌,
  ◌++◌, some, true, false, ◌==◌, lookup, remove, lookup-remove, eq_refl,
}
use otp_relay_backend.Db.{Otp}
use otp_relay_backend.Push.{PushService}
use otp_relay_backend.Claim.{Timer, Manager}
use otp_relay_backend.Claim.Window.{open_window, close_window, find_timer, stop}
use otp_relay_backend.Claim.Effect.{recipients}
use otp_relay_backend.Claim.Scenarios.{IsReady-open_window, IsReady, IsLive, lookup-open_window}
use otp_relay_backend.Claim.Threads.{
  Goroutine, claiming, entering, killing, resolving, reloading, marking, finished, System, Action,
  arrives, fires, turns, start, act, schedule, idle,
}
use otp_relay_backend.Claim.Threads.Stages.{
  advance-claiming, advance-entering, advance-second, advance-resolving, advance-reloading,
  turn_lem, fire_timer_lem, by_act, done, opening, schedule-opening,
}
use otp_relay_backend.Claim.Threads.Races.{schedule-append, sending, sent_by, schedule-sending}

-- Two further devices claim in the window, and come up to the lock.
abbrev joining : String → String → String → ℕ → List (ℕ × Action)
joining j b c second =
    (second, arrives b j) ∷ (second, turns 1) ∷ (second, arrives c j) ∷ (second, turns 2) ∷ []

-- The window's timer fires; the second device closes the window, the third opens another; and the
-- goroutine of the timer takes that.
abbrev crossing : ℕ → ℕ → List (ℕ × Action)
crossing h due =
    (due, fires h) ∷ (due, turns 1) ∷ (due, turns 2) ∷ (due, turns 3) ∷ (due, turns 3) ∷ []

abbrev pub early : String → String → String → String → ℕ → ℕ → ℕ → Manager → List (ℕ × Action)
early j a b c first second due m =
    opening j a first 0 ++ joining j b c second ++ crossing m.next_timer due ++ sending due 3

abbrev among : Manager → List Goroutine → System
among m xs = record { manager = m; running = xs }

abbrev waiting : Manager → String → String → String → System
waiting m j b c = among m (finished ∷ entering b j ∷ entering c j ∷ [])

-- The second device has closed the window.
abbrev shut_by : String → ℕ → Manager → Manager
shut_by j h m = close_window j h (record m { timers = stop h m.timers })

abbrev reopened_by : String → String → ℕ → ℕ → Manager → Manager
reopened_by j c h due m = open_window c j due (shut_by j h m)

abbrev crossed_by : String → String → ℕ → ℕ → Manager → Manager
crossed_by j c h due m = record (reopened_by j c h due m) {
  windows = remove j (reopened_by j c h due m).windows;
}

module _ (service : PushService) (j : String) (o : Otp) (a b c : String) (m : Manager) where
  schedule-joining :
      (second : ℕ)
      → IsReady m j o
      → IsLive o second
      → schedule service (joining j b c second) (record { manager = m; running = finished ∷ [] })
        ≡ waiting m j b c
  unfolding act
  schedule-joining second r live =
      by_act service (second, arrives b j) _ _ refl
        (by_act service (second, turns 1) _ _
          (turn_lem 1 second (among m (finished ∷ claiming b j ∷ [])) (claiming b j) (entering b j)
            m refl (advance-claiming j o b second m r live))
          (by_act service (second, arrives c j) _ _ refl
            (by_act service (second, turns 2) _ _
              (turn_lem 2 second (among m (finished ∷ entering b j ∷ claiming c j ∷ []))
                (claiming c j) (entering c j) m refl (advance-claiming j o c second m r live))
              (done service _))))

  schedule-crossing :
      (h due : ℕ) (tm : Timer)
      → IsReady m j o
      → IsLive o due
      → (a == b) ≡ false
      → find_timer h m.timers ≡ some tm
      → tm.otp_id ≡ j
      → leb_ℤ tm.due (pos due) ≡ true
      → lookup j m.windows ≡ some (record { claimants = a ∷ []; timer = h })
      → schedule service (crossing h due) (waiting m j b c) ≡ record {
        manager = crossed_by j c h due m;
        running = finished ∷ killing j (a ∷ b ∷ []) ∷ finished ∷ marking c j o ∷ [];
      }
  unfolding act open_window
  schedule-crossing h due tm r live other armed mine over e =
      let fired = record m { timers = stop h m.timers } in
      let shut = shut_by j h m in
      let kill = killing j (a ∷ b ∷ []) in
      let opened = reopened_by j c h due m in
      by_act service (due, fires h) _ _
        (fire_timer_lem h due (waiting m j b c) tm armed over
          ∙ ap (λ id. start (resolving id) (record (waiting m j b c) { manager = fired })) mine)
        (by_act service (due, turns 1) _ _
          (turn_lem 1 due (among fired (finished ∷ entering b j ∷ entering c j ∷ resolving j ∷ []))
            (entering b j) kill shut refl (advance-second j o b due fired a h e other))
          (by_act service (due, turns 2) _ _
            (turn_lem 2 due (among shut (finished ∷ kill ∷ entering c j ∷ resolving j ∷ []))
              (entering c j) finished opened refl
              (advance-entering j o c due shut (lookup-remove j j m.windows ∙ rw (eq_refl j))))
            (by_act service (due, turns 3) _ _
              (turn_lem 3 due (among opened (finished ∷ kill ∷ finished ∷ resolving j ∷ []))
                (resolving j) (reloading c j) (crossed_by j c h due m) refl
                (advance-resolving j o c due opened shut.next_timer
                  (lookup-open_window c j due shut)))
              (by_act service (due, turns 3) _ _
                (turn_lem 3 due
                  (among (crossed_by j c h due m) (finished ∷ kill ∷ finished ∷ reloading c j ∷ []))
                  (reloading c j) (marking c j o) (crossed_by j c h due m) refl
                  (advance-reloading j o c due (crossed_by j c h due m)
                    (record { answers = r.answers; stored = r.stored; is_pending = r.is_pending })
                    live))
                (done service _)))))

module _ (service : PushService) (j : String) (o : Otp) (a b c : String) (first second due : ℕ)
    (m : Manager) where
  abbrev window_of_a : Manager
  window_of_a = open_window a j first m

  abbrev sent_early : Manager
  sent_early = sent_by j c o (crossed_by j c m.next_timer due window_of_a)

  schedule-early :
      IsReady m j o
      → lookup j m.windows ≡ none
      → (a == b) ≡ false
      → IsLive o first
      → IsLive o second
      → IsLive o due
      → pos first +ℤ m.window ≤ℤ pos due
      → schedule service (early j a b c first second due m) (idle m)
        ≡ among sent_early (finished ∷ killing j (a ∷ b ∷ []) ∷ finished ∷ finished ∷ [])
  unfolding open_window find_timer
  schedule-early r e other l l' l'' over =
      let tm : Timer = record { handle = m.next_timer; otp_id = j; due = pos first +ℤ m.window } in
      let r1 = IsReady-open_window a first r in
      let kill = killing j (a ∷ b ∷ []) in
      schedule-append service (opening j a first 0) _ (idle m)
      ∙ ap (schedule service (joining j b c second ++ crossing m.next_timer due ++ sending due 3))
          (schedule-opening service j o a first m [] r l e)
      ∙ schedule-append service (joining j b c second) _ (among window_of_a (finished ∷ []))
      ∙ ap (schedule service (crossing m.next_timer due ++ sending due 3))
          (schedule-joining service j o a b c window_of_a second r1 l')
      ∙ schedule-append service (crossing m.next_timer due) _ (waiting window_of_a j b c)
      ∙ ap (schedule service (sending due 3)) (
          schedule-crossing service j o a b c window_of_a m.next_timer due tm r1 l'' other
            (ground arith) refl (le→leb_ℤ (pos first +ℤ m.window) (pos due) over)
            (lookup-open_window a j first m))
      ∙ schedule-sending service j o o c due
          (among (crossed_by j c m.next_timer due window_of_a)
            (finished ∷ kill ∷ finished ∷ marking c j o ∷ []))
          3 r.answers r.stored refl

  -- A third device gets the payload at once, although two other devices have claimed the OTP in one
  -- window: the goroutine of that window's timer finds the window that the third device has opened
  -- since, and the second device's goroutine has not written the invalidation yet. The timer of the
  -- third device's window is still armed when its payload is sent. Before, the database answers, the
  -- OTP is stored as pending and has no window; the first two devices differ, the OTP is live at
  -- every reading of the clock, and the first window is over when its timer fires.
  pub early_delivery :
      IsReady m j o
      → lookup j m.windows ≡ none
      → (a == b) ≡ false
      → IsLive o first
      → IsLive o second
      → IsLive o due
      → pos first +ℤ m.window ≤ℤ pos due
      → let after = (schedule service (early j a b c first second due m) (idle m)).manager in
        (recipients j after.sent ≡ c ∷ recipients j m.sent)
        × (find_timer (suc m.next_timer) after.timers
            ≡ some (record { handle = suc m.next_timer; otp_id = j; due = pos due +ℤ m.window }))
  unfolding recipients open_window find_timer
  early_delivery r e other l l' l'' over =
      let run = schedule-early r e other l l' l'' over in
      (
        ap (λ s. recipients j s.manager.sent) run ∙ rw (eq_refl j),
        ap (λ s. find_timer (suc m.next_timer) s.manager.timers) run ∙ ground arith,
      )
