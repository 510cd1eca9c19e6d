-- ===== src/Claim/Threads/Races.antt =====
-- What goes wrong when goroutines of the coordinator overlap: the write of resolve in
-- internal/claim/claim.go is not conditional on the status that it has read.
use otp_relay_backend.Base.{
  ℕ, suc, ◌≡◌, refl, ap, ◌∙◌, String, pos, ◌+ℤ◌, ◌≤ℤ◌, le→leb_ℤ, List, [], ◌∷◌, ◌++◌, none, some,
  arith, lookup, lookup-remove, eq_refl, length, length-append, get_elem?, get_elem?-set, set,
}
use otp_relay_backend.Db.{Otp, claimed}
use otp_relay_backend.Db.Otps.Laws.{row, set_otp_status_runs}
use otp_relay_backend.Push.{PushService}
use otp_relay_backend.Claim.{Timer, Manager}
use otp_relay_backend.Claim.Window.{open_window, find_timer, send, payload_envelope}
use otp_relay_backend.Claim.Effect.{recipients}
use otp_relay_backend.Claim.Scenarios.{IsReady, IsLive, IsReady-open_window, lookup-open_window}
use otp_relay_backend.Claim.Threads.{
  Goroutine, marking, handing, finished, advance, System, Action, turns, act, schedule, idle,
}
use otp_relay_backend.Claim.Threads.Stages.{
  marked_by, advance-marking, turn_lem, by_act, done, opening, schedule-opening, taking, taken_by,
  schedule-taking,
}

module _ (service : PushService) where
  pub schedule-append :
      (as' bs : List (ℕ × Action)) (s : System)
      → schedule service (as' ++ bs) s ≡ schedule service bs (schedule service as' s)
  unfolding schedule
  schedule-append [] bs s = refl
  schedule-append (a ∷ as') bs s = schedule-append as' bs (act service a s)

-- A claim opens a window, and when that is over, its goroutine comes up to the write.
abbrev coming : String → String → ℕ → ℕ → ℕ → ℕ → List (ℕ × Action)
coming j c first due place h = opening j c first place ++ taking h due (suc place)

abbrev came_by : String → String → ℕ → Manager → Manager
came_by j c first m = taken_by j m.next_timer (open_window c j first m)

module _ (service : PushService) (j : String) (o : Otp) (c : String) (first due : ℕ) (m : Manager)
    (xs : List Goroutine) where
  schedule-coming :
      IsReady m j o
      → IsLive o first
      → IsLive o due
      → pos first +ℤ m.window ≤ℤ pos due
      → lookup j m.windows ≡ none
      → schedule service
          (coming j c first due (length xs) m.next_timer)
          (record { manager = m; running = xs })
        ≡ record {
          manager = came_by j c first m;
          running = (xs ++ finished ∷ []) ++ marking c j o ∷ [];
        }
  unfolding find_timer open_window
  schedule-coming r live live' over e =
      let tm : Timer = record { handle = m.next_timer; otp_id = j; due = pos first +ℤ m.window } in
      schedule-append service (opening j c first (length xs))
        (taking m.next_timer due (suc (length xs))) _
      ∙ ap (schedule service (taking m.next_timer due (suc (length xs))))
          (schedule-opening service j o c first m xs r live e)
      ∙ ap
          (λ n.
            schedule service (taking m.next_timer due n)
              (record { manager = open_window c j first m; running = xs ++ finished ∷ [] }))
          (omega (arith, length-append xs (finished ∷ [])))
      ∙ schedule-taking service j o c due (open_window c j first m) (xs ++ finished ∷ [])
          (IsReady-open_window c first r) live' m.next_timer tm (ground arith) refl
          (le→leb_ℤ (pos first +ℤ m.window) (pos due) over) (lookup-open_window c j first m)

  IsReady-came_by : IsReady m j o → IsReady (came_by j c first m) j o
  unfolding open_window
  IsReady-came_by r = record { answers = r.answers; stored = r.stored; is_pending = r.is_pending }

  lookup-came_by : lookup j (came_by j c first m).windows ≡ none
  lookup-came_by = lookup-remove j j (open_window c j first m).windows ∙ rw (eq_refl j)

-- The write, and the sending of the payload.
abbrev pub sending : ℕ → ℕ → List (ℕ × Action)
sending now place = (now, turns place) ∷ (now, turns place) ∷ []

abbrev pub sent_by : String → String → Otp → Manager → Manager
sent_by j c o m = send c (payload_envelope j o) (marked_by j c m)

module _ (service : PushService) (j : String) (o p : Otp) (c : String) (now : ℕ) (s : System)
    (place : ℕ) where
  pub schedule-sending :
      s.manager.db.replies ≡ []
      → row j s.manager.db ≡ some p
      → get_elem? s.running place ≡ some (marking c j o)
      → schedule service (sending now place) s ≡ record {
        manager = sent_by j c o s.manager;
        running = set (set s.running place (handing c j o)) place finished;
      }
  unfolding act advance
  schedule-sending answers stored e =
      by_act service (now, turns place) _ _
        (turn_lem place now s (marking c j o) (handing c j o) (marked_by j c s.manager) e
          (advance-marking j o c now s.manager p answers stored))
        (by_act service (now, turns place) _ _
          (turn_lem place now _ (handing c j o) finished (sent_by j c o s.manager)
            (get_elem?-set s.running place (marking c j o) (handing c j o) e) refl)
          (done service _))

-- A first claimant's window is over, and its goroutine stands before the write; a second claimant
-- opens a window of its own, gets the payload; and then the first goroutine goes on.
abbrev pub overtaking : String → String → String → ℕ → ℕ → ℕ → ℕ → ℕ → Manager → List (ℕ × Action)
overtaking j a b first due second due' last m =
    coming j a first due 0 m.next_timer
    ++ coming j b second due' 2 (suc m.next_timer)
    ++ sending due' 3
    ++ sending last 1

module _ (service : PushService) (j : String) (o : Otp) (a b : String)
    (first due second due' last : ℕ) (m : Manager) where
  abbrev both_came : Manager
  both_came = came_by j b second (came_by j a first m)

  -- Both payloads, the last one first.
  abbrev both_sent : Manager
  both_sent = sent_by j a o (sent_by j b o both_came)

  schedule-overtaking :
      IsReady m j o
      → lookup j m.windows ≡ none
      → IsLive o first
      → IsLive o due
      → IsLive o second
      → IsLive o due'
      → pos first +ℤ m.window ≤ℤ pos due
      → pos second +ℤ m.window ≤ℤ pos due'
      → schedule service (overtaking j a b first due second due' last m) (idle m)
        ≡ record { manager = both_sent; running = finished ∷ finished ∷ finished ∷ finished ∷ [] }
  unfolding open_window
  schedule-overtaking r e l l' k k' over over' =
      let m1 = came_by j a first m in
      let r1 = IsReady-came_by service j o a first due m [] r in
      let r2 = IsReady-came_by service j o b second due' m1 [] r1 in
      let (done1, found1, quiet1) =
        set_otp_status_runs j claimed (some b) both_came.db o r2.answers r2.stored in
      let xs = finished ∷ marking a j o ∷ [] in
      schedule-append service (coming j a first due 0 m.next_timer) _ (idle m)
      ∙ ap (schedule service _) (schedule-coming service j o a first due m [] r l l' over e)
      ∙ schedule-append service (coming j b second due' 2 (suc m.next_timer)) _ _
      ∙ ap (schedule service (sending due' 3 ++ sending last 1)) (
          schedule-coming service j o b second due' m1 xs r1 k k' over'
            (lookup-came_by service j o a first due m []))
      ∙ schedule-append service (sending due' 3) _ _
      ∙ ap (schedule service (sending last 1))
          (schedule-sending service j o o b due' _ 3 r2.answers r2.stored refl)
      ∙ schedule-sending service j o _ a last _ 1 quiet1 found1 refl

  -- The payload of one OTP is sent to two claimants, whichever they are, by a database that answers
  -- and with a window that is over before each delivery: the first claimant's delivery is overtaken
  -- by the second's between its reading of the status and its write. Before, the OTP is stored as
  -- pending and has no window; it is live at every reading of the clock.
  pub double_delivery :
      IsReady m j o
      → lookup j m.windows ≡ none
      → IsLive o first
      → IsLive o due
      → IsLive o second
      → IsLive o due'
      → pos first +ℤ m.window ≤ℤ pos due
      → pos second +ℤ m.window ≤ℤ pos due'
      → recipients j
          (schedule service (overtaking j a b first due second due' last m) (idle m)).manager.sent
        ≡ a ∷ b ∷ recipients j m.sent
  unfolding recipients open_window
  double_delivery r e l l' k k' over over' =
      ap (λ s. recipients j s.manager.sent) (schedule-overtaking r e l l' k k' over over')
      ∙ rw (eq_refl j)
