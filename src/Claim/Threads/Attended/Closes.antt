-- ===== src/Claim/Threads/Attended/Closes.antt =====
-- A window that is open can always be closed by the runtime alone.
use otp_relay_backend.Base.{
  ℕ, suc, ◌≤◌, ◌≡◌, ap, ◌∙◌, inl, inr, String, ℤ, pos, pos_part, leb_ℤ, List, [], ◌∷◌, none, some,
  true, ◌==◌, arith, Bool-cases, lookup, lookup-remove, eq_iff, eq_refl, length, get_elem?,
  get_elem?-append, total, All,
}
use otp_relay_backend.Db.{Db}
use otp_relay_backend.Push.{PushService}
use otp_relay_backend.Claim.{ClaimState, Timer, Manager, new}
use otp_relay_backend.Claim.Window.{find_timer}
use otp_relay_backend.Claim.Threads.{
  Goroutine, claiming, entering, killing, telling, resolving, reloading, marking, handing, finished,
  take_window, advance, System, Action, fires, turns, fire_timer, turn, act, schedule, idle,
}
use otp_relay_backend.Claim.Threads.Stages.{fire_timer_lem}
use otp_relay_backend.Claim.Threads.Attended.Turns.{comes}
use otp_relay_backend.Claim.Threads.Attended.Runs.{never_stranded}

-- What the runtime does by itself: fire a timer, and let a goroutine go on.
abbrev pub IsRuntime : ℕ × Action → Type 0
IsRuntime (now, fires h) = Unit
IsRuntime (now, turns place) = Unit
IsRuntime _ = ⊥

-- A goroutine that comes stands somewhere.
place_of :
    (j : String) (gs : List Goroutine)
    → 1 ≤ total (comes j) gs
    → (place : ℕ) × (get_elem? gs place ≡ some (resolving j))
place_of j [] one = absurd (omega arith)
place_of j (resolving id ∷ gs) one = elim (Bool-cases (id == j)) [
  | inl hit ↦ (0, ap (λ k. some (resolving k)) ((eq_iff id j).0 hit))
  | inr miss ↦ let (place, found) = place_of j gs (ground (arith, one)) in (suc place, found)
]
place_of j (claiming c id ∷ gs) one =
    let (place, found) = place_of j gs (omega arith) in (suc place, found)
place_of j (entering c id ∷ gs) one =
    let (place, found) = place_of j gs (omega arith) in (suc place, found)
place_of j (killing id cs ∷ gs) one =
    let (place, found) = place_of j gs (omega arith) in (suc place, found)
place_of j (telling id cs ∷ gs) one =
    let (place, found) = place_of j gs (omega arith) in (suc place, found)
place_of j (reloading c id ∷ gs) one =
    let (place, found) = place_of j gs (omega arith) in (suc place, found)
place_of j (marking c id o ∷ gs) one =
    let (place, found) = place_of j gs (omega arith) in (suc place, found)
place_of j (handing c id o ∷ gs) one =
    let (place, found) = place_of j gs (omega arith) in (suc place, found)
place_of j (finished ∷ gs) one =
    let (place, found) = place_of j gs (omega arith) in (suc place, found)

lookup-take_window :
    (j : String) (m : Manager) → lookup j (take_window j (lookup j m.windows) m).1.windows ≡ none
unfolding take_window
lookup-take_window j m = ground (arith, lookup-remove j j m.windows, eq_refl j)

turn-closes :
    (j : String) (place now : ℕ) (s : System)
    → get_elem? s.running place ≡ some (resolving j)
    → lookup j (turn place now s).manager.windows ≡ none
unfolding turn advance
turn-closes j place now s e = rw (e, turn) (lookup-take_window j s.manager)

-- The time has come.
late_enough : (due : ℤ) → leb_ℤ due (pos (pos_part due)) ≡ true
late_enough due = ground arith

-- Two actions of the runtime at most, after which no window of the OTP is open.
abbrev pub CanClose : PushService → String → System → Type 0
CanClose service j s =
    (cs : List (ℕ × Action)) × All IsRuntime cs
    × (length cs ≤ 2)
    × (lookup j (schedule service cs s).manager.windows ≡ none)

module _ (service : PushService) where
  -- The goroutine that comes takes its turn.
  comes-CanClose : (j : String) (s : System) → 1 ≤ total (comes j) s.running → CanClose service j s
  unfolding schedule act
  comes-CanClose j s one =
      let (place, found) = place_of j s.running one in
      ((0, turns place) ∷ [], (tt, tt), omega arith, turn-closes j place 0 s found)

  -- The timer fires, and its goroutine takes a turn.
  armed-CanClose :
      (j : String) (h : ℕ) (t : Timer) (s : System)
      → find_timer h s.manager.timers ≡ some t
      → t.otp_id ≡ j
      → CanClose service j s
  unfolding schedule act
  armed-CanClose j h t s armed own =
      let now = pos_part t.due in
      let place = length s.running in
      let fired = fire_timer_lem h now s t armed (late_enough t.due) in
      let stands : get_elem? (fire_timer h now s).running place ≡ some (resolving j) =
        ap (λ (u : System). get_elem? u.running place) fired
        ∙ get_elem?-append s.running (resolving t.otp_id) []
        ∙ ap (λ k. some (resolving k)) own in
      (
        (now, fires h) ∷ (now, turns place) ∷ [],
        (tt, (tt, tt)),
        omega arith,
        turn-closes j place now (fire_timer h now s) stands,
      )

  -- No window has to stay open: after any schedule of a new coordinator's goroutines, whatever the
  -- database answers, the runtime alone, by firing timers that are due and letting goroutines take
  -- turns, can close a window that is open, in two actions at most.
  pub window-CanClose :
      (db : Db) (window ttl : ℤ) (as' : List (ℕ × Action)) (j : String) (st : ClaimState)
      → let s = schedule service as' (idle (new db window ttl)) in
        lookup j s.manager.windows ≡ some st → CanClose service j s
  window-CanClose db window ttl as' j st e =
      let s = schedule service as' (idle (new db window ttl)) in
      elim (never_stranded service db window ttl as' j st e) [
        | inl (t, armed, own) ↦ armed-CanClose j st.timer t s armed own
        | inr one ↦ comes-CanClose j s one
      ]
