-- ===== src/Claim/Threads/Attended/Turns.antt =====
-- Every turn of a goroutine keeps each open window attended.
use otp_relay_backend.Base.{
  ℕ, ◌+◌, ◌≤◌, ◌≡◌, refl, inl, inr, String, pos, ◌+ℤ◌, List, [], ◌∷◌, Option, none, some, false,
  ◌==◌, arith, Bool-cases, Option-cases, lookup, lookup-remove, contains, get_elem?, set, total,
  total-set, eq_iff, if◌then◌else◌,
}
use otp_relay_backend.Db.{Otp, Result, claimed, invalidated}
use otp_relay_backend.Db.Otps.{get_otp, set_otp_status}
use otp_relay_backend.Claim.{ClaimState, Manager}
use otp_relay_backend.Claim.Window.{
  with_db, open_window, close_window, notify_all, send_invalidated, send, payload_envelope,
}
use otp_relay_backend.Claim.Threads.{
  Goroutine, claiming, entering, killing, telling, resolving, reloading, marking, handing, finished,
  after_lookup, enter, take_window, after_reload, after_mark, advance, System, turn,
}
use otp_relay_backend.Claim.Threads.Attended.{
  Table, Attended, quiet-Attended, opened-Attended, closed-Attended, taken-Attended,
}

-- The goroutine is before the lock of `resolve j`.
abbrev pub comes : String → Goroutine → ℕ
comes j (resolving id) = if id == j then 1 else 0
comes j _ = 0

abbrev pub table_of : Manager → (String → ℕ) → Table
table_of m coming = record {
  windows = m.windows;
  timers = m.timers;
  next_timer = m.next_timer;
  coming = coming;
}

abbrev pub table : System → Table
table s = table_of s.manager (λ j. total (comes j) s.running)

-- The windows and the timers stay as they are.
abbrev pub IsSame : Manager → Manager → Type 0
IsSame m m' = (m'.windows ≡ m.windows) × (m'.timers ≡ m.timers) × (m'.next_timer ≡ m.next_timer)

after_lookup-IsSame :
    (r : Result Otp) (c id : String) (now : ℕ) (m : Manager)
    → IsSame m (after_lookup r c id now m).1
unfolding after_lookup
after_lookup-IsSame r c id now m = ground arith

after_reload-IsSame :
    (r : Result Otp) (c id : String) (now : ℕ) (m : Manager)
    → IsSame m (after_reload r c id now m).1
unfolding after_reload
after_reload-IsSame r c id now m = ground arith

after_mark-IsSame :
    (r : Result (Unit {0})) (c id : String) (o : Otp) (m : Manager)
    → IsSame m (after_mark r c id o m).1
unfolding after_mark
after_mark-IsSame r c id o m = ground arith

notify_all-IsSame : (cs : List String) (id : String) (m : Manager) → IsSame m (notify_all cs id m)
unfolding notify_all send_invalidated
notify_all-IsSame [] id m = (refl, refl, refl)
notify_all-IsSame (c ∷ cs) id m = notify_all-IsSame cs id (send_invalidated c id m)

-- The turn has changed one goroutine.
abbrev Counts : Goroutine → Goroutine → (String → ℕ) → (String → ℕ) → Type 0
Counts g g' coming coming' = (j : String) → coming' j + comes j g ≡ coming j + comes j g'

module _ (m : Manager) (coming coming' : String → ℕ) (a : Attended (table_of m coming)) where
  same-Attended :
      (m' : Manager)
      → IsSame m m'
      → ((j : String) → coming j ≤ coming' j)
      → Attended (table_of m' coming')
  same-Attended m' (w, t, n) more =
      quiet-Attended (table_of m coming) a (table_of m' coming') w t n more

  enter-Attended :
      (c id : String) (now : ℕ) (w : Option ClaimState)
      → lookup id m.windows ≡ w
      → ((j : String) → coming j ≤ coming' j)
      → Attended (table_of (enter c id now w m).1 coming')
  unfolding enter open_window
  enter-Attended c id now none e more =
      opened-Attended (table_of m coming) a (table_of (open_window c id now m) coming') id c
        (pos now +ℤ m.window) refl refl refl more
  enter-Attended c id now (some st) e more = elim (Bool-cases (contains st.claimants c)) [
    | inl again ↦ rw (again, enter) (same-Attended m (refl, refl, refl) more)
    | inr second ↦
        rw (second, enter)
          (closed-Attended (table_of m coming) a (table_of (close_window id st.timer m) coming') id
            st e refl refl refl more)
  ]

  lookup-take_window :
      (id j : String) (w : Option ClaimState)
      → lookup id m.windows ≡ w
      → lookup j (take_window id w m).1.windows ≡ (if id == j then none else lookup j m.windows)
  unfolding take_window
  lookup-take_window id j none e = ground (arith, eq_iff id j)
  lookup-take_window id j (some st) e = lookup-remove id j m.windows

  take_window-same :
      (id : String) (w : Option ClaimState)
      → ((take_window id w m).1.timers ≡ m.timers)
        × ((take_window id w m).1.next_timer ≡ m.next_timer)
  unfolding take_window
  take_window-same id none = (refl, refl)
  take_window-same id (some st) = (refl, refl)

  take-Attended :
      (id : String)
      → ((j : String) → (id == j) ≡ false → coming j ≤ coming' j)
      → Attended (table_of (take_window id (lookup id m.windows) m).1 coming')
  take-Attended id more =
      let w = lookup id m.windows in
      let (timers, next) = take_window-same id w in
      taken-Attended (table_of m coming) a (table_of (take_window id w m).1 coming') id
        (λ j. lookup-take_window id j w refl) timers next more

  advance-Attended :
      (g : Goroutine) (now : ℕ)
      → Counts g (advance g now m).0 coming coming'
      → Attended (table_of (advance g now m).1 coming')
  unfolding advance
  advance-Attended (claiming c id) now count =
      let (w, t, n) =
        after_lookup-IsSame (get_otp id m.db).0 c id now (with_db (get_otp id m.db).1 m) in
      same-Attended (after_lookup (get_otp id m.db).0 c id now (with_db (get_otp id m.db).1 m)).1
        (w, t, n) (λ j. omega (arith, count j))
  advance-Attended (entering c id) now count =
      enter-Attended c id now (lookup id m.windows) refl (λ j. omega (arith, count j))
  advance-Attended (killing id cs) now count =
      same-Attended (with_db (set_otp_status id invalidated none m.db).1 m) (refl, refl, refl)
        (λ j. omega (arith, count j))
  advance-Attended (telling id cs) now count =
      same-Attended (notify_all cs id m) (notify_all-IsSame cs id m) (λ j. omega (arith, count j))
  advance-Attended (resolving id) now count = take-Attended id (λ j miss. ground (arith, count j))
  advance-Attended (reloading c id) now count =
      let (w, t, n) =
        after_reload-IsSame (get_otp id m.db).0 c id now (with_db (get_otp id m.db).1 m) in
      same-Attended (after_reload (get_otp id m.db).0 c id now (with_db (get_otp id m.db).1 m)).1
        (w, t, n) (λ j. omega (arith, count j))
  advance-Attended (marking c id o) now count =
      let written = set_otp_status id claimed (some c) m.db in
      let (w, t, n) = after_mark-IsSame written.0 c id o (with_db written.1 m) in
      same-Attended (after_mark written.0 c id o (with_db written.1 m)).1 (w, t, n)
        (λ j. omega (arith, count j))
  advance-Attended (handing c id o) now count =
      same-Attended (send c (payload_envelope id o) m) (refl, refl, refl)
        (λ j. omega (arith, count j))
  advance-Attended finished now count =
      same-Attended m (refl, refl, refl) (λ j. omega (arith, count j))

pub turn-Attended :
    (place now : ℕ) (s : System) → Attended (table s) → Attended (table (turn place now s))
unfolding turn
turn-Attended place now s a = elim (Option-cases (get_elem? s.running place)) [
  | inl e ↦ rw (e, turn) a
  | inr (g, e) ↦
      rw (e, turn)
        (advance-Attended s.manager (λ j. total (comes j) s.running)
          (λ j. total (comes j) (set s.running place (advance g now s.manager).0)) a g now
          (λ j. total-set (comes j) s.running place g (advance g now s.manager).0 e))
]
