-- ===== src/Claim/Threads/Attended.antt =====
-- No claim is forgotten: while a window is open, its timer is armed, or has started a goroutine that
-- comes for the window, however the goroutines of internal/claim/claim.go take turns.
pub mod Turns
pub mod Runs
pub mod Closes
use otp_relay_backend.Base.{
  ℕ, suc, ◌+◌, ◌≤◌, ◌<◌, ◌≡◌, ap, ◌∙◌, ◌⊎◌, inl, inr, String, ℤ, List, [], ◌∷◌, none, some, false,
  ◌==◌, arith, Bool-cases, lookup, insert, remove, lookup-insert, lookup-remove, eq_iff, eqb,
  if◌then◌else◌,
}
use otp_relay_backend.Claim.{ClaimState, Timer}
use otp_relay_backend.Claim.Window.{find_timer, stop}
use otp_relay_backend.Claim.Armed.{find_timer-stop}

-- What the windows depend on; `coming j` is the number of goroutines before the lock of `resolve j`.
pub record Table : Type 0 where
  pub windows : List (String × ClaimState)
  pub timers : List Timer
  pub next_timer : ℕ
  pub coming : String → ℕ

-- The timer of the OTP's window is armed; or it has fired, and a goroutine is on its way.
abbrev pub IsAwaited : String → ℕ → Table → Type 0
IsAwaited j h s =
    ((t : Timer) × (find_timer h s.timers ≡ some t) × (t.otp_id ≡ j))
    ⊎ ((find_timer h s.timers ≡ none) × (1 ≤ s.coming j))

pub record Attended (s : Table) : Type 0 where
  pub awaited :
      (j : String) (st : ClaimState) → lookup j s.windows ≡ some st → IsAwaited j st.timer s
  pub known :
      (j : String) (st : ClaimState) → lookup j s.windows ≡ some st → st.timer < s.next_timer
  pub fresh : (h : ℕ) → s.next_timer ≤ h → find_timer h s.timers ≡ none

-- A window that is left was there before.
still_open :
    (i j : String) (s s' : Table) (st : ClaimState)
    → lookup j s'.windows ≡ (if i == j then none else lookup j s.windows)
    → lookup j s'.windows ≡ some st
    → (lookup j s.windows ≡ some st) × ((i == j) ≡ false)
still_open i j s s' st l f = ground arith

module _ (s : Table) (a : Attended s) where
  pub quiet-Attended :
      (s' : Table)
      → s'.windows ≡ s.windows
      → s'.timers ≡ s.timers
      → s'.next_timer ≡ s.next_timer
      → ((j : String) → s.coming j ≤ s'.coming j)
      → Attended s'
  quiet-Attended s' w t n more = record {
    awaited = λ j st e. elim (a.awaited j st (ground (arith, e, w))) [
      | inl (u, found, own) ↦ inl (u, ground (arith, found, t), own)
      | inr (gone, one) ↦ inr (ground (arith, gone, t), omega (arith, more j))
    ];
    known = λ j st e. omega (arith, n, a.known j st (ground (arith, e, w)));
    fresh = λ h le. ground (arith, t, a.fresh h (omega (arith, n)));
  }

  -- The first claim opens a window.
  pub opened-Attended :
      (s' : Table) (i c : String) (due : ℤ)
      → s'.windows ≡ insert i (record { claimants = c ∷ []; timer = s.next_timer }) s.windows
      → s'.timers ≡ record { handle = s.next_timer; otp_id = i; due = due } ∷ s.timers
      → s'.next_timer ≡ suc s.next_timer
      → ((j : String) → s.coming j ≤ s'.coming j)
      → Attended s'
  unfolding find_timer
  opened-Attended s' i c due w t n more =
      let new : ClaimState = record { claimants = c ∷ []; timer = s.next_timer } in
      let look = λ (j : String). ap (lookup j) w ∙ lookup-insert i j new s.windows in
      record {
        awaited = λ j st e. elim (Bool-cases (i == j)) [
          | inl hit ↦
              let same : new ≡ st = ground (arith, look j) in
              inl (
                record { handle = s.next_timer; otp_id = i; due = due },
                ground (arith, t),
                ground (arith, eq_iff i j),
              )
          | inr miss ↦
              let old : lookup j s.windows ≡ some st = ground (arith, look j) in
              elim (a.awaited j st old) [
                | inl (u, found, own) ↦ inl (u, ground (arith, t, a.known j st old), own)
                | inr (gone, one) ↦ inr (ground (arith, t, a.known j st old), omega (arith, more j))
              ]
        ];
        known = λ j st e. elim (Bool-cases (i == j)) [
          | inl hit ↦ ground (arith, look j, n)
          | inr miss ↦
              let old : lookup j s.windows ≡ some st = ground (arith, look j) in
              omega (arith, n, a.known j st old)
        ];
        fresh = λ h le. ground (arith, t, n, a.fresh h (omega (arith, n)));
      }

  -- A second claim closes a window, and stops its timer.
  pub closed-Attended :
      (s' : Table) (i : String) (st : ClaimState)
      → lookup i s.windows ≡ some st
      → s'.windows ≡ remove i s.windows
      → s'.timers ≡ stop st.timer s.timers
      → s'.next_timer ≡ s.next_timer
      → ((j : String) → s.coming j ≤ s'.coming j)
      → Attended s'
  closed-Attended s' i st e w t n more =
      let look = λ (j : String). ap (lookup j) w ∙ lookup-remove i j s.windows in
      let find = λ (h : ℕ). ap (find_timer h) t ∙ find_timer-stop h st.timer s.timers in
      record {
        awaited = λ j st' f.
            let (old, other) = still_open i j s s' st' (look j) f in
            elim (a.awaited j st' old) [
              | inl (u, found, own) ↦ elim (Bool-cases (eqb st'.timer st.timer)) [
                | inl hit ↦ absurd (shared_timer j st' u found own (ground arith) other)
                | inr miss ↦ inl (u, ground (arith, find st'.timer), own)
              ]
              | inr (gone, one) ↦ inr (ground (arith, find st'.timer), omega (arith, more j))
            ];
        known = λ j st' f.
            let (old, other) = still_open i j s s' st' (look j) f in
            omega (arith, n, a.known j st' old);
        fresh = λ h le. ground (arith, find h, a.fresh h (omega (arith, n)));
      }
    where
      shared_timer :
          (j : String) (st' : ClaimState) (u : Timer)
          → find_timer st'.timer s.timers ≡ some u
          → u.otp_id ≡ j
          → st'.timer ≡ st.timer
          → (i == j) ≡ false
          → ⊥
      shared_timer j st' u found own same other = elim (a.awaited i st e) [
        | inl (u', found', own') ↦ ground (arith, eq_iff i j)
        | inr (gone, one) ↦ ground arith
      ]

  -- resolve takes a window, if there is one, and is not before the lock any more.
  pub taken-Attended :
      (s' : Table) (i : String)
      → ((j : String) → lookup j s'.windows ≡ (if i == j then none else lookup j s.windows))
      → s'.timers ≡ s.timers
      → s'.next_timer ≡ s.next_timer
      → ((j : String) → (i == j) ≡ false → s.coming j ≤ s'.coming j)
      → Attended s'
  taken-Attended s' i look t n more = record {
    awaited = λ j st f.
        let (old, other) = still_open i j s s' st (look j) f in
        elim (a.awaited j st old) [
          | inl (u, found, own) ↦ inl (u, ground (arith, found, t), own)
          | inr (gone, one) ↦ inr (ground (arith, gone, t), omega (arith, more j other))
        ];
    known = λ j st f.
        let (old, other) = still_open i j s s' st (look j) f in omega (arith, n, a.known j st old);
    fresh = λ h le. ground (arith, t, a.fresh h (omega (arith, n)));
  }

  -- A timer fires, and starts a goroutine.
  pub fired-Attended :
      (s' : Table) (h : ℕ) (u : Timer)
      → find_timer h s.timers ≡ some u
      → s'.windows ≡ s.windows
      → s'.timers ≡ stop h s.timers
      → s'.next_timer ≡ s.next_timer
      → ((j : String) → s.coming j + (if u.otp_id == j then 1 else 0) ≤ s'.coming j)
      → Attended s'
  fired-Attended s' h u armed w t n more =
      let find = λ (k : ℕ). ap (find_timer k) t ∙ find_timer-stop k h s.timers in
      record {
        awaited = λ j st f. elim (a.awaited j st (ground (arith, f, w))) [
          | inl (v, found, own) ↦ elim (Bool-cases (eqb st.timer h)) [
            | inl hit ↦
                let mine : u.otp_id ≡ j = ground arith in
                inr (ground (arith, find st.timer), ground (arith, more j, eq_iff u.otp_id j))
            | inr miss ↦ inl (v, ground (arith, find st.timer), own)
          ]
          | inr (gone, one) ↦ inr (ground (arith, find st.timer), ground (arith, more j))
        ];
        known = λ j st f. omega (arith, n, a.known j st (ground (arith, f, w)));
        fresh = λ k le. ground (arith, find k, a.fresh k (omega (arith, n)));
      }
