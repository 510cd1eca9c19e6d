-- ===== src/Claim/Threads/Apart.antt =====
-- What the coordinator promises however its goroutines take turns, and on what condition.
use otp_relay_backend.Base.{
  ℕ, ◌+◌, ◌≤◌, ◌≡◌, refl, ap, ◌∙◌, inl, inr, String, ℤ, pos, leb_ℤ, List, [], ◌∷◌, true, some,
  arith, Bool-cases, Option-cases, length, get_elem?, set, total, total-set, total-append,
}
use otp_relay_backend.Db.{Db}
use otp_relay_backend.Push.{PushService}
use otp_relay_backend.Claim.{Manager, new}
use otp_relay_backend.Claim.Window.{find_timer, stop}
use otp_relay_backend.Claim.Effect.{
  recipients, View, view, Change, kept, added, killed, lapsed, taken,
}
use otp_relay_backend.Claim.Effect.Events.{sweep-Change, ingest-Change}
use otp_relay_backend.Claim.Threads.{
  Goroutine, claiming, resolving, finished, advance, System, Action, ingests, arrives, fires,
  sweeps, turns, start, fire_timer, turn, act, schedule, idle,
}
use otp_relay_backend.Claim.Threads.Moves.{
  marks, hands, is_settled, Settles, Move, quiet, reloaded, marked, handed, advance-Move,
}

abbrev pub system_view : String → System → View
system_view j s = view j s.manager

-- The goroutines of `resolve` that have read the OTP as pending and not yet written `claimed`.
abbrev pub marking_count : String → System → ℕ
marking_count j s = total (marks j) s.running

abbrev handing_count : String → System → ℕ
handing_count j s = total (hands j) s.running

-- Before the OTP is marked nothing was sent; afterwards the payload is sent once at most.
data Phase (j : String) (s : System) : Type 0 where
  fresh : (system_view j s).recipients ≡ [] → handing_count j s ≡ 0 → Phase j s
  spent :
      is_settled (system_view j s).row ≡ true
      → marking_count j s ≡ 0
      → handing_count j s + length (system_view j s).recipients ≤ 1
      → Phase j s

-- A step that no goroutine takes: a settled row stays settled.
pub Change-Settles :
    {now : ℕ} {v w : View}
    → Change (λ _. Unit) (λ _. ⊥) now v w
    → Settles v w × (w.recipients ≡ v.recipients)
Change-Settles (kept e f) = (λ s. ground arith, f)
Change-Settles (added o new e p e' f) = (λ s. absurd (ground arith), f)
Change-Settles (killed o e p e' f) = (λ s. absurd (ground arith), f)
Change-Settles (lapsed o e p e' f) = (λ s. absurd (ground arith), f)
Change-Settles (taken o c wins e p live e' f) = absurd wins

module _ (j : String) (s : System) where
  quiet-Phase :
      (s' : System)
      → Settles (system_view j s) (system_view j s')
      → (system_view j s').recipients ≡ (system_view j s).recipients
      → marking_count j s' ≡ marking_count j s
      → handing_count j s' ≡ handing_count j s
      → Phase j s
      → Phase j s'
  quiet-Phase s' settles same m h (fresh r z) = fresh (same ∙ r) (h ∙ z)
  quiet-Phase s' settles same m h (spent r z le) = spent (settles r) (m ∙ z) (rw (same, h) le)

  start-Phase : (g : Goroutine) → marks j g ≡ 0 → hands j g ≡ 0 → Phase j s → Phase j (start g s)
  start-Phase g m h =
      quiet-Phase (start g s) (λ x. x) refl
        (omega (arith, total-append (marks j) s.running (g ∷ [])))
        (omega (arith, total-append (hands j) s.running (g ∷ [])))

  Move-Phase :
      (place : ℕ) (g g' : Goroutine) (m' : Manager)
      → get_elem? s.running place ≡ some g
      → marking_count j s ≤ 1
      → Move j g g' (view j s.manager) (view j m')
      → Phase j s
      → Phase j (record { manager = m'; running = set s.running place g' })
  Move-Phase place g g' m' e apart (quiet settles same hg mg' hg') (fresh r z) =
      fresh (same ∙ r) (omega (arith, total-set (hands j) s.running place g g' e))
  Move-Phase place g g' m' e apart (quiet settles same hg mg' hg') (spent r z le) =
      spent (settles r) (omega (arith, total-set (marks j) s.running place g g' e))
        (rw same (omega (arith, total-set (hands j) s.running place g g' e)))
  Move-Phase place g g' m' e apart (reloaded p same mg hg mg' hg') (fresh r z) =
      fresh (ap (λ v. v.recipients) same ∙ r)
        (omega (arith, total-set (hands j) s.running place g g' e))
  Move-Phase place g g' m' e apart (reloaded p same mg hg mg' hg') (spent r z le) =
      absurd (ground arith)
  Move-Phase place g g' m' e apart (marked mg hg mg' hg' settled same) (fresh r z) =
      spent settled (omega (arith, total-set (marks j) s.running place g g' e))
        (rw (same ∙ r) (omega (arith, total-set (hands j) s.running place g g' e)))
  Move-Phase place g g' m' e apart (marked mg hg mg' hg' settled same) (spent r z le) =
      absurd (omega (arith, total-set (marks j) s.running place g g' e))
  Move-Phase place g g' m' e apart (handed winner mg hg end row same) (fresh r z) =
      absurd (omega (arith, total-set (hands j) s.running place g finished e))
  Move-Phase place g g' m' e apart (handed winner mg hg end row same) (spent r z le) =
      spent (rw row r) (rw end (omega (arith, total-set (marks j) s.running place g finished e)))
        (rw (same, end) (omega (arith, total-set (hands j) s.running place g finished e)))

  turn-Phase : (place now : ℕ) → marking_count j s ≤ 1 → Phase j s → Phase j (turn place now s)
  unfolding turn
  turn-Phase place now apart p = elim (Option-cases (get_elem? s.running place)) [
    | inl e ↦ rw (e, turn) p
    | inr (g, e) ↦
        let t = advance g now s.manager in
        rw (e, turn) (Move-Phase place g t.0 t.1 e apart (advance-Move j g now s.manager) p)
  ]

fire_timer-Phase : (j : String) (s : System) (h now : ℕ) → Phase j s → Phase j (fire_timer h now s)
unfolding fire_timer
fire_timer-Phase j s h now p = elim (Option-cases (find_timer h s.manager.timers)) [
  | inl e ↦ rw (e, fire_timer) p
  | inr (t, e) ↦ elim (Bool-cases (leb_ℤ t.due (pos now))) [
    | inr early ↦ rw (e, early, fire_timer) p
    | inl due ↦
        rw (e, due, fire_timer)
          (let s' : System = record s {
            manager = record s.manager { timers = stop h s.manager.timers };
          } in
            start-Phase j s' (resolving t.otp_id) refl refl
              (quiet-Phase j s s' (λ x. x) refl refl refl p))
  ]
]

module _ (service : PushService) (j : String) where
  act-Phase :
      (a : ℕ × Action) (s : System) → marking_count j s ≤ 1 → Phase j s → Phase j (act service a s)
  unfolding act
  act-Phase (now, ingests id source_id ciphertext iv) s apart p =
      let (settles, same) = Change-Settles (
        ingest-Change j (λ _. Unit) (λ _. ⊥) service now id source_id ciphertext iv s.manager
          (λ _. tt)) in
      quiet-Phase j s _ settles same refl refl p
  act-Phase (now, arrives claimant otp_id) s apart p =
      start-Phase j s (claiming claimant otp_id) refl refl p
  act-Phase (now, fires h) s apart p = fire_timer-Phase j s h now p
  act-Phase (now, sweeps) s apart p =
      let (settles, same) = Change-Settles (sweep-Change j (λ _. Unit) (λ _. ⊥) now s.manager) in
      quiet-Phase j s _ settles same refl refl p
  act-Phase (now, turns place) s apart p = turn-Phase j s place now apart p

  -- At each moment of the history, no more than one goroutine stands between the reading of the OTP
  -- as pending in `resolve` and the write of `claimed`.
  abbrev pub Apart : List (ℕ × Action) → System → Type 0
  Apart [] s = marking_count j s ≤ 1
  Apart (a ∷ later) s = (marking_count j s ≤ 1) × Apart later (act service a s)

  schedule-Phase :
      (as' : List (ℕ × Action)) (s : System)
      → Apart as' s
      → Phase j s
      → Phase j (schedule service as' s)
  unfolding schedule
  schedule-Phase [] s apart p = p
  schedule-Phase (a ∷ later) s (first, apart) p =
      schedule-Phase later (act service a s) apart (act-Phase a s first p)

Phase-le : (j : String) (s : System) → Phase j s → length (recipients j s.manager.sent) ≤ 1
Phase-le j s (fresh r z) = rw r (omega arith)
Phase-le j s (spent r z le) = omega arith

-- However the goroutines take turns and whatever the database answers, the payload of an OTP is sent
-- once at most, if at no moment two deliveries of it have read it as pending and not yet marked it.
pub sent_once :
    (service : PushService) (db : Db) (window ttl : ℤ) (as' : List (ℕ × Action)) (j : String)
    → Apart service j as' (idle (new db window ttl))
    → length (recipients j (schedule service as' (idle (new db window ttl))).manager.sent) ≤ 1
unfolding recipients
sent_once service db window ttl as' j apart =
    Phase-le j (schedule service as' (idle (new db window ttl)))
      (schedule-Phase service j as' (idle (new db window ttl)) apart (fresh refl refl))
