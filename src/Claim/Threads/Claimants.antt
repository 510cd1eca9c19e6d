-- ===== src/Claim/Threads/Claimants.antt =====
-- Who can get a payload, however the goroutines of internal/claim/claim.go take turns.
use otp_relay_backend.Base.{
  ℕ, ◌≡◌, refl, inl, inr, String, ℤ, pos, leb_ℤ, List, [], ◌∷◌, ◌++◌, true, ◌==◌, arith, Bool-cases,
  Option-cases, lookup, contains, All, All-append, All-split, All-get_elem?, All-set, All-contains,
  All-member, get_elem?, if◌then◌else◌,
}
use otp_relay_backend.Db.{Db}
use otp_relay_backend.Push.{PushService}
use otp_relay_backend.Claim.{Manager, new}
use otp_relay_backend.Claim.Window.{find_timer, sweep}
use otp_relay_backend.Claim.Ingest.{ingest, dispatch_push}
use otp_relay_backend.Claim.Effect.{recipients}
use otp_relay_backend.Claim.Effect.Events.{ingest-Change}
use otp_relay_backend.Claim.Threads.Apart.{Change-Settles}
use otp_relay_backend.Claim.Threads.{
  Goroutine, claiming, resolving, System, Action, ingests, arrives, fires, sweeps, turns, start,
  fire_timer, turn, act, schedule, idle,
}
use otp_relay_backend.Claim.Threads.Fair.{holder, IsFair, IsFair-same, advance-IsFair}

-- The devices that have claimed the OTP.
abbrev pub arrival : String → Action → List String
arrival j (arrives c id) = if id == j then c ∷ [] else []
arrival j _ = []

abbrev pub arrivals : String → List (ℕ × Action) → List String
arrivals j [] = []
arrivals j (a ∷ as') = arrival j a.1 ++ arrivals j as'

module _ (P : String → Type 0) (j : String) where
  IsFairSystem : System → Type 0
  IsFairSystem s = All (λ g. All P (holder j g)) s.running × IsFair P j s.manager

  start-IsFair :
      (g : Goroutine) (s : System) → All P (holder j g) → IsFairSystem s → IsFairSystem (start g s)
  unfolding IsFairSystem
  start-IsFair g s a (every, f) =
      (All-append (λ x. All P (holder j x)) s.running (g ∷ []) every (a, tt), f)

  fire_timer-IsFair : (h now : ℕ) (s : System) → IsFairSystem s → IsFairSystem (fire_timer h now s)
  unfolding fire_timer IsFairSystem
  fire_timer-IsFair h now s (every, f) = elim (Option-cases (find_timer h s.manager.timers)) [
    | inl e ↦ rw (e, fire_timer) (every, f)
    | inr (t, e) ↦ elim (Bool-cases (leb_ℤ t.due (pos now))) [
      | inr early ↦ rw (e, early, fire_timer) (every, f)
      | inl due ↦
          rw (e, due, fire_timer)
            (start-IsFair (resolving t.otp_id) _ tt
              (every, IsFair-same P j s.manager _ refl refl f))
    ]
  ]

  turn-IsFair : (place now : ℕ) (s : System) → IsFairSystem s → IsFairSystem (turn place now s)
  unfolding turn IsFairSystem
  turn-IsFair place now s (every, f) = elim (Option-cases (get_elem? s.running place)) [
    | inl e ↦ rw (e, turn) (every, f)
    | inr (g, e) ↦
        let (held, fair) =
          advance-IsFair P j g now s.manager
            (All-get_elem? (λ x. All P (holder j x)) s.running place g every e) f in
        rw (e, turn) (All-set (λ x. All P (holder j x)) s.running place _ every held, fair)
  ]

  windows-ingest :
      (service : PushService) (id source_id ciphertext iv : String) (now : ℕ) (m : Manager)
      → (ingest service id source_id ciphertext iv now m).1.windows ≡ m.windows
  unfolding ingest dispatch_push
  windows-ingest service id source_id ciphertext iv now m = ground arith

  module _ (service : PushService) where
    act-IsFair :
        (a : ℕ × Action) (s : System)
        → All P (arrival j a.1)
        → IsFairSystem s
        → IsFairSystem (act service a s)
    unfolding act sweep IsFairSystem
    act-IsFair (now, ingests id source_id ciphertext iv) s came (every, f) = (
      every,
      IsFair-same P j s.manager _ (windows-ingest service id source_id ciphertext iv now s.manager)
          (Change-Settles (
            ingest-Change j (λ _. Unit) (λ _. ⊥) service now id source_id ciphertext iv s.manager
              (λ _. tt))).1
          f,
    )
    act-IsFair (now, arrives claimant otp_id) s came f =
        start-IsFair (claiming claimant otp_id) s came f
    act-IsFair (now, fires h) s came f = fire_timer-IsFair h now s f
    act-IsFair (now, sweeps) s came (every, f) = (every, IsFair-same P j s.manager _ refl refl f)
    act-IsFair (now, turns place) s came f = turn-IsFair place now s f

    schedule-IsFair :
        (as' : List (ℕ × Action)) (s : System)
        → All P (arrivals j as')
        → IsFairSystem s
        → IsFairSystem (schedule service as' s)
    unfolding schedule
    schedule-IsFair [] s came f = f
    schedule-IsFair (a ∷ later) s came f =
        let (one, rest) = All-split P (arrival j a.1) (arrivals j later) came in
        schedule-IsFair later (act service a s) rest (act-IsFair a s one f)

-- However the goroutines take turns and whatever the database answers, a device that the payload of
-- an OTP is sent to has claimed that OTP before.
pub only_claimants :
    (service : PushService) (db : Db) (window ttl : ℤ) (as' : List (ℕ × Action)) (j device : String)
    → contains (recipients j (schedule service as' (idle (new db window ttl))).manager.sent) device
      ≡ true
    → contains (arrivals j as') device ≡ true
unfolding recipients lookup IsFairSystem
only_claimants service db window ttl as' j device got =
    let P : String → Type 0 = λ d. contains (arrivals j as') d ≡ true in
    let start' : IsFairSystem P j (idle (new db window ttl)) =
      (tt, record { inside = λ st e. absurd (ground arith); reached = tt }) in
    let (every, fair) =
      schedule-IsFair P j service as' (idle (new db window ttl)) (All-contains (arrivals j as'))
        start' in
    All-member P _ device fair.reached got
