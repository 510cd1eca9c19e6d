-- ===== src/Push/Broadcast.antt =====
-- internal/push/push.go: the goroutines of `Broadcast` may finish in any order.
use mathlib.Core.List.Permᴰ
use mathlib.Core.List.{Permᴰ}
use otp_relay_backend.Base.{
  eqb, ◌⊎◌, Bool-cases, Option-cases, some, inl, inr, arith, ◌≡◌, refl, String, Bool, true, false,
  List, [], ◌∷◌, if◌then◌else◌,
}
use otp_relay_backend.Push.{PushService, signal, answer, notify, results, collect}

-- The push service answers the signal for a subscription that can be read by Not Found or by Gone.
abbrev pub IsDead : PushService → String → String → Type 0
IsDead service otp_id sub =
    (service.parses sub ≡ true)
    × ((service.respond sub (record { type = "otp_available"; otp_id = otp_id }) ≡ some 404)
        ⊎ (service.respond sub (record { type = "otp_available"; otp_id = otp_id }) ≡ some 410))

-- `dead` are the dead ones among `subs`, each as often as it is there, and no others.
pub data DeadOf (service : PushService) (otp_id : String) : List String → List String → Type 0 where
  none_left : DeadOf service otp_id [] []
  drops :
      {sub : String} {subs dead : List String}
      → IsDead service otp_id sub
      → DeadOf service otp_id subs dead
      → DeadOf service otp_id (sub ∷ subs) (sub ∷ dead)
  keeps :
      {sub : String} {subs dead : List String}
      → ¬ IsDead service otp_id sub
      → DeadOf service otp_id subs dead
      → DeadOf service otp_id (sub ∷ subs) dead

notify-gone :
    (service : PushService) (otp_id sub : String)
    → ((notify service sub otp_id).gone ≡ true → IsDead service otp_id sub)
      × ((notify service sub otp_id).gone ≡ false → ¬ IsDead service otp_id sub)
unfolding notify answer
notify-gone service otp_id sub = elim (Bool-cases (service.parses sub)) [
  | inr unread ↦ (λ e. ground arith, λ e d. ground (arith, d.0))
  | inl read ↦ elim (Option-cases (service.respond sub (signal otp_id))) [
    | inl n ↦ (λ e. ground arith, λ e d. ground (arith, d.1))
    | inr (code, r) ↦ elim (Bool-cases (eqb code 404)) [
      | inl a ↦ (λ e. (read, inl (ground arith)), λ e d. ground arith)
      | inr a ↦ elim (Bool-cases (eqb code 410)) [
        | inl b ↦ (λ e. (read, inr (ground arith)), λ e d. ground arith)
        | inr b ↦ (λ e. ground arith, λ e d. ground (arith, d.1))
      ]
    ]
  ]
]

collect-results-DeadOf :
    (service : PushService) (otp_id : String) (subs : List String)
    → DeadOf service otp_id subs (collect (results service subs otp_id))
unfolding collect results
collect-results-DeadOf service otp_id [] = none_left
collect-results-DeadOf service otp_id (sub ∷ subs) =
    let rest = collect-results-DeadOf service otp_id subs in
    elim (Bool-cases (notify service sub otp_id).gone) [
      | inl gone ↦ rw gone (drops ((notify-gone service otp_id sub).0 gone) rest)
      | inr alive ↦ rw alive (keeps ((notify-gone service otp_id sub).1 alive) rest)
    ]

-- One more arrival.
abbrev arrive : String × Bool → List String → List String
arrive (sub, gone) rest = if gone then sub ∷ rest else rest

collect-arrive :
    (a : String × Bool) (xs : List (String × Bool)) → collect (a ∷ xs) ≡ arrive a (collect xs)
unfolding collect
collect-arrive (sub, gone) xs = refl

arrive-Permᴰ :
    (a : String × Bool) (xs ys : List String) → Permᴰ xs ys → Permᴰ (arrive a xs) (arrive a ys)
arrive-Permᴰ (sub, true) xs ys p = Permᴰ.cons refl p
arrive-Permᴰ (sub, false) xs ys p = p

arrive_swap :
    (a b : String × Bool) (xs : List String)
    → Permᴰ (arrive a (arrive b xs)) (arrive b (arrive a xs))
arrive_swap (s, true) (t, true) xs = Permᴰ.swap refl refl
arrive_swap (s, true) (t, false) xs = Permᴰ.refl (s ∷ xs)
arrive_swap (s, false) (t, true) xs = Permᴰ.refl (t ∷ xs)
arrive_swap (s, false) (t, false) xs = Permᴰ.refl xs

collect-Permᴰ : (xs ys : List (String × Bool)) → Permᴰ xs ys → Permᴰ (collect xs) (collect ys)
collect-Permᴰ _ _ Permᴰ.nil = Permᴰ.refl (collect [])
collect-Permᴰ (a ∷ xs) (b ∷ ys) (Permᴰ.cons e p) =
    rw (collect-arrive a xs, collect-arrive b ys, e)
      (arrive-Permᴰ b (collect xs) (collect ys) (collect-Permᴰ xs ys p))
collect-Permᴰ (a ∷ b ∷ xs) (c ∷ d ∷ _) (Permᴰ.swap e f) =
    rw
      (
        collect-arrive a (b ∷ xs),
        collect-arrive b xs,
        collect-arrive c (d ∷ xs),
        collect-arrive d xs,
        e,
        f,
      )
      (arrive_swap d c (collect xs))
collect-Permᴰ xs ys (Permᴰ.trans {l₂ = cs} p q) =
    Permᴰ.trans (collect-Permᴰ xs cs p) (collect-Permᴰ cs ys q)

-- Up to their order, the subscriptions that a broadcast returns are, in whatever order its results
-- arrive, exactly those for which the push service answers the signal by status 404 or 410, each as
-- often as it was asked for: none that cannot be read, that gets no answer, or another status.
pub broadcast_dead :
    (service : PushService) (subs : List String) (otp_id : String) (arrivals : List (String × Bool))
    → Permᴰ (results service subs otp_id) arrivals
    → (dead : List String) × DeadOf service otp_id subs dead × Permᴰ dead (collect arrivals)
broadcast_dead service subs otp_id arrivals p = (
  collect (results service subs otp_id),
  collect-results-DeadOf service otp_id subs,
  collect-Permᴰ (results service subs otp_id) arrivals p,
)
