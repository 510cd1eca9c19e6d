-- ===== src/Push.antt =====
-- internal/push/push.go: the notifier. The Web Push library and the push service behind it are a
-- parameter: which subscription texts parse, and how the service answers a signal.
pub mod Broadcast
mod Tests
use otp_relay_backend.Base.{
  ℕ, String, Bool, true, false, ◌||◌, List, [], ◌∷◌, map, Option, none, some, leb, eqb,
  if◌then◌else◌,
}

pub record Signal : Type 0 where
  pub type : String
  pub otp_id : String

-- `respond` gives the HTTP status, or nothing if the request cannot be sent.
pub record PushService : Type 0 where
  pub parses : String → Bool
  pub respond : String → Signal → Option ℕ

abbrev pub signal : String → Signal
signal otp_id = record { type = "otp_available"; otp_id = otp_id }

-- What `Notify` returns: the Gone flag, and whether there is an error.
pub record Notified : Type 0 where
  pub gone : Bool
  pub failed : Bool

unfoldable pub answer : Option ℕ → Notified
answer none = record { gone = false; failed = true }
answer (some code) =
    if eqb code 404 || eqb code 410
    then record { gone = true; failed = false }
    else record { gone = false; failed = leb 300 code }

module _ (service : PushService) where
  unfoldable pub notify : String → String → Notified
  unfolding answer
  notify raw_subscription otp_id =
      if service.parses raw_subscription
      then answer (service.respond raw_subscription (signal otp_id))
      else record { gone = false; failed = true }

  -- The requests that reach the push service: one for each subscription that parses.
  unfoldable pub requests : List String → String → List (String × Signal)
  requests [] otp_id = []
  requests (sub ∷ subs) otp_id =
      let rest = requests subs otp_id in
      if service.parses sub then (sub, signal otp_id) ∷ rest else rest

  -- What the goroutines of `Broadcast` put into the channel, in the order of the subscriptions.
  unfoldable pub results : List String → String → List (String × Bool)
  unfolding notify
  results subs otp_id = map (λ sub. (sub, (notify sub otp_id).gone)) subs

-- The loop of `Broadcast` over the results, in the order in which they arrive.
unfoldable pub collect : List (String × Bool) → List String
collect [] = []
collect ((sub, gone) ∷ arrivals) = let rest = collect arrivals in if gone then sub ∷ rest else rest
