-- ===== src/Push/Tests.antt =====
-- A broadcast to two subscriptions, whose results arrive in the other order.
use mathlib.Core.List.{Permᴰ}
use otp_relay_backend.Base.{String, List, refl, true, false, [], ◌∷◌, some, ◌==◌, if◌then◌else◌}
use otp_relay_backend.Push.{PushService, collect, results, notify, answer}
use otp_relay_backend.Push.Broadcast.{DeadOf, broadcast_dead}

-- The subscription "old" is gone.
abbrev service : PushService
service = record {
  parses = λ sub. true;
  respond = λ sub s. if sub == "old" then some 410 else some 201;
}

broadcast_dead_example :
    (dead : List String) × DeadOf service "otp1" ("old" ∷ "new" ∷ []) dead
    × Permᴰ dead (collect (("new", false) ∷ ("old", true) ∷ []))
unfolding results notify answer
broadcast_dead_example =
    broadcast_dead service ("old" ∷ "new" ∷ []) "otp1" (("new", false) ∷ ("old", true) ∷ [])
      (Permᴰ.swap refl refl)
