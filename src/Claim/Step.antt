-- ===== src/Claim/Step.antt =====
-- The coordinator as a whole: the events that call a handler, in any order, each at its own time.
-- A handler runs to its end before the next event; Claim/Threads has the interleavings inside handlers.
use otp_relay_backend.Base.{ℕ, String, List, [], ◌∷◌}
use otp_relay_backend.Push.{PushService}
use otp_relay_backend.Claim.{Manager}
use otp_relay_backend.Claim.Window.{claim, fire, sweep}
use otp_relay_backend.Claim.Ingest.{ingest}

pub data Event : Type 0 where
  ingests : (id source_id ciphertext iv : String) → Event
  claims : (claimant otp_id : String) → Event
  fires : (handle : ℕ) → Event
  sweeps : Event

module _ (service : PushService) where
  unfoldable pub step : ℕ × Event → Manager → Manager
  step (now, ingests id source_id ciphertext iv) m =
      (ingest service id source_id ciphertext iv now m).1
  step (now, claims claimant otp_id) m = claim claimant otp_id now m
  step (now, fires handle) m = fire handle now m
  step (now, sweeps) m = sweep now m

  unfoldable pub run : List (ℕ × Event) → Manager → Manager
  run [] m = m
  run (e ∷ es) m = run es (step e m)
