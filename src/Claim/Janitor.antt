-- ===== src/Claim/Janitor.antt =====
-- internal/claim/claim.go: the goroutine of StartJanitor, alone.
use otp_relay_backend.Base.{ℕ, ◌≡◌, refl, List, [], ◌∷◌}
use otp_relay_backend.Push.{PushService}
use otp_relay_backend.Claim.{Manager}
use otp_relay_backend.Claim.Window.{sweep}
use otp_relay_backend.Claim.Step.{Event, sweeps, step, run}

-- What `select` receives: a tick of the ticker, or that `done` is closed.
pub data Wake : Type 0 where
  ticks : (now : ℕ) → Wake
  done : Wake

unfoldable pub janitor : List Wake → Manager → Manager
unfolding sweep
janitor [] m = m
janitor (ticks now ∷ later) m = janitor later (sweep now m)
janitor (done ∷ later) m = m

-- The sweeps before the janitor is stopped.
abbrev pub sweeps_of : List Wake → List (ℕ × Event)
sweeps_of [] = []
sweeps_of (ticks now ∷ later) = (now, sweeps) ∷ sweeps_of later
sweeps_of (done ∷ later) = []

-- The janitor's loop is a history of sweeps, which ends when it is stopped: what holds in every
-- history holds with it at work.
pub janitor-run :
    (service : PushService) (wakes : List Wake) (m : Manager)
    → janitor wakes m ≡ run service (sweeps_of wakes) m
unfolding janitor run step
janitor-run service [] m = refl
janitor-run service (ticks now ∷ later) m = janitor-run service later (sweep now m)
janitor-run service (done ∷ later) m = refl
