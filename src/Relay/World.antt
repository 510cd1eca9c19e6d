-- ===== src/Relay/World.antt =====
-- main.go: the hub and the coordinator as one program, over whole histories.
pub mod Steps
pub mod Once
mod Tests
use otp_relay_backend.Base.{ℕ, ◌<◌, ◌≡◌, String, false, List, [], ◌∷◌, ◌++◌, Option}
use otp_relay_backend.Push.{PushService}
use otp_relay_backend.Ws.{Envelope}
use otp_relay_backend.Ws.Hub.{Hub, Outcome, returns, panics, ◌>>=◌, write_frame, new_hub}
use otp_relay_backend.Ws.Hub.Safety.{hub_step, connects, leaves}
use otp_relay_backend.Ws.Hub.Runs.{frame_of}
use otp_relay_backend.Claim.{Manager}
use otp_relay_backend.Claim.Window.{claim, sweep}
use otp_relay_backend.Claim.Ingest.{ingest}
use otp_relay_backend.Relay.Delivery.{through_hub, relay_frame, relay_timer}

-- What happens to the relay: a connection arrives or leaves, its reader takes a frame, its writer
-- writes one; a push or a claim comes by REST; a timer fires; the janitor sweeps. `id` is the text
-- that an ingestion draws.
pub data RelayEvent : Type 0 where
  arrives : (device_id device_type : String) → RelayEvent
  departs : (c : ℕ) → RelayEvent
  receives : (c : ℕ) (frame : Option Envelope) (id : String) → RelayEvent
  writes : (c : ℕ) → RelayEvent
  pushes : (id source_id ciphertext iv : String) → RelayEvent
  claims : (claimant otp_id : String) → RelayEvent
  fires : (handle : ℕ) → RelayEvent
  sweeps : RelayEvent

-- `out` is what the writers have written to the peers, the newest first.
pub record World : Type 0 where
  pub hub : Hub
  pub manager : Manager
  pub out : List Envelope

abbrev pub with_hub : World → Outcome Hub → Outcome World
with_hub w r = r >>= λ h. returns (record w { hub = h })

abbrev pub with_both : World → Outcome (Hub × Manager) → Outcome World
with_both w r = r >>= λ p. returns (record w { hub = p.0; manager = p.1 })

abbrev pub new_world : Manager → World
new_world m = record { hub = new_hub; manager = m; out = [] }

-- The connections of the events are connections that the hub has given out, and the readers take
-- frames of open channels only.
abbrev pub IsAllowed : RelayEvent → World → Type 0
IsAllowed (receives c frame id) w = (c < w.hub.next) × ((w.hub.cells c).closed ≡ false)
IsAllowed (writes c) w = c < w.hub.next
IsAllowed _ w = Unit

abbrev pub After : (World → Type 0) → Outcome World → Type 0
After P (returns w) = P w
After P panics = Unit

module _ (service : PushService) where
  unfoldable pub relay_step : ℕ × RelayEvent → World → Outcome World
  unfolding hub_step relay_frame relay_timer through_hub
  relay_step (now, arrives device_id device_type) w =
      with_hub w (hub_step (connects device_id device_type) w.hub)
  relay_step (now, departs c) w = with_hub w (hub_step (leaves c) w.hub)
  relay_step (now, receives c frame id) w =
      with_both w (relay_frame service c frame id now (w.hub, w.manager))
  relay_step (now, writes c) w =
      let written = write_frame c w.hub in
      returns (record w { hub = written.1; out = frame_of written.0 ++ w.out })
  relay_step (now, pushes id source_id ciphertext iv) w =
      returns (record w { manager = (ingest service id source_id ciphertext iv now w.manager).1 })
  relay_step (now, claims claimant otp_id) w =
      with_both w (through_hub w.manager (w.hub, claim claimant otp_id now w.manager))
  relay_step (now, fires handle) w = with_both w (relay_timer handle now (w.hub, w.manager))
  relay_step (now, sweeps) w = returns (record w { manager = sweep now w.manager })

  unfoldable pub relay_run : List (ℕ × RelayEvent) → World → Outcome World
  relay_run [] w = returns w
  relay_run (e ∷ es) w = relay_step e w >>= relay_run es

  -- Each event is one that can happen, in the world that it meets.
  abbrev pub AllAllowed : List (ℕ × RelayEvent) → World → Type 0
  AllAllowed [] w = Unit
  AllAllowed (e ∷ es) w = IsAllowed e.1 w × After (AllAllowed es) (relay_step e w)
