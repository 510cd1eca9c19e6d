-- ===== src/Relay.antt =====
-- main.go: the dispatcher between the hub and the claim coordinator.
pub mod Entry
pub mod Start
pub mod Lifecycle
pub mod Delivery
pub mod World
pub mod Revoked
mod Tests
use otp_relay_backend.Base.{ℕ, String, ◌||◌, ◌==◌, if◌then◌else◌}
use otp_relay_backend.Push.{PushService}
use otp_relay_backend.Ws.{Envelope}
use otp_relay_backend.Ws.Hub.{
  Hub, Dispatch, nothing, on_push, on_claim, Outcome, returns, panics, read_frame,
}
use otp_relay_backend.Claim.{Manager}
use otp_relay_backend.Claim.Window.{claim}
use otp_relay_backend.Claim.Ingest.{ingest}
use otp_relay_backend.Base.{Option}

module _ (service : PushService) where
  -- `OnPush`; `id` is the text that the ingestion draws. An error is logged only.
  unfoldable pub dispatch_on_push : String → Envelope → String → ℕ → Manager → Manager
  unfolding ingest
  dispatch_on_push source e id now m =
      if e.ciphertext == "" || e.iv == ""
      then m
      else (ingest service id source e.ciphertext e.iv now m).1

  -- `OnClaim`.
  unfoldable pub dispatch_on_claim : String → Envelope → ℕ → Manager → Manager
  unfolding claim
  dispatch_on_claim claimant e now m = if e.otp_id == "" then m else claim claimant e.otp_id now m

  unfoldable pub dispatch : Dispatch → String → ℕ → Manager → Manager
  unfolding dispatch_on_push dispatch_on_claim
  dispatch nothing id now m = m
  dispatch (on_push source e) id now m = dispatch_on_push source e id now m
  dispatch (on_claim claimant e) id now m = dispatch_on_claim claimant e now m

  -- One frame of a connection, from the reader to the coordinator.
  unfoldable pub receive :
      ℕ → Option Envelope → String → ℕ → Hub × Manager → Outcome (Hub × Manager)
  unfolding read_frame
  receive c frame id now (h, m) = elim (read_frame c frame h) [
    | panics ↦ panics
    | returns (d, h') ↦ returns (h', dispatch d id now m)
  ]
