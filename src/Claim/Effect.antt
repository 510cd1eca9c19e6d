-- ===== src/Claim/Effect.antt =====
-- What one event can do to one OTP, as a relation on its row and on the devices that got its payload.
pub mod Views
pub mod Claims
pub mod Delivery
pub mod Events
use otp_relay_backend.Base.{
  ℕ, ◌≡◌, ◌⊎◌, String, leb_ℤ, List, [], ◌∷◌, false, ◌&&◌, Option, none, some, ◌==◌, if◌then◌else◌,
}
use otp_relay_backend.Db.{Otp, pending, claimed, invalidated, expired}
use otp_relay_backend.Db.Otps.{with_status}
use otp_relay_backend.Db.Otps.Laws.{row}
use otp_relay_backend.Ws.{Envelope, type_otp_payload}
use otp_relay_backend.Claim.{Manager}
use otp_relay_backend.Claim.Window.{now_millis}

-- The devices that the payload of an OTP was sent to, the last first.
unfoldable pub recipients : String → List (String × Envelope) → List String
recipients j [] = []
recipients j ((device, e) ∷ sent) =
    let rest = recipients j sent in
    if e.type == type_otp_payload && e.otp_id == j then device ∷ rest else rest

pub record View : Type 0 where
  pub row : Option Otp
  pub recipients : List String

abbrev pub view : String → Manager → View
view j m = record { row = row j m.db; recipients = recipients j m.sent }

-- What an event at `now` may do: nothing that shows; store the OTP; kill it; let it lapse; or mark
-- it claimed by a winner, who may get the payload. `Adds` says what can be stored, and `Wins` who can be the winner.
pub data Change (Adds : Otp → Type 0) (Wins : String → Type 0) (now : ℕ) (v w : View) : Type 0 where
  kept : w.row ≡ v.row → w.recipients ≡ v.recipients → Change Adds Wins now v w
  added :
      (o : Otp)
      → Adds o
      → v.row ≡ none
      → o.status ≡ pending
      → w.row ≡ some o
      → w.recipients ≡ v.recipients
      → Change Adds Wins now v w
  killed :
      (o : Otp)
      → v.row ≡ some o
      → o.status ≡ pending
      → w.row ≡ some (with_status invalidated none o)
      → w.recipients ≡ v.recipients
      → Change Adds Wins now v w
  lapsed :
      (o : Otp)
      → v.row ≡ some o
      → o.status ≡ pending
      → w.row ≡ some (record o { status = expired })
      → w.recipients ≡ v.recipients
      → Change Adds Wins now v w
  taken :
      (o : Otp) (winner : String)
      → Wins winner
      → v.row ≡ some o
      → o.status ≡ pending
      → leb_ℤ o.expires_at (now_millis now) ≡ false
      → w.row ≡ some (with_status claimed (some winner) o)
      → (w.recipients ≡ v.recipients) ⊎ (w.recipients ≡ winner ∷ v.recipients)
      → Change Adds Wins now v w
