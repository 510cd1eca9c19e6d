-- ===== src/Claim/Effect/Views.antt =====
-- internal/claim/claim.go: the calls that leave the view of an OTP alone.
use otp_relay_backend.Base.{◌≡◌, refl, ◌∙◌, String, List, [], ◌∷◌, arith}
use otp_relay_backend.Db.{Db}
use otp_relay_backend.Db.Otps.{get_otp}
use otp_relay_backend.Db.Otps.Laws.{row, row-get_otp}
use otp_relay_backend.Db.Devices.{list_push_targets}
use otp_relay_backend.Push.{PushService}
use otp_relay_backend.Claim.Ingest.{dispatch_push}
use otp_relay_backend.Claim.{Manager}
use otp_relay_backend.Claim.Window.{reject, send_invalidated, notify_all, with_db}
use otp_relay_backend.Claim.Effect.{recipients, view}

module _ (j : String) where
  pub view-reject :
      (device id reason : String) (m : Manager) → view j (reject device id reason m) ≡ view j m
  unfolding reject recipients
  view-reject device id reason m = refl

  pub view-send_invalidated :
      (device id : String) (m : Manager) → view j (send_invalidated device id m) ≡ view j m
  unfolding send_invalidated recipients
  view-send_invalidated device id m = refl

  pub view-notify_all :
      (cs : List String) (id : String) (m : Manager) → view j (notify_all cs id m) ≡ view j m
  unfolding notify_all
  view-notify_all [] id m = refl
  view-notify_all (c ∷ cs) id m =
      view-notify_all cs id (send_invalidated c id m) ∙ view-send_invalidated c id m

  row-list_push_targets : (d : Db) → row j (list_push_targets d).1 ≡ row j d
  unfolding list_push_targets
  row-list_push_targets d = ground arith

  pub view-dispatch_push :
      (service : PushService) (id : String) (m : Manager)
      → view j (dispatch_push service id m) ≡ view j m
  unfolding dispatch_push
  view-dispatch_push service id m = ground (arith, row-list_push_targets m.db)

  -- A lookup leaves the view alone.
  pub view-get_otp : (id : String) (m : Manager) → view j (with_db (get_otp id m.db).1 m) ≡ view j m
  view-get_otp id m = rw (row-get_otp j id m.db)
