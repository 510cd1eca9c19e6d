-- ===== src/Ws/Handler/Tests.antt =====
-- A device connects.
use otp_relay_backend.Base.{[], ◌∷◌, true, none}
use otp_relay_backend.Db.{Db}
use otp_relay_backend.Registry.{new_device}
use otp_relay_backend.Ws.Hub.{new_hub}
use otp_relay_backend.Ws.Hub.Order.{new_hub-IsSound}
use otp_relay_backend.Ws.Handler.{serve_http}
use otp_relay_backend.Ws.Handler.Gate.{Gate, serve_http-Gate}

abbrev one_phone : Db
one_phone = record {
  otps = [];
  devices = new_device "Phone" "source" none "d1" "t1" 0 ∷ [];
  invites = [];
  replies = [];
}

serve_http-Gate_example : Gate "t1" one_phone new_hub (serve_http "t1" true one_phone new_hub)
serve_http-Gate_example = serve_http-Gate "t1" true one_phone new_hub new_hub-IsSound
