-- ===== src/Ws/Hub/Tests.antt =====
-- Runs of the hub, and its theorems at concrete inputs.
use otp_relay_backend.Base.{
  ℕ, zero, suc, true, All, List, ◌≡◌, refl, [], ◌∷◌, some, arith, lookup, insert, false,
}
use otp_relay_backend.Ws.{Envelope, empty_envelope, type_ping, type_pong, type_otp_claim}
use otp_relay_backend.Ws.Hub.{
  Outcome, Hub, returns, panics, on_claim, read_frame, send_to_device, connect, unregister,
  send_found, new_hub, write,
}
use otp_relay_backend.Ws.Hub.Order.{
  IsSound, new_hub-IsSound, arrived, arrived-IsSound, write_queue-IsSound,
}
use otp_relay_backend.Ws.Hub.Safety.{
  hub_step, connects, leaves, reads, writes, sends, HubEvent, Succeeds, hub_step-IsSound,
  displaced_read_panics, late_send_panics,
}
use otp_relay_backend.Ws.Hub.Capability.{MayDispatch, capability}
use otp_relay_backend.Ws.Hub.Runs.{hub_run}
use otp_relay_backend.Ws.Hub.Queue.{IsQueue, hub_run-IsQueue}
use otp_relay_backend.Ws.Hub.Presence.{HasPresence, hub_run-HasPresence}
use otp_relay_backend.Ws.Hub.Writer.{
  Wake, channel, GoesThrough, channel_wakes, HasDrained, write_pump, IsOver, connection-IsOver,
}
use otp_relay_backend.Ws.Hub.Displaced.{displaced-HasDrained}
use otp_relay_backend.Ws.Hub.Pump.{Inbound, pong, fails, message, read_pump, pong_wait}

-- One destination device is connected, by the connection 0.
abbrev one_device : Hub
one_device = arrived "phone" "destination" new_hub new_hub-IsSound

one_device-IsSound : IsSound one_device
unfolding lookup
one_device-IsSound = arrived-IsSound "phone" "destination" new_hub new_hub-IsSound refl

abbrev ping : Envelope
ping = record empty_envelope { type = type_ping }

abbrev claim_message : Envelope
claim_message = record empty_envelope { type = type_otp_claim; otp_id = "otp1" }

hub_step-IsSound_example : Succeeds (hub_step (reads 0 (some ping)) one_device)
hub_step-IsSound_example = hub_step-IsSound (reads 0 (some ping)) one_device one_device-IsSound refl

displaced_read_panics_example :
    (h' : Hub) × (hub_step (connects "phone" "destination") one_device ≡ returns h')
    × (hub_step (reads 0 (some ping)) h' ≡ panics)
unfolding lookup insert
displaced_read_panics_example =
    displaced_read_panics "phone" "destination" 0 one_device (some ping) one_device-IsSound refl
      refl

capability_example :
    MayDispatch (one_device.cells 0) (some claim_message) (on_claim "phone" claim_message)
unfolding read_frame
capability_example =
    capability 0 (some claim_message) one_device one_device (on_claim "phone" claim_message) refl

late_send_panics_example :
    (h' : Hub) × (hub_step (connects "phone" "destination") one_device ≡ returns h')
    × (send_found (some 0) ping h' ≡ panics)
unfolding lookup insert
late_send_panics_example =
    late_send_panics "phone" "destination" 0 ping one_device one_device-IsSound refl

-- Two pings are answered after one second each, with a claim in between.
abbrev two_pongs : List (ℕ × Inbound)
two_pongs =
    (55000000000, pong) ∷ (100000000000, message (some claim_message)) ∷ (109000000000, pong) ∷ []

-- The channel wakes the writer `n` times.
abbrev many : ℕ → List Wake
many zero = []
many (suc n) = channel true ∷ many n

many-GoesThrough : (n : ℕ) → All GoesThrough (many n)
many-GoesThrough zero = tt
many-GoesThrough (suc n) = (refl, many-GoesThrough n)

channel_wakes-many : (n : ℕ) → channel_wakes (many n) ≡ n
channel_wakes-many zero = refl
channel_wakes-many (suc n) = omega (arith, channel_wakes-many n)

-- The reader has ended; the writer is woken by its channel.
connection-IsOver_example :
    IsOver 0 "phone" (channel true ∷ []) (read_pump 0 two_pongs pong_wait one_device)
unfolding lookup insert
connection-IsOver_example =
    connection-IsOver 0 two_pongs pong_wait (channel true ∷ []) one_device one_device-IsSound refl
      (omega arith)

-- A ping of the device is answered, and its answer waits.
abbrev one_waits : Hub
one_waits =
    write 0
      (record (one_device.cells 0) { queue = record empty_envelope { type = type_pong } ∷ [] })
      one_device

one_waits-IsSound : IsSound one_waits
one_waits-IsSound =
    write_queue-IsSound one_device 0 (record empty_envelope { type = type_pong } ∷ [])
      one_device-IsSound (omega arith)

displaced-HasDrained_example :
    (h' : Hub) × (hub_step (connects "phone" "destination") one_waits ≡ returns h')
    × HasDrained (record empty_envelope { type = type_pong } ∷ []) (write_pump 0 (many 17) h' true)
    × (read_pump 0 ((5, fails) ∷ []) pong_wait (write_pump 0 (many 17) h' true).hub
        ≡ returns ([], ((write_pump 0 (many 17) h' true).hub, false)))
    × (lookup "phone" (write_pump 0 (many 17) h' true).hub.clients ≡ some 1)
unfolding lookup insert
displaced-HasDrained_example =
    displaced-HasDrained "phone" "destination" 0 one_waits (many 17) 5 pong_wait one_waits-IsSound
      refl (many-GoesThrough 17) (omega (arith, channel_wakes-many 17))

-- A message is sent, a ping is answered, and one frame is written out.
abbrev three_frames : List HubEvent
three_frames = sends "phone" claim_message ∷ reads 0 (some ping) ∷ writes 0 ∷ []

-- A test names this definition to see through the hub.
queue_after : List HubEvent → Outcome Hub
unfolding hub_run hub_step read_frame send_to_device connect unregister lookup insert
queue_after es = hub_run es one_device

hub_run-IsQueue_example : IsQueue 0 three_frames one_device (hub_run three_frames one_device)
unfolding queue_after
hub_run-IsQueue_example =
    hub_run-IsQueue 0 three_frames one_device one_device-IsSound (tt, (refl, (tt, tt)))
      (omega arith)

-- A device connects twice, and then its first connection leaves.
abbrev twice : List HubEvent
twice = connects "phone" "destination" ∷ connects "phone" "destination" ∷ leaves 0 ∷ []

hub_run-HasPresence_example : HasPresence "phone" twice (hub_run twice new_hub)
unfolding queue_after
hub_run-HasPresence_example = hub_run-HasPresence "phone" twice (tt, (tt, (tt, tt)))
