-- ===== src/Ws/Hub/Runs.antt =====
-- Histories of internal/ws/hub.go: many events, one after the other, and what the hub is offered.
use otp_relay_backend.Base.{
  ℕ, ◌≡◌, refl, String, List, [], ◌∷◌, Option, none, some, ◌==◌, Bool-cases, inl, inr,
  if◌then◌else◌,
}
use Prim.Native.String
use otp_relay_backend.Ws.{
  Envelope, empty_envelope, type_ping, type_pong, type_error, type_otp_push, type_otp_claim,
}
use otp_relay_backend.Ws.Hub.{
  Written, text, Hub, Client, Outcome, returns, panics, ◌>>=◌, offer, try_send, send_error,
  answered, handle, handle_push, handle_claim, read_frame,
}
use otp_relay_backend.Ws.Hub.Safety.{HubEvent, hub_step, only_hub, only_hub-answered, IsAllowed}

unfoldable pub hub_run : List HubEvent → Hub → Outcome Hub
unfolding hub_step
hub_run [] h = returns h
hub_run (e ∷ es) h = hub_step e h >>= hub_run es

abbrev pub After : (Hub → Type 0) → Outcome Hub → Type 0
After P (returns h) = P h
After P panics = Unit

-- At each event, the reader takes frames of an open channel only.
abbrev pub AllAllowed : List HubEvent → Hub → Type 0
AllAllowed [] h = Unit
AllAllowed (e ∷ es) h = IsAllowed e h × After (AllAllowed es) (hub_step e h)

abbrev error_reply : String → Envelope
error_reply reason = record empty_envelope { type = type_error; error = reason }

-- What the reader answers by itself.
abbrev pub reply : Client → Option Envelope → Option Envelope
reply cell none = some (error_reply "malformed message")
reply cell (some e) =
    if e.type == type_ping
    then some (record empty_envelope { type = type_pong })
    else if e.type == type_otp_push
    then (if cell.device_type == "source"
        then none
        else some (error_reply "only source devices may push"))
    else if e.type == type_otp_claim
    then (if cell.device_type == "destination"
        then none
        else some (error_reply "only destination devices may claim"))
    else some (error_reply (String.◌++◌ "unknown message type: " e.type))

abbrev pub offer_reply : ℕ → Option Envelope → Hub → Outcome Hub
offer_reply c none h = returns h
offer_reply c (some e) h = only_hub (offer c e h)

answered-offer :
    (c : ℕ) (e : Envelope) (h : Hub) → only_hub (answered (try_send c e h)) ≡ only_hub (offer c e h)
unfolding try_send
answered-offer c e h = only_hub-answered (offer c e h)

pub read_frame-reply :
    (c : ℕ) (frame : Option Envelope) (h : Hub)
    → only_hub (read_frame c frame h) ≡ offer_reply c (reply (h.cells c) frame) h
unfolding read_frame handle handle_push handle_claim send_error
read_frame-reply c none h = answered-offer c _ h
read_frame-reply c (some e) h = elim (Bool-cases (e.type == type_ping)) [
  | inl ping ↦ rw (ping, read_frame, handle) (answered-offer c _ h)
  | inr p ↦ elim (Bool-cases (e.type == type_otp_push)) [
    | inl push ↦ elim (Bool-cases ((h.cells c).device_type == "source")) [
      | inl source ↦ rw (p, push, source, read_frame, handle, handle_push) refl
      | inr other ↦ rw (p, push, other, read_frame, handle, handle_push) (answered-offer c _ h)
    ]
    | inr q ↦ elim (Bool-cases (e.type == type_otp_claim)) [
      | inl claim ↦ elim (Bool-cases ((h.cells c).device_type == "destination")) [
        | inl destination ↦ rw (p, q, claim, destination, read_frame, handle, handle_claim) refl
        | inr other ↦
            rw (p, q, claim, other, read_frame, handle, handle_claim) (answered-offer c _ h)
      ]
      | inr r ↦ rw (p, q, r, read_frame, handle) (answered-offer c _ h)
    ]
  ]
]

-- The frame that a round of the writer writes out, if it does.
abbrev pub frame_of : Written → List Envelope
frame_of (text e) = e ∷ []
frame_of _ = []
