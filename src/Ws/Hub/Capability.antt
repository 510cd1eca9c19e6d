-- ===== src/Ws/Hub/Capability.antt =====
-- internal/ws/hub.go: which device may push, and which may claim.
use otp_relay_backend.Base.{
  ℕ, ◌≡◌, refl, true, Option, none, some, ◌==◌, eq_iff, Bool-cases, inl, inr,
}
use otp_relay_backend.Ws.{Envelope, type_ping, type_otp_push, type_otp_claim}
use otp_relay_backend.Ws.Hub.{
  Hub, Client, Outcome, returns, panics, Dispatch, nothing, on_push, on_claim, answered, handle,
  handle_push, handle_claim, read_frame,
}

-- What a frame of the client may set off.
abbrev pub MayDispatch : Client → Option Envelope → Dispatch → Type 0
MayDispatch cell frame nothing = Unit
MayDispatch cell frame (on_push d e) =
    (frame ≡ some e)
    × (d ≡ cell.device_id)
    × (e.type ≡ type_otp_push)
    × (cell.device_type ≡ "source")
MayDispatch cell frame (on_claim d e) =
    (frame ≡ some e)
    × (d ≡ cell.device_id)
    × (e.type ≡ type_otp_claim)
    × (cell.device_type ≡ "destination")

abbrev IsDispatch : Client → Option Envelope → Outcome (Dispatch × Hub) → Type 0
IsDispatch cell frame panics = Unit
IsDispatch cell frame (returns (d, h)) = MayDispatch cell frame d

answered-IsDispatch :
    (cell : Client) (frame : Option Envelope) (r : Outcome Hub) → IsDispatch cell frame (answered r)
answered-IsDispatch cell frame (returns h) = tt
answered-IsDispatch cell frame panics = tt

module _ (c : ℕ) (e : Envelope) (h : Hub) where
  handle_push-IsDispatch :
      (e.type == type_otp_push) ≡ true → IsDispatch (h.cells c) (some e) (handle_push c e h)
  unfolding handle_push
  handle_push-IsDispatch push = elim (Bool-cases ((h.cells c).device_type == "source")) [
    | inl source ↦
        rw (source, handle_push)
          (refl, refl, (eq_iff e.type type_otp_push).0 push, (eq_iff _ _).0 source)
    | inr other ↦ rw (other, handle_push) (answered-IsDispatch (h.cells c) (some e) _)
  ]

  handle_claim-IsDispatch :
      (e.type == type_otp_claim) ≡ true → IsDispatch (h.cells c) (some e) (handle_claim c e h)
  unfolding handle_claim
  handle_claim-IsDispatch claim = elim (Bool-cases ((h.cells c).device_type == "destination")) [
    | inl dest ↦
        rw (dest, handle_claim)
          (refl, refl, (eq_iff e.type type_otp_claim).0 claim, (eq_iff _ _).0 dest)
    | inr other ↦ rw (other, handle_claim) (answered-IsDispatch (h.cells c) (some e) _)
  ]

  handle-IsDispatch : IsDispatch (h.cells c) (some e) (handle c e h)
  unfolding handle
  handle-IsDispatch = elim (Bool-cases (e.type == type_ping)) [
    | inl ping ↦ rw (ping, handle) (answered-IsDispatch (h.cells c) (some e) _)
    | inr p ↦ elim (Bool-cases (e.type == type_otp_push)) [
      | inl push ↦ rw (p, push, handle) (handle_push-IsDispatch push)
      | inr q ↦ elim (Bool-cases (e.type == type_otp_claim)) [
        | inl claim ↦ rw (p, q, claim, handle) (handle_claim-IsDispatch claim)
        | inr r ↦ rw (p, q, r, handle) (answered-IsDispatch (h.cells c) (some e) _)
      ]
    ]
  ]

read_frame-IsDispatch :
    (c : ℕ) (frame : Option Envelope) (h : Hub)
    → IsDispatch (h.cells c) frame (read_frame c frame h)
unfolding read_frame
read_frame-IsDispatch c none h = answered-IsDispatch (h.cells c) none _
read_frame-IsDispatch c (some e) h = handle-IsDispatch c e h

-- Only a source device can set off a push, only a destination device a claim, each in its own name
-- and with the message that it sent; and no frame sets off anything else.
pub capability :
    (c : ℕ) (frame : Option Envelope) (h h' : Hub) (d : Dispatch)
    → read_frame c frame h ≡ returns (d, h')
    → MayDispatch (h.cells c) frame d
capability c frame h h' d e = rw e at (read_frame-IsDispatch c frame h)
