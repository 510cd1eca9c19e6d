-- ===== src/Ws/Hub/Safety.antt =====
-- Which events of the hub can panic, what each may dispatch, and that the invariant is kept.
use mathlib.Core.Bool.{not}
use otp_relay_backend.Base.{
  ℕ, ◌≡◌, refl, String, Bool, true, false, List, [], ◌∷◌, ◌++◌, Option, none, some, ◌==◌, arith,
  ltb, eqb, length, length-append, lookup, Bool-cases, Option-cases, inl, inr, ◌⊎◌, if◌then◌else◌,
}
use otp_relay_backend.Ws.{Envelope, type_ping, type_otp_push, type_otp_claim}
use otp_relay_backend.Ws.Hub.{
  Hub, Client, Outcome, returns, panics, ◌>>=◌, write, offer, unregister, connect, send_to_device,
  send_found, try_send, send_error, send_buffer, answered, handle, handle_push, handle_claim,
  read_frame, write_frame,
}
use otp_relay_backend.Ws.Hub.Order.{
  IsCurrent, IsSound, arrived, arrived-IsSound, displaced, displaced-IsSound, connect-none,
  connect-some, left, left-IsSound, unregister_current, unregister_stale, write_queue-IsSound,
}

-- What happens to the hub: a connection arrives, or leaves; its reader takes a frame, `none` if it is
-- no JSON envelope; its writer takes the next frame; or the relay sends to a device.
pub data HubEvent : Type 0 where
  connects : (device_id device_type : String) → HubEvent
  leaves : (c : ℕ) → HubEvent
  reads : (c : ℕ) → Option Envelope → HubEvent
  writes : (c : ℕ) → HubEvent
  sends : (device_id : String) → Envelope → HubEvent

abbrev pub only_hub {ℓ} : {A : Type ℓ} → Outcome (A × Hub) → Outcome Hub
only_hub r = r >>= λ p. returns p.1

unfoldable pub hub_step : HubEvent → Hub → Outcome Hub
hub_step (connects device_id device_type) h = only_hub (connect device_id device_type h)
hub_step (leaves c) h = unregister c h
hub_step (reads c frame) h = only_hub (read_frame c frame h)
hub_step (writes c) h = returns (write_frame c h).1
hub_step (sends device_id e) h = only_hub (send_to_device device_id e h)

-- The operation returns, and the hub is sound after it.
abbrev pub Succeeds : Outcome Hub → Type 0
Succeeds r = (h : Hub) × (r ≡ returns h) × IsSound h

-- A send to an open channel.
offer-Succeeds :
    (c : ℕ) (e : Envelope) (h : Hub)
    → IsSound h
    → (h.cells c).closed ≡ false
    → Succeeds (only_hub (offer c e h))
unfolding offer
offer-Succeeds c e h s o = elim (Bool-cases (ltb (length (h.cells c).queue) send_buffer)) [
  | inl room ↦ (
    write c (record (h.cells c) { queue = (h.cells c).queue ++ e ∷ [] }) h,
    ground arith,
    write_queue-IsSound h c ((h.cells c).queue ++ e ∷ []) s
        (ground (arith, length-append (h.cells c).queue (e ∷ []))),
  )
  | inr full ↦ (h, ground arith, s)
]

pub only_hub-answered :
    (r : Outcome (Bool × Hub)) → only_hub (answered (r >>= λ p. returns p.1)) ≡ only_hub r
only_hub-answered (returns p) = refl
only_hub-answered panics = refl

module _ (c : ℕ) (h : Hub) (s : IsSound h) (o : (h.cells c).closed ≡ false) where
  answered-Succeeds : (e : Envelope) → Succeeds (only_hub (answered (try_send c e h)))
  unfolding try_send
  answered-Succeeds e = rw (only_hub-answered (offer c e h)) (offer-Succeeds c e h s o)

  handle_push-Succeeds : (e : Envelope) → Succeeds (only_hub (handle_push c e h))
  unfolding handle_push send_error
  handle_push-Succeeds e = elim (Bool-cases (not ((h.cells c).device_type == "source"))) [
    | inl refused ↦ rw (refused, handle_push) (answered-Succeeds _)
    | inr taken ↦ rw (taken, handle_push) (h, refl, s)
  ]

  handle_claim-Succeeds : (e : Envelope) → Succeeds (only_hub (handle_claim c e h))
  unfolding handle_claim send_error
  handle_claim-Succeeds e = elim (Bool-cases (not ((h.cells c).device_type == "destination"))) [
    | inl refused ↦ rw (refused, handle_claim) (answered-Succeeds _)
    | inr taken ↦ rw (taken, handle_claim) (h, refl, s)
  ]

  pub read_frame-Succeeds : (frame : Option Envelope) → Succeeds (only_hub (read_frame c frame h))
  unfolding read_frame handle send_error
  read_frame-Succeeds none = answered-Succeeds _
  read_frame-Succeeds (some e) = elim (Bool-cases (e.type == type_ping)) [
    | inl ping ↦ rw (ping, handle) (answered-Succeeds _)
    | inr p ↦ elim (Bool-cases (e.type == type_otp_push)) [
      | inl push ↦ rw (p, push, handle) (handle_push-Succeeds e)
      | inr q ↦ elim (Bool-cases (e.type == type_otp_claim)) [
        | inl claim ↦ rw (p, q, claim, handle) (handle_claim-Succeeds e)
        | inr r ↦ rw (p, q, r, handle) (answered-Succeeds _)
      ]
    ]
  ]

pub IsCurrent-cases : (c : ℕ) (h : Hub) → IsCurrent c h ⊎ (¬ IsCurrent c h)
IsCurrent-cases c h = elim (Option-cases (lookup (h.cells c).device_id h.clients)) [
  | inl e ↦ inr (λ f. ground arith)
  | inr (k, e) ↦ elim (Bool-cases (eqb k c)) [
    | inl hit ↦ inl (ground arith)
    | inr miss ↦ inr (λ f. ground arith)
  ]
]

writes-IsSound :
    (c : ℕ) (h : Hub)
    → IsSound h
    → (q : List Envelope) → (h.cells c).queue ≡ q
    → Succeeds (returns (write_frame c h).1)
unfolding write_frame
writes-IsSound c h s [] e = rw (e, write_frame) (h, refl, s)
writes-IsSound c h s (f ∷ q) e =
    rw (e, write_frame) (_, refl, write_queue-IsSound h c q s (ground (arith, s.bounded c)))

-- A reader takes frames of an open channel only.
abbrev pub IsAllowed : HubEvent → Hub → Type 0
IsAllowed (reads c frame) h = (h.cells c).closed ≡ false
IsAllowed _ h = Unit

-- With each event as one step, the hub is kept in order: each device has at most one connection, which is its own and open, any
-- other connection is closed, and no queue holds more than sixteen frames. No event panics, but for
-- a read on a closed channel: no frame is sent to a closed channel and none is closed twice.
pub hub_step-IsSound :
    (e : HubEvent) (h : Hub) → IsSound h → IsAllowed e h → Succeeds (hub_step e h)
unfolding hub_step write_frame send_to_device
hub_step-IsSound (connects d t) h s a = elim (Option-cases (lookup d h.clients)) [
  | inl e ↦ rw (connect-none d t h s e) (arrived d t h s, refl, arrived-IsSound d t h s e)
  | inr (old, e) ↦
      rw (connect-some d t h s old e) (displaced d t h s old, refl, displaced-IsSound d t h s old e)
]
hub_step-IsSound (leaves c) h s a = elim (IsCurrent-cases c h) [
  | inl current ↦ (left c h s, unregister_current c h s current, left-IsSound c h s current)
  | inr other ↦ (h, unregister_stale c h s other, s)
]
hub_step-IsSound (reads c frame) h s a = read_frame-Succeeds c h s a frame
hub_step-IsSound (writes c) h s a = writes-IsSound c h s (h.cells c).queue refl
hub_step-IsSound (sends d e) h s a = elim (Option-cases (lookup d h.clients)) [
  | inl n ↦ rw (n, send_to_device) (h, refl, s)
  | inr (c, f) ↦ rw (f, send_to_device) (offer-Succeeds c e h s (s.opened d c f))
]

-- A frame that the reader answers itself: a ping, a malformed or unknown message, a push that does
-- not come from a source, a claim that does not come from a destination.
abbrev pub is_answered : Client → Option Envelope → Bool
is_answered cell none = true
is_answered cell (some e) =
    if e.type == type_ping
    then true
    else if e.type == type_otp_push
    then not (cell.device_type == "source")
    else if e.type == type_otp_claim
    then not (cell.device_type == "destination")
    else true

read_closed :
    (c : ℕ) (frame : Option Envelope) (h : Hub)
    → (h.cells c).closed ≡ true
    → is_answered (h.cells c) frame ≡ true
    → read_frame c frame h ≡ panics
unfolding read_frame handle handle_push handle_claim send_error try_send offer
read_closed c none h o a = ground arith
read_closed c (some e) h o a = ground arith

-- On a hub in order, when a device connects again, its first connection is closed in the hub while
-- its reader still runs. Each frame that this reader has to answer then makes the whole relay panic.
pub displaced_read_panics :
    (d device_type : String) (old : ℕ) (h : Hub) (frame : Option Envelope)
    → IsSound h
    → lookup d h.clients ≡ some old
    → is_answered (h.cells old) frame ≡ true
    → (h' : Hub) × (hub_step (connects d device_type) h ≡ returns h')
      × (hub_step (reads old frame) h' ≡ panics)
unfolding hub_step
displaced_read_panics d t old h frame s e a = (
  displaced d t h s old,
  rw (connect-some d t h s old e),
  rw (
      read_closed old frame (displaced d t h s old) (ground arith)
        (ground (arith, s.known d old e))),
)

-- `SendToDevice` unlocks the hub between its lookup and its send. If, on a hub in order, a connected
-- device connects again in between, the send finds the closed channel, and the whole relay panics.
pub late_send_panics :
    (d device_type : String) (old : ℕ) (e : Envelope) (h : Hub)
    → IsSound h
    → lookup d h.clients ≡ some old
    → (h' : Hub) × (hub_step (connects d device_type) h ≡ returns h')
      × (send_found (lookup d h.clients) e h' ≡ panics)
unfolding hub_step send_found offer
late_send_panics d t old e h s f =
    (displaced d t h s old, rw (connect-some d t h s old f), rw f (ground arith))
