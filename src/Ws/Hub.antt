-- ===== src/Ws/Hub.antt =====
-- internal/ws/hub.go: the hub, its clients and their send channels. A `*Client` is a reference into
-- `cells`; a panic of the Go runtime is a result of its own.
pub mod Order
pub mod Safety
pub mod Channel
pub mod Capability
pub mod Reconnect
pub mod Pump
pub mod Writer
pub mod Displaced
pub mod Runs
pub mod Queue
pub mod Presence
pub mod Payloads
mod Tests
use otp_relay_backend.Base.{
  ℕ, suc, String, Bool, true, false, List, [], ◌∷◌, ◌++◌, Option, none, some, ◌==◌, ltb, eqb,
  length, lookup, insert, remove, if◌then◌else◌,
}
use Prim.Native.String
use mathlib.Core.Bool.{not}
use otp_relay_backend.Ws.{
  Envelope, empty_envelope, type_ping, type_pong, type_otp_push, type_otp_claim, type_error,
}

abbrev pub send_buffer : ℕ
send_buffer = 16

-- `queue` is what the channel `send` holds, the oldest frame first, and `closed` whether it is
-- closed. A frame is the envelope that it is the JSON of.
pub record Client : Type 0 where
  pub device_id : String
  pub device_type : String
  pub queue : List Envelope
  pub closed : Bool

-- References from `next` on are not in use.
pub record Hub : Type 0 where
  pub clients : List (String × ℕ)
  pub cells : ℕ → Client
  pub next : ℕ

-- `panics` stands for a send on a closed channel, or for closing one twice.
pub data Outcome {ℓ} (A : Type ℓ) : Type ℓ where
  returns : A → Outcome A
  panics : Outcome A

infixl 5 ◌>>=◌
abbrev pub ◌>>=◌ {ℓ κ} : {A : Type ℓ} {B : Type κ} → Outcome A → (A → Outcome B) → Outcome B
returns a >>= f = f a
panics >>= f = panics

abbrev pub write : ℕ → Client → Hub → Hub
write c cell h = record h { cells = λ i. if eqb c i then cell else h.cells i }

-- `close(c.send)`.
unfoldable pub close : ℕ → Hub → Outcome Hub
close c h =
    if (h.cells c).closed
    then panics
    else returns (write c (record (h.cells c) { closed = true }) h)

-- `select` with one send and a default: a closed channel panics, a full one takes the default.
unfoldable pub offer : ℕ → Envelope → Hub → Outcome (Bool × Hub)
offer c e h =
    let cell = h.cells c in
    if cell.closed
    then panics
    else if ltb (length cell.queue) send_buffer
    then returns (true, write c (record cell { queue = cell.queue ++ e ∷ [] }) h)
    else returns (false, h)

abbrev pub set_current : String → ℕ → Hub → Hub
set_current device c h = record h { clients = insert device c h.clients }

unfoldable pub register : ℕ → Hub → Outcome Hub
unfolding close
register c h =
    let device = (h.cells c).device_id in
    elim (lookup device h.clients) [
      | none ↦ returns (set_current device c h)
      | some old ↦ close old h >>= λ h'. returns (set_current device c h')
    ]

unfoldable pub unregister : ℕ → Hub → Outcome Hub
unfolding close
unregister c h =
    let device = (h.cells c).device_id in
    elim (lookup device h.clients) [
      | none ↦ returns h
      | some cur ↦
          if eqb cur c then close c (record h { clients = remove device h.clients }) else returns h
    ]

-- The lookup of `SendToDevice` gave this client; the lock is released before the send.
unfoldable pub send_found : Option ℕ → Envelope → Hub → Outcome (Bool × Hub)
unfolding offer
send_found none e h = returns (false, h)
send_found (some c) e h = offer c e h

unfoldable pub send_to_device : String → Envelope → Hub → Outcome (Bool × Hub)
unfolding send_found
send_to_device device e h = send_found (lookup device h.clients) e h

unfoldable pub is_connected : String → Hub → Bool
is_connected device h = elim (lookup device h.clients) [ none ↦ false | some c ↦ true ]

unfoldable pub try_send : ℕ → Envelope → Hub → Outcome Hub
unfolding offer
try_send c e h = offer c e h >>= λ r. returns r.1

unfoldable pub send_error : ℕ → String → Hub → Outcome Hub
unfolding try_send
send_error c reason h = try_send c (record empty_envelope { type = type_error; error = reason }) h

-- A call of the dispatcher that `handle` makes.
pub data Dispatch : Type 0 where
  nothing : Dispatch
  on_push on_claim : String → Envelope → Dispatch

-- A message that is answered, or refused, without the dispatcher.
abbrev pub answered : Outcome Hub → Outcome (Dispatch × Hub)
answered r = r >>= λ h. returns (nothing, h)

unfoldable pub handle_push : ℕ → Envelope → Hub → Outcome (Dispatch × Hub)
unfolding send_error
handle_push c e h =
    if not ((h.cells c).device_type == "source")
    then answered (send_error c "only source devices may push" h)
    else returns (on_push (h.cells c).device_id e, h)

unfoldable pub handle_claim : ℕ → Envelope → Hub → Outcome (Dispatch × Hub)
unfolding send_error
handle_claim c e h =
    if not ((h.cells c).device_type == "destination")
    then answered (send_error c "only destination devices may claim" h)
    else returns (on_claim (h.cells c).device_id e, h)

-- The cases of the `switch`.
unfoldable pub handle : ℕ → Envelope → Hub → Outcome (Dispatch × Hub)
unfolding try_send send_error handle_push handle_claim
handle c e h =
    if e.type == type_ping
    then answered (try_send c (record empty_envelope { type = type_pong }) h)
    else if e.type == type_otp_push
    then handle_push c e h
    else if e.type == type_otp_claim
    then handle_claim c e h
    else answered (send_error c (String.◌++◌ "unknown message type: " e.type) h)

-- One frame in `readPump`: one that is no JSON envelope is answered by an error.
unfoldable pub read_frame : ℕ → Option Envelope → Hub → Outcome (Dispatch × Hub)
unfolding handle send_error
read_frame c none h = answered (send_error c "malformed message" h)
read_frame c (some e) h = handle c e h

-- What `writePump` does with the next value of the channel.
pub data Written : Type 0 where
  waits : Written
  text : Envelope → Written
  goodbye : Written

unfoldable pub write_frame : ℕ → Hub → Written × Hub
write_frame c h = elim (h.cells c).queue [
  | [] ↦ (if (h.cells c).closed then goodbye else waits, h)
  | e ∷ rest ↦ (text e, write c (record (h.cells c) { queue = rest }) h)
]

abbrev pub new_hub : Hub
new_hub = record {
  clients = [];
  cells = λ _. record { device_id = ""; device_type = ""; queue = []; closed = false };
  next = 0;
}

-- `ServeHTTP` after the upgrade: a new client, registered at once.
unfoldable pub connect : String → String → Hub → Outcome (ℕ × Hub)
unfolding register
connect device_id device_type h =
    let cell : Client = record {
      device_id = device_id;
      device_type = device_type;
      queue = [];
      closed = false;
    } in
    register h.next (write h.next cell (record h { next = suc h.next })) >>= λ h'.
    returns (h.next, h')
