-- ===== src/Relay/Delivery.antt =====
-- main.go: the hub and the coordinator together, from the frame of a claim to the frame of the payload.
use otp_relay_backend.Base.{
  ℕ, zero, suc, ◌-◌, ◌<◌, ◌≡◌, refl, sym, ap, ◌∙◌, ◌≢◌, String, pos, ◌+ℤ◌, ◌≤ℤ◌, List, [], ◌∷◌,
  ◌++◌, map, Option, some, none, arith, length, length-append, lookup, eq_of_ne,
}
use otp_relay_backend.Db.{Otp, claimed}
use otp_relay_backend.Db.Otps.{with_status}
use otp_relay_backend.Db.Otps.Laws.{row}
use otp_relay_backend.Push.{PushService}
use otp_relay_backend.Ws.{Envelope, type_otp_claim}
use otp_relay_backend.Ws.Hub.{
  Hub, Outcome, returns, panics, ◌>>=◌, send_to_device, read_frame, handle, handle_claim, text,
  send_buffer,
}
use otp_relay_backend.Ws.Hub.Order.{IsSound}
use otp_relay_backend.Ws.Hub.Safety.{only_hub}
use otp_relay_backend.Ws.Hub.Channel.{send_all, write_frames, sent_in_order}
use otp_relay_backend.Claim.{Manager}
use otp_relay_backend.Claim.Window.{claim, fire, open_window, payload_envelope}
use otp_relay_backend.Claim.Scenarios.{IsReady, IsLive, claim_first, sole_claim}
use otp_relay_backend.Relay.{receive, dispatch, dispatch_on_claim}

abbrev take {ℓ} : {A : Type ℓ} → ℕ → List A → List A
take zero xs = []
take (suc n) [] = []
take (suc n) (x ∷ xs) = x ∷ take n xs

-- What was sent since the log was `before`, the last first.
abbrev pub new_sends :
    List (String × Envelope) → List (String × Envelope) → List (String × Envelope)
new_sends before after = take (length after - length before) after

-- `SendToDevice` of the hub for each message, the oldest first.
unfoldable pub forward : List (String × Envelope) → Hub → Outcome Hub
unfolding send_to_device
forward [] h = returns h
forward ((device, e) ∷ older) h = forward older h >>= λ h'. only_hub (send_to_device device e h')

-- What a call of the coordinator sends goes through the hub.
unfoldable pub through_hub : Manager → Hub × Manager → Outcome (Hub × Manager)
unfolding forward
through_hub before (h, m) = forward (new_sends before.sent m.sent) h >>= λ h'. returns (h', m)

module _ (service : PushService) where
  unfoldable pub relay_frame :
      ℕ → Option Envelope → String → ℕ → Hub × Manager → Outcome (Hub × Manager)
  unfolding receive through_hub
  relay_frame c frame id now (h, m) = receive service c frame id now (h, m) >>= through_hub m

unfoldable pub relay_timer : ℕ → ℕ → Hub × Manager → Outcome (Hub × Manager)
unfolding fire through_hub
relay_timer handle now (h, m) = through_hub m (h, fire handle now m)

take-append {ℓ} : {A : Type ℓ} (xs ys : List A) → take (length xs) (xs ++ ys) ≡ xs
take-append [] ys = refl
take-append (x ∷ xs) ys = ap (◌∷◌ x) (take-append xs ys)

pub new_sends-append : (x s : List (String × Envelope)) → new_sends s (x ++ s) ≡ x
new_sends-append x s =
    let size : length (x ++ s) - length s ≡ length x = omega (arith, length-append x s) in
    ap (λ n. take n (x ++ s)) size ∙ take-append x s

bind-returns : (r : Outcome Hub) → (r >>= λ h. returns h) ≡ r
bind-returns (returns h) = refl
bind-returns panics = refl

through_hub-quiet :
    (before : Manager) (h : Hub) (m : Manager)
    → m.sent ≡ before.sent
    → through_hub before (h, m) ≡ returns (h, m)
unfolding through_hub forward
through_hub-quiet before h m e = rw (e, new_sends-append [] before.sent, through_hub) refl

-- One message to a connected device whose queue has room.
through_hub-send :
    (before : Manager) (h : Hub) (m : Manager) (a : String) (c : ℕ) (e : Envelope)
    → IsSound h
    → lookup a h.clients ≡ some c
    → length (h.cells c).queue < send_buffer
    → m.sent ≡ (a, e) ∷ before.sent
    → (h' : Hub) × (through_hub before (h, m) ≡ returns (h', m))
      × (write_frames (suc (length (h.cells c).queue)) c h'
          ≡ map text ((h.cells c).queue ++ e ∷ []))
unfolding through_hub forward send_all
through_hub-send before h m a c e s current room told =
    let (h', sent, written) = sent_in_order a c (e ∷ []) h s current (omega arith) in
    let new : new_sends before.sent m.sent ≡ (a, e) ∷ [] =
      ap (new_sends before.sent) told ∙ new_sends-append ((a, e) ∷ []) before.sent in
    let size : suc (length (h.cells c).queue) ≡ length ((h.cells c).queue ++ e ∷ []) =
      omega (arith, length-append (h.cells c).queue (e ∷ [])) in
    (
      h',
      ap (λ l. forward l h >>= λ k. returns (k, m)) new
          ∙ ap (λ r. r >>= λ k. returns (k, m))
              (sym (bind-returns (only_hub (send_to_device a e h))) ∙ sent),
      ap (λ n. write_frames n c h') size ∙ written,
    )

-- The OTP is stored as claimed by the device, and the writer of its connection `c` writes out what
-- waited there in `h`, and then the payload.
abbrev pub Delivered : String → ℕ → Hub → String → Otp → Outcome (Hub × Manager) → Type 0
Delivered a c h j o r =
    (h' : Hub) × (m' : Manager) × (r ≡ returns (h', m'))
    × (row j m'.db ≡ some (with_status claimed (some a) o))
    × (write_frames (suc (length (h.cells c).queue)) c h'
        ≡ map text ((h.cells c).queue ++ payload_envelope j o ∷ []))

module _ {m : Manager} {o : Otp} (service : PushService) (e : Envelope) (r : IsReady m e.otp_id o)
    (c : ℕ) (a id : String) (first : ℕ) (h : Hub) (s : IsSound h)
    (current : lookup a h.clients ≡ some c) where
  receive-claim :
      (h.cells c).device_type ≡ "destination"
      → e.type ≡ type_otp_claim
      → e.otp_id ≢ ""
      → receive service c (some e) id first (h, m) ≡ returns (h, claim a e.otp_id first m)
  unfolding receive read_frame handle handle_claim dispatch dispatch_on_claim
  receive-claim destination kind named =
      rw (kind, destination, s.owner a c current, eq_of_ne e.otp_id "" named, receive) refl

  relay_frame-claim :
      (h.cells c).device_type ≡ "destination"
      → e.type ≡ type_otp_claim
      → e.otp_id ≢ ""
      → (claim a e.otp_id first m).sent ≡ m.sent
      → relay_frame service c (some e) id first (h, m) ≡ returns (h, claim a e.otp_id first m)
  unfolding relay_frame
  relay_frame-claim destination kind named quiet =
      ap (λ r. r >>= through_hub m) (receive-claim destination kind named)
      ∙ through_hub-quiet m h (claim a e.otp_id first m) quiet

  -- From end to end: on a hub in order, the frame of a claim comes from the current connection of a
  -- destination device, whose queue has room, and names an OTP that is stored as pending and has no
  -- window, while the database answers. The next that happens is that the window's timer fires, when
  -- the window is over. If the OTP is live at both times, it is then stored as claimed by the device,
  -- and the connection writes out, after the frames that waited, the OTP's ciphertext and iv.
  pub claim-Delivered :
      (late : ℕ)
      → (h.cells c).device_type ≡ "destination"
      → length (h.cells c).queue < send_buffer
      → e.type ≡ type_otp_claim
      → e.otp_id ≢ ""
      → lookup e.otp_id m.windows ≡ none
      → IsLive o first
      → IsLive o late
      → pos first +ℤ m.window ≤ℤ pos late
      → Delivered a c h e.otp_id o
          (relay_frame service c (some e) id first (h, m) >>= relay_timer m.next_timer late)
  unfolding relay_timer open_window
  claim-Delivered late destination room kind named none_open live live' over =
      let m1 = claim a e.otp_id first m in
      let m2 = fire m.next_timer late m1 in
      let (stored, told, gone) = (sole_claim r none_open a first late live live').0 over in
      let quiet : m1.sent ≡ m.sent = ap (λ k. k.sent) (claim_first r a first live none_open) in
      let (h', sent, written) =
        through_hub-send m1 h m2 a c (payload_envelope e.otp_id o) s current room
          (told ∙ ap (λ l. (a, payload_envelope e.otp_id o) ∷ l) (sym quiet)) in
      (
        h',
        m2,
        ap (λ r. r >>= relay_timer m.next_timer late)
              (relay_frame-claim destination kind named quiet)
            ∙ sent,
        stored,
        written,
      )
