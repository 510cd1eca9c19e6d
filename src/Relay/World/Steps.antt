-- ===== src/Relay/World/Steps.antt =====
-- What an event of the relay does to the payloads of an OTP that are on their way.
use otp_relay_backend.Base.{
  ℕ, ◌+◌, ◌≤◌, ◌≡◌, refl, ap, ◌∙◌, ◌⊎◌, inl, inr, String, ℤ, List, [], ◌∷◌, ◌++◌, Option, ◌==◌,
  ◌&&◌, arith, Bool-cases, length, total,
}
use otp_relay_backend.Push.{PushService}
use otp_relay_backend.Ws.{Envelope, type_otp_payload}
use otp_relay_backend.Ws.Hub.{Hub, Dispatch, Outcome, returns, panics, ◌>>=◌, read_frame}
use otp_relay_backend.Ws.Hub.Order.{IsSound}
use otp_relay_backend.Ws.Hub.Safety.{reads, sends, HubEvent, hub_step, only_hub, hub_step-IsSound}
use otp_relay_backend.Ws.Hub.Payloads.{payload, waiting, IsGiven, payload_in, hub_step-waiting}
use otp_relay_backend.Claim.{Manager}
use otp_relay_backend.Claim.Step.{Event, step}
use otp_relay_backend.Claim.Effect.{recipients}
use otp_relay_backend.Claim.Safety.{Sound, step-Sound}
use otp_relay_backend.Claim.Log.{Log, Grows, step-Grows}
use otp_relay_backend.Relay.{dispatch, receive}
use otp_relay_backend.Relay.Entry.{Entry, receive-Entry}
use otp_relay_backend.Relay.Delivery.{
  new_sends, new_sends-append, forward, through_hub, relay_frame,
}
use otp_relay_backend.Relay.World.{receives, World, with_hub, with_both, IsAllowed}

-- The number of times that a payload was sent.
recipients-cons :
    (j d : String) (e : Envelope) (l : Log)
    → length (recipients j ((d, e) ∷ l)) ≡ payload j e + length (recipients j l)
unfolding recipients
recipients-cons j d e l = elim (Bool-cases (e.type == type_otp_payload && e.otp_id == j)) [
  | inl hit ↦ rw hit (omega arith)
  | inr miss ↦ rw miss (omega arith)
]

recipients-append :
    (j : String) (x l : Log)
    → length (recipients j (x ++ l)) ≡ length (recipients j x) + length (recipients j l)
unfolding recipients
recipients-append j [] l = omega arith
recipients-append j ((d, e) ∷ x) l =
    omega (arith, recipients-cons j d e (x ++ l), recipients-cons j d e x, recipients-append j x l)

forward-waiting :
    (j : String) (l : Log) (h : Hub)
    → IsSound h
    → (h' : Hub) × (forward l h ≡ returns h')
      × IsSound h'
      × (waiting j h' ≤ waiting j h + length (recipients j l))
unfolding forward recipients hub_step
forward-waiting j [] h s = (h, refl, s, omega arith)
forward-waiting j ((d, e) ∷ older) h s =
    let (h1, done, s1, few) = forward-waiting j older h s in
    let (h2, sent, s2) = hub_step-IsSound (sends d e) h1 s1 tt in
    let one = hub_step-waiting j (sends d e) h1 h2 s1 tt sent in
    (h2, rw (done, forward) sent, s2, omega (arith, one, few, recipients-cons j d e older))

-- What a handler has sent goes through the hub.
through_hub-waiting :
    (j : String) (before m : Manager) (h : Hub)
    → IsSound h
    → Grows before.sent m.sent
    → (h' : Hub) × (through_hub before (h, m) ≡ returns (h', m))
      × IsSound h'
      × (waiting j h' + length (recipients j before.sent)
          ≤ waiting j h + length (recipients j m.sent))
unfolding through_hub
through_hub-waiting j before m h s (news, grown) =
    let (h', done, s', few) = forward-waiting j news h s in
    let new : new_sends before.sent m.sent ≡ news =
      ap (new_sends before.sent) grown ∙ new_sends-append news before.sent in
    let count = ap (λ l. length (recipients j l)) grown ∙ recipients-append j news before.sent in
    (
      h',
      ap (λ l. forward l h >>= λ k. returns (k, m)) new ∙ ap (λ r. r >>= λ k. returns (k, m)) done,
      s',
      omega (arith, few, count),
    )

-- What an event can make of the coordinator: nothing, or what one event of it makes.
abbrev pub Moves : PushService → ℕ → Manager → Manager → Type 0
Moves service now m m' = (m' ≡ m) ⊎ ((e : Event) × (m' ≡ step service (now, e) m))

-- On a hub in order, and with a coordinator that keeps its promises, no more payloads have been
-- written out, or wait for it, than the coordinator has sent.
pub record Whole (window : ℤ) (j : String) (w : World) : Type 0 where
  pub sound : IsSound w.hub
  pub past : List (ℕ × Event)
  pub safe : Sound past window j w.manager
  pub few : total (payload j) w.out + waiting j w.hub ≤ length (recipients j w.manager.sent)

abbrev pub GoesOn : ℤ → String → Outcome World → Type 0
GoesOn window j r = (w : World) × (r ≡ returns w) × Whole window j w

only_hub-returned :
    (r : Outcome (Dispatch × Hub)) (h : Hub)
    → only_hub r ≡ returns h
    → (d : Dispatch) × (r ≡ returns (d, h))
only_hub-returned (returns (d, k)) h e =
    let same : k ≡ h = ground arith in (d, ap (λ x. returns (d, x)) same)
only_hub-returned panics h e = absurd (ground arith)

module _ (service : PushService) (window : ℤ) (j : String) where
  Moves-Grows : (now : ℕ) (m m' : Manager) → Moves service now m m' → Grows m.sent m'.sent
  Moves-Grows now m m' (inl e) = ([], ap (λ k. k.sent) e)
  Moves-Grows now m m' (inr (e, f)) =
      let (news, grown) = step-Grows service (now, e) m in (news, ap (λ k. k.sent) f ∙ grown)

  Moves-Sound :
      (now : ℕ) (past : List (ℕ × Event)) (m m' : Manager)
      → Sound past window j m
      → Moves service now m m'
      → (past' : List (ℕ × Event)) × Sound past' window j m'
  Moves-Sound now past m m' s (inl e) = (past, rw e s)
  Moves-Sound now past m m' s (inr (e, f)) =
      ((now, e) ∷ past, rw f (step-Sound service window j (now, e) m s))

  frame-Moves :
      (c : ℕ) (frame : Option Envelope) (id : String) (now : ℕ) (h h' : Hub) (m m' : Manager)
      → receive service c frame id now (h, m) ≡ returns (h', m')
      → Moves service now m m'
  unfolding step
  frame-Moves c frame id now h h' m m' e =
      entered (receive-Entry service c frame id now h h' m m' e)
    where
      entered : Entry service (h.cells c) frame id now m m' → Moves service now m m'
      entered (Entry.idle same) = inl same
      entered (Entry.ingested f is source ct iv same) =
          inr (Event.ingests id (h.cells c).device_id f.ciphertext f.iv, same)
      entered (Entry.claimed f is destination named same) =
          inr (Event.claims (h.cells c).device_id f.otp_id, same)

  module _ (w : World) (a : Whole window j w) (now : ℕ) where
    -- The coordinator moves, and what it sends goes through the hub.
    pub both-GoesOn :
        (h : Hub) (m : Manager)
        → IsSound h
        → waiting j h ≤ waiting j w.hub
        → Moves service now w.manager m
        → GoesOn window j (with_both w (through_hub w.manager (h, m)))
    both-GoesOn h m s less moves =
        let (h', done, s', few) =
          through_hub-waiting j w.manager m h s (Moves-Grows now w.manager m moves) in
        let (past, safe) = Moves-Sound now a.past w.manager m a.safe moves in
        (
          record w { hub = h'; manager = m },
          ap (with_both w) done,
          record { sound = s'; past = past; safe = safe; few = omega (arith, a.few, few) },
        )

    -- The coordinator moves, and sends nothing.
    pub quiet-Whole :
        (m : Manager)
        → m.sent ≡ w.manager.sent
        → Moves service now w.manager m
        → Whole window j (record w { manager = m })
    quiet-Whole m quiet moves =
        let (past, safe) = Moves-Sound now a.past w.manager m a.safe moves in
        record {
          sound = a.sound;
          past = past;
          safe = safe;
          few = omega (arith, a.few, ap (λ l. length (recipients j l)) quiet);
        }

    pub hub-GoesOn :
        (e : HubEvent) (h : Hub)
        → IsGiven j e w.hub
        → payload_in j e ≡ 0
        → hub_step e w.hub ≡ returns h
        → IsSound h
        → GoesOn window j (with_hub w (hub_step e w.hub))
    hub-GoesOn e h given none_in done s = (
      record w { hub = h },
      ap (with_hub w) done,
      record {
        sound = s;
        past = a.past;
        safe = a.safe;
        few = omega (arith, a.few, none_in, hub_step-waiting j e w.hub h a.sound given done);
      },
    )

    pub frame-GoesOn :
        (c : ℕ) (frame : Option Envelope) (id : String)
        → IsAllowed (receives c frame id) w
        → GoesOn window j (with_both w (relay_frame service c frame id now (w.hub, w.manager)))
    unfolding relay_frame receive hub_step
    frame-GoesOn c frame id (old, opened) =
        let (h, done, s) = hub_step-IsSound (reads c frame) w.hub a.sound opened in
        let less = hub_step-waiting j (reads c frame) w.hub h a.sound old done in
        let (d, read) = only_hub-returned (read_frame c frame w.hub) h done in
        let m = dispatch service d id now w.manager in
        let received : receive service c frame id now (w.hub, w.manager) ≡ returns (h, m) =
          rw (read, receive) refl in
        let moves = frame-Moves c frame id now w.hub h w.manager m received in
        let (w', end, a') = both-GoesOn h m s (omega (arith, less)) moves in
        (w', ap (λ r. with_both w (r >>= through_hub w.manager)) received ∙ end, a')
