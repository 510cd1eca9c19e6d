-- ===== src/Relay/World/Once.antt =====
-- The payload of an OTP in the whole relay: it is on its way to one device at most, and once.
use otp_relay_backend.Base.{
  ℕ, ◌+◌, ◌≤◌, ◌<◌, ◌≡◌, refl, inl, inr, String, ℤ, List, [], ◌∷◌, ◌++◌, Option, none, some, arith,
  Option-cases, length, total, total-append,
}
use otp_relay_backend.Db.{Db, Otp}
use otp_relay_backend.Db.Otps.Laws.{row}
use otp_relay_backend.Push.{PushService}
use otp_relay_backend.Ws.Hub.{returns, write_frame}
use otp_relay_backend.Ws.Hub.Order.{new_hub-IsSound}
use otp_relay_backend.Ws.Hub.Safety.{connects, leaves, HubEvent.writes, hub_step, hub_step-IsSound}
use otp_relay_backend.Ws.Hub.Payloads.{payload, waiting, write_frame-waiting}
use otp_relay_backend.Ws.Hub.Runs.{frame_of}
use otp_relay_backend.Claim.{new}
use otp_relay_backend.Claim.Window.{claim, fire, sweep}
use otp_relay_backend.Claim.Ingest.{ingest}
use otp_relay_backend.Claim.Step.{Event, step}
use otp_relay_backend.Claim.Effect.{recipients}
use otp_relay_backend.Claim.Safety.{IsDelivered, new-Sound}
use otp_relay_backend.Claim.Log.{ingest-sent}
use otp_relay_backend.Relay.Delivery.{relay_timer}
use otp_relay_backend.Relay.World.{
  RelayEvent, arrives, departs, receives, writes, pushes, claims, fires, sweeps, World, new_world,
  relay_step, relay_run, IsAllowed, AllAllowed,
}
use otp_relay_backend.Relay.World.Steps.{
  Whole, GoesOn, both-GoesOn, quiet-Whole, hub-GoesOn, frame-GoesOn,
}

module _ (service : PushService) (window : ℤ) (j : String) where
  write-Whole :
      (c : ℕ) (w : World)
      → Whole window j w
      → c < w.hub.next
      → Whole window j (record w {
        hub = (write_frame c w.hub).1;
        out = frame_of (write_frame c w.hub).0 ++ w.out;
      })
  unfolding hub_step
  write-Whole c w a old =
      let (h, done, s) = hub_step-IsSound (writes c) w.hub a.sound tt in
      let same : h ≡ (write_frame c w.hub).1 = ground arith in
      record {
        sound = rw (← same) s;
        past = a.past;
        safe = a.safe;
        few = omega (
          arith,
          a.few,
          write_frame-waiting j c w.hub old,
          total-append (payload j) (frame_of (write_frame c w.hub).0) w.out,
        );
      }

  relay_step-GoesOn :
      (e : ℕ × RelayEvent) (w : World)
      → Whole window j w
      → IsAllowed e.1 w
      → GoesOn window j (relay_step service e w)
  unfolding relay_step relay_timer step sweep
  relay_step-GoesOn (now, arrives d t) w a allowed =
      let (h, done, s) = hub_step-IsSound (connects d t) w.hub a.sound tt in
      hub-GoesOn service window j w a now (connects d t) h tt refl done s
  relay_step-GoesOn (now, departs c) w a allowed =
      let (h, done, s) = hub_step-IsSound (leaves c) w.hub a.sound tt in
      hub-GoesOn service window j w a now (leaves c) h tt refl done s
  relay_step-GoesOn (now, receives c frame id) w a allowed =
      frame-GoesOn service window j w a now c frame id allowed
  relay_step-GoesOn (now, writes c) w a allowed = (_, refl, write-Whole c w a allowed)
  relay_step-GoesOn (now, pushes id source_id ct iv) w a allowed = (
    _,
    refl,
    quiet-Whole service window j w a now (ingest service id source_id ct iv now w.manager).1
        (ingest-sent service id source_id ct iv now w.manager)
        (inr (Event.ingests id source_id ct iv, refl)),
  )
  relay_step-GoesOn (now, claims c id) w a allowed =
      both-GoesOn service window j w a now w.hub (claim c id now w.manager) a.sound (omega arith)
        (inr (Event.claims c id, refl))
  relay_step-GoesOn (now, fires h) w a allowed =
      both-GoesOn service window j w a now w.hub (fire h now w.manager) a.sound (omega arith)
        (inr (Event.fires h, refl))
  relay_step-GoesOn (now, sweeps) w a allowed = (
    _,
    refl,
    quiet-Whole service window j w a now (sweep now w.manager) refl (inr (Event.sweeps, refl)),
  )

  relay_run-GoesOn :
      (es : List (ℕ × RelayEvent)) (w : World)
      → Whole window j w
      → AllAllowed service es w
      → GoesOn window j (relay_run service es w)
  unfolding relay_run
  relay_run-GoesOn [] w a all = (w, refl, a)
  relay_run-GoesOn (e ∷ es) w a (now, later) =
      let (w1, done, a1) = relay_step-GoesOn e w a now in
      let later1 : AllAllowed service es w1 = rw done at later in
      rw done (relay_run-GoesOn es w1 a1 later1)

  new-Whole : (db : Db) (ttl : ℤ) → Whole window j (new_world (new db window ttl))
  unfolding recipients
  new-Whole db ttl = record {
    sound = new_hub-IsSound;
    past = [];
    safe = new-Sound service window j db ttl;
    few = omega arith;
  }

  one_at_most : (r : Option Otp) (rs : List String) → IsDelivered r rs → length rs ≤ 1
  one_at_most none rs d = ground arith
  one_at_most (some o) rs (inl d) = ground arith
  one_at_most (some o) rs (inr (c, d)) = elim (Option-cases o.claimed_by) [
    | inl n ↦ ground arith
    | inr (by, b) ↦ ground arith
  ]

  -- The whole relay: from a new hub and a new coordinator on any database, which may fail at any
  -- statement, whatever connects, leaves, sends frames, pushes and claims by REST, whichever timers
  -- fire and whenever the janitor sweeps, with each event as one step: the relay does not panic, and
  -- of each OTP at most one payload is, or has been, on its way: in the channel of any connection, or
  -- written out by any writer. The connections of the events are ones that the hub has given out, and
  -- the readers take frames of open channels only.
  pub payload_once :
      (db : Db) (ttl : ℤ) (es : List (ℕ × RelayEvent))
      → AllAllowed service es (new_world (new db window ttl))
      → (w : World) × (relay_run service es (new_world (new db window ttl)) ≡ returns w)
        × (total (payload j) w.out + waiting j w.hub ≤ 1)
  payload_once db ttl es all =
      let (w, done, a) =
        relay_run-GoesOn es (new_world (new db window ttl)) (new-Whole db ttl) all in
      (
        w,
        done,
        omega (
          arith,
          a.few,
          one_at_most (row j w.manager.db) (recipients j w.manager.sent) a.safe.delivered,
        ),
      )
