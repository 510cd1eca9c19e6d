-- ===== src/Ws/Hub/Queue.antt =====
-- internal/ws/hub.go: the send channel of a connection, over whole histories.
use otp_relay_backend.Base.{
  ℕ, ◌≤◌, ◌<◌, ◌≡◌, refl, sym, ap, ◌∙◌, String, List, [], ◌∷◌, ◌++◌, Option, none, some, arith, ltb,
  eqb, length, lookup, Option-cases, inl, inr, if◌then◌else◌,
}
use mathlib.Core.List.{append_assoc, append-nil}
use otp_relay_backend.Ws.{Envelope}
use otp_relay_backend.Ws.Hub.{
  send_found, Hub, Outcome, returns, panics, offer, send_to_device, send_buffer, write_frame,
}
use otp_relay_backend.Ws.Hub.Order.{
  IsSound, arrived, displaced, connect-none, connect-some, left, unregister_current,
  unregister_stale,
}
use otp_relay_backend.Ws.Hub.Safety.{
  HubEvent, connects, leaves, reads, writes, sends, hub_step, only_hub, IsCurrent-cases,
  hub_step-IsSound,
}
use otp_relay_backend.Ws.Hub.Runs.{
  frame_of, hub_run, AllAllowed, reply, offer_reply, read_frame-reply,
}

-- The frame that a send has for the connection `c`, by the connection that the device has.
abbrev offered_to : ℕ → Option ℕ → Envelope → Option Envelope
offered_to c none e = none
offered_to c (some k) e = if eqb k c then some e else none

-- The frame that an event has for the connection `c`.
abbrev offered : ℕ → HubEvent → Hub → Option Envelope
offered c (sends d e) h = offered_to c (lookup d h.clients) e
offered c (reads k frame) h = if eqb k c then reply (h.cells k) frame else none
offered c _ h = none

abbrev just : Option Envelope → List Envelope
just none = []
just (some e) = e ∷ []

-- A frame is taken while fewer than sixteen wait, and dropped otherwise.
abbrev accepted : ℕ → HubEvent → Hub → List Envelope
accepted c e h = if ltb (length (h.cells c).queue) send_buffer then just (offered c e h) else []

abbrev written : ℕ → HubEvent → Hub → List Envelope
written c (writes k) h = if eqb k c then frame_of (write_frame k h).0 else []
written c _ h = []

-- The frames that the connection took, and those that its writer wrote, in the order of time.
abbrev pub all_accepted : ℕ → List HubEvent → Hub → List Envelope
all_accepted c [] h = []
all_accepted c (e ∷ es) h =
    accepted c e h ++ elim (hub_step e h) [ returns h' ↦ all_accepted c es h' | panics ↦ [] ]

abbrev pub all_written : ℕ → List HubEvent → Hub → List Envelope
all_written c [] h = []
all_written c (e ∷ es) h =
    written c e h ++ elim (hub_step e h) [ returns h' ↦ all_written c es h' | panics ↦ [] ]

-- What an event does to the channel of `c`.
abbrev Keeps : ℕ → List Envelope → List Envelope → Hub → Hub → Type 0
Keeps c taken out h h' =
    (h.next ≤ h'.next) × ((h.cells c).queue ++ taken ≡ out ++ (h'.cells c).queue)

offer-Keeps :
    (c k : ℕ) (e : Envelope) (h h' : Hub)
    → only_hub (offer k e h) ≡ returns h'
    → Keeps c
        (if ltb (length (h.cells c).queue) send_buffer
          then just (if eqb k c then some e else none)
          else [])
        []
        h
        h'
unfolding offer
offer-Keeps c k e h h' done = ground (arith, append-nil (h.cells c).queue)

offer_reply-Keeps :
    (c k : ℕ) (r : Option Envelope) (h h' : Hub)
    → offer_reply k r h ≡ returns h'
    → Keeps c
        (if ltb (length (h.cells c).queue) send_buffer
          then just (if eqb k c then r else none)
          else [])
        []
        h
        h'
offer_reply-Keeps c k none h h' done = ground (arith, append-nil (h.cells c).queue)
offer_reply-Keeps c k (some e) h h' done = offer-Keeps c k e h h' done

send_found-Keeps :
    (c : ℕ) (l : Option ℕ) (e : Envelope) (h h' : Hub)
    → only_hub (send_found l e h) ≡ returns h'
    → Keeps c
        (if ltb (length (h.cells c).queue) send_buffer then just (offered_to c l e) else [])
        []
        h
        h'
unfolding send_found
send_found-Keeps c none e h h' done = ground (arith, append-nil (h.cells c).queue)
send_found-Keeps c (some k) e h h' done = offer-Keeps c k e h h' done

module _ (c : ℕ) (h : Hub) (s : IsSound h) (old : c < h.next) where
  connects-Keeps :
      (d t : String) (h' : Hub) → hub_step (connects d t) h ≡ returns h' → Keeps c [] [] h h'
  unfolding hub_step
  connects-Keeps d t h' done = elim (Option-cases (lookup d h.clients)) [
    | inl e ↦
        let same : arrived d t h s ≡ h' = ground (arith, done, connect-none d t h s e) in
        ground (arith, append-nil (h.cells c).queue)
    | inr (k, e) ↦
        let same : displaced d t h s k ≡ h' = ground (arith, done, connect-some d t h s k e) in
        ground (arith, append-nil (h.cells c).queue, s.known d k e)
  ]

  leaves-Keeps : (k : ℕ) (h' : Hub) → hub_step (leaves k) h ≡ returns h' → Keeps c [] [] h h'
  unfolding hub_step
  leaves-Keeps k h' done = elim (IsCurrent-cases k h) [
    | inl current ↦
        let same : left k h s ≡ h' = ground (arith, done, unregister_current k h s current) in
        ground (arith, append-nil (h.cells c).queue)
    | inr other ↦
        let same : h ≡ h' = ground (arith, done, unregister_stale k h s other) in
        ground (arith, append-nil (h.cells c).queue)
  ]

  writes-Keeps :
      (k : ℕ) (h' : Hub)
      → hub_step (writes k) h ≡ returns h'
      → Keeps c [] (written c (writes k) h) h h'
  unfolding hub_step write_frame
  writes-Keeps k h' done = ground (arith, append-nil (h.cells c).queue)

  step-Keeps :
      (e : HubEvent) (h' : Hub)
      → hub_step e h ≡ returns h'
      → Keeps c (accepted c e h) (written c e h) h h'
  unfolding hub_step send_to_device
  step-Keeps (connects d t) h' done = ground (arith, connects-Keeps d t h' done)
  step-Keeps (leaves k) h' done = ground (arith, leaves-Keeps k h' done)
  step-Keeps (writes k) h' done = ground (arith, writes-Keeps k h' done)
  step-Keeps (reads k frame) h' done =
      offer_reply-Keeps c k (reply (h.cells k) frame) h h' (sym (read_frame-reply k frame h) ∙ done)
  step-Keeps (sends d e) h' done = send_found-Keeps c (lookup d h.clients) e h h' done

-- From now on: what waits, and what is taken, is what is written out, and what waits then.
abbrev pub IsQueue : ℕ → List HubEvent → Hub → Outcome Hub → Type 0
IsQueue c es h r =
    (h' : Hub) × (r ≡ returns h')
    × ((h.cells c).queue ++ all_accepted c es h ≡ all_written c es h ++ (h'.cells c).queue)

chained :
    (q a as' w ws q' q'' : List Envelope)
    → q ++ a ≡ w ++ q'
    → q' ++ as' ≡ ws ++ q''
    → q ++ (a ++ as') ≡ (w ++ ws) ++ q''
chained q a as' w ws q' q'' e f =
    sym (append_assoc q a as')
    ∙ ap (λ l. l ++ as') e
    ∙ append_assoc w q' as'
    ∙ ap (◌++◌ w) f
    ∙ sym (append_assoc w ws q'')

-- On a hub in order, with each event as one step: whatever connects, leaves, is read, written or
-- sent, no event panics, and for each connection that the hub had given out before, the frames that
-- waited at first and those that were taken for it since are, in that order, those that its writer
-- has written out and those that still wait. A frame for it is taken exactly if fewer than sixteen
-- wait. The readers take frames of open channels only.
pub hub_run-IsQueue :
    (c : ℕ) (es : List HubEvent) (h : Hub)
    → IsSound h
    → AllAllowed es h
    → c < h.next
    → IsQueue c es h (hub_run es h)
unfolding hub_run
hub_run-IsQueue c [] h s a old = (h, refl, append-nil (h.cells c).queue)
hub_run-IsQueue c (e ∷ es) h s (now, later) old =
    let (h1, done, s1) = hub_step-IsSound e h s now in
    let (more, one) = step-Keeps c h s old e h1 done in
    let later1 : AllAllowed es h1 = rw done at later in
    let (h2, end, rest) = hub_run-IsQueue c es h1 s1 later1 (omega arith) in
    rw done (
      h2,
      end,
      chained (h.cells c).queue (accepted c e h) (all_accepted c es h1) (written c e h)
          (all_written c es h1) (h1.cells c).queue (h2.cells c).queue one rest,
    )
