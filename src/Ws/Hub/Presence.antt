-- ===== src/Ws/Hub/Presence.antt =====
-- internal/ws/hub.go: which connection a device has, over whole histories.
use otp_relay_backend.Base.{
  Bool, ℕ, suc, ◌≡◌, refl, sym, ap, ◌∙◌, String, true, false, List, [], ◌∷◌, Option, none, some,
  ◌==◌, arith, eqb, eq_iff, lookup, lookup-insert, lookup-remove, Option-cases, inl, inr,
  if◌then◌else◌,
}
use otp_relay_backend.Ws.{Envelope}
use otp_relay_backend.Ws.Hub.{
  Hub, Outcome, returns, offer, send_found, send_to_device, write_frame, is_connected, new_hub,
}
use otp_relay_backend.Ws.Hub.Order.{
  IsSound, new_hub-IsSound, arrived, displaced, connect-none, connect-some, left,
  unregister_current, unregister_stale,
}
use otp_relay_backend.Ws.Hub.Safety.{
  HubEvent, connects, leaves, reads, writes, sends, hub_step, only_hub, IsCurrent-cases,
  hub_step-IsSound,
}
use otp_relay_backend.Ws.Hub.Runs.{hub_run, AllAllowed, reply, offer_reply, read_frame-reply}

-- The promise of the hub to one device: it has the connection that it opened last, until that
-- leaves. Connections count from zero.
pub record Presence : Type 0 where
  pub opened : ℕ
  pub current : Option ℕ

abbrev forget : ℕ → Option ℕ → Option ℕ
forget c none = none
forget c (some k) = if eqb k c then none else some k

abbrev present : String → HubEvent → Presence → Presence
present d (connects device device_type) p = record {
  opened = suc p.opened;
  current = if device == d then some p.opened else p.current;
}
present d (leaves c) p = record p { current = forget c p.current }
present d _ p = p

abbrev pub presence : String → List HubEvent → Presence → Presence
presence d [] p = p
presence d (e ∷ es) p = presence d es (present d e p)

abbrev view : String → Hub → Presence
view d h = record { opened = h.next; current = lookup d h.clients }

offer-view :
    (d : String) (k : ℕ) (e : Envelope) (h h' : Hub)
    → only_hub (offer k e h) ≡ returns h'
    → view d h' ≡ view d h
unfolding offer
offer-view d k e h h' done = ground arith

offer_reply-view :
    (d : String) (k : ℕ) (r : Option Envelope) (h h' : Hub)
    → offer_reply k r h ≡ returns h'
    → view d h' ≡ view d h
offer_reply-view d k none h h' done = ground arith
offer_reply-view d k (some e) h h' done = offer-view d k e h h' done

send_found-view :
    (d : String) (l : Option ℕ) (e : Envelope) (h h' : Hub)
    → only_hub (send_found l e h) ≡ returns h'
    → view d h' ≡ view d h
unfolding send_found
send_found-view d none e h h' done = ground arith
send_found-view d (some k) e h h' done = offer-view d k e h h' done

module _ (d : String) (h : Hub) (s : IsSound h) where
  connects-view :
      (device t : String) (h' : Hub)
      → hub_step (connects device t) h ≡ returns h'
      → view d h' ≡ present d (connects device t) (view d h)
  unfolding hub_step
  connects-view device t h' done = elim (Option-cases (lookup device h.clients)) [
    | inl e ↦
        let same : arrived device t h s ≡ h' = ground (arith, done, connect-none device t h s e) in
        sym (ap (view d) same) ∙ ground (arith, lookup-insert device d h.next h.clients)
    | inr (k, e) ↦
        let same : displaced device t h s k ≡ h' =
          ground (arith, done, connect-some device t h s k e) in
        sym (ap (view d) same) ∙ ground (arith, lookup-insert device d h.next h.clients)
  ]

  leaves-view :
      (c : ℕ) (h' : Hub)
      → hub_step (leaves c) h ≡ returns h'
      → view d h' ≡ present d (leaves c) (view d h)
  unfolding hub_step
  leaves-view c h' done = elim (IsCurrent-cases c h) [
    | inl current ↦
        let same : left c h s ≡ h' = ground (arith, done, unregister_current c h s current) in
        sym (ap (view d) same)
        ∙ ground (
          arith,
          lookup-remove (h.cells c).device_id d h.clients,
          eq_iff (h.cells c).device_id d,
          s.owner d c,
        )
    | inr other ↦
        let same : h ≡ h' = ground (arith, done, unregister_stale c h s other) in
        sym (ap (view d) same) ∙ ground (arith, s.owner d c)
  ]

  step-view :
      (e : HubEvent) (h' : Hub) → hub_step e h ≡ returns h' → view d h' ≡ present d e (view d h)
  unfolding hub_step send_to_device write_frame
  step-view (connects device t) h' done = connects-view device t h' done
  step-view (leaves c) h' done = leaves-view c h' done
  step-view (writes c) h' done = ground arith
  step-view (reads c frame) h' done =
      offer_reply-view d c (reply (h.cells c) frame) h h' (sym (read_frame-reply c frame h) ∙ done)
  step-view (sends device e) h' done = send_found-view d (lookup device h.clients) e h h' done

hub_run-view :
    (d : String) (es : List HubEvent) (h : Hub)
    → IsSound h
    → AllAllowed es h
    → (h' : Hub) × (hub_run es h ≡ returns h') × (view d h' ≡ presence d es (view d h))
unfolding hub_run
hub_run-view d [] h s a = (h, refl, refl)
hub_run-view d (e ∷ es) h s (now, later) =
    let (h1, done, s1) = hub_step-IsSound e h s now in
    let later1 : AllAllowed es h1 = rw done at later in
    let (h2, end, same) = hub_run-view d es h1 s1 later1 in
    rw done (h2, end, same ∙ ap (presence d es) (step-view d h s e h1 done))

abbrev pub nobody : Presence
nobody = record { opened = 0; current = none }

abbrev pub is_some : Option ℕ → Bool
is_some none = false
is_some (some c) = true

-- The hub after the run has the connection of the device that the promise names.
abbrev pub HasPresence : String → List HubEvent → Outcome Hub → Type 0
HasPresence d es r =
    let p = presence d es nobody in
    (h : Hub) × (r ≡ returns h)
    × (h.next ≡ p.opened)
    × (lookup d h.clients ≡ p.current)
    × (is_connected d h ≡ is_some p.current)

is_connected_lem :
    (d : String) (h : Hub) (l : Option ℕ) → lookup d h.clients ≡ l → is_connected d h ≡ is_some l
unfolding is_connected
is_connected_lem d h none e = ground arith
is_connected_lem d h (some c) e = ground arith

-- From a new hub, with each event as one step and the readers taking frames of open channels only:
-- whatever connects, leaves, is read, written or sent, no event panics, and a device has exactly the
-- connection that it opened last, unless that one has left; a device's older connections that leave,
-- other devices, and frames make no difference. `IsConnected` tells whether it has one.
pub hub_run-HasPresence :
    (d : String) (es : List HubEvent)
    → AllAllowed es new_hub
    → HasPresence d es (hub_run es new_hub)
unfolding lookup
hub_run-HasPresence d es a =
    let (h, end, same) = hub_run-view d es new_hub new_hub-IsSound a in
    let has = ap (λ p. p.current) same in
    (h, end, ap (λ p. p.opened) same, has, is_connected_lem d h (presence d es nobody).current has)
