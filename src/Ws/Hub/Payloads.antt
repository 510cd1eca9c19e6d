-- ===== src/Ws/Hub/Payloads.antt =====
-- internal/ws/hub.go: how many payloads of an OTP wait in the channels of all connections.
use otp_relay_backend.Base.{
  ℕ, zero, suc, ◌+◌, ◌≤◌, ◌<◌, ◌≡◌, refl, sym, ap, ◌∙◌, String, false, List, [], ◌∷◌, ◌++◌, Option,
  none, some, ◌==◌, ◌&&◌, ◌⊎◌, arith, eqb, total, total-append, lookup, Bool-cases, Option-cases,
  inl, inr, if◌then◌else◌,
}
use otp_relay_backend.Ws.{Envelope, type_otp_payload, type_ping, type_otp_push, type_otp_claim}
use otp_relay_backend.Ws.Hub.{
  Hub, Client, returns, write, offer, send_found, send_to_device, write_frame,
}
use otp_relay_backend.Ws.Hub.Order.{
  IsSound, arrived, displaced, connect-none, connect-some, left, unregister_current,
  unregister_stale,
}
use otp_relay_backend.Ws.Hub.Safety.{
  HubEvent, connects, leaves, reads, writes, sends, hub_step, only_hub, IsCurrent-cases,
}
use otp_relay_backend.Ws.Hub.Runs.{frame_of, reply, offer_reply, read_frame-reply}

abbrev pub payload : String → Envelope → ℕ
payload j e = if e.type == type_otp_payload && e.otp_id == j then 1 else 0

abbrev pub sum_below : (ℕ → ℕ) → ℕ → ℕ
sum_below f zero = 0
sum_below f (suc n) = f n + sum_below f n

sum_below-same :
    (f g : ℕ → ℕ) (n : ℕ) → ((i : ℕ) → i < n → g i ≡ f i) → sum_below g n ≡ sum_below f n
sum_below-same f g zero same = refl
sum_below-same f g (suc n) same =
    omega (arith, same n (omega arith), sum_below-same f g n (λ i lt. same i (omega arith)))

-- One value is replaced.
sum_below-update :
    (f g : ℕ → ℕ) (n k : ℕ)
    → ((i : ℕ) → eqb k i ≡ false → g i ≡ f i)
    → k < n
    → sum_below g n + f k ≡ sum_below f n + g k
sum_below-update f g zero k same lt = absurd (omega arith)
sum_below-update f g (suc n) k same lt = elim (Bool-cases (eqb k n)) [
  | inl hit ↦
      let rest = sum_below-same f g n (λ i less. same i (ground arith)) in
      let at : k ≡ n = ground arith in rw at (omega (arith, rest))
  | inr miss ↦ omega (arith, same n miss, sum_below-update f g n k same (ground arith))
]

abbrev pub count_at : String → Hub → ℕ → ℕ
count_at j h c = total (payload j) (h.cells c).queue

-- The payloads of the OTP that wait for the writers.
abbrev pub waiting : String → Hub → ℕ
waiting j h = sum_below (count_at j h) h.next

module _ (j : String) where
  offer-waiting :
      (k : ℕ) (e : Envelope) (h h' : Hub)
      → k < h.next
      → only_hub (offer k e h) ≡ returns h'
      → waiting j h' ≤ waiting j h + payload j e
  unfolding offer
  offer-waiting k e h h' old done =
      let same : h'.next ≡ h.next = ground arith in
      let others = λ (i : ℕ) (miss : eqb k i ≡ false). ap (total (payload j)) (kept i miss) in
      let here : (count_at j h' k ≤ count_at j h k + payload j e) = elim taken [
        | inl full ↦ omega (arith, ap (total (payload j)) full)
        | inr room ↦ omega (
          arith,
          ap (total (payload j)) room,
          total-append (payload j) (h.cells k).queue (e ∷ []),
        )
      ] in
      let sums = sum_below-update (count_at j h) (count_at j h') h.next k others old in
      rw same (omega (arith, sums, here))
    where
      kept : (i : ℕ) → eqb k i ≡ false → (h'.cells i).queue ≡ (h.cells i).queue
      kept i miss = ground arith

      taken :
          ((h'.cells k).queue ≡ (h.cells k).queue)
          ⊎ ((h'.cells k).queue ≡ (h.cells k).queue ++ e ∷ [])
      taken = ground arith

  abbrev payload_of : Option Envelope → ℕ
  payload_of none = 0
  payload_of (some e) = payload j e

  reply-payload : (cell : Client) (frame : Option Envelope) → payload_of (reply cell frame) ≡ 0
  reply-payload cell none = refl
  reply-payload cell (some g) = elim (Bool-cases (g.type == type_ping)) [
    | inl ping ↦ rw ping refl
    | inr p ↦ elim (Bool-cases (g.type == type_otp_push)) [
      | inl push ↦ elim (Bool-cases (cell.device_type == "source")) [
        | inl source ↦ rw (p, push, source) refl
        | inr other ↦ rw (p, push, other) refl
      ]
      | inr q ↦ elim (Bool-cases (g.type == type_otp_claim)) [
        | inl claim ↦ elim (Bool-cases (cell.device_type == "destination")) [
          | inl destination ↦ rw (p, q, claim, destination) refl
          | inr other ↦ rw (p, q, claim, other) refl
        ]
        | inr r ↦ rw (p, q, r) refl
      ]
    ]
  ]

  offer_reply-waiting :
      (k : ℕ) (r : Option Envelope) (h h' : Hub)
      → k < h.next
      → payload_of r ≡ 0
      → offer_reply k r h ≡ returns h'
      → waiting j h' ≤ waiting j h
  offer_reply-waiting k none h h' old quiet done =
      let same : h' ≡ h = ground arith in rw same (omega arith)
  offer_reply-waiting k (some e) h h' old quiet done =
      omega (arith, offer-waiting k e h h' old done, quiet)

  send_found-waiting :
      (l : Option ℕ) (e : Envelope) (h h' : Hub)
      → ((c : ℕ) → l ≡ some c → c < h.next)
      → only_hub (send_found l e h) ≡ returns h'
      → waiting j h' ≤ waiting j h + payload j e
  unfolding send_found
  send_found-waiting none e h h' old done =
      let same : h' ≡ h = ground arith in rw same (omega arith)
  send_found-waiting (some c) e h h' old done = offer-waiting c e h h' (old c refl) done

  -- A new connection has an empty channel, and the others keep theirs.
  joined-waiting :
      (h h' : Hub)
      → h'.next ≡ suc h.next
      → (h'.cells h.next).queue ≡ []
      → ((i : ℕ) → i < h.next → (h'.cells i).queue ≡ (h.cells i).queue)
      → waiting j h' ≡ waiting j h
  joined-waiting h h' next empty kept =
      let rest =
        sum_below-same (count_at j h) (count_at j h') h.next
          (λ i lt. ap (total (payload j)) (kept i lt)) in
      rw next (omega (arith, rest, ap (total (payload j)) empty))

  connects-waiting :
      (d t : String) (h h' : Hub)
      → IsSound h
      → hub_step (connects d t) h ≡ returns h'
      → waiting j h' ≡ waiting j h
  unfolding hub_step
  connects-waiting d t h h' s done = elim (Option-cases (lookup d h.clients)) [
    | inl e ↦
        let same : arrived d t h s ≡ h' = ground (arith, done, connect-none d t h s e) in
        rw (← same) (joined-waiting h (arrived d t h s) refl (ground arith) (λ i lt. ground arith))
    | inr (k, e) ↦
        let same : displaced d t h s k ≡ h' = ground (arith, done, connect-some d t h s k e) in
        rw (← same) (
          joined-waiting h (displaced d t h s k) refl (ground (arith, s.known d k e))
            (λ i lt. ground (arith, s.known d k e)))
  ]

  leaves-waiting :
      (c : ℕ) (h h' : Hub)
      → IsSound h
      → hub_step (leaves c) h ≡ returns h'
      → waiting j h' ≡ waiting j h
  unfolding hub_step
  leaves-waiting c h h' s done = elim (IsCurrent-cases c h) [
    | inl current ↦
        let same : left c h s ≡ h' = ground (arith, done, unregister_current c h s current) in
        rw (← same) (
          sum_below-same (count_at j h) (count_at j (left c h s)) h.next
            (λ i lt. ap (total (payload j)) (ground arith)))
    | inr other ↦
        let same : h ≡ h' = ground (arith, done, unregister_stale c h s other) in rw (← same) refl
  ]

  -- A frame that is written out waits no more.
  pub write_frame-waiting :
      (c : ℕ) (h : Hub)
      → c < h.next
      → waiting j (write_frame c h).1 + total (payload j) (frame_of (write_frame c h).0)
        ≡ waiting j h
  unfolding write_frame
  write_frame-waiting c h old = by_queue (h.cells c).queue refl
    where
      by_queue :
          (q : List Envelope)
          → (h.cells c).queue ≡ q
          → waiting j (write_frame c h).1 + total (payload j) (frame_of (write_frame c h).0)
            ≡ waiting j h
      by_queue [] e = elim (Bool-cases (h.cells c).closed) [
        | inl shut ↦ rw (e, shut, write_frame) (omega arith)
        | inr open_ ↦ rw (e, open_, write_frame) (omega arith)
      ]
      by_queue (f ∷ q) e =
          let h' = write c (record (h.cells c) { queue = q }) h in
          let sums =
            sum_below-update (count_at j h) (count_at j h') h.next c
              (λ i miss. ap (total (payload j)) (ground arith)) old in
          let now : (h'.cells c).queue ≡ q = ground arith in
          rw (e, write_frame)
            (omega (arith, sums, ap (total (payload j)) now, ap (total (payload j)) e))

  -- Whether the connection of the event is one that the hub has given out.
  abbrev pub IsGiven : HubEvent → Hub → Type 0
  IsGiven (reads c frame) h = c < h.next
  IsGiven (writes c) h = c < h.next
  IsGiven _ h = Unit

  abbrev pub payload_in : HubEvent → ℕ
  payload_in (sends d e) = payload j e
  payload_in _ = 0

  abbrev pub payload_out : HubEvent → Hub → ℕ
  payload_out (writes c) h = total (payload j) (frame_of (write_frame c h).0)
  payload_out _ h = 0

  -- Only a send of a payload adds to the payloads that wait.
  pub hub_step-waiting :
      (e : HubEvent) (h h' : Hub)
      → IsSound h
      → IsGiven e h
      → hub_step e h ≡ returns h'
      → waiting j h' + payload_out e h ≤ waiting j h + payload_in e
  unfolding hub_step send_to_device
  hub_step-waiting (connects d t) h h' s given done =
      omega (arith, connects-waiting d t h h' s done)
  hub_step-waiting (leaves c) h h' s given done = omega (arith, leaves-waiting c h h' s done)
  hub_step-waiting (reads c frame) h h' s given done = omega (
    arith,
    offer_reply-waiting c (reply (h.cells c) frame) h h' given (reply-payload (h.cells c) frame)
        (sym (read_frame-reply c frame h) ∙ done),
  )
  hub_step-waiting (writes c) h h' s given done =
      let same : (write_frame c h).1 ≡ h' = ground arith in
      rw (← same) (omega (arith, write_frame-waiting c h given))
  hub_step-waiting (sends d e) h h' s given done =
      omega (arith, send_found-waiting (lookup d h.clients) e h h' (s.known d) done)
