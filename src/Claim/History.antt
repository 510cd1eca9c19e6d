-- ===== src/Claim/History.antt =====
-- Why and when the coordinator sends a payload, and what a settled OTP still can do.
use otp_relay_backend.Base.{
  ℕ, ◌≡◌, refl, ◌∙◌, ◌⊎◌, inl, inr, ◌≢◌, String, ℤ, pos, ◌+ℤ◌, ◌≤ℤ◌, leb_ℤ, List, [], ◌∷◌, false,
  some, none, arith, lookup, eq_refl, le→leb_ℤ,
}
use otp_relay_backend.Db.{Otp, Db, pending, claimed}
use otp_relay_backend.Db.Otps.{with_status}
use otp_relay_backend.Db.Otps.Laws.{row}
use otp_relay_backend.Push.{PushService}
use otp_relay_backend.Claim.{ClaimState, Timer, Manager, new}
use otp_relay_backend.Claim.Window.{now_millis, fire, find_timer, stop}
use otp_relay_backend.Claim.Step.{Event, claims, step, run}
use otp_relay_backend.Claim.Armed.{Occurs, here, there, after, run-Armed, new-Armed}
use otp_relay_backend.Claim.Motion.{lookup-resolve}
use otp_relay_backend.Claim.Effect.{
  recipients, View, view, Change, kept, added, killed, lapsed, taken,
}
use otp_relay_backend.Claim.Effect.Events.{Won, step-Change}
use otp_relay_backend.Claim.Safety.{Sound, step-Sound, run-Sound, new-Sound}

-- A row that is not pending is never changed, and the payload goes to nobody any more.
Change-settled :
    {Adds : Otp → Type 0} {Wins : String → Type 0} {now : ℕ} {v w : View} {o : Otp}
    → Change Adds Wins now v w
    → v.row ≡ some o
    → o.status ≢ pending
    → (w.row ≡ some o) × (w.recipients ≡ v.recipients)
Change-settled (kept e f) r n = (ground arith, f)
Change-settled (added p s e q e' f) r n = absurd (ground arith)
Change-settled (killed p e q e' f) r n = absurd (n (ground arith))
Change-settled (lapsed p e q e' f) r n = absurd (n (ground arith))
Change-settled (taken p c wins e q live e' f) r n = absurd (n (ground arith))

run-settled :
    (service : PushService) (window : ℤ) (j : String) (o : Otp) (past es : List (ℕ × Event))
    (m : Manager)
    → Sound past window j m
    → row j m.db ≡ some o
    → o.status ≢ pending
    → (row j (run service es m).db ≡ some o)
      × (recipients j (run service es m).sent ≡ recipients j m.sent)
unfolding run
run-settled service window j o past [] m s r n = (r, refl)
run-settled service window j o past ((now, e) ∷ es) m s r n =
    let (r', same) = Change-settled (step-Change past window j service now e m s.armed) r n in
    let (r'', same') =
      run-settled service window j o ((now, e) ∷ past) es (step service (now, e) m)
        (step-Sound service window j (now, e) m s) r' n in
    (r'', same' ∙ same)

-- With each handler as one step, the statuses claimed, invalidated and expired are final: whatever
-- comes after them, the row stays as it is, and the payload goes to no further device. So an OTP that was invalidated for a dual
-- claim before it was delivered is never delivered.
pub settled_for_good :
    (service : PushService) (db : Db) (window ttl : ℤ) (es later : List (ℕ × Event)) (j : String)
    (o : Otp)
    → let m = run service es (new db window ttl) in
      row j m.db ≡ some o
      → o.status ≢ pending
      → (row j (run service later m).db ≡ some o)
        × (recipients j (run service later m).sent ≡ recipients j m.sent)
settled_for_good service db window ttl es later j o r n =
    run-settled service window j o (after es []) later (run service es (new db window ttl))
      (run-Sound service window j [] es (new db window ttl) (new-Sound service window j db ttl)) r n

Occurs-front :
    {e d : ℕ × Event} {es past : List (ℕ × Event)}
    → Occurs e (d ∷ past)
    → Occurs e (d ∷ es) ⊎ Occurs e past
Occurs-front here = inl here
Occurs-front (there o) = inr o

pub Occurs-after :
    {e : ℕ × Event} (es past : List (ℕ × Event))
    → Occurs e (after es past)
    → Occurs e es ⊎ Occurs e past
Occurs-after [] past o = inr o
Occurs-after (d ∷ es) past o = elim (Occurs-after es (d ∷ past) o) [
  | inl later ↦ inl (there later)
  | inr first ↦ Occurs-front first
]

-- One event has sent the payload of `j` to `d`: what must hold before and after.
pub record Delivery (es : List (ℕ × Event)) (window : ℤ) (j : String) (now : ℕ) (m m' : Manager)
    : Type 0 where
  pub winner : String
  pub otp : Otp
  pub opened_at : ℕ
  pub occurs : Occurs (opened_at, claims winner j) es
  pub waited : pos opened_at +ℤ window ≤ℤ pos now
  pub stored : row j m.db ≡ some otp
  pub was_pending : otp.status ≡ pending
  pub live : leb_ℤ otp.expires_at (now_millis now) ≡ false
  pub marked : row j m'.db ≡ some (with_status claimed (some winner) otp)
  pub sent : recipients j m'.sent ≡ winner ∷ recipients j m.sent

Change-Delivery :
    {Adds : Otp → Type 0} {past : List (ℕ × Event)} {window : ℤ} {j : String} {now : ℕ}
    {m m' : Manager}
    → Change Adds (Won past window j now) now (view j m) (view j m')
    → recipients j m'.sent ≢ recipients j m.sent
    → Delivery past window j now m m'
Change-Delivery (kept e f) n = absurd (n f)
Change-Delivery (added p s e q e' f) n = absurd (n f)
Change-Delivery (killed p e q e' f) n = absurd (n f)
Change-Delivery (lapsed p e q e' f) n = absurd (n f)
Change-Delivery (taken o c wins e p live e' (inl f)) n = absurd (n f)
Change-Delivery (taken o c wins e p live e' (inr f)) n = record {
  winner = c;
  otp = o;
  opened_at = wins.opened_at;
  occurs = wins.occurs;
  waited = wins.waited;
  stored = e;
  was_pending = p;
  live = live;
  marked = e';
  sent = f;
}

-- With each handler as one step, a payload is sent for one reason only: the claim of its receiver, an event of the history, opened
-- a window, and the full length of the window has passed since. The OTP is then stored as pending
-- and has not expired, the payload goes to that device alone, and the row is marked claimed by it.
pub payload_after_window :
    (service : PushService) (db : Db) (window ttl : ℤ) (es : List (ℕ × Event)) (now : ℕ) (e : Event)
    (j : String)
    → let m = run service es (new db window ttl) in
      recipients j (step service (now, e) m).sent ≢ recipients j m.sent
      → Delivery es window j now m (step service (now, e) m)
payload_after_window service db window ttl es now e j n =
    let m = run service es (new db window ttl) in
    let s =
      run-Sound service window j [] es (new db window ttl) (new-Sound service window j db ttl) in
    let m' : Manager = step service (now, e) m in
    let d =
      Change-Delivery {m = m} {m' = m'} (step-Change (after es []) window j service now e m s.armed)
        n in
    record {
      winner = d.winner;
      otp = d.otp;
      opened_at = d.opened_at;
      occurs = elim (Occurs-after es [] d.occurs) [ inl o ↦ o | inr o ↦ nothing_before o ];
      waited = d.waited;
      stored = d.stored;
      was_pending = d.was_pending;
      live = d.live;
      marked = d.marked;
      sent = d.sent;
    }
  where
    nothing_before : {A : Type 0} {d : ℕ × Event} → Occurs d [] → A
    nothing_before o = elim o [ ]

-- No claim window stays open for ever: in every history, with each handler as one step, an open window has a timer that is armed.
-- When that timer fires, at any time from its due time on, no window of its OTP is open any more.
pub window_closes :
    (service : PushService) (db : Db) (window ttl : ℤ) (es : List (ℕ × Event)) (i : String)
    (st : ClaimState)
    → let m = run service es (new db window ttl) in
      lookup i m.windows ≡ some st
      → (t : Timer) × (find_timer st.timer m.timers ≡ some t)
        × (t.otp_id ≡ i)
        × ((now : ℕ) → t.due ≤ℤ pos now → lookup i (fire st.timer now m).windows ≡ none)
unfolding fire
window_closes service db window ttl es i st e =
    let m = run service es (new db window ttl) in
    let (t, found, own, o) =
      (run-Armed [] window service es (new db window ttl) refl (new-Armed db window ttl)).armed i st
        e in
    (
      t,
      found,
      own,
      λ now due.
          rw (found, fire)
            (rw (le→leb_ℤ t.due (pos now) due, fire)
              (lookup-resolve i t.otp_id now (record m { timers = stop st.timer m.timers })
                ∙ rw (own, eq_refl i))),
    )
