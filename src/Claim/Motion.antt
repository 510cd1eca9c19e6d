-- ===== src/Claim/Motion.antt =====
-- What one event can do to the claim windows and their timers.
use otp_relay_backend.Base.{
  ℕ, suc, ◌≡◌, refl, ap, ◌∙◌, inl, inr, String, ℤ, pos, ◌+ℤ◌, leb_ℤ, List, [], ◌∷◌, ◌++◌, none,
  some, ◌==◌, arith, if◌then◌else◌, eq_iff, lookup, insert, remove, lookup-remove, Bool-cases,
  Option-cases, contains,
}
use otp_relay_backend.Db.{Otp, Status-cases, Result-cases}
use otp_relay_backend.Db.Otps.{get_otp}
use otp_relay_backend.Push.{PushService}
use otp_relay_backend.Claim.{ClaimState, Timer, Manager}
use otp_relay_backend.Claim.Window.{
  reject, send_invalidated, notify_all, invalidate, join_window, enter_window, claim_loaded, claim,
  deliver_loaded, deliver, resolve_window, resolve, fire, sweep, with_db, settle, is_past,
  close_window, find_timer, stop,
}
use otp_relay_backend.Claim.Ingest.{dispatch_push, ingest}
use otp_relay_backend.Claim.Step.{Event, ingests, claims, fires, sweeps, step}

pub record Slots : Type 0 where
  pub window : ℤ
  pub ttl : ℤ
  pub windows : List (String × ClaimState)
  pub timers : List Timer
  pub next_timer : ℕ

abbrev pub slots : Manager → Slots
slots m = record {
  window = m.window;
  ttl = m.ttl;
  windows = m.windows;
  timers = m.timers;
  next_timer = m.next_timer;
}

-- What one event can do to the windows: nothing; open one; close one that a second device joins;
-- or fire a timer, after which no window of its OTP is open.
pub data Motion (e : ℕ × Event) (v w : Slots) : Type 0 where
  still : w ≡ v → Motion e v w
  opened :
      (now : ℕ) (i claimant : String) (due : ℤ)
      → e ≡ (now, claims claimant i)
      → due ≡ pos now +ℤ v.window
      → lookup i v.windows ≡ none
      → w ≡ record v {
        windows = insert i (record { claimants = claimant ∷ []; timer = v.next_timer }) v.windows;
        timers = record { handle = v.next_timer; otp_id = i; due = due } ∷ v.timers;
        next_timer = suc v.next_timer;
      }
      → Motion e v w
  closed :
      (i : String) (st : ClaimState)
      → lookup i v.windows ≡ some st
      → w ≡ record v { windows = remove i v.windows; timers = stop st.timer v.timers }
      → Motion e v w
  fired :
      (h : ℕ) (t : Timer)
      → find_timer h v.timers ≡ some t
      → ((k : String) → lookup k w.windows ≡ (if t.otp_id == k then none else lookup k v.windows))
      → w.timers ≡ stop h v.timers
      → w.next_timer ≡ v.next_timer
      → (w.window ≡ v.window) × (w.ttl ≡ v.ttl)
      → Motion e v w

slots-notify_all :
    (cs : List String) (id : String) (m : Manager) → slots (notify_all cs id m) ≡ slots m
unfolding notify_all send_invalidated
slots-notify_all [] id m = refl
slots-notify_all (c ∷ cs) id m = slots-notify_all cs id (send_invalidated c id m)

slots-invalidate :
    (id : String) (cs : List String) (m : Manager) → slots (invalidate id cs m) ≡ slots m
unfolding invalidate
slots-invalidate id cs m = slots-notify_all cs id _

enter_window-Motion :
    (claimant id : String) (now : ℕ) (m : Manager)
    → Motion (now, claims claimant id) (slots m) (slots (enter_window claimant id now m))
unfolding enter_window
enter_window-Motion claimant id now m = elim (Option-cases (lookup id m.windows)) [
  | inl e ↦ rw (e, enter_window) (opened now id claimant (pos now +ℤ m.window) refl refl e refl)
  | inr (st, e) ↦
      rw (e, enter_window)
        (elim (Bool-cases (contains st.claimants claimant)) [
          | inl again ↦ rw (again, join_window) (still refl)
          | inr second ↦
              rw (second, join_window)
                (closed id st e (
                  slots-invalidate id (st.claimants ++ claimant ∷ []) (close_window id st.timer m)))
        ])
]

claim_loaded-Motion :
    (o : Otp) (claimant id : String) (now : ℕ) (m : Manager)
    → Motion (now, claims claimant id) (slots m) (slots (claim_loaded o claimant id now m))
unfolding claim_loaded
claim_loaded-Motion o claimant id now m = elim (Bool-cases (is_past o now)) [
  | inl past ↦ rw (past, claim_loaded) (still refl)
  | inr live ↦
      rw (live, claim_loaded)
        (elim (Status-cases o.status) [
          | inl p ↦ rw (p, claim_loaded) (enter_window-Motion claimant id now m)
          | inr (inl p) ↦ rw (p, claim_loaded) (still refl)
          | inr (inr (inl p)) ↦ rw (p, claim_loaded) (still refl)
          | inr (inr (inr p)) ↦ absurd (ground arith)
        ])
]

pub claim-Motion :
    (claimant id : String) (now : ℕ) (m : Manager)
    → Motion (now, claims claimant id) (slots m) (slots (claim claimant id now m))
unfolding claim
claim-Motion claimant id now m = elim (Result-cases (get_otp id m.db).0) [
  | inl (o, e) ↦
      rw (e, claim) (claim_loaded-Motion o claimant id now (with_db (get_otp id m.db).1 m))
  | inr (inl e) ↦ rw (e, claim) (still refl)
  | inr (inr e) ↦ rw (e, claim) (still refl)
]

pub slots-deliver :
    (winner id : String) (now : ℕ) (m : Manager) → slots (deliver winner id now m) ≡ slots m
unfolding deliver deliver_loaded settle reject
slots-deliver winner id now m = ground arith

pub slots-resolve_window :
    (cs : List String) (id : String) (now : ℕ) (m : Manager)
    → slots (resolve_window cs id now m) ≡ slots m
unfolding resolve_window
slots-resolve_window [] id now m = slots-invalidate id [] m
slots-resolve_window (c ∷ []) id now m = slots-deliver c id now m
slots-resolve_window (c ∷ d ∷ cs) id now m = slots-invalidate id (c ∷ d ∷ cs) m

slots-ingest :
    (service : PushService) (id source_id ciphertext iv : String) (now : ℕ) (m : Manager)
    → slots (ingest service id source_id ciphertext iv now m).1 ≡ slots m
unfolding ingest dispatch_push
slots-ingest service id source_id ciphertext iv now m = ground arith

-- `resolve` closes the window of its OTP, if one is open.
pub lookup-resolve :
    (k id : String) (now : ℕ) (m : Manager)
    → lookup k (resolve id now m).windows ≡ (if id == k then none else lookup k m.windows)
unfolding resolve
lookup-resolve k id now m = elim (Option-cases (lookup id m.windows)) [
  | inl e ↦ rw (e, resolve) (ground (arith, eq_iff id k))
  | inr (st, e) ↦
      rw (e, resolve)
        (ap (λ (s : Slots). lookup k s.windows)
            (slots-resolve_window st.claimants id now (record m { windows = remove id m.windows }))
          ∙ lookup-remove id k m.windows)
]

timers-resolve :
    (id : String) (now : ℕ) (m : Manager)
    → ((resolve id now m).timers ≡ m.timers)
      × ((resolve id now m).next_timer ≡ m.next_timer)
      × ((resolve id now m).window ≡ m.window)
      × ((resolve id now m).ttl ≡ m.ttl)
unfolding resolve
timers-resolve id now m = elim (Option-cases (lookup id m.windows)) [
  | inl e ↦ rw (e, resolve) (refl, refl, refl, refl)
  | inr (st, e) ↦
      let same =
        slots-resolve_window st.claimants id now (record m { windows = remove id m.windows }) in
      rw (e, resolve)
        (
          ap (λ (s : Slots). s.timers) same,
          ap (λ (s : Slots). s.next_timer) same,
          ap (λ (s : Slots). s.window) same,
          ap (λ (s : Slots). s.ttl) same,
        )
]

pub fire-Motion : (h now : ℕ) (m : Manager) → Motion (now, fires h) (slots m) (slots (fire h now m))
unfolding fire
fire-Motion h now m = elim (Option-cases (find_timer h m.timers)) [
  | inl e ↦ rw (e, fire) (still refl)
  | inr (t, e) ↦
      rw (e, fire)
        (elim (Bool-cases (leb_ℤ t.due (pos now))) [
          | inl due ↦
              let m' : Manager = record m { timers = stop h m.timers } in
              rw (due, fire)
                (fired h t e (λ k. lookup-resolve k t.otp_id now m')
                  (timers-resolve t.otp_id now m').0 (timers-resolve t.otp_id now m').1
                  ((timers-resolve t.otp_id now m').2, (timers-resolve t.otp_id now m').3))
          | inr early ↦ rw (early, fire) (still refl)
        ])
]

pub step-Motion :
    (service : PushService) (e : ℕ × Event) (m : Manager)
    → Motion e (slots m) (slots (step service e m))
unfolding step sweep
step-Motion service (now, ingests id source_id ciphertext iv) m =
    still (slots-ingest service id source_id ciphertext iv now m)
step-Motion service (now, claims claimant id) m = claim-Motion claimant id now m
step-Motion service (now, fires h) m = fire-Motion h now m
step-Motion service (now, sweeps) m = still refl

pub Motion-window : {e : ℕ × Event} {v w : Slots} → Motion e v w → w.window ≡ v.window
Motion-window (still s) = ap (λ (s : Slots). s.window) s
Motion-window (opened now i c due is d f s) = ap (λ (s : Slots). s.window) s
Motion-window (closed i st f s) = ap (λ (s : Slots). s.window) s
Motion-window (fired h t f look same next (win, same_ttl)) = win

pub Motion-ttl : {e : ℕ × Event} {v w : Slots} → Motion e v w → w.ttl ≡ v.ttl
Motion-ttl (still s) = ap (λ (s : Slots). s.ttl) s
Motion-ttl (opened now i c due is d f s) = ap (λ (s : Slots). s.ttl) s
Motion-ttl (closed i st f s) = ap (λ (s : Slots). s.ttl) s
Motion-ttl (fired h t f look same next (win, same_ttl)) = same_ttl
