-- ===== src/Claim/Armed.antt =====
-- Each open claim window has one claimant and a timer of its own, which closes it when it fires.
use otp_relay_backend.Base.{
  ℕ, suc, ◌≤◌, ◌≡◌, refl, sym, ap, ◌≢◌, ◌+ℤ◌, String, ℤ, pos, List, [], ◌∷◌, none, some, ◌==◌,
  arith, if◌then◌else◌, eq_iff, eq_refl, ne_of_eq, eqb, ◌∙◌, lookup, insert, lookup-insert,
  lookup-remove, Bool-cases, inl, inr,
}
use otp_relay_backend.Push.{PushService}
use otp_relay_backend.Claim.{ClaimState, Timer, Manager, new}
use otp_relay_backend.Claim.Window.{find_timer, stop}
use otp_relay_backend.Claim.Motion.{
  Slots, slots, Motion, still, opened, closed, fired, step-Motion, Motion-window,
}
use otp_relay_backend.Claim.Step.{Event, claims, step, run}
use otp_relay_backend.Db.{Db}

pub find_timer-stop :
    (j h : ℕ) (ts : List Timer)
    → find_timer j (stop h ts) ≡ (if eqb j h then none else find_timer j ts)
unfolding find_timer stop
find_timer-stop j h [] = ground arith
find_timer-stop j h (t ∷ ts) = ground (arith, find_timer-stop j h ts)

-- An event of a history.
pub data Occurs (e : ℕ × Event) : List (ℕ × Event) → Type 0 where
  here : {es : List (ℕ × Event)} → Occurs e (e ∷ es)
  there : {d : ℕ × Event} {es : List (ℕ × Event)} → Occurs e es → Occurs e (d ∷ es)

-- The claim in the past that opened the window, and set its timer.
pub record Origin (past : List (ℕ × Event)) (window : ℤ) (i : String) (st : ClaimState) (t : Timer)
    : Type 0 where
  pub claimant : String
  pub opened_at : ℕ
  pub sole : st.claimants ≡ claimant ∷ []
  pub due : t.due ≡ pos opened_at +ℤ window
  pub occurs : Occurs (opened_at, claims claimant i) past

-- The timer of the window for `i`.
abbrev pub HasTimer : List (ℕ × Event) → ℤ → String → Slots → ClaimState → Type 0
HasTimer past window i s st =
    (t : Timer) × (find_timer st.timer s.timers ≡ some t)
    × (t.otp_id ≡ i)
    × Origin past window i st t

-- The window that the timer `t` closes.
abbrev pub HasWindow : ℕ → Slots → Timer → Type 0
HasWindow h s t = (st : ClaimState) × (lookup t.otp_id s.windows ≡ some st) × (st.timer ≡ h)

-- `past` holds the events so far, the last first.
pub record Armed (past : List (ℕ × Event)) (window : ℤ) (s : Slots) : Type 0 where
  pub armed :
      (i : String) (st : ClaimState) → lookup i s.windows ≡ some st → HasTimer past window i s st
  pub owned : (h : ℕ) (t : Timer) → find_timer h s.timers ≡ some t → HasWindow h s t
  pub fresh : (h : ℕ) → s.next_timer ≤ h → find_timer h s.timers ≡ none

module _ (past : List (ℕ × Event)) (window : ℤ) where
  -- Stopping the timer of one OTP leaves the timers of the others.
  HasTimer-stop :
      (i : String) (v w : Slots) (st : ClaimState) (h : ℕ) (t : Timer)
      → HasTimer past window i v st
      → find_timer h v.timers ≡ some t
      → t.otp_id ≢ i
      → w.timers ≡ stop h v.timers
      → HasTimer past window i w st
  HasTimer-stop i v w st h t (u, found, own, o) e ne s =
      (u, ground (arith, find_timer-stop st.timer h v.timers), own, o)

  -- After the timer `t` of an OTP has fired or was stopped, no window of that OTP is open.
  lose-Armed :
      (v w : Slots) (h : ℕ) (t : Timer)
      → Armed past window v
      → find_timer h v.timers ≡ some t
      → ((k : String) → lookup k w.windows ≡ (if t.otp_id == k then none else lookup k v.windows))
      → w.timers ≡ stop h v.timers
      → w.next_timer ≡ v.next_timer
      → Armed past window w
  lose-Armed v w h t a e look same next = record {
    armed = λ k st f. elim (Bool-cases (t.otp_id == k)) [
      | inl hit ↦ absurd (ground (arith, look k))
      | inr miss ↦
          HasTimer-stop k v w st h t (a.armed k st (ground (arith, look k))) e
            (ne_of_eq t.otp_id k miss) same
    ];
    owned = λ k u f.
        let (st, open_, own) = a.owned k u (ground (arith, find_timer-stop k h v.timers)) in
        let (st', open_', own') = a.owned h t e in
        (
          st,
          ground (arith, look u.otp_id, eq_iff t.otp_id u.otp_id, find_timer-stop k h v.timers),
          own,
        );
    fresh = λ j le. ground (arith, a.fresh j, find_timer-stop j h v.timers);
  }

module _ (past : List (ℕ × Event)) (window : ℤ) (now : ℕ) (i claimant : String) (v : Slots) where
  abbrev first_claim : ClaimState
  first_claim = record { claimants = claimant ∷ []; timer = v.next_timer }

  abbrev timer_of : Timer
  timer_of = record { handle = v.next_timer; otp_id = i; due = pos now +ℤ v.window }

  opened-Armed :
      lookup i v.windows ≡ none
      → Armed past window v
      → v.window ≡ window
      → Occurs (now, claims claimant i) past
      → Armed past window (record v {
        windows = insert i first_claim v.windows;
        timers = timer_of ∷ v.timers;
        next_timer = suc v.next_timer;
      })
  unfolding find_timer
  opened-Armed none_open a win occ = record {
    armed = λ k st e.
        let look = lookup-insert i k first_claim v.windows in
        elim (Bool-cases (i == k)) [
          | inl hit ↦
              let same : k ≡ i = sym ((eq_iff i k).0 hit) in
              let is_first : st ≡ first_claim = ground arith in
              (
                timer_of,
                ground arith,
                sym same,
                record {
                  claimant = claimant;
                  opened_at = now;
                  sole = ground arith;
                  due = ap (λ (x : ℤ). pos now +ℤ x) win;
                  occurs = rw same occ;
                },
              )
          | inr miss ↦
              let (u, found, own, o) = a.armed k st (ground arith) in
              (u, ground (arith, a.fresh v.next_timer), own, o)
        ];
    owned = λ h t f. elim (Bool-cases (eqb v.next_timer h)) [
      | inl hit ↦ (
        first_claim,
        ground (arith, lookup-insert i t.otp_id first_claim v.windows, eq_refl i),
        ground arith,
      )
      | inr miss ↦
          let (st, open_, own) = a.owned h t (ground arith) in
          (
            st,
            ground (arith, lookup-insert i t.otp_id first_claim v.windows, eq_iff i t.otp_id),
            own,
          )
    ];
    fresh = λ h le. ground (arith, a.fresh h);
  }

Armed-later :
    {past : List (ℕ × Event)} {window : ℤ} {v : Slots} (e : ℕ × Event)
    → Armed past window v
    → Armed (e ∷ past) window v
Armed-later e a = record {
  armed = λ i st f.
      let (t, found, own, o) = a.armed i st f in
      (
        t,
        found,
        own,
        record {
          claimant = o.claimant;
          opened_at = o.opened_at;
          sole = o.sole;
          due = o.due;
          occurs = there o.occurs;
        },
      );
  owned = a.owned;
  fresh = a.fresh;
}

Motion-Armed :
    {past : List (ℕ × Event)} {window : ℤ} {e : ℕ × Event} {v w : Slots}
    → Motion e v w
    → v.window ≡ window
    → Armed (e ∷ past) window v
    → Armed (e ∷ past) window w
Motion-Armed (still s) win a = rw s a
Motion-Armed {past} {window} {e} {v} (opened now i c due is d f s) win a =
    rw (s, d) (opened-Armed (e ∷ past) window now i c v f a win (rw (← is) here))
Motion-Armed {past} {window} {e} {v} (closed i st f s) win a =
    let (t, found, own, o) = a.armed i st f in
    rw s (
      lose-Armed (e ∷ past) window v _ st.timer t a found
        (λ k. rw own (lookup-remove i k v.windows)) refl refl)
Motion-Armed {past} {window} {e} {v} {w} (fired h t f look same next _) win a =
    lose-Armed (e ∷ past) window v w h t a f look same next

pub step-Armed :
    {past : List (ℕ × Event)} {window : ℤ} (service : PushService) (e : ℕ × Event) (m : Manager)
    → m.window ≡ window
    → Armed past window (slots m)
    → Armed (e ∷ past) window (slots (step service e m))
step-Armed service e m same a = Motion-Armed (step-Motion service e m) same (Armed-later e a)

-- Before the first event there is no window.
pub new-Armed : (db : Db) (window ttl : ℤ) → Armed [] window (slots (new db window ttl))
unfolding lookup find_timer
new-Armed db window ttl = record {
  armed = λ i st e. absurd (ground arith);
  owned = λ h t e. absurd (ground arith);
  fresh = λ h le. refl;
}

-- The events of a history, the last first, in front of earlier ones.
abbrev pub after : List (ℕ × Event) → List (ℕ × Event) → List (ℕ × Event)
after [] past = past
after (e ∷ es) past = after es (e ∷ past)

pub run-Armed :
    (past : List (ℕ × Event)) (window : ℤ) (service : PushService) (es : List (ℕ × Event))
    (m : Manager)
    → m.window ≡ window
    → Armed past window (slots m)
    → Armed (after es past) window (slots (run service es m))
unfolding run
run-Armed past window service [] m same a = a
run-Armed past window service (e ∷ es) m same a =
    run-Armed (e ∷ past) window service es (step service e m)
      (Motion-window (step-Motion service e m) ∙ same) (step-Armed service e m same a)
