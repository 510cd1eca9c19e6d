-- ===== src/Claim/Safety.antt =====
-- The promises of the coordinator over whole histories, when handlers run one after the other.
use otp_relay_backend.Base.{
  ℕ, ◌≡◌, refl, ◌∙◌, ◌⊎◌, inl, inr, String, ℤ, List, [], ◌∷◌, Option, none, some, arith,
  Option-cases,
}
use otp_relay_backend.Db.{Db, Otp, pending, claimed}
use otp_relay_backend.Db.Otps.Laws.{row}
use otp_relay_backend.Push.{PushService}
use otp_relay_backend.Claim.{Manager, new}
use otp_relay_backend.Claim.Step.{Event, step, run}
use otp_relay_backend.Claim.Motion.{slots, step-Motion, Motion-window}
use otp_relay_backend.Claim.Armed.{Armed, after, new-Armed, step-Armed}
use otp_relay_backend.Claim.Effect.{recipients, View, Change, kept, added, killed, lapsed, taken}
use otp_relay_backend.Claim.Effect.Events.{step-Change}

abbrev pub claimant_of : Option String → List String
claimant_of none = []
claimant_of (some d) = d ∷ []

-- The devices that may have got the payload of an OTP with this row.
abbrev pub IsDelivered : Option Otp → List String → Type 0
IsDelivered none rs = rs ≡ []
IsDelivered (some o) rs = (rs ≡ []) ⊎ ((o.status ≡ claimed) × (rs ≡ claimant_of o.claimed_by))

pending-IsDelivered :
    {r : Option Otp} {rs : List String} (o : Otp)
    → IsDelivered r rs
    → r ≡ some o
    → o.status ≡ pending
    → rs ≡ []
pending-IsDelivered {rs} o d e p = let at_row : IsDelivered (some o) rs = rw e at d in ground arith

Change-IsDelivered :
    {Adds : Otp → Type 0} {Wins : String → Type 0} {now : ℕ} {v w : View}
    → Change Adds Wins now v w
    → IsDelivered v.row v.recipients
    → IsDelivered w.row w.recipients
Change-IsDelivered (kept e f) d = rw (e, f) d
Change-IsDelivered (added o s e p e' f) d = rw (e', f) (inl (rw e at d))
Change-IsDelivered (killed o e p e' f) d = rw (e', f) (inl (pending-IsDelivered o d e p))
Change-IsDelivered (lapsed o e p e' f) d = rw (e', f) (inl (pending-IsDelivered o d e p))
Change-IsDelivered (taken o c wins e p live e' (inl f)) d =
    rw (e', f) (inl (pending-IsDelivered o d e p))
Change-IsDelivered (taken o c wins e p live e' (inr f)) d =
    rw (e', f, pending-IsDelivered o d e p) (inr (refl, refl))

-- An invariant of the coordinator for one OTP id, along a history.
pub record Sound (past : List (ℕ × Event)) (window : ℤ) (j : String) (m : Manager) : Type 0 where
  pub same_window : m.window ≡ window
  pub armed : Armed past window (slots m)
  pub delivered : IsDelivered (row j m.db) (recipients j m.sent)

module _ (service : PushService) (window : ℤ) (j : String) where
  pub step-Sound :
      {past : List (ℕ × Event)} (e : ℕ × Event) (m : Manager)
      → Sound past window j m
      → Sound (e ∷ past) window j (step service e m)
  step-Sound {past} (now, e) m s = record {
    same_window = Motion-window (step-Motion service (now, e) m) ∙ s.same_window;
    armed = step-Armed service (now, e) m s.same_window s.armed;
    delivered = Change-IsDelivered (step-Change past window j service now e m s.armed) s.delivered;
  }

  pub run-Sound :
      (past es : List (ℕ × Event)) (m : Manager)
      → Sound past window j m
      → Sound (after es past) window j (run service es m)
  unfolding run
  run-Sound past [] m s = s
  run-Sound past (e ∷ es) m s = run-Sound (e ∷ past) es (step service e m) (step-Sound e m s)

  pub new-Sound : (db : Db) (ttl : ℤ) → Sound [] window j (new db window ttl)
  unfolding recipients
  new-Sound db ttl = record {
    same_window = refl;
    armed = new-Armed db window ttl;
    delivered = nothing_sent (row j db);
  }
    where
      nothing_sent : (r : Option Otp) → IsDelivered r []
      nothing_sent none = refl
      nothing_sent (some o) = inl refl

-- Whatever the history, with each handler as one step, the payload of an OTP has gone to nobody, or
-- to one device once: the OTP is then stored as claimed, by that device. The database may fail at any
-- statement.
pub one_recipient :
    (service : PushService) (db : Db) (window ttl : ℤ) (es : List (ℕ × Event)) (j : String)
    → let m = run service es (new db window ttl) in
      (recipients j m.sent ≡ [])
      ⊎ ((o : Otp) × (d : String) × (row j m.db ≡ some o)
          × (o.status ≡ claimed)
          × (o.claimed_by ≡ some d)
          × (recipients j m.sent ≡ d ∷ []))
one_recipient service db window ttl es j =
    let m = run service es (new db window ttl) in
    let s =
      run-Sound service window j [] es (new db window ttl) (new-Sound service window j db ttl) in
    read (row j m.db) (recipients j m.sent) refl s.delivered
  where
    read :
        (r : Option Otp) (rs : List String)
        → row j (run service es (new db window ttl)).db ≡ r
        → IsDelivered r rs
        → (rs ≡ [])
          ⊎ ((o : Otp) × (d : String) × (row j (run service es (new db window ttl)).db ≡ some o)
              × (o.status ≡ claimed)
              × (o.claimed_by ≡ some d)
              × (rs ≡ d ∷ []))
    read none rs e d = inl d
    read (some o) rs e (inl d) = inl d
    read (some o) rs e (inr (c, d)) = elim (Option-cases o.claimed_by) [
      | inl n ↦ inl (ground arith)
      | inr (by, b) ↦ inr (o, by, e, c, b, ground arith)
    ]
