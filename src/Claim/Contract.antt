-- ===== src/Claim/Contract.antt =====
-- The contract of internal/claim/claim.go for one OTP: a small state machine with no table, no map,
-- no timers and no locks, which the coordinator implements while the database answers.
pub mod Others
pub mod Own
pub mod Refinement
mod Tests
use otp_relay_backend.Base.{
  ℕ, String, pos, leb_ℤ, List, [], ◌∷◌, Bool, ◌&&◌, Option, none, some, ◌==◌, lookup, if◌then◌else◌,
}
use otp_relay_backend.Db.{Otp, Status, pending, claimed, invalidated, expired}
use otp_relay_backend.Db.Otps.Laws.{row}
use otp_relay_backend.Ws.{Envelope}
use otp_relay_backend.Claim.{ClaimState, Timer, Manager}
use otp_relay_backend.Claim.Window.{
  now_millis, find_timer, error_envelope, invalidated_envelope, payload_envelope,
}
use otp_relay_backend.Claim.Ingest.{new_otp}
use otp_relay_backend.Claim.Step.{Event, ingests, claims, fires, sweeps}

pub data Fate : Type 0 where
  absent killed lapsed : Fate
  waiting : (o : Otp) → Fate
  taken : (winner : Option String) → Fate

-- `candidates` are the claimants of the open window, `none` if none is open; `told` is what was sent
-- about the OTP, the last first.
pub record Life : Type 0 where
  pub fate : Fate
  pub candidates : Option (List String)
  pub told : List (String × Envelope)

pub data Input : Type 0 where
  nothing ends lapses : Input
  stores : (o : Otp) → Input
  asks : (claimant : String) → Input

abbrev pub tell : String → Envelope → Life → Life
tell c e l = record l { told = (c, e) ∷ l.told }

abbrev pub is_over : Otp → ℕ → Bool
is_over o now = leb_ℤ o.expires_at (now_millis now)

module _ (j : String) where
  -- A live claim: the first opens the window, a second one kills the OTP.
  unfoldable pub join : String → Option (List String) → Life → Life
  join c none l = record l { candidates = some (c ∷ []) }
  join c (some (d ∷ [])) l =
      if d == c
      then l
      else tell c (invalidated_envelope j)
          (tell d (invalidated_envelope j) (record l { fate = killed; candidates = none }))
  join c (some _) l = l

  unfoldable pub ask : Fate → String → ℕ → Life → Life
  unfolding join
  ask absent c now l = tell c (error_envelope j "otp not found") l
  ask killed c now l = tell c (invalidated_envelope j) l
  ask lapsed c now l = tell c (error_envelope j "otp expired") l
  ask (waiting o) c now l =
      if is_over o now then tell c (error_envelope j "otp expired") l else join c l.candidates l
  ask (taken w) c now l = tell c (error_envelope j "otp already claimed") l

  -- The window is over: its candidate gets the payload, if the OTP can still be had.
  unfoldable pub decide : Fate → String → ℕ → Life → Life
  decide absent c now l = tell c (error_envelope j "internal error") l
  decide (waiting o) c now l =
      if is_over o now
      then tell c (error_envelope j "otp expired") l
      else tell c (payload_envelope j o) (record l { fate = taken (some c) })
  decide _ c now l = tell c (error_envelope j "otp expired") l

  unfoldable pub end_window : Option (List String) → ℕ → Life → Life
  unfolding decide
  end_window (some (c ∷ [])) now l = decide l.fate c now (record l { candidates = none })
  end_window _ now l = l

  unfoldable pub respond_to : Input → ℕ → Life → Life
  unfolding ask end_window
  respond_to nothing now l = l
  respond_to (stores o) now l = elim l.fate [ absent ↦ record l { fate = waiting o } | _ ↦ l ]
  respond_to (asks c) now l = ask l.fate c now l
  respond_to ends now l = end_window l.candidates now l
  respond_to lapses now l = elim l.fate [
    | waiting o ↦ if is_over o now then record l { fate = lapsed } else l
    | _ ↦ l
  ]

-- What a stored row means.
abbrev pub status_fate : Status → Otp → Fate
status_fate pending o = waiting o
status_fate claimed o = taken o.claimed_by
status_fate invalidated o = killed
status_fate expired o = lapsed

abbrev pub fate_of : Option Otp → Fate
fate_of none = absent
fate_of (some o) = status_fate o.status o

abbrev pub candidates_of : Option ClaimState → Option (List String)
candidates_of none = none
candidates_of (some st) = some st.claimants

-- The messages about one OTP.
unfoldable pub about : String → List (String × Envelope) → List (String × Envelope)
about j [] = []
about j (s ∷ sent) = let rest = about j sent in if s.1.otp_id == j then s ∷ rest else rest

abbrev pub life_of : Option Otp → Option ClaimState → List (String × Envelope) → Life
life_of r w told = record { fate = fate_of r; candidates = candidates_of w; told = told }

-- The life of one OTP, read off the state of the coordinator.
abbrev pub life : String → Manager → Life
life j m = life_of (row j m.db) (lookup j m.windows) (about j m.sent)

-- What a firing timer means for one OTP.
unfoldable pub timer_input : String → ℕ → Option Timer → Input
timer_input j now none = nothing
timer_input j now (some t) = if leb_ℤ t.due (pos now) && t.otp_id == j then ends else nothing

-- What an event means for one OTP.
unfoldable pub input : String → ℕ → Event → Manager → Input
unfolding timer_input find_timer
input j now (ingests id source_id ciphertext iv) m =
    if id == j then stores (new_otp id source_id ciphertext iv now m.ttl) else nothing
input j now (claims claimant id) m = if id == j then asks claimant else nothing
input j now (fires h) m = timer_input j now (find_timer h m.timers)
input j now sweeps m = lapses
