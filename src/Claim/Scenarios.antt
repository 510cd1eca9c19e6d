-- ===== src/Claim/Scenarios.antt =====
-- The claim-window state machine on a pending OTP, when the database answers every statement.
use otp_relay_backend.Base.{
  ℕ, suc, ◌≡◌, refl, sym, ap, ◌∙◌, ◌≢◌, String, pos, ◌+ℤ◌, ◌≤ℤ◌, leb_ℤ, le→leb_ℤ, [], ◌∷◌, false,
  some, none, arith, lookup, remove, lookup-insert, lookup-remove, eq_refl, eq_of_ne, if◌then◌else◌,
}
use otp_relay_backend.Db.{Otp, pending, claimed, invalidated}
use otp_relay_backend.Db.Otps.{with_status, get_otp}
use otp_relay_backend.Db.Otps.Laws.{row, set_otp_status_runs}
use otp_relay_backend.Claim.Armed.{find_timer-stop}
use otp_relay_backend.Claim.{ClaimState, Manager}
use otp_relay_backend.Claim.Window.{
  now_millis, reject, notify_all, open_window, join_window, enter_window, claim_loaded, claim,
  deliver_loaded, deliver, resolve_window, resolve, fire, settle, find_timer, stop,
  payload_envelope, invalidated_envelope, error_envelope,
}

-- The database of `m` answers, and holds the OTP `o`, pending, under the id `j`.
pub record IsReady (m : Manager) (j : String) (o : Otp) : Type 0 where
  pub answers : m.db.replies ≡ []
  pub stored : row j m.db ≡ some o
  pub is_pending : o.status ≡ pending

-- `o` has not expired at `now`.
abbrev pub IsLive : Otp → ℕ → Type 0
IsLive o now = leb_ℤ o.expires_at (now_millis now) ≡ false

module _ {m : Manager} {j : String} {o : Otp} (r : IsReady m j o) where
  claim-enter : (c : String) (now : ℕ) → IsLive o now → claim c j now m ≡ enter_window c j now m
  unfolding claim get_otp claim_loaded
  claim-enter c now live = ground arith

  -- The first claim opens a window of its own.
  pub claim_first :
      (c : String) (now : ℕ)
      → IsLive o now
      → lookup j m.windows ≡ none
      → claim c j now m ≡ open_window c j now m
  unfolding enter_window
  claim_first c now live none_open = claim-enter c now live ∙ rw (none_open, enter_window)

pub IsReady-open_window :
    {m : Manager} {j : String} {o : Otp} (c : String) (now : ℕ)
    → IsReady m j o
    → IsReady (open_window c j now m) j o
unfolding open_window
IsReady-open_window c now r = record {
  answers = r.answers;
  stored = r.stored;
  is_pending = r.is_pending;
}

module _ (c j : String) (now : ℕ) (m : Manager) where
  abbrev pub first_state : ClaimState
  first_state = record { claimants = c ∷ []; timer = m.next_timer }

  pub lookup-open_window : lookup j (open_window c j now m).windows ≡ some first_state
  unfolding open_window
  lookup-open_window = lookup-insert j j first_state m.windows ∙ rw (eq_refl j)

module _ {m : Manager} {j : String} {o : Otp} (r : IsReady m j o)
    (none_open : lookup j m.windows ≡ none) (a b : String) (first second : ℕ)
    (live : IsLive o first) (live' : IsLive o second) where
  -- A second claim, in the window that the first has opened.
  claim_second :
      claim b j second (claim a j first m)
      ≡ join_window b j (first_state a j first m) (open_window a j first m)
  unfolding enter_window
  claim_second = rw (claim_first r a first live none_open) (
      claim-enter (IsReady-open_window a first r) b second live'
      ∙ rw (lookup-open_window a j first m, enter_window))

-- A repeated claim by the device that opened the window changes nothing at all: it does not count as
-- a second claimant.
pub claim_again :
    {m : Manager} {j : String} {o : Otp}
    → IsReady m j o
    → lookup j m.windows ≡ none
    → (a : String) (first again : ℕ) → IsLive o first
    → IsLive o again
    → claim a j again (claim a j first m) ≡ claim a j first m
unfolding join_window
claim_again {m} {j} r none_open a first again live live' =
    claim_second r none_open a a first again live live'
    ∙ rw (eq_refl a) (sym (claim_first r a first live none_open))

-- What a dual claim leaves behind.
pub record IsKilled (m : Manager) (j : String) (o : Otp) (a b : String) (m' : Manager)
    : Type 0 where
  pub stored : row j m'.db ≡ some (with_status invalidated none o)
  pub no_window : lookup j m'.windows ≡ none
  pub no_timer : find_timer m.next_timer m'.timers ≡ none
  pub told : m'.sent ≡ (b, invalidated_envelope j) ∷ (a, invalidated_envelope j) ∷ m.sent

join_window-IsKilled :
    {m : Manager} {j : String} {o : Otp}
    → IsReady m j o
    → (a b : String) → a ≢ b
    → (first : ℕ)
    → IsKilled m j o a b (join_window b j (first_state a j first m) (open_window a j first m))
unfolding join_window open_window notify_all
join_window-IsKilled {m} {j} {o} r a b ne first =
    rw (eq_of_ne a b ne, join_window)
      (record {
        stored = ground (arith, set_otp_status_runs j invalidated none m.db o r.answers r.stored);
        no_window = lookup-remove j j (open_window a j first m).windows ∙ rw (eq_refl j);
        no_timer =
            find_timer-stop m.next_timer m.next_timer (open_window a j first m).timers
            ∙ ground arith;
        told = refl;
      })

-- Two different devices claim one OTP within the window: it is stored as invalidated, both are told
-- so and get nothing else, and the window and its timer are gone.
pub dual_claim :
    {m : Manager} {j : String} {o : Otp}
    → IsReady m j o
    → lookup j m.windows ≡ none
    → (a b : String) → a ≢ b
    → (first second : ℕ) → IsLive o first
    → IsLive o second
    → IsKilled m j o a b (claim b j second (claim a j first m))
dual_claim {m} {j} r none_open a b ne first second live live' =
    rw (claim_second r none_open a b first second live live') (join_window-IsKilled r a b ne first)

-- The end of `resolve`, when the OTP is still there and live.
deliver_live :
    {m : Manager} {j : String} {o : Otp}
    → IsReady m j o
    → (a : String) (now : ℕ) → IsLive o now
    → (row j (deliver a j now m).db ≡ some (with_status claimed (some a) o))
      × ((deliver a j now m).sent ≡ (a, payload_envelope j o) ∷ m.sent)
      × ((deliver a j now m).windows ≡ m.windows)
unfolding deliver deliver_loaded settle get_otp
deliver_live {m} {j} {o} r a now live =
    ground (arith, set_otp_status_runs j claimed (some a) m.db o r.answers r.stored)

-- The window just opened is closed again.
abbrev closing_state : Manager → String → String → ℕ → Manager
closing_state m j a first = record m {
  windows = remove j (open_window a j first m).windows;
  timers = stop m.next_timer (open_window a j first m).timers;
  next_timer = suc m.next_timer;
}

IsReady-closing_state :
    {m : Manager} {j : String} {o : Otp} (a : String) (first : ℕ)
    → IsReady m j o
    → IsReady (closing_state m j a first) j o
IsReady-closing_state a first r = record {
  answers = r.answers;
  stored = r.stored;
  is_pending = r.is_pending;
}

-- The timer of the window just opened fires.
fire-open_window :
    (m : Manager) (j a : String) (first now : ℕ)
    → fire m.next_timer now (open_window a j first m) ≡ (
        if leb_ℤ (pos first +ℤ m.window) (pos now)
        then deliver a j now (closing_state m j a first)
        else open_window a j first m)
unfolding fire open_window find_timer resolve resolve_window
fire-open_window m j a first now = ground (arith, lookup-open_window a j first m)

-- A device that claims alone: nothing happens before the window is over, and when the timer fires
-- then, and the OTP has not expired, it is stored as claimed by that device, which gets the
-- ciphertext and the iv that are stored.
pub sole_claim :
    {m : Manager} {j : String} {o : Otp}
    → IsReady m j o
    → lookup j m.windows ≡ none
    → (a : String) (first now : ℕ) → IsLive o first
    → IsLive o now
    → let m' = fire m.next_timer now (claim a j first m) in
      ((pos first +ℤ m.window ≤ℤ pos now)
        → (row j m'.db ≡ some (with_status claimed (some a) o))
          × (m'.sent ≡ (a, payload_envelope j o) ∷ m.sent)
          × (lookup j m'.windows ≡ none))
      × ((leb_ℤ (pos first +ℤ m.window) (pos now) ≡ false) → m' ≡ claim a j first m)
sole_claim {m} {j} {o} r none_open a first now live live' =
    rw (claim_first r a first live none_open, fire-open_window m j a first now)
      (
        λ due.
            let (marked, told, same) = deliver_live (IsReady-closing_state a first r) a now live' in
            rw (le→leb_ℤ (pos first +ℤ m.window) (pos now) due) (
              marked,
              told,
              ap (lookup j) same
                  ∙ (lookup-remove j j (open_window a j first m).windows ∙ rw (eq_refl j)),
            ),
        λ early. rw early refl,
      )

-- The same device, when the OTP has expired by the time the timer fires: it is told so, and the OTP
-- stays as it is stored.
pub sole_claim_expired :
    {m : Manager} {j : String} {o : Otp}
    → IsReady m j o
    → lookup j m.windows ≡ none
    → (a : String) (first now : ℕ) → IsLive o first
    → o.expires_at ≤ℤ now_millis now
    → pos first +ℤ m.window ≤ℤ pos now
    → let m' = fire m.next_timer now (claim a j first m) in
      (row j m'.db ≡ some o) × (m'.sent ≡ (a, error_envelope j "otp expired") ∷ m.sent)
unfolding deliver deliver_loaded get_otp reject
sole_claim_expired {m} {j} {o} r none_open a first now live past due =
    rw
      (
        claim_first r a first live none_open,
        fire-open_window m j a first now,
        le→leb_ℤ (pos first +ℤ m.window) (pos now) due,
      )
      (ground (arith, le→leb_ℤ o.expires_at (now_millis now) past))
