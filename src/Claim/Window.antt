-- ===== src/Claim/Window.antt =====
-- internal/claim/claim.go: Claim, resolve, invalidate, and the timers of claim windows.
use otp_relay_backend.Base.{
  ℕ, suc, ◌/◌, String, ℤ, pos, ◌+ℤ◌, leb_ℤ, List, [], ◌∷◌, ◌++◌, Bool, ◌&&◌, ◌||◌, true, false,
  Option, none, some, eqb, lookup, insert, remove, contains, if◌then◌else◌,
}
use mathlib.Core.Bool.{not}
use otp_relay_backend.Db.{
  Db, Otp, Status, claimed, invalidated, expired, ok, err, not_found, driver_error,
}
use otp_relay_backend.Db.Otps.{get_otp, set_otp_status, expire_stale_otps, is_pending}
use otp_relay_backend.Ws.{
  Envelope, empty_envelope, type_otp_payload, type_otp_invalidated, type_error,
}
use otp_relay_backend.Claim.{ClaimState, Timer, Manager}

-- `db.NowMillis`.
abbrev pub now_millis : ℕ → ℤ
now_millis now = pos (now / 1000000)

abbrev pub with_db : Db → Manager → Manager
with_db d m = record m { db = d }

abbrev pub send : String → Envelope → Manager → Manager
send device e m = record m { sent = (device, e) ∷ m.sent }

abbrev pub error_envelope : String → String → Envelope
error_envelope otp_id reason = record empty_envelope {
  type = type_error;
  otp_id = otp_id;
  error = reason;
}

abbrev pub invalidated_envelope : String → Envelope
invalidated_envelope otp_id = record empty_envelope {
  type = type_otp_invalidated;
  otp_id = otp_id;
  reason = "claimed by more than one device";
}

abbrev pub payload_envelope : String → Otp → Envelope
payload_envelope otp_id o = record empty_envelope {
  type = type_otp_payload;
  otp_id = otp_id;
  ciphertext = o.ciphertext;
  iv = o.iv;
}

unfoldable pub reject : String → String → String → Manager → Manager
reject device otp_id reason m = send device (error_envelope otp_id reason) m

unfoldable pub send_invalidated : String → String → Manager → Manager
send_invalidated device otp_id m = send device (invalidated_envelope otp_id) m

-- The loop at the end of `invalidate`.
unfoldable pub notify_all : List String → String → Manager → Manager
notify_all [] otp_id m = m
notify_all (c ∷ cs) otp_id m = notify_all cs otp_id (send_invalidated c otp_id m)

-- An error of the database is logged only.
unfoldable pub invalidate : String → List String → Manager → Manager
unfolding notify_all send_invalidated
invalidate otp_id claimants m =
    notify_all claimants otp_id (with_db (set_otp_status otp_id invalidated none m.db).1 m)

-- `timer.Stop`: a timer that has fired is not in the list any more.
unfoldable pub stop : ℕ → List Timer → List Timer
stop h [] = []
stop h (t ∷ ts) = let rest = stop h ts in if eqb t.handle h then rest else t ∷ rest

-- The first claimant: open the window and arm the timer.
unfoldable pub open_window : String → String → ℕ → Manager → Manager
open_window claimant otp_id now m = record m {
  windows = insert otp_id (record { claimants = claimant ∷ []; timer = m.next_timer }) m.windows;
  timers = record { handle = m.next_timer; otp_id = otp_id; due = pos now +ℤ m.window } ∷ m.timers;
  next_timer = suc m.next_timer;
}

-- Stop the timer and forget the window.
abbrev pub close_window : String → ℕ → Manager → Manager
close_window otp_id timer m = record m {
  windows = remove otp_id m.windows;
  timers = stop timer m.timers;
}

-- A claim in an open window.
unfoldable pub join_window : String → String → ClaimState → Manager → Manager
unfolding invalidate
join_window claimant otp_id st m =
    if contains st.claimants claimant
    then m
    else invalidate otp_id (st.claimants ++ claimant ∷ []) (close_window otp_id st.timer m)

unfoldable pub enter_window : String → String → ℕ → Manager → Manager
unfolding open_window join_window
enter_window claimant otp_id now m = elim (lookup otp_id m.windows) [
  | none ↦ open_window claimant otp_id now m
  | some st ↦ join_window claimant otp_id st m
]

abbrev pub is_expired : Status → Bool
is_expired expired = true
is_expired _ = false

-- The check of the stored status and of the clock.
abbrev pub is_past : Otp → ℕ → Bool
is_past o now = is_expired o.status || (is_pending o.status && leb_ℤ o.expires_at (now_millis now))

unfoldable pub claim_loaded : Otp → String → String → ℕ → Manager → Manager
unfolding reject send_invalidated enter_window
claim_loaded o claimant otp_id now m =
    if is_past o now then reject claimant otp_id "otp expired" m else elim o.status [
      | claimed ↦ reject claimant otp_id "otp already claimed" m
      | invalidated ↦ send_invalidated claimant otp_id m
      | _ ↦ enter_window claimant otp_id now m
    ]

unfoldable pub claim : String → String → ℕ → Manager → Manager
unfolding reject claim_loaded
claim claimant otp_id now m =
    let loaded = get_otp otp_id m.db in
    let m' : Manager = with_db loaded.1 m in
    elim loaded.0 [
      | ok o ↦ claim_loaded o claimant otp_id now m'
      | err not_found ↦ reject claimant otp_id "otp not found" m'
      | err driver_error ↦ reject claimant otp_id "internal error" m'
    ]

-- The end of `resolve`: the status is written before the payload is sent.
unfoldable pub settle : Otp → String → String → Manager → Manager
unfolding reject
settle o winner otp_id m =
    let written = set_otp_status otp_id claimed (some winner) m.db in
    let m' : Manager = with_db written.1 m in
    elim written.0 [
      | ok _ ↦ send winner (payload_envelope otp_id o) m'
      | err e ↦ reject winner otp_id "internal error" m'
    ]

unfoldable pub deliver_loaded : Otp → String → String → ℕ → Manager → Manager
unfolding reject settle
deliver_loaded o winner otp_id now m =
    if not (is_pending o.status) || leb_ℤ o.expires_at (now_millis now)
    then reject winner otp_id "otp expired" m
    else settle o winner otp_id m

-- The rest of `resolve` for a sole claimant.
unfoldable pub deliver : String → String → ℕ → Manager → Manager
unfolding reject deliver_loaded
deliver winner otp_id now m =
    let loaded = get_otp otp_id m.db in
    let m' : Manager = with_db loaded.1 m in
    elim loaded.0 [
      | ok o ↦ deliver_loaded o winner otp_id now m'
      | err e ↦ reject winner otp_id "internal error" m'
    ]

unfoldable pub resolve_window : List String → String → ℕ → Manager → Manager
unfolding deliver invalidate
resolve_window [] otp_id now m = invalidate otp_id [] m
resolve_window (c ∷ []) otp_id now m = deliver c otp_id now m
resolve_window (c ∷ d ∷ cs) otp_id now m = invalidate otp_id (c ∷ d ∷ cs) m

unfoldable pub resolve : String → ℕ → Manager → Manager
unfolding resolve_window
resolve otp_id now m = elim (lookup otp_id m.windows) [
  | none ↦ m
  | some st ↦
      resolve_window st.claimants otp_id now (record m { windows = remove otp_id m.windows })
]

unfoldable pub find_timer : ℕ → List Timer → Option Timer
find_timer h [] = none
find_timer h (t ∷ ts) = if eqb t.handle h then some t else find_timer h ts

-- The runtime fires a timer that is armed, once and not before it is due.
unfoldable pub fire : ℕ → ℕ → Manager → Manager
unfolding find_timer stop resolve
fire h now m = elim (find_timer h m.timers) [
  | none ↦ m
  | some t ↦
      if leb_ℤ t.due (pos now)
      then resolve t.otp_id now (record m { timers = stop h m.timers })
      else m
]

-- One tick of the janitor.
unfoldable pub sweep : ℕ → Manager → Manager
sweep now m = with_db (expire_stale_otps (now_millis now) m.db).1 m
