-- ===== src/Db/Otps.antt =====
-- internal/db/db.go: the statements over the otps table.
pub mod Laws
use otp_relay_backend.Base.{
  ℕ, suc, String, ℤ, leb_ℤ, List, [], ◌∷◌, ◌++◌, Bool, true, false, ◌&&◌, Option, none, some,
  if◌then◌else◌,
}
use otp_relay_backend.Db.{
  Db, Otp, Status, pending, expired, done, failed, uncounted, Result, ok, err, not_found,
  driver_error, next_reply, later_replies, affected_or_not_found,
}
use otp_relay_backend.Db.Table.{find, update, affected}

abbrev pub otp_id : Otp → String
otp_id o = o.id

-- One answer of the driver is used up.
abbrev consume : Db → Db
consume d = record d { replies = later_replies d.replies }

-- The primary key makes the insertion of a known id an error.
unfoldable pub insert_otp : Otp → Db → Result (Unit {0}) × Db
unfolding next_reply later_replies
insert_otp o d = elim (next_reply d.replies) [
  | failed ↦ (err driver_error, consume d)
  | _ ↦ elim (find otp_id o.id d.otps) [
    | some old ↦ (err driver_error, consume d)
    | none ↦ (ok tt, record d { otps = d.otps ++ o ∷ []; replies = later_replies d.replies })
  ]
]

unfoldable pub get_otp : String → Db → Result Otp × Db
unfolding next_reply later_replies
get_otp id d = elim (next_reply d.replies) [
  | done ↦ elim (find otp_id id d.otps) [
    | none ↦ (err not_found, consume d)
    | some o ↦ (ok o, consume d)
  ]
  | _ ↦ (err driver_error, consume d)
]

abbrev pub with_status : Status → Option String → Otp → Otp
with_status st by o = record o { status = st; claimed_by = by }

unfoldable pub set_otp_status : String → Status → Option String → Db → Result (Unit {0}) × Db
unfolding next_reply later_replies affected_or_not_found
set_otp_status id st by d =
    let changed : Db = record d {
      otps = update otp_id id (with_status st by) d.otps;
      replies = later_replies d.replies;
    } in
    elim (next_reply d.replies) [
      | done ↦ (affected_or_not_found (affected otp_id id d.otps), changed)
      | failed ↦ (err driver_error, consume d)
      | uncounted ↦ (err driver_error, changed)
    ]

abbrev pub is_pending : Status → Bool
is_pending pending = true
is_pending _ = false

-- The `WHERE` of the sweep.
abbrev pub is_stale : ℤ → Otp → Bool
is_stale now o = is_pending o.status && leb_ℤ o.expires_at now

unfoldable pub expire : ℤ → List Otp → List Otp
expire now [] = []
expire now (o ∷ os) = (if is_stale now o then record o { status = expired } else o) ∷ expire now os

unfoldable pub count_stale : ℤ → List Otp → ℕ
count_stale now [] = 0
count_stale now (o ∷ os) = let n = count_stale now os in if is_stale now o then suc n else n

unfoldable pub expire_stale_otps : ℤ → Db → Result ℕ × Db
unfolding next_reply later_replies
expire_stale_otps now d =
    let swept : Db = record d { otps = expire now d.otps; replies = later_replies d.replies } in
    elim (next_reply d.replies) [
      | done ↦ (ok (count_stale now d.otps), swept)
      | failed ↦ (err driver_error, consume d)
      | uncounted ↦ (err driver_error, swept)
    ]
