-- ===== src/Db/Devices.antt =====
-- internal/db/db.go: the statements over the devices table.
use otp_relay_backend.Base.{
  String, leb_ℤ, List, [], ◌∷◌, ◌++◌, Bool, true, false, ◌&&◌, ◌||◌, Option, none, some, ◌==◌,
  if◌then◌else◌,
}
use mathlib.Core.Bool.{not}
use otp_relay_backend.Db.{
  Db, Device, done, failed, uncounted, Result, ok, err, not_found, driver_error, next_reply,
  later_replies, affected_or_not_found,
}
use otp_relay_backend.Db.Table.{find, update, affected}

abbrev pub device_id : Device → String
device_id d = d.id

abbrev pub device_token : Device → String
device_token d = d.device_token

-- The schema's CHECK on the `type` column.
abbrev pub is_device_type : String → Bool
is_device_type typ = typ == "source" || typ == "destination"

abbrev consume : Db → Db
consume d = record d { replies = later_replies d.replies }

abbrev is_taken : Option Device → Bool
is_taken none = false
is_taken (some d) = true

-- The row breaks no constraint of the table.
abbrev pub admits : List Device → Device → Bool
admits devices dev =
    is_device_type dev.type
    && not (is_taken (find device_id dev.id devices))
    && not (is_taken (find device_token dev.device_token devices))

unfoldable pub insert_device : Device → Db → Result (Unit {0}) × Db
unfolding next_reply later_replies
insert_device dev d = elim (next_reply d.replies) [
  | failed ↦ (err driver_error, consume d)
  | _ ↦
      if admits d.devices dev
      then (ok tt, record d { devices = d.devices ++ dev ∷ []; replies = later_replies d.replies })
      else (err driver_error, consume d)
]

-- `scanDevice`, of the row that the query found.
unfoldable pub scan_device : Option Device → Result Device
scan_device none = err not_found
scan_device (some dev) = ok dev

unfoldable pub get_device_by_token : String → Db → Result Device × Db
unfolding next_reply later_replies scan_device
get_device_by_token token d = elim (next_reply d.replies) [
  | done ↦ (scan_device (find device_token token d.devices), consume d)
  | _ ↦ (err driver_error, consume d)
]

unfoldable pub get_device_by_id : String → Db → Result Device × Db
unfolding next_reply later_replies scan_device
get_device_by_id id d = elim (next_reply d.replies) [
  | done ↦ (scan_device (find device_id id d.devices), consume d)
  | _ ↦ (err driver_error, consume d)
]

-- `ORDER BY created_at DESC`. SQL leaves the order of equal times open: here the earlier row of the
-- table comes first.
unfoldable pub insert_newest : Device → List Device → List Device
insert_newest d [] = d ∷ []
insert_newest d (e ∷ es) =
    if leb_ℤ e.created_at d.created_at then d ∷ e ∷ es else e ∷ insert_newest d es

unfoldable pub newest_first : List Device → List Device
newest_first [] = []
newest_first (d ∷ ds) = insert_newest d (newest_first ds)

unfoldable pub list_devices : Db → Result (List Device) × Db
unfolding next_reply later_replies newest_first insert_newest
list_devices d = elim (next_reply d.replies) [
  | done ↦ (ok (newest_first d.devices), consume d)
  | _ ↦ (err driver_error, consume d)
]

abbrev pub has_push : Option String → Bool
has_push none = false
has_push (some sub) = true

-- The `WHERE` of the fan-out query.
abbrev pub is_push_target : Device → Bool
is_push_target d = d.type == "destination" && not d.revoked && has_push d.push_sub

unfoldable pub push_targets : List Device → List Device
push_targets [] = []
push_targets (d ∷ ds) = let rest = push_targets ds in if is_push_target d then d ∷ rest else rest

unfoldable pub list_push_targets : Db → Result (List Device) × Db
unfolding next_reply later_replies
list_push_targets d = elim (next_reply d.replies) [
  | done ↦ (ok (push_targets d.devices), consume d)
  | _ ↦ (err driver_error, consume d)
]

abbrev pub revoke : Device → Device
revoke d = record d { revoked = true }

unfoldable pub revoke_device : String → Db → Result (Unit {0}) × Db
unfolding next_reply later_replies affected_or_not_found
revoke_device id d =
    let changed : Db = record d {
      devices = update device_id id revoke d.devices;
      replies = later_replies d.replies;
    } in
    elim (next_reply d.replies) [
      | done ↦ (affected_or_not_found (affected device_id id d.devices), changed)
      | failed ↦ (err driver_error, consume d)
      | uncounted ↦ (err driver_error, changed)
    ]
