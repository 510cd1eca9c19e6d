-- ===== src/Db/Invites.antt =====
-- internal/db/db.go: the statements over the invite_tokens table.
use otp_relay_backend.Base.{
  String, leb_ℤ, List, [], ◌∷◌, ◌++◌, true, Option, none, some, if◌then◌else◌,
}
use otp_relay_backend.Db.{
  Db, InviteToken, done, failed, uncounted, Result, ok, err, not_found, driver_error, next_reply,
  later_replies, affected_or_not_found,
}
use otp_relay_backend.Db.Table.{find, update, affected}

abbrev pub invite_key : InviteToken → String
invite_key t = t.token

abbrev consume : Db → Db
consume d = record d { replies = later_replies d.replies }

unfoldable pub insert_invite : InviteToken → Db → Result (Unit {0}) × Db
unfolding next_reply later_replies
insert_invite t d = elim (next_reply d.replies) [
  | failed ↦ (err driver_error, consume d)
  | _ ↦ elim (find invite_key t.token d.invites) [
    | some old ↦ (err driver_error, consume d)
    | none ↦ (ok tt, record d { invites = d.invites ++ t ∷ []; replies = later_replies d.replies })
  ]
]

abbrev found : Option InviteToken → Result InviteToken
found none = err not_found
found (some t) = ok t

unfoldable pub get_invite : String → Db → Result InviteToken × Db
unfolding next_reply later_replies
get_invite token d = elim (next_reply d.replies) [
  | done ↦ (found (find invite_key token d.invites), consume d)
  | _ ↦ (err driver_error, consume d)
]

-- `ORDER BY created_at DESC LIMIT 1`; of equal times the earlier row of the table.
unfoldable pub later_invite : InviteToken → Option InviteToken → InviteToken
later_invite t none = t
later_invite t (some u) = if leb_ℤ u.created_at t.created_at then t else u

unfoldable pub latest : List InviteToken → Option InviteToken
latest [] = none
latest (t ∷ ts) = some (later_invite t (latest ts))

unfoldable pub get_latest_invite : Db → Result InviteToken × Db
unfolding next_reply later_replies latest later_invite
get_latest_invite d = elim (next_reply d.replies) [
  | done ↦ (found (latest d.invites), consume d)
  | _ ↦ (err driver_error, consume d)
]

abbrev pub use_up : InviteToken → InviteToken
use_up t = record t { used = true }

unfoldable pub mark_invite_used : String → Db → Result (Unit {0}) × Db
unfolding next_reply later_replies affected_or_not_found
mark_invite_used token d =
    let changed : Db = record d {
      invites = update invite_key token use_up d.invites;
      replies = later_replies d.replies;
    } in
    elim (next_reply d.replies) [
      | done ↦ (affected_or_not_found (affected invite_key token d.invites), changed)
      | failed ↦ (err driver_error, consume d)
      | uncounted ↦ (err driver_error, changed)
    ]
