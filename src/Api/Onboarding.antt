-- ===== src/Api/Onboarding.antt =====
-- internal/api/onboard.go: the QR code after an invite is made.
use otp_relay_backend.Base.{
  ℕ, ◌≡◌, refl, ap, ◌∙◌, String, leb_ℤ, false, List, [], ◌∷◌, ◌++◌, Option, none, some, arith, All,
}
use otp_relay_backend.Db.{Db, InviteToken, ok}
use otp_relay_backend.Db.Invites.{
  invite_key, insert_invite, later_invite, latest, get_latest_invite,
}
use otp_relay_backend.Db.Table.{find}
use otp_relay_backend.Claim.Window.{now_millis}
use otp_relay_backend.Totp.Decimal.{Bytes}
use otp_relay_backend.Api.{Request, write_json, invite}
use otp_relay_backend.Api.Onboard.{
  invite_url, new_invite, handle_create_invite, qr_response, handle_invite_qr,
}

-- The invite was made in an earlier millisecond than `now`.
abbrev pub IsEarlier : ℕ → InviteToken → Type 0
IsEarlier now t = leb_ℤ (now_millis now) t.created_at ≡ false

latest-append :
    (now : ℕ) (token : String) (ts : List InviteToken)
    → All (IsEarlier now) ts
    → latest (ts ++ new_invite token now ∷ []) ≡ some (new_invite token now)
unfolding latest later_invite
latest-append now token [] a = refl
latest-append now token (t ∷ ts) (e, a) = ground (arith, latest-append now token ts a)

module _ (token : String) (now : ℕ) (d : Db) (answers : d.replies ≡ [])
    (unknown : find invite_key token d.invites ≡ none) where
  insert_invite_runs :
      insert_invite (new_invite token now) d
      ≡ (ok tt, record d { invites = d.invites ++ new_invite token now ∷ [] })
  unfolding insert_invite
  insert_invite_runs = ground arith

  handle_create_invite_runs :
      (r : Request)
      → handle_create_invite r token now d ≡ (
        write_json 201 (invite token (invite_url r token) (new_invite token now).expires_at),
        record d { invites = d.invites ++ new_invite token now ∷ [] },
      )
  unfolding handle_create_invite
  handle_create_invite_runs r = rw (insert_invite_runs, handle_create_invite) refl

  -- An invite that is made is answered with its link, and is the one whose link the QR code then
  -- shows: if the database answers, the drawn token is new, and the invites that are stored were made
  -- in earlier milliseconds. The two requests may differ; each link has the host of its own request.
  pub new_invite_shown :
      (encode_qr : String → Option Bytes) (r r' : Request)
      → All (IsEarlier now) d.invites
      → let made = handle_create_invite r token now d in
        (made.0
          ≡ write_json 201 (invite token (invite_url r token) (new_invite token now).expires_at))
        × ((handle_invite_qr encode_qr r' made.1).0 ≡ qr_response (encode_qr (invite_url r' token)))
  unfolding handle_invite_qr get_latest_invite
  new_invite_shown encode_qr r r' earlier =
      let made = handle_create_invite_runs r in
      let newest = latest-append now token d.invites earlier in
      (
        ap (λ p. p.0) made,
        ap (λ p. (handle_invite_qr encode_qr r' p.1).0) made
            ∙ rw (answers, newest, handle_invite_qr, get_latest_invite) refl,
      )
