-- ===== src/Claim/Ingest.antt =====
-- internal/claim/claim.go: Ingest and the push fan-out.
use otp_relay_backend.Base.{ℕ, String, ℤ, ◌+ℤ◌, wrap64, quot, List, [], ◌∷◌, ◌++◌, none, some}
use mathlib.Core.List.{reverse}
use otp_relay_backend.Db.{Otp, Device, pending, Result, ok, err}
use otp_relay_backend.Db.Otps.{insert_otp}
use otp_relay_backend.Db.Devices.{list_push_targets}
use otp_relay_backend.Push.{PushService, requests}
use otp_relay_backend.Claim.{Manager}
use otp_relay_backend.Claim.Window.{now_millis, with_db}

-- The loop over the targets.
unfoldable pub subscriptions : List Device → List String
subscriptions [] = []
subscriptions (t ∷ ts) = elim t.push_sub [
  | none ↦ subscriptions ts
  | some sub ↦ sub ∷ subscriptions ts
]

unfoldable pub dispatch_push : PushService → String → Manager → Manager
dispatch_push service otp_id m =
    let loaded = list_push_targets m.db in
    let m' : Manager = with_db loaded.1 m in
    elim loaded.0 [
      | err e ↦ m'
      | ok targets ↦ record m' {
        pushed = reverse (requests service (subscriptions targets) otp_id) ++ m'.pushed;
      }
    ]

-- `id` is the text that `id.ShortID` draws.
abbrev pub new_otp : String → String → String → String → ℕ → ℤ → Otp
new_otp id source_id ciphertext iv now ttl = record {
  id = id;
  ciphertext = ciphertext;
  iv = iv;
  source_id = source_id;
  created_at = now_millis now;
  expires_at = wrap64 (now_millis now +ℤ quot ttl 1000000);
  claimed_by = none;
  status = pending;
}

unfoldable pub ingest :
    PushService → String → String → String → String → ℕ → Manager → Result String × Manager
unfolding dispatch_push
ingest service id source_id ciphertext iv now m =
    let stored = insert_otp (new_otp id source_id ciphertext iv now m.ttl) m.db in
    let m' : Manager = with_db stored.1 m in
    elim stored.0 [ err e ↦ (err e, m') | ok _ ↦ (ok id, dispatch_push service id m') ]
