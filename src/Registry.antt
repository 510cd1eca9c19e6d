-- ===== src/Registry.antt =====
-- internal/registry/registry.go: the life of a device.
pub mod History
pub mod Revocation
pub mod Lifetime
mod Tests
use otp_relay_backend.Base.{
  ◌≡◌, refl, ◌⊎◌, inl, inr, ℕ, String, List, false, ◌&&◌, Option, ◌==◌, if◌then◌else◌,
}
use mathlib.Core.Bool.{not}
use otp_relay_backend.Db.{Db, Device, Result, ok, err, DbError}
use otp_relay_backend.Db.Devices.{
  insert_device, get_device_by_token, get_device_by_id, list_devices, list_push_targets,
  revoke_device,
}
use otp_relay_backend.Claim.Window.{now_millis}

-- `ErrRevoked`, `ErrInvalidType`, or an error of the database.
pub data RegistryError : Type 0 where
  revoked invalid_type : RegistryError
  database : DbError → RegistryError

pub data Answer {ℓ} (A : Type ℓ) : Type ℓ where
  accepted : A → Answer A
  refused : RegistryError → Answer A

pub Answer-cases {ℓ} :
    {A : Type ℓ} (a : Answer A)
    → ((e : RegistryError) × (a ≡ refused e)) ⊎ ((x : A) × (a ≡ accepted x))
Answer-cases (refused e) = inl (e, refl)
Answer-cases (accepted x) = inr (x, refl)

-- `id` and `token` are the texts that `id.ShortID` and `id.Token` draw.
abbrev pub new_device : String → String → Option String → String → String → ℕ → Device
new_device name typ push_sub id token now = record {
  id = id;
  name = name;
  type = typ;
  push_sub = push_sub;
  device_token = token;
  created_at = now_millis now;
  revoked = false;
}

unfoldable pub register :
    String → String → Option String → String → String → ℕ → Db → Answer Device × Db
register name typ push_sub id token now d =
    if not (typ == "source") && not (typ == "destination")
    then (refused invalid_type, d)
    else let dev = new_device name typ push_sub id token now in
      let stored = insert_device dev d in
      (elim stored.0 [ err e ↦ refused (database e) | ok _ ↦ accepted dev ], stored.1)

-- The device that the database found, if it is not revoked.
unfoldable pub admit : Result Device → Answer Device
admit (err e) = refused (database e)
admit (ok dev) = if dev.revoked then refused revoked else accepted dev

unfoldable pub authenticate : String → Db → Answer Device × Db
unfolding admit
authenticate token d = let loaded = get_device_by_token token d in (admit loaded.0, loaded.1)

abbrev pub registry_list : Db → Result (List Device) × Db
registry_list d = list_devices d

abbrev pub registry_push_targets : Db → Result (List Device) × Db
registry_push_targets d = list_push_targets d

abbrev pub revoke : String → Db → Result (Unit {0}) × Db
revoke id d = revoke_device id d

abbrev pub get : String → Db → Result Device × Db
get id d = get_device_by_id id d
