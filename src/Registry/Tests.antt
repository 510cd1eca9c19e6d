-- ===== src/Registry/Tests.antt =====
-- Runs of the registry, and its theorems at concrete inputs.
use otp_relay_backend.Base.{◌≡◌, refl, ◌⊎◌, List, [], ◌∷◌, none, some, ne_of_eq}
use otp_relay_backend.Db.{Db, Device, driver_error}
use otp_relay_backend.Db.Devices.{insert_device, revoke_device, get_device_by_token}
use otp_relay_backend.Db.Table.{find, update, affected}
use otp_relay_backend.Registry.{
  register, authenticate, revoke, accepted, refused, database, revoked, new_device,
}
use otp_relay_backend.Registry.History.{
  RegistryEvent, registers, authenticates, revokes, registry_run,
}
use otp_relay_backend.Registry.Revocation.{IsRevoked, out_for_good}
use otp_relay_backend.Registry.Lifetime.{registered_authenticates}

abbrev empty_db : Db
empty_db = record { otps = []; devices = []; invites = []; replies = [] }

abbrev phone : Device
phone = new_device "Phone" "source" none "d1" "t1" 5000000

abbrev one_phone : Db
one_phone = record empty_db { devices = phone ∷ [] }

-- A tablet registers, and the token of the phone is used.
abbrev busy : List RegistryEvent
busy = registers "Tablet" "destination" (some "sub") "d2" "t2" 6000000 ∷ authenticates "t1" ∷ []

register-phone :
    register "Phone" "source" none "d1" "t1" 5000000 empty_db ≡ (accepted phone, one_phone)
unfolding register insert_device find
register-phone = refl

revoke-phone : (authenticate "t1" (revoke "d1" one_phone).1).0 ≡ refused revoked
unfolding authenticate revoke_device find update get_device_by_token
revoke-phone = refl

out_for_good_example : IsRevoked "d1" (registry_run busy (revoke "d1" one_phone).1)
unfolding revoke_device affected
out_for_good_example = out_for_good "d1" one_phone busy refl

-- A tablet registers and is revoked.
abbrev tablet_goes : List RegistryEvent
tablet_goes = registers "Tablet" "destination" (some "sub") "d2" "t2" 6000000 ∷ revokes "d2" ∷ []

abbrev later : Db
later = registry_run tablet_goes one_phone

registered_authenticates_example :
    (phone ≡ new_device "Phone" "source" none "d1" "t1" 5000000)
    × (((authenticate "t1" later).0 ≡ accepted phone)
        ⊎ ((authenticate "t1" later).0 ≡ refused (database driver_error)))
unfolding register insert_device find
registered_authenticates_example =
    registered_authenticates "Phone" "source" none "d1" "t1" 5000000 empty_db phone tablet_goes refl
      (tt, (ne_of_eq "d2" "d1" refl, tt))
