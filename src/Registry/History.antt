-- ===== src/Registry/History.antt =====
-- What the relay does with the devices table, as a list of events.
use otp_relay_backend.Base.{
  ℕ, String, List, [], ◌∷◌, ◌++◌, Option, ◌≡◌, ◌⊎◌, inl, inr, true, false, arith, Bool-cases,
  Option-cases, some,
}
use otp_relay_backend.Db.{Db, Device, Otp, InviteToken, Reply, affected_or_not_found, ok}
use otp_relay_backend.Db.Table.{find, update, affected_of_missing}
use otp_relay_backend.Db.Devices
use otp_relay_backend.Db.Devices.{
  device_id, device_token, insert_device, get_device_by_token, get_device_by_id, list_devices,
  list_push_targets, revoke_device, push_targets, admits, scan_device,
}
use otp_relay_backend.Registry.{
  register, accepted, new_device, authenticate, revoke, get, registry_list, registry_push_targets,
}

-- `elsewhere` is whatever else the relay does with the database: it leaves the devices as they are,
-- and the other tables and the driver's coming answers in any state.
pub data RegistryEvent : Type 0 where
  registers :
      (name typ : String) (push_sub : Option String) (id token : String) (now : ℕ) → RegistryEvent
  authenticates : (token : String) → RegistryEvent
  revokes gets : (id : String) → RegistryEvent
  lists targets : RegistryEvent
  elsewhere : List Otp → List InviteToken → List Reply → RegistryEvent

unfoldable pub registry_step : RegistryEvent → Db → Db
registry_step (registers name typ push_sub id token now) d =
    (register name typ push_sub id token now d).1
registry_step (authenticates token) d = (authenticate token d).1
registry_step (revokes id) d = (revoke id d).1
registry_step (gets id) d = (get id d).1
registry_step lists d = (registry_list d).1
registry_step targets d = (registry_push_targets d).1
registry_step (elsewhere otps invites replies) d = record d {
  otps = otps;
  invites = invites;
  replies = replies;
}

unfoldable pub registry_run : List RegistryEvent → Db → Db
registry_run [] d = d
registry_run (e ∷ es) d = registry_run es (registry_step e d)

-- What each operation does to the devices table.
pub register-devices :
    (name typ : String) (push_sub : Option String) (id token : String) (now : ℕ) (d : Db)
    → ((register name typ push_sub id token now d).1.devices ≡ d.devices)
      ⊎ ((admits d.devices (new_device name typ push_sub id token now) ≡ true)
          × ((register name typ push_sub id token now d).1.devices
              ≡ d.devices ++ new_device name typ push_sub id token now ∷ []))
unfolding register insert_device
register-devices name typ push_sub id token now d =
    elim (Bool-cases (admits d.devices (new_device name typ push_sub id token now))) [
      | inl kept ↦ ground arith
      | inr not_kept ↦ inl (ground arith)
    ]

pub revoke-devices :
    (i : String) (d : Db)
    → ((revoke i d).1.devices ≡ d.devices)
      ⊎ ((revoke i d).1.devices ≡ update device_id i Devices.revoke d.devices)
unfolding revoke_device
revoke-devices i d = ground arith

pub authenticate-devices : (token : String) (d : Db) → (authenticate token d).1.devices ≡ d.devices
unfolding authenticate get_device_by_token
authenticate-devices token d = ground arith

pub get-devices : (id : String) (d : Db) → (get id d).1.devices ≡ d.devices
unfolding get_device_by_id
get-devices id d = ground arith

pub registry_list-devices : (d : Db) → (registry_list d).1.devices ≡ d.devices
unfolding list_devices
registry_list-devices d = ground arith

pub registry_push_targets-devices : (d : Db) → (registry_push_targets d).1.devices ≡ d.devices
unfolding list_push_targets
registry_push_targets-devices d = ground arith

pub revoke-eq-ok :
    (i : String) (d : Db)
    → (revoke i d).0 ≡ ok tt
    → ((dev : Device) × (find device_id i d.devices ≡ some dev))
      × ((revoke i d).1.devices ≡ update device_id i Devices.revoke d.devices)
unfolding revoke_device affected_or_not_found
revoke-eq-ok i d e = elim (Option-cases (find device_id i d.devices)) [
  | inl n ↦ absurd (ground (arith, affected_of_missing device_id i d.devices n))
  | inr found ↦ (found, ground arith)
]

pub authenticate-eq-accepted :
    (token : String) (d : Db) (dev : Device)
    → (authenticate token d).0 ≡ accepted dev
    → (find device_token token d.devices ≡ some dev) × (dev.revoked ≡ false)
unfolding authenticate get_device_by_token scan_device
authenticate-eq-accepted token d dev e = ground arith

pub registry_push_targets-eq-ok :
    (d : Db) (devices : List Device)
    → (registry_push_targets d).0 ≡ ok devices
    → devices ≡ push_targets d.devices
unfolding list_push_targets
registry_push_targets-eq-ok d devices e = ground arith
