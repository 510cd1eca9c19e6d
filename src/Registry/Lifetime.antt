-- ===== src/Registry/Lifetime.antt =====
-- A device that was registered: its token stands for it until it is revoked.
use otp_relay_backend.Base.{
  ℕ, ◌≡◌, refl, sym, ◌≢◌, ◌⊎◌, inl, inr, String, List, [], ◌∷◌, false, Option, some, arith, All,
  Bool-cases, Option-cases, eq_refl, eq_of_ne,
}
use otp_relay_backend.Db.{Db, Device, driver_error}
use otp_relay_backend.Db.Table.{find, find-append, find-update_by}
use otp_relay_backend.Db.Devices
use otp_relay_backend.Db.Devices.{
  device_id, device_token, insert_device, get_device_by_token, admits, scan_device,
}
use otp_relay_backend.Registry.{
  accepted, refused, database, register, authenticate, admit, revoke, new_device,
}
use otp_relay_backend.Registry.History.{
  RegistryEvent, registers, authenticates, revokes, gets, lists, targets, elsewhere, registry_step,
  registry_run, register-devices, revoke-devices, authenticate-devices, get-devices,
  registry_list-devices, registry_push_targets-devices,
}

-- The event does not revoke the device.
abbrev pub Spares : String → RegistryEvent → Type 0
Spares i (revokes j) = j ≢ i
Spares i _ = Unit

-- The row that the token leads to.
abbrev Leads : String → Device → Db → Type 0
Leads token dev d = find device_token token d.devices ≡ some dev

revokes-Leads :
    (token j : String) (dev : Device) (d : Db)
    → j ≢ dev.id
    → Leads token dev d
    → Leads token dev (revoke j d).1
revokes-Leads token j dev d other lead = elim (revoke-devices j d) [
  | inl e ↦ rw e lead
  | inr e ↦ rw e (
      ground (
        arith,
        lead,
        eq_of_ne dev.id j (λ s. other (sym s)),
        find-update_by device_token device_id token j Devices.revoke d.devices (λ r. refl),
      ))
]

registers-Leads :
    (token : String) (dev : Device) (name typ : String) (push_sub : Option String)
    (id token' : String) (now : ℕ) (d : Db)
    → Leads token dev d
    → Leads token dev (register name typ push_sub id token' now d).1
registers-Leads token dev name typ push_sub id token' now d lead =
    elim (register-devices name typ push_sub id token' now d) [
      | inl e ↦ rw e lead
      | inr (a, e) ↦ rw e (
          ground (
            arith,
            lead,
            find-append device_token token d.devices (new_device name typ push_sub id token' now),
          ))
    ]

step-Leads :
    (token : String) (dev : Device) (e : RegistryEvent) (d : Db)
    → Spares dev.id e
    → Leads token dev d
    → Leads token dev (registry_step e d)
unfolding registry_step
step-Leads token dev (registers name typ push_sub id token' now) d s lead =
    registers-Leads token dev name typ push_sub id token' now d lead
step-Leads token dev (authenticates t) d s lead = rw (authenticate-devices t d) lead
step-Leads token dev (revokes j) d s lead = revokes-Leads token j dev d s lead
step-Leads token dev (gets id) d s lead = rw (get-devices id d) lead
step-Leads token dev lists d s lead = rw (registry_list-devices d) lead
step-Leads token dev targets d s lead = rw (registry_push_targets-devices d) lead
step-Leads token dev (elsewhere otps invites replies) d s lead = lead

run-Leads :
    (token : String) (dev : Device) (es : List RegistryEvent) (d : Db)
    → All (Spares dev.id) es
    → Leads token dev d
    → Leads token dev (registry_run es d)
unfolding registry_run
run-Leads token dev [] d s lead = lead
run-Leads token dev (e ∷ es) d (s, ss) lead =
    run-Leads token dev es (registry_step e d) ss (step-Leads token dev e d s lead)

register-Leads :
    (name typ : String) (push_sub : Option String) (id token : String) (now : ℕ) (d : Db)
    (dev : Device)
    → (register name typ push_sub id token now d).0 ≡ accepted dev
    → (dev ≡ new_device name typ push_sub id token now)
      × Leads token dev (register name typ push_sub id token now d).1
unfolding register insert_device
register-Leads name typ push_sub id token now d dev e =
    let new = new_device name typ push_sub id token now in
    elim (Bool-cases (admits d.devices new)) [
      | inl kept ↦ (
        ground arith,
        ground (
          arith,
          eq_refl token,
          find-append device_token token d.devices new,
          Option-cases (find device_token token d.devices),
        ),
      )
      | inr not_kept ↦ absurd (ground arith)
    ]

authenticate-Leads :
    (token : String) (dev : Device) (d : Db)
    → Leads token dev d
    → dev.revoked ≡ false
    → ((authenticate token d).0 ≡ accepted dev)
      ⊎ ((authenticate token d).0 ≡ refused (database driver_error))
unfolding authenticate get_device_by_token scan_device admit
authenticate-Leads token dev d lead live = ground arith

-- A device that was registered is the one that was asked for, not revoked, with the id and the token
-- that were drawn for it. As long as no event revokes its id, this token is answered by that same
-- device, whatever happens to the others, unless the database fails.
pub registered_authenticates :
    (name typ : String) (push_sub : Option String) (id token : String) (now : ℕ) (d : Db)
    (dev : Device) (es : List RegistryEvent)
    → (register name typ push_sub id token now d).0 ≡ accepted dev
    → All (Spares id) es
    → let d' = registry_run es (register name typ push_sub id token now d).1 in
      (dev ≡ new_device name typ push_sub id token now)
      × (((authenticate token d').0 ≡ accepted dev)
          ⊎ ((authenticate token d').0 ≡ refused (database driver_error)))
registered_authenticates name typ push_sub id token now d dev es e spared =
    let (new, lead) = register-Leads name typ push_sub id token now d dev e in
    (
      new,
      authenticate-Leads token dev (registry_run es (register name typ push_sub id token now d).1)
          (run-Leads token dev es (register name typ push_sub id token now d).1 (rw new spared)
            lead)
          (rw new refl),
    )
