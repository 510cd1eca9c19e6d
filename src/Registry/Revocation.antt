-- ===== src/Registry/Revocation.antt =====
-- A revoked device is out: no token of it authenticates again, and it is no push target.
use mathlib.Core.Bool.{not}
use otp_relay_backend.Base.{
  ℕ, ◌≡◌, refl, ◌≢◌, inl, inr, String, List, [], ◌∷◌, ◌++◌, true, ◌||◌, Option, some, ◌==◌, arith,
  All, All-append, Bool-cases, eq_iff, eq_refl,
}
use otp_relay_backend.Db.{Db, Device, ok}
use otp_relay_backend.Db.Table.{find, update, find-All, update-All, find-append, find-update}
use otp_relay_backend.Db.Devices
use otp_relay_backend.Db.Devices.{device_id, device_token, push_targets, is_push_target, admits}
use otp_relay_backend.Registry.{accepted, register, authenticate, revoke, registry_push_targets}
use otp_relay_backend.Registry.History.{
  RegistryEvent, registers, authenticates, revokes, gets, lists, targets, elsewhere, registry_step,
  registry_run, register-devices, revoke-eq-ok, authenticate-eq-accepted,
  registry_push_targets-eq-ok, revoke-devices, authenticate-devices, get-devices,
  registry_list-devices, registry_push_targets-devices,
}

-- Not a live device of this id.
abbrev Passes : String → Device → Type 0
Passes i dev = (not (dev.id == i) || dev.revoked) ≡ true

record IsOut (i : String) (devices : List Device) : Type 0 where
  present : (dev : Device) × (find device_id i devices ≡ some dev)
  gone : All (Passes i) devices

update-revoke-All :
    (i : String) (devices : List Device)
    → All (Passes i) (update device_id i Devices.revoke devices)
unfolding update
update-revoke-All i [] = tt
update-revoke-All i (dev ∷ devices) = elim (Bool-cases (dev.id == i)) [
  | inl hit ↦ rw (hit, update) (ground arith, update-revoke-All i devices)
  | inr miss ↦ rw (miss, update) (ground arith, update-revoke-All i devices)
]

-- Revoking a device, whichever, keeps another one out.
update-revoke-IsOut :
    (i j : String) (devices : List Device)
    → IsOut i devices
    → IsOut i (update device_id j Devices.revoke devices)
update-revoke-IsOut i j devices out = record {
  present = elim (Bool-cases (j == i)) [
    | inl hit ↦ (
      Devices.revoke out.present.0,
      ground (arith, out.present.1, find-update device_id i j Devices.revoke devices (λ r. refl)),
    )
    | inr miss ↦ (
      out.present.0,
      ground (arith, out.present.1, find-update device_id i j Devices.revoke devices (λ r. refl)),
    )
  ];
  gone = update-All device_id (Passes i) j Devices.revoke devices (λ r p. ground arith) out.gone;
}

-- A row that the table admits has another id.
append-IsOut :
    (i : String) (dev : Device) (devices : List Device)
    → IsOut i devices
    → admits devices dev ≡ true
    → IsOut i (devices ++ dev ∷ [])
append-IsOut i dev devices out a = record {
  present = (out.present.0, ground (arith, out.present.1, find-append device_id i devices dev));
  gone =
      All-append (Passes i) devices (dev ∷ []) out.gone
        (ground (arith, out.present.1, eq_iff dev.id i), tt);
}

register-IsOut :
    (i name typ : String) (push_sub : Option String) (id token : String) (now : ℕ) (d : Db)
    → IsOut i d.devices
    → IsOut i (register name typ push_sub id token now d).1.devices
register-IsOut i name typ push_sub id token now d out =
    elim (register-devices name typ push_sub id token now d) [
      | inl e ↦ rw e out
      | inr (a, e) ↦ rw e (append-IsOut i _ d.devices out a)
    ]

step-IsOut :
    (i : String) (e : RegistryEvent) (d : Db)
    → IsOut i d.devices
    → IsOut i (registry_step e d).devices
unfolding registry_step
step-IsOut i (registers name typ push_sub id token now) d out =
    register-IsOut i name typ push_sub id token now d out
step-IsOut i (authenticates token) d out = rw (authenticate-devices token d) out
step-IsOut i (revokes j) d out = elim (revoke-devices j d) [
  | inl e ↦ rw e out
  | inr e ↦ rw e (update-revoke-IsOut i j d.devices out)
]
step-IsOut i (gets id) d out = rw (get-devices id d) out
step-IsOut i lists d out = rw (registry_list-devices d) out
step-IsOut i targets d out = rw (registry_push_targets-devices d) out
step-IsOut i (elsewhere otps invites replies) d out = out

run-IsOut :
    (i : String) (es : List RegistryEvent) (d : Db)
    → IsOut i d.devices
    → IsOut i (registry_run es d).devices
unfolding registry_run
run-IsOut i [] d out = out
run-IsOut i (e ∷ es) d out = run-IsOut i es (registry_step e d) (step-IsOut i e d out)

-- A revocation that was reported as done.
revoke-IsOut : (i : String) (d : Db) → (revoke i d).0 ≡ ok tt → IsOut i (revoke i d).1.devices
revoke-IsOut i d e =
    let ((dev, found), wrote) = revoke-eq-ok i d e in
    rw wrote (record {
      present = (
        Devices.revoke dev,
        ground (arith, eq_refl i, find-update device_id i i Devices.revoke d.devices (λ r. refl)),
      );
      gone = update-revoke-All i d.devices;
    })

-- The device is in no answer of the registry that grants something.
pub record IsRevoked (i : String) (d : Db) : Type 0 where
  pub rejected :
      (token : String) (dev : Device) → (authenticate token d).0 ≡ accepted dev → dev.id ≢ i
  pub unsignalled :
      (devices : List Device)
      → (registry_push_targets d).0 ≡ ok devices
      → All (λ dev. dev.id ≢ i) devices

push_targets-All :
    (i : String) (devices : List Device)
    → All (Passes i) devices
    → All (λ dev. dev.id ≢ i) (push_targets devices)
unfolding push_targets
push_targets-All i [] a = tt
push_targets-All i (dev ∷ devices) (p, a) = elim (Bool-cases (is_push_target dev)) [
  | inl hit ↦
      rw (hit, push_targets)
        (λ same. ground (arith, (eq_iff dev.id i).1 same), push_targets-All i devices a)
  | inr miss ↦ rw (miss, push_targets) (push_targets-All i devices a)
]

IsOut-IsRevoked : (i : String) (d : Db) → IsOut i d.devices → IsRevoked i d
IsOut-IsRevoked i d out = record {
  rejected = λ token dev e same.
      let (found, live) = authenticate-eq-accepted token d dev e in
      let p : Passes i dev = find-All device_token (Passes i) token d.devices dev out.gone found in
      ground (arith, (eq_iff dev.id i).1 same);
  unsignalled = λ devices e.
      rw (registry_push_targets-eq-ok d devices e) (push_targets-All i d.devices out.gone);
}

-- Once the registry has reported the revocation of an id, then whatever happens to the devices and
-- whatever the database answers, no token is accepted as that device's, and the push fan-out, when
-- its query runs, does not name it.
pub out_for_good :
    (i : String) (d : Db) (es : List RegistryEvent)
    → (revoke i d).0 ≡ ok tt
    → IsRevoked i (registry_run es (revoke i d).1)
out_for_good i d es e =
    IsOut-IsRevoked i (registry_run es (revoke i d).1)
      (run-IsOut i es (revoke i d).1 (revoke-IsOut i d e))
