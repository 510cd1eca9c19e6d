-- ===== src/Api/Devices.antt =====
-- internal/api/devices.go: the devices of the dashboard.
use otp_relay_backend.Base.{ℕ, String, map, Option, none, some, ◌==◌, if◌then◌else◌}
use otp_relay_backend.Db.{Db, Device, ok, err, not_found, driver_error}
use otp_relay_backend.Db.Devices.{has_push}
use otp_relay_backend.Registry.{accepted, refused, invalid_type, register, registry_list, revoke}
use otp_relay_backend.Api.{
  DeviceView, Response, write_json, write_error, devices, created_device, ok_true,
}

abbrev pub to_view : Device → DeviceView
to_view d = record {
  id = d.id;
  name = d.name;
  type = d.type;
  has_push = has_push d.push_sub;
  created_at = d.created_at;
  revoked = d.revoked;
}

pub record CreateDeviceRequest : Type 0 where
  pub name : String
  pub type : String
  pub push_sub : Option String

unfoldable pub handle_list_devices : Db → Response × Db
handle_list_devices d =
    let loaded = registry_list d in
    (
      elim loaded.0 [
        | err e ↦ write_error 500 "could not list devices"
        | ok ds ↦ write_json 200 (devices (map to_view ds))
      ],
      loaded.1,
    )

-- The texts `id` and `token` are drawn by the registry.
unfoldable pub create_device : CreateDeviceRequest → String → String → ℕ → Db → Response × Db
unfolding register
create_device req id token now d =
    let made = register req.name req.type req.push_sub id token now d in
    (
      elim made.0 [
        | refused invalid_type ↦ write_error 400 "type must be 'source' or 'destination'"
        | refused _ ↦ write_error 500 "could not register device"
        | accepted dev ↦ write_json 201 (created_device (to_view dev) dev.device_token)
      ],
      made.1,
    )

unfoldable pub handle_create_device :
    Option CreateDeviceRequest → String → String → ℕ → Db → Response × Db
unfolding create_device
handle_create_device none id token now d = (write_error 400 "invalid request body", d)
handle_create_device (some req) id token now d =
    if req.name == ""
    then (write_error 400 "name is required", d)
    else create_device req id token now d

unfoldable pub handle_delete_device : String → Db → Response × Db
handle_delete_device device_id d =
    let done = revoke device_id d in
    (
      elim done.0 [
        | err not_found ↦ write_error 404 "device not found"
        | err driver_error ↦ write_error 500 "could not revoke device"
        | ok _ ↦ write_json 200 ok_true
      ],
      done.1,
    )
