-- ===== src/Api/Views.antt =====
-- internal/api/devices.go: the list of devices that the dashboard gets.
use mathlib.Core.List.Permᴰ
use mathlib.Core.List.{Permᴰ}
use otp_relay_backend.Base.{
  ◌≡◌, refl, ap, ◌∙◌, String, List, [], ◌∷◌, map, arith, leb_ℤ, ◌≤ℤ◌, leb_ℤ→le, leb_ℤ→ge,
  Bool-cases, inl, inr,
}
use otp_relay_backend.Db.{Db, Device, ok}
use otp_relay_backend.Db.Devices.{newest_first, insert_newest, list_devices}
use otp_relay_backend.Api.Devices.{handle_list_devices, to_view}

-- The row with another token.
abbrev pub with_token : (Device → String) → Device → Device
with_token token d = record d { device_token = token d }

insert_newest-map :
    (token : Device → String) (d : Device) (es : List Device)
    → insert_newest (with_token token d) (map (with_token token) es)
      ≡ map (with_token token) (insert_newest d es)
unfolding insert_newest
insert_newest-map token d [] = refl
insert_newest-map token d (e ∷ es) = elim (Bool-cases (leb_ℤ e.created_at d.created_at)) [
  | inl newer ↦ ground arith
  | inr older ↦ ground (arith, insert_newest-map token d es)
]

newest_first-map :
    (token : Device → String) (ds : List Device)
    → newest_first (map (with_token token) ds) ≡ map (with_token token) (newest_first ds)
unfolding newest_first
newest_first-map token [] = refl
newest_first-map token (d ∷ ds) =
    ap (insert_newest (with_token token d)) (newest_first-map token ds)
    ∙ insert_newest-map token d (newest_first ds)

view-map :
    (token : Device → String) (ds : List Device)
    → map to_view (map (with_token token) ds) ≡ map to_view ds
view-map token [] = refl
view-map token (d ∷ ds) = ap (λ vs. to_view d ∷ vs) (view-map token ds)

-- The answer to the dashboard's list of devices does not depend on any device's token.
pub list_hides_tokens :
    (token : Device → String) (d : Db)
    → (handle_list_devices (record d { devices = map (with_token token) d.devices })).0
      ≡ (handle_list_devices d).0
unfolding handle_list_devices list_devices
list_hides_tokens token d =
    ground (arith, newest_first-map token d.devices, view-map token (newest_first d.devices))

-- Each row of the list is as new as the next.
abbrev pub IsNewestFirst : List Device → Type 0
IsNewestFirst [] = Unit
IsNewestFirst (d ∷ []) = Unit
IsNewestFirst (d ∷ e ∷ es) = (e.created_at ≤ℤ d.created_at) × IsNewestFirst (e ∷ es)

-- The first of two rows that are in order.
abbrev Leads : Device → List Device → Type 0
Leads d [] = Unit
Leads d (e ∷ es) = e.created_at ≤ℤ d.created_at

Leads-IsNewestFirst :
    (d : Device) (es : List Device) → Leads d es → IsNewestFirst es → IsNewestFirst (d ∷ es)
Leads-IsNewestFirst d [] l s = tt
Leads-IsNewestFirst d (e ∷ es) l s = (l, s)

IsNewestFirst-Leads :
    (d : Device) (es : List Device) → IsNewestFirst (d ∷ es) → Leads d es × IsNewestFirst es
IsNewestFirst-Leads d [] s = (tt, tt)
IsNewestFirst-Leads d (e ∷ es) s = s

insert_newest-Leads :
    (c d : Device) (es : List Device)
    → d.created_at ≤ℤ c.created_at
    → Leads c es
    → Leads c (insert_newest d es)
unfolding insert_newest
insert_newest-Leads c d [] le l = le
insert_newest-Leads c d (e ∷ es) le l = elim (Bool-cases (leb_ℤ e.created_at d.created_at)) [
  | inl newer ↦ rw (newer, insert_newest) le
  | inr older ↦ rw (older, insert_newest) l
]

insert_newest-IsNewestFirst :
    (d : Device) (es : List Device) → IsNewestFirst es → IsNewestFirst (insert_newest d es)
unfolding insert_newest
insert_newest-IsNewestFirst d [] s = tt
insert_newest-IsNewestFirst d (e ∷ es) s = elim (Bool-cases (leb_ℤ e.created_at d.created_at)) [
  | inl newer ↦ rw (newer, insert_newest) (leb_ℤ→le e.created_at d.created_at newer, s)
  | inr older ↦
      let (l, rest) = IsNewestFirst-Leads e es s in
      rw (older, insert_newest)
        (Leads-IsNewestFirst e (insert_newest d es)
          (insert_newest-Leads e d es (leb_ℤ→ge e.created_at d.created_at older) l)
          (insert_newest-IsNewestFirst d es rest))
]

insert_newest-Permᴰ : (d : Device) (es : List Device) → Permᴰ (d ∷ es) (insert_newest d es)
unfolding insert_newest
insert_newest-Permᴰ d [] = Permᴰ.refl (d ∷ [])
insert_newest-Permᴰ d (e ∷ es) = elim (Bool-cases (leb_ℤ e.created_at d.created_at)) [
  | inl newer ↦ rw (newer, insert_newest) (Permᴰ.refl (d ∷ e ∷ es))
  | inr older ↦
      rw (older, insert_newest)
        (Permᴰ.trans (Permᴰ.swap refl refl) (Permᴰ.cons refl (insert_newest-Permᴰ d es)))
]

newest_first-IsNewestFirst : (ds : List Device) → IsNewestFirst (newest_first ds)
unfolding newest_first
newest_first-IsNewestFirst [] = tt
newest_first-IsNewestFirst (d ∷ ds) =
    insert_newest-IsNewestFirst d (newest_first ds) (newest_first-IsNewestFirst ds)

newest_first-Permᴰ : (ds : List Device) → Permᴰ ds (newest_first ds)
unfolding newest_first
newest_first-Permᴰ [] = Permᴰ.refl []
newest_first-Permᴰ (d ∷ ds) =
    Permᴰ.trans (Permᴰ.cons refl (newest_first-Permᴰ ds)) (insert_newest-Permᴰ d (newest_first ds))

-- When its query runs, ListDevices gives each row of the table once, the newest first.
pub listed_devices :
    (d : Db) (ds : List Device) → (list_devices d).0 ≡ ok ds → Permᴰ d.devices ds × IsNewestFirst ds
unfolding list_devices
listed_devices d ds e =
    let same : newest_first d.devices ≡ ds = ground arith in
    (rw same at (newest_first-Permᴰ d.devices), rw same at (newest_first-IsNewestFirst d.devices))
