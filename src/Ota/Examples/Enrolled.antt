-- ===== src/Ota/Examples/Enrolled.antt =====
-- A device of the small fleet leaves, and comes back.
use nff_core.Prelude.{◌≡◌, refl, none, some, [], ◌∷◌}
use nff_core.Ota.Status.{DeviceStatus}
use nff_core.Ota.Store.{Db, Device, find_device}
use nff_core.Ota.Devices.{EnrollParams}
use nff_core.Ota.Examples.{fleet, device_a, device_b}

found_a : find_device "a" fleet ≡ some device_a
unfolding find_device
found_a = refl

abbrev gone : Device
gone = record device_a { ota_status = DeviceStatus.decommissioned }

abbrev smaller : Db
smaller = record fleet { devices = gone ∷ device_b ∷ [] }

abbrev request_a : EnrollParams
request_a = record { device_id = "a"; mqtt_id = none; public_key = ""; tags = [] }

gone_found : find_device "a" smaller ≡ some gone
unfolding find_device
gone_found = refl
