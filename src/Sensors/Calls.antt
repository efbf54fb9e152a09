-- ===== src/Sensors/Calls.antt =====
-- aidl/sensors/HalProxy.cpp: the lists of sensors that the framework gets and the calls that it makes
-- with their handles.
pub mod Reach
use android_hardware_xiaomi.Common.{ℕ, Bool, List, [], ◌∷◌, none, some, ◌==◌, if◌then◌else◌}
use android_hardware_xiaomi.Sensors.Handles.{route}
use android_hardware_xiaomi.Sensors.Directory.{Platform, SensorInfo, Directory, Forward, to_forward}

-- What is passed on with the handle.
pub data Call : Type 0 where
  activates : Bool → Call
  batches : ℕ → ℕ → Call
  flushes : Call

unfoldable pub activate : Platform → ℕ → ℕ → Bool → Forward × Call
unfolding route
activate p count handle enabled = (to_forward (route p.index_mask count handle), activates enabled)

unfoldable pub batch : Platform → ℕ → ℕ → ℕ → ℕ → Forward × Call
unfolding route
batch p count handle period latency =
    (to_forward (route p.index_mask count handle), batches period latency)

unfoldable pub flush : Platform → ℕ → ℕ → Forward × Call
unfolding route
flush p count handle = (to_forward (route p.index_mask count handle), flushes)

abbrev infos : List (ℕ × SensorInfo) → List SensorInfo
infos [] = []
infos ((h, s) ∷ sensors) = s ∷ infos sensors

unfoldable pub get_sensors_list_2_1 : Directory → List SensorInfo
get_sensors_list_2_1 d = infos d.sensors

-- The list of version 2.0 leaves out the hinge angle, whose type is a constant of the platform; the
-- conversion of an entry is left out.
unfoldable pub without_hinge : ℕ → List SensorInfo → List SensorInfo
without_hinge hinge [] = []
without_hinge hinge (s ∷ sensors) =
    if s.sensor_type == hinge then without_hinge hinge sensors else s ∷ without_hinge hinge sensors

unfoldable pub get_sensors_list : ℕ → Directory → List SensorInfo
unfolding without_hinge
get_sensors_list hinge d = without_hinge hinge (infos d.sensors)
