-- ===== src/Sensors/SubHal.antt =====
-- sensors/v2/SensorsSubHal.cpp and sensors/lcd/SensorsSubHal.cpp, which differ in their sensors
-- only: a sub-HAL of one-shot sensors. The map of sensors is an association list by handle, in
-- ascending order. No sensor here supports data injection or flushing.
pub mod Modes
pub mod Report
use android_hardware_xiaomi.Common.{
  ℕ, suc, ◌+◌, ◌*◌, ◌^◌, ◌≤◌, ◌<◌, ◌≡◌, refl, Bool, true, false, not, List, [], ◌∷◌, ◌++◌, Option,
  none, some, length, arith, ltb, ◌==◌, if◌then◌else◌,
}
use android_hardware_xiaomi.Sensors.OneShot.{
  OneShot, OperationMode, normal, activate, set_operation_mode,
}

pub data Result : Type 0 where
  ok bad_value invalid_operation : Result

pub record SubHal : Type 0 where
  pub sensors : List (ℕ × OneShot)
  pub current_mode : OperationMode
  pub next_handle : ℕ

abbrev pub new_sensor : Bool → OneShot
new_sensor opened = record {
  is_enabled = false;
  mode = normal;
  stop_thread = not opened;
  polling = false;
  enable_file = false;
  has_wait_pipe = opened;
  wake_bytes = 0;
  events = 0;
}

-- AddSensor, of a sensor whose files opened or not.
unfoldable pub add_sensor : Bool → SubHal → SubHal
add_sensor opened h = record h {
  sensors = h.sensors ++ (h.next_handle, new_sensor opened) ∷ [];
  next_handle = suc h.next_handle;
}

-- The constructor: the properties that are set, in their order, each with whether its files open.
unfoldable pub add_sensors : List (Option Bool) → SubHal → SubHal
add_sensors [] h = h
add_sensors (none ∷ properties) h = add_sensors properties h
add_sensors (some opened ∷ properties) h = add_sensors properties (add_sensor opened h)

unfoldable pub new_sub_hal : Option Bool → Option Bool → Option Bool → SubHal
unfolding add_sensors add_sensor
new_sub_hal first second third =
    add_sensors (first ∷ second ∷ third ∷ [])
      (record { sensors = []; current_mode = normal; next_handle = 1 })

abbrev pub find : ℕ → List (ℕ × OneShot) → Option OneShot
find handle [] = none
find handle ((h, s) ∷ sensors) = if h == handle then some s else find handle sensors

abbrev pub change : ℕ → (OneShot → OneShot) → List (ℕ × OneShot) → List (ℕ × OneShot)
change handle f [] = []
change handle f ((h, s) ∷ sensors) =
    if h == handle then (h, f s) ∷ sensors else (h, s) ∷ change handle f sensors

abbrev pub change_all : (OneShot → OneShot) → List (ℕ × OneShot) → List (ℕ × OneShot)
change_all f [] = []
change_all f ((h, s) ∷ sensors) = (h, f s) ∷ change_all f sensors

unfoldable pub set_all_modes : OperationMode → SubHal → SubHal × Result
set_all_modes mode h =
    (record h { sensors = change_all (set_operation_mode mode) h.sensors; current_mode = mode }, ok)

unfoldable pub initialize : SubHal → SubHal × Result
unfolding set_all_modes
initialize h = set_all_modes normal h

unfoldable pub activate_sensor : ℕ → Bool → SubHal → SubHal × Result
activate_sensor handle enabled h = elim (find handle h.sensors) [
  | none ↦ (h, bad_value)
  | some s ↦ (record h { sensors = change handle (activate enabled) h.sensors }, ok)
]

-- batch: a one-shot sensor ignores it.
unfoldable pub batch : ℕ → SubHal → Result
batch handle h = elim (find handle h.sensors) [ none ↦ bad_value | some s ↦ ok ]

-- flush: a one-shot sensor refuses it.
unfoldable pub flush : ℕ → SubHal → Result
flush handle h = elim (find handle h.sensors) [ none ↦ bad_value | some s ↦ bad_value ]

-- injectSensorData: of these sensors, only additional info is accepted, and does nothing.
unfoldable pub inject : ℕ → Bool → SubHal → Result
inject handle is_additional_info h = elim (find handle h.sensors) [
  | none ↦ bad_value
  | some s ↦ if is_additional_info then ok else invalid_operation
]
