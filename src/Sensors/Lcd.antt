-- ===== src/Sensors/Lcd.antt =====
-- sensors/lcd: the sub-HAL of the panel's gestures. SensorLcd.h names its sensors, which all ask
-- the lid before they deliver; SensorsSubHal.cpp makes those whose properties are set, and is
-- otherwise the sub-HAL of sensors/v2. The lid tracker is one for all sensors.
pub mod Gate
use Prim.Native.String.{String}
use android_hardware_xiaomi.Common.{
  ℕ, ◌+◌, Bool, true, false, ◌&&◌, List, [], ◌∷◌, ◌++◌, Option, none, some, if◌then◌else◌,
}
use android_hardware_xiaomi.Sensors.OneShot.{
  OneShot, OperationMode, PollResult, poll_failed, polled, begin_poll, end_poll, normal,
}
use android_hardware_xiaomi.Sensors.Gestures.{SensorClass}
use android_hardware_xiaomi.Sensors.Lid.{Entry, Tracker, is_lid_open}
use android_hardware_xiaomi.Sensors.SubHal.{
  SubHal, Result, add_sensors, find, change, set_all_modes, activate_sensor,
}
use android_hardware_xiaomi.Sensors.SubHal as Hal

pub data LcdSensor : Type 0 where
  double_tap single_tap pen_detach : LcdSensor

unfoldable pub class_of : LcdSensor → SensorClass
class_of double_tap = record {
  poll_path = "/sys/class/touch/touch_dev/gesture_double_tap_state";
  enable_path = "/sys/class/touch/touch_dev/gesture_double_tap_subscribed";
  name = "Double Tap Sensor";
  type_as_string = "org.lineageos.sensor.double_tap";
  private_type = some 1;
}
class_of single_tap = record {
  poll_path = "/sys/class/touch/touch_dev/gesture_single_tap_state";
  enable_path = "/sys/class/touch/touch_dev/gesture_single_tap_subscribed";
  name = "Stylus Quick Note Sensor";
  type_as_string = "org.lineageos.sensor.stylus_quick_note";
  private_type = some 2;
}
class_of pen_detach = record {
  poll_path = "/sys/class/touch/touch_dev/gesture_pen_detach_state";
  enable_path = "/sys/class/touch/touch_dev/gesture_pen_detach_enabled";
  name = "Pen Detach Wake Gesture";
  type_as_string = "android.sensor.wake_gesture";
  private_type = none;
}

-- The property that makes a sensor.
unfoldable pub property_of : LcdSensor → String
property_of double_tap = "ro.vendor.sensors.xiaomi.double_tap"
property_of single_tap = "ro.vendor.sensors.xiaomi.single_tap"
property_of pen_detach = "ro.vendor.sensors.xiaomi.pen_detach"

abbrev pub lcd_sensors : List LcdSensor
lcd_sensors = double_tap ∷ single_tap ∷ pen_detach ∷ []

pub record Lcd : Type 0 where
  pub hal : SubHal
  pub tracker : Tracker

-- Of each sensor whose property is set, whether its files open.
abbrev pub wanted : (String → Bool) → (String → Bool) → List LcdSensor → List (Option Bool)
wanted property opens [] = []
wanted property opens (k ∷ ks) =
    (if property (property_of k) then some (opens (class_of k).poll_path) else none)
    ∷ wanted property opens ks

-- The constructor of the sub-HAL.
unfoldable pub new_lcd : (String → Bool) → (String → Bool) → Lcd
unfolding property_of class_of add_sensors
new_lcd property opens = record {
  hal =
      add_sensors (wanted property opens lcd_sensors)
        (record { sensors = []; current_mode = normal; next_handle = 1 });
  tracker = record { lid_fd = none };
}

-- Whether the end of a poll asks the lid: a gesture was read.
abbrev pub asks_lid : PollResult → Bool → OneShot → Bool
asks_lid poll_failed detected s = false
asks_lid (polled gesture wake) detected s = s.polling && (gesture && detected)

abbrev pub asks : ℕ → PollResult → Bool → SubHal → Bool
asks handle poll detected h = elim (find handle h.sensors) [
  | none ↦ false
  | some s ↦ asks_lid poll detected s
]

-- The end of a poll of a sensor with LidGatedOneShotSensor::shouldDeliverEvent.
unfoldable pub end_gated_poll : ℕ → PollResult → Bool → List Entry → Option (List ℕ) → Lcd → Lcd
unfolding is_lid_open
end_gated_poll handle poll detected entries state l =
    let lid = is_lid_open entries state l.tracker in
    record {
      hal = record (l.hal) { sensors = change handle (end_poll poll detected lid.1) l.hal.sensors };
      tracker = if asks handle poll detected l.hal then lid.0 else l.tracker;
    }

-- The calls of the sub-HAL, each as in sensors/v2.
unfoldable pub set_operation_mode : OperationMode → Lcd → Lcd × Result
unfolding set_all_modes
set_operation_mode mode l = let r = set_all_modes mode l.hal in (record l { hal = r.0 }, r.1)

unfoldable pub initialize : Lcd → Lcd × Result
unfolding set_operation_mode
initialize l = set_operation_mode normal l

unfoldable pub activate : ℕ → Bool → Lcd → Lcd × Result
unfolding activate_sensor
activate handle enabled l =
    let r = activate_sensor handle enabled l.hal in (record l { hal = r.0 }, r.1)

unfoldable pub batch : ℕ → Lcd → Result
batch handle l = Hal.batch handle l.hal

unfoldable pub flush : ℕ → Lcd → Result
flush handle l = Hal.flush handle l.hal

unfoldable pub inject : ℕ → Bool → Lcd → Result
inject handle is_additional_info l = Hal.inject handle is_additional_info l.hal
