-- ===== src/Sensors/Gestures.antt =====
-- sensors/v2: the classes of the gesture sensors (Sensor.h), the properties that make them
-- (SensorsSubHal.cpp), and of Sensor.cpp the reading of a gesture, the data of its event and the
-- stream of the enable file.
pub mod Events
pub mod Info
use Prim.Native.String.{String}
use android_hardware_xiaomi.Common.{
  ℕ, Bool, true, false, ◌&&◌, not, List, [], ◌∷◌, Option, none, some, ◌==◌, if◌then◌else◌,
}
use android_hardware_xiaomi.Common.Int.{ℤ, pos}
use android_hardware_xiaomi.Sensors.OneShot.{Scan, Position, read_udfps}

-- The constants of a sensor's class: the file that it polls, the one that enables it, and its type,
-- above DEVICE_PRIVATE_BASE where it is private.
pub record SensorClass : Type 0 where
  pub poll_path : String
  pub enable_path : String
  pub name : String
  pub type_as_string : String
  pub private_type : Option ℕ

pub data Gesture : Type 0 where
  double_tap single_tap udfps : Gesture

unfoldable pub class_of : Gesture → SensorClass
class_of double_tap = record {
  poll_path = "/sys/class/touch/touch_dev/gesture_double_tap_state";
  enable_path = "/sys/class/touch/touch_dev/gesture_double_tap_enabled";
  name = "Double Tap Sensor";
  type_as_string = "org.lineageos.sensor.double_tap";
  private_type = some 1;
}
class_of single_tap = record {
  poll_path = "/sys/class/touch/touch_dev/gesture_single_tap_state";
  enable_path = "/sys/class/touch/touch_dev/gesture_single_tap_enabled";
  name = "Single Tap Sensor";
  type_as_string = "org.lineageos.sensor.single_tap";
  private_type = some 2;
}
class_of udfps = record {
  poll_path = "/sys/class/touch/touch_dev/fod_press_status";
  enable_path = "/sys/class/touch/touch_dev/fod_longpress_gesture_enabled";
  name = "UDFPS Sensor";
  type_as_string = "org.lineageos.sensor.udfps";
  private_type = some 3;
}

unfoldable pub property_of : Gesture → String
property_of double_tap = "ro.vendor.sensors.xiaomi.double_tap"
property_of single_tap = "ro.vendor.sensors.xiaomi.single_tap"
property_of udfps = "ro.vendor.sensors.xiaomi.udfps"

-- readBool: whether the seek gives 0, and the byte that read(2) gives, if one.
unfoldable pub read_bool : Bool → Bool → Option ℕ → Bool
read_bool seek seek_ok byte =
    if seek && not seek_ok then false else elim byte [ none ↦ false | some c ↦ not (c == b'0') ]

-- What a reading of the polled file is, for the two kinds of readFd.
pub data Reading : Type 0 where
  byte_read : Bool → Option ℕ → Reading
  scanned : Scan → Reading

-- readFd, with the coordinates that an UdfpsSensor keeps.
unfoldable pub read_fd : Reading → Position → Position × Bool
unfolding read_bool read_udfps
read_fd (byte_read seek_ok byte) p = (p, read_bool true seek_ok byte)
read_fd (scanned scan) p = read_udfps scan p

-- fillEventData: the two data words of an event.
unfoldable pub fill_event_data : Gesture → Position → ℤ × ℤ
fill_event_data double_tap p = (pos 0, pos 0)
fill_event_data single_tap p = (pos 0, pos 0)
fill_event_data udfps p = (p.screen_x, p.screen_y)

-- The stream of the enable file: whether it was opened, whether it is good, and what the file holds.
pub record EnableStream : Type 0 where
  pub tried : Bool
  pub good : Bool
  pub file : Option Bool

abbrev pub new_stream : EnableStream
new_stream = record { tried = false; good = true; file = none }

-- writeEnable, by whether the file would open and whether the write succeeds. The file is opened
-- once, and a stream whose write failed stays bad.
unfoldable pub write_enable : Bool → Bool → Bool → EnableStream → EnableStream
write_enable opens write_ok enable s =
    let good = if s.tried then s.good else opens in
    if good
    then record { tried = true; good = write_ok; file = if write_ok then some enable else s.file }
    else record s { tried = true; good = good }
