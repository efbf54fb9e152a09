-- ===== src/Sensors/Gestures/Info.antt =====
-- sensors/v2/Sensor.cpp and Sensor.h: what the constructors of a gesture sensor write in its
-- SensorInfo, what its flags tell, and the events that are made from it. The flags and the types are
-- constants of the sensor interface, a parameter; what the constructors leave as it is, is `start`.
use Prim.Native.String.{String}
use android_hardware_xiaomi.Common.{
  ℕ, ◌+◌, ◌*◌, ◌≡◌, refl, Bool, true, false, not, List, [], ◌∷◌, none, some, ◌==◌, bit_and, bit_or,
}
use android_hardware_xiaomi.Common.Int.{ℤ, pos, negsuc}
use android_hardware_xiaomi.Sensors.OneShot.{Position}
use android_hardware_xiaomi.Sensors.Gestures.{SensorClass, Gesture, fill_event_data}
use android_hardware_xiaomi.Sensors.Lcd as Lcd
use android_hardware_xiaomi.Sensors.Sampler as Sampler

pub record Interface : Type 0 where
  pub wake_up : ℕ
  pub one_shot_mode : ℕ
  pub data_injection : ℕ
  pub device_private_base : ℕ
  pub wake_gesture : ℕ

pub record SensorInfo : Type 0 where
  pub sensor_handle : ℕ
  pub name : String
  pub vendor : String
  pub version : ℕ
  pub sensor_type : ℕ
  pub type_as_string : String
  pub max_range : ℕ
  pub resolution : ℕ
  pub power : ℕ
  pub min_delay : ℤ
  pub max_delay : ℕ
  pub fifo_reserved_event_count : ℕ
  pub fifo_max_event_count : ℕ
  pub required_permission : String
  pub flags : ℕ

-- The constructor of Sensor.
unfoldable pub sensor_info : SensorInfo → ℕ → SensorInfo
sensor_info start sensor_handle = record start {
  sensor_handle = sensor_handle;
  vendor = "The LineageOS Project";
  version = 1;
  max_delay = 1000 * 1000;
  fifo_reserved_event_count = 0;
  fifo_max_event_count = 0;
  required_permission = "";
  flags = 0;
}

-- The constructor of OneShotSensor.
unfoldable pub one_shot_info : Interface → SensorInfo → ℕ → SensorInfo
unfolding sensor_info
one_shot_info i start sensor_handle =
    let info = sensor_info start sensor_handle in
    record info { min_delay = negsuc 0; max_delay = 0; flags = bit_or info.flags i.one_shot_mode }

abbrev pub type_of : Interface → SensorClass → ℕ
type_of i c = elim c.private_type [ none ↦ i.wake_gesture | some n ↦ i.device_private_base + n ]

-- The constructor of SysfsPollingOneShotSensor, as far as it writes the info.
unfoldable pub polling_info : Interface → SensorClass → SensorInfo → ℕ → SensorInfo
unfolding one_shot_info
polling_info i c start sensor_handle =
    let info = one_shot_info i start sensor_handle in
    record info {
      name = c.name;
      sensor_type = type_of i c;
      type_as_string = c.type_as_string;
      max_range = 2048;
      resolution = 1;
      power = 0;
      flags = bit_or info.flags i.wake_up;
    }

-- The constructor of LcdPenDetachSensor.
unfoldable pub pen_detach_info : Interface → SensorInfo → ℕ → SensorInfo
unfolding polling_info
pen_detach_info i start sensor_handle =
    record (polling_info i (Lcd.class_of Lcd.pen_detach) start sensor_handle) { max_range = 1 }

unfoldable pub is_wake_up_sensor : Interface → SensorInfo → Bool
is_wake_up_sensor i info = not (bit_and info.flags i.wake_up == 0)

unfoldable pub supports_data_injection : Interface → SensorInfo → Bool
supports_data_injection i info = not (bit_and info.flags i.data_injection == 0)

pub data Payload : Type 0 where
  vec3 : ℤ → ℤ → ℤ → Payload
  words : ℤ → ℤ → Payload
  scalar : ℕ → Payload

pub record Event : Type 0 where
  pub sensor_handle : ℕ
  pub sensor_type : ℕ
  pub timestamp : ℕ
  pub payload : Payload

abbrev event_of : SensorInfo → ℕ → Payload → Event
event_of info now payload = record {
  sensor_handle = info.sensor_handle;
  sensor_type = info.sensor_type;
  timestamp = now;
  payload = payload;
}

-- Sensor::readEvents, whose status is always ACCURACY_HIGH.
unfoldable pub read_sample : SensorInfo → ℕ → List Event
read_sample info now = event_of info now (vec3 (pos 0) (pos 0) (pos 0)) ∷ []

-- SysfsPollingOneShotSensor::readEvents.
unfoldable pub read_gesture : Gesture → Position → SensorInfo → ℕ → List Event
unfolding fill_event_data
read_gesture g p info now = let xy = fill_event_data g p in event_of info now (words xy.0 xy.1) ∷ []

-- readEvents with LcdPenDetachSensor::fillEventData.
unfoldable pub read_pen_detach : SensorInfo → ℕ → List Event
read_pen_detach info now = event_of info now (scalar 1) ∷ []

polling_flags :
    (i : Interface) (c : SensorClass) (start : SensorInfo) (handle : ℕ)
    → i.wake_up ≡ 1
    → i.one_shot_mode ≡ 4
    → (polling_info i c start handle).flags ≡ 5
unfolding polling_info
polling_flags i c start handle wake one_shot = rw (wake, one_shot) refl

-- Every gesture sensor is a wake-up sensor, so that its events carry the wake lock, and takes no
-- injected data in any mode, with the values that the interface documents.
pub polling_info_wakes :
    (i : Interface) (c : SensorClass) (start : SensorInfo) (handle : ℕ) (s : Sampler.Sensor)
    → i.wake_up ≡ 1
    → i.one_shot_mode ≡ 4
    → i.data_injection ≡ 0x10
    → let info = polling_info i c start handle in
      (is_wake_up_sensor i info ≡ true)
      × (Sampler.inject_event false (record s { injects = supports_data_injection i info })
          ≡ (Sampler.invalid_operation, []))
unfolding is_wake_up_sensor supports_data_injection Sampler.inject_event
polling_info_wakes i c start handle s wake one_shot injection =
    let flags = polling_flags i c start handle wake one_shot in
    (rw (flags, wake) refl, rw (flags, injection) refl)
