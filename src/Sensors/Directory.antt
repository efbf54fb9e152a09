-- ===== src/Sensors/Directory.antt =====
-- aidl/sensors/HalProxy.cpp: the list of sensors that initializeSensorList gathers from the
-- sub-HALs with the sub-HAL of the direct channel, and the calls that go by them. Constants of
-- the platform and of HalProxy.h are a parameter; flags and handles are bit patterns below 2 ^
-- 32, and the maximal range is an opaque number. Two sub-HALs are the same just when their
-- indices are.
pub mod Direct
use android_hardware_xiaomi.Common.{
  ℕ, suc, ◌+◌, ◌-◌, ◌^◌, Bool, true, false, ◌&&◌, not, List, [], ◌∷◌, Option, none, some, ◌==◌,
  if◌then◌else◌, bit_and, bytes_eq,
}
use android_hardware_xiaomi.Sensors.Handles.{
  set_sub_hal_index, sub_hal_index_is_clear, clear_sub_hal_index, route,
}
use android_hardware_xiaomi.Sensors.SubHal.{Result, ok, bad_value, invalid_operation}

pub record Platform : Type 0 where
  pub index_mask : ℕ
  pub wake_up : ℕ
  pub direct_mask : ℕ
  pub pick_up_gesture : ℕ
  pub pick_up_string : List ℕ
  pub one : ℕ

pub record SensorInfo : Type 0 where
  pub sensor_handle : ℕ
  pub sensor_type : ℕ
  pub type_as_string : List ℕ
  pub max_range : ℕ
  pub flags : ℕ

-- "xiaomi.sensor.pickup" and "xiaomi pick up sensor".
abbrev pub xiaomi_pickup : List ℕ
xiaomi_pickup =
    b'x' ∷ b'i' ∷ b'a' ∷ b'o' ∷ b'm' ∷ b'i' ∷ b'.' ∷ b's' ∷ b'e' ∷ b'n' ∷ b's' ∷ b'o' ∷ b'r' ∷ b'.'
    ∷ b'p' ∷ b'i' ∷ b'c' ∷ b'k' ∷ b'u' ∷ b'p' ∷ []

abbrev pub xiaomi_pick_up : List ℕ
xiaomi_pick_up =
    b'x' ∷ b'i' ∷ b'a' ∷ b'o' ∷ b'm' ∷ b'i' ∷ b' ' ∷ b'p' ∷ b'i' ∷ b'c' ∷ b'k' ∷ b' ' ∷ b'u' ∷ b'p'
    ∷ b' ' ∷ b's' ∷ b'e' ∷ b'n' ∷ b's' ∷ b'o' ∷ b'r' ∷ []

abbrev pub clear_direct : Platform → SensorInfo → SensorInfo
clear_direct p s = record s { flags = bit_and s.flags (2 ^ 32 - 1 - p.direct_mask) }

-- The sensor and the sub-HAL of the direct channel afterwards.
unfoldable pub set_direct_channel_flags :
    Platform → ℕ → SensorInfo → Option ℕ → SensorInfo × Option ℕ
set_direct_channel_flags p i s none =
    if not (bit_and s.flags p.direct_mask == 0) then (s, some i) else (s, none)
set_direct_channel_flags p i s (some j) =
    if not (i == j) then (clear_direct p s, some j) else (s, some j)

-- The sensor, if it is kept.
unfoldable pub patch_xiaomi_pickup_sensor : Platform → SensorInfo → Option SensorInfo
patch_xiaomi_pickup_sensor p s =
    if not (bytes_eq s.type_as_string xiaomi_pickup)
      && not (bytes_eq s.type_as_string xiaomi_pick_up)
    then some s
    else if bit_and s.flags p.wake_up == 0
    then none
    else some (record s {
      sensor_type = p.pick_up_gesture;
      type_as_string = p.pick_up_string;
      max_range = p.one;
    })

-- mSensors, a map by handle.
pub record Directory : Type 0 where
  pub sensors : List (ℕ × SensorInfo)
  pub direct_sub_hal : Option ℕ

abbrev pub put : ℕ → SensorInfo → List (ℕ × SensorInfo) → List (ℕ × SensorInfo)
put handle s [] = (handle, s) ∷ []
put handle s ((h, t) ∷ sensors) =
    if h == handle then (h, s) ∷ sensors else (h, t) ∷ put handle s sensors

abbrev pub keep : Option SensorInfo → List (ℕ × SensorInfo) → List (ℕ × SensorInfo)
keep none sensors = sensors
keep (some s) sensors = put s.sensor_handle s sensors

unfoldable pub add_sensor : Platform → ℕ → SensorInfo → Directory → Directory
unfolding set_direct_channel_flags patch_xiaomi_pickup_sensor
add_sensor p i s d =
    let indexed = record s { sensor_handle = set_sub_hal_index s.sensor_handle i } in
    let r = set_direct_channel_flags p i indexed d.direct_sub_hal in
    if not (sub_hal_index_is_clear p.index_mask s.sensor_handle) then d else record {
      sensors = keep (patch_xiaomi_pickup_sensor p r.0) d.sensors;
      direct_sub_hal = r.1;
    }

unfoldable pub add_list : Platform → ℕ → List SensorInfo → Directory → Directory
unfolding add_sensor
add_list p i [] d = d
add_list p i (s ∷ list) d = add_list p i list (add_sensor p i s d)

-- From sub-HAL `i` on, with what getSensorsList of each gives, if it gives a list.
unfoldable pub initialize_sensor_list :
    Platform → ℕ → List (Option (List SensorInfo)) → Directory → Directory
unfolding add_list
initialize_sensor_list p i [] d = d
initialize_sensor_list p i (none ∷ lists) d = initialize_sensor_list p (suc i) lists d
initialize_sensor_list p i (some list ∷ lists) d =
    initialize_sensor_list p (suc i) lists (add_list p i list d)

-- What a call comes to: a result of the proxy's own, or a call of the sub-HAL with an argument.
pub data Forward : Type 0 where
  refused : Result → Forward
  forwarded : ℕ → ℕ → Forward

abbrev pub to_forward : Option (ℕ × ℕ) → Forward
to_forward none = refused bad_value
to_forward (some (i, handle)) = forwarded i handle

-- injectSensorData, by whether the mode is NORMAL, whether the event is ADDITIONAL_INFO and its
-- handle; `count` is the number of sub-HALs.
unfoldable pub inject_sensor_data : Platform → ℕ → Bool → Bool → ℕ → Forward
unfolding route
inject_sensor_data p count mode_is_normal is_additional_info handle =
    if mode_is_normal && not is_additional_info
    then refused bad_value
    else to_forward (route p.index_mask count handle)

-- Whether registerDirectChannel and unregisterDirectChannel are passed on, with the channel.
unfoldable pub register_direct_channel : Directory → ℕ → Forward
register_direct_channel d mem = elim d.direct_sub_hal [
  | none ↦ refused invalid_operation
  | some i ↦ forwarded i mem
]

unfoldable pub unregister_direct_channel : Directory → ℕ → Forward
unregister_direct_channel d channel = elim d.direct_sub_hal [
  | none ↦ refused invalid_operation
  | some i ↦ forwarded i channel
]

-- configDirectReport: the handle -1 is 2 ^ 32 - 1, and the call is passed on with the handle.
unfoldable pub config_direct_report : Platform → Directory → ℕ → Bool → Forward
unfolding clear_sub_hal_index
config_direct_report p d handle is_stop = elim d.direct_sub_hal [
  | none ↦ refused invalid_operation
  | some i ↦
      if handle == 2 ^ 32 - 1 && not is_stop
      then refused bad_value
      else forwarded i
          (if not (handle == 2 ^ 32 - 1) then clear_sub_hal_index p.index_mask handle else handle)
]

-- disableAllSensors: the deactivations of the sensors and of the dynamic sensors, in order.
unfoldable pub disable_all_sensors : Platform → ℕ → Directory → List ℕ → List Forward
disable_all_sensors p count d dynamic = static d.sensors
  where
    rest : List ℕ → List Forward
    rest [] = []
    rest (h ∷ handles) = to_forward (route p.index_mask count h) ∷ rest handles

    static : List (ℕ × SensorInfo) → List Forward
    static [] = rest dynamic
    static ((h, s) ∷ sensors) = to_forward (route p.index_mask count h) ∷ static sensors
