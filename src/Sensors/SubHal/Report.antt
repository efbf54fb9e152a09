-- ===== src/Sensors/SubHal/Report.antt =====
-- sensors/v2/SensorsSubHal.cpp and sensors/lcd/SensorsSubHal.cpp: the calls of a sub-HAL that
-- only answer, those of the direct channel that it does not have, its list of sensors and what
-- debug prints. The info of a sensor is an argument; the printing itself is left out.
use Prim.Native.String.{String}
use android_hardware_xiaomi.Common.{ℕ, Bool, not, List, [], ◌∷◌, map, if◌then◌else◌}
use android_hardware_xiaomi.Common.Int.{ℤ, pos, negsuc}
use android_hardware_xiaomi.Sensors.SubHal.{SubHal, Result, invalid_operation}
use android_hardware_xiaomi.Sensors.Gestures.Info.{SensorInfo}
use android_hardware_xiaomi.Sensors.Lcd.{Lcd}

-- The result with the handle of the channel, and with the token of the report.
unfoldable pub register_direct_channel : Result × ℤ
register_direct_channel = (invalid_operation, negsuc 0)

unfoldable pub unregister_direct_channel : ℤ → Result
unregister_direct_channel channel = invalid_operation

unfoldable pub config_direct_report : ℤ → ℤ → Result × ℤ
config_direct_report sensor channel = (invalid_operation, pos 0)

unfoldable pub get_sensors_list : (ℕ → SensorInfo) → SubHal → List SensorInfo
get_sensors_list info h = map (λ e. info e.0) h.sensors

-- A printed line: the note on arguments, the heading, and three for each sensor.
pub data DebugLine : Type 0 where
  args_ignored available_sensors : DebugLine
  name_line : String → DebugLine
  min_delay_line : ℤ → DebugLine
  flags_line : ℕ → DebugLine

abbrev pub sensor_lines : List SensorInfo → List DebugLine
sensor_lines [] = []
sensor_lines (i ∷ infos) =
    name_line i.name ∷ min_delay_line i.min_delay ∷ flags_line i.flags ∷ sensor_lines infos

-- debug, by whether a file came with the call and whether it has arguments.
unfoldable pub debug : Bool → Bool → (ℕ → SensorInfo) → SubHal → List DebugLine
unfolding get_sensors_list
debug has_fd has_args info h =
    let lines = available_sensors ∷ sensor_lines (get_sensors_list info h) in
    if not has_fd then [] else if has_args then args_ignored ∷ lines else lines

-- Those of the sub-HAL of the panel, word for word.
unfoldable pub lcd_register_direct_channel : Result × ℤ
lcd_register_direct_channel = (invalid_operation, negsuc 0)

unfoldable pub lcd_unregister_direct_channel : ℤ → Result
lcd_unregister_direct_channel channel = invalid_operation

unfoldable pub lcd_config_direct_report : ℤ → ℤ → Result × ℤ
lcd_config_direct_report sensor channel = (invalid_operation, pos 0)

unfoldable pub lcd_get_sensors_list : (ℕ → SensorInfo) → Lcd → List SensorInfo
unfolding get_sensors_list
lcd_get_sensors_list info l = get_sensors_list info l.hal

unfoldable pub lcd_debug : Bool → Bool → (ℕ → SensorInfo) → Lcd → List DebugLine
unfolding debug
lcd_debug has_fd has_args info l = debug has_fd has_args info l.hal
