-- ===== src/Fingerprint/Props.antt =====
-- aidl/fingerprint/FingerprintConfig.cpp, the table of the configuration, and of Fingerprint.cpp
-- getSensorProps, which asks the configuration by name, and the destructor. Config itself, which
-- reads the properties and parses them, belongs to the platform: its two calls are parameters.
use Prim.Native.String.{String}
use text.Mathlib.Text.{◌==◌}
use android_hardware_xiaomi.Common.{
  ℕ, ◌≡◌, refl, Bool, false, List, [], ◌∷◌, Option, none, some, if◌then◌else◌,
}
use android_hardware_xiaomi.Common.Int.{ℤ}
use android_hardware_xiaomi.Fingerprint.Service.{SensorType, SensorLocation}

pub data ConfigParser : Type 0 where
  parse_string parse_int32 parse_bool : ConfigParser

pub record ConfigEntry : Type 0 where
  pub name : String
  pub parser : ConfigParser
  pub default_value : String

abbrev entry : String → ConfigParser → String → ConfigEntry
entry name parser default_value = record {
  name = name;
  parser = parser;
  default_value = default_value;
}

unfoldable pub config_data : List ConfigEntry
config_data =
    entry "type" parse_string ""
    ∷ entry "sensor_id" parse_int32 "0"
    ∷ entry "sensor_location" parse_string ""
    ∷ entry "sensor_strength" parse_int32 "2"
    ∷ entry "navigation_gesture" parse_bool "false"
    ∷ entry "detect_interaction" parse_bool "false"
    ∷ entry "display_touch" parse_bool "false"
    ∷ entry "control_illumination" parse_bool "false"
    ∷ []

-- What mConfig->get gives for a name, at each of the two types that are asked for.
pub record Config : Type 0 where
  pub get_int32 : String → ℤ
  pub get_bool : String → Bool

pub record ComponentInfo : Type 0 where
  pub component_id : String
  pub hardware_version : String
  pub firmware_version : String
  pub serial_number : String
  pub software_version : String

abbrev info : String → String → String → String → String → ComponentInfo
info component_id hardware_version firmware_version serial_number software_version = record {
  component_id = component_id;
  hardware_version = hardware_version;
  firmware_version = firmware_version;
  serial_number = serial_number;
  software_version = software_version;
}

-- SensorProps; its last field, the touch detection parameters, is never set.
pub record SensorProps : Type 0 where
  pub sensor_id : ℤ
  pub sensor_strength : ℤ
  pub max_enrollments_per_user : ℕ
  pub component_info : List ComponentInfo
  pub sensor_type : SensorType
  pub sensor_locations : List SensorLocation
  pub navigation_gesture : Bool
  pub detect_interaction : Bool
  pub display_touch : Bool
  pub control_illumination : Bool

unfoldable pub get_sensor_props : Config → SensorType → List SensorLocation → SensorProps
get_sensor_props config sensor_type sensor_locations = record {
  sensor_id = config.get_int32 "sensor_id";
  sensor_strength = config.get_int32 "sensor_strength";
  max_enrollments_per_user = 5;
  component_info =
      info "fingerprintSensor" "vendor/model/revision" "1.01" "00000001" ""
      ∷ info "matchingAlgorithm" "" "" "" "vendor/version/revision"
      ∷ [];
  sensor_type = sensor_type;
  sensor_locations = sensor_locations;
  navigation_gesture = config.get_bool "navigation_gesture";
  detect_interaction = config.get_bool "detect_interaction";
  display_touch = config.get_bool "display_touch";
  control_illumination = config.get_bool "control_illumination";
}

-- What the destructor does outside: the handler goes back to its factory, the device is closed.
pub data Release : Type 0 where
  destroys_handler closes_device : Release

-- The calls of the destructor, and whether a device stays open, by whether close(2) fails.
unfoldable pub destroy : Bool → Bool → Bool → List Release × Bool
destroy has_handler has_device close_fails =
    let closed : List Release = if has_device then closes_device ∷ [] else [] in
    (
      if has_handler then destroys_handler ∷ closed else closed,
      if has_device then close_fails else false,
    )

abbrev pub parser_of : List ConfigEntry → String → Option ConfigParser
parser_of [] name = none
parser_of (e ∷ entries) name = if e.name == name then some e.parser else parser_of entries name

-- getSensorProps asks only for names of the table, each at the type that the table parses it to: two
-- configurations that agree on those give the same properties.
pub get_sensor_props_from_table :
    (c d : Config) (t : SensorType) (l : List SensorLocation)
    → ((name : String)
        → parser_of config_data name ≡ some parse_int32
        → c.get_int32 name ≡ d.get_int32 name)
    → ((name : String)
        → parser_of config_data name ≡ some parse_bool
        → c.get_bool name ≡ d.get_bool name)
    → get_sensor_props c t l ≡ get_sensor_props d t l
unfolding config_data get_sensor_props
get_sensor_props_from_table c d t l ints bools = rw (
  ints "sensor_id" refl,
  ints "sensor_strength" refl,
  bools "navigation_gesture" refl,
  bools "detect_interaction" refl,
  bools "display_touch" refl,
  bools "control_illumination" refl,
)
