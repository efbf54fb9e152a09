-- ===== src/Examples/Gestures.antt =====
-- sensors: the gesture sensors, their sub-HALs and the lid at concrete states.
use android_hardware_xiaomi.Common.{
  ℕ, ◌+◌, ◌*◌, ◌^◌, ◌≤◌, ◌≡◌, refl, true, false, List, [], ◌∷◌, ◌++◌, Option, none, some, arith,
}
use android_hardware_xiaomi.Common.Int.{pos}
use android_hardware_xiaomi.Common.Words.{test_bit}
use android_hardware_xiaomi.Sensors.OneShot.{OneShot, normal, polled, begin_poll, end_poll}
use android_hardware_xiaomi.Sensors.OneShot.Delivery.{
  Step, activates, begins, ends, run, subscriptions, armed, run_events,
}
use android_hardware_xiaomi.Sensors.OneShot.Destroy.{begin_destroy, end_destroy, destroy_stuck}
use android_hardware_xiaomi.Sensors.Lid.{Tracker}
use android_hardware_xiaomi.Sensors.SubHal.{
  SubHal, new_sensor, new_sub_hal, find, add_sensors, add_sensor,
}
use android_hardware_xiaomi.Sensors.Directory.{
  Platform, SensorInfo, Directory, initialize_sensor_list,
}
use android_hardware_xiaomi.Sensors.Directory.Direct.{
  AllRightful, initialize_sensor_list-AllRightful,
}
use android_hardware_xiaomi.Sensors.Calls.Reach.{AllOf, Reaches, no_sensors, listed_sensor_reached}
use android_hardware_xiaomi.Sensors.Lcd.{Lcd}
use android_hardware_xiaomi.Sensors.Lcd.Gate as Gate
use android_hardware_xiaomi.Sensors.Lcd.Gate.{posted, shut_lid_posts_nothing}
use android_hardware_xiaomi.Sensors.Udfps.{
  Wait, interrupted, ready, not_read, parsed, event, udfps_poll, udfps_poll_returns,
}

abbrev sensor : OneShot
sensor = new_sensor true

abbrev busy : OneShot
busy = record sensor { is_enabled = true; enable_file = true; polling = true }

abbrev gesture : List Step
gesture = activates true ∷ begins ∷ ends (polled true false) true true ∷ activates true ∷ []

run_events_example :
    (run gesture sensor).events + armed (run gesture sensor)
    ≤ sensor.events + armed sensor + subscriptions gesture
run_events_example = run_events gesture sensor

abbrev tracker : Tracker
tracker = record { lid_fd = some 3 }

shut : test_bit (1 ∷ []) 0 ≡ true
unfolding test_bit
shut = refl

abbrev sub_hal : SubHal
sub_hal = record { sensors = (1, sensor) ∷ []; current_mode = normal; next_handle = 2 }

second_found : find 2 (new_sub_hal (some true) (some true) none).sensors ≡ some sensor
unfolding new_sub_hal add_sensors add_sensor
second_found = refl

abbrev mask : ℕ
mask = 0xff * 2 ^ 24

abbrev platform : Platform
platform = record {
  index_mask = mask;
  wake_up = 1;
  direct_mask = 0xf80;
  pick_up_gesture = 25;
  pick_up_string = b'p' ∷ [];
  one = 1;
}

abbrev info : ℕ → SensorInfo
info h = record {
  sensor_handle = h;
  sensor_type = 1;
  type_as_string = [];
  max_range = 10;
  flags = 0x401;
}

abbrev lists : List (Option (List SensorInfo))
lists = some (info 1 ∷ info 2 ∷ []) ∷ none ∷ some (info 1 ∷ []) ∷ []

abbrev empty : Directory
empty = record { sensors = []; direct_sub_hal = none }

initialize_sensor_list-AllRightful_example :
    let d = initialize_sensor_list platform 0 lists empty in
    AllRightful platform d.direct_sub_hal d.sensors
initialize_sensor_list-AllRightful_example =
    initialize_sensor_list-AllRightful platform 0 lists empty refl (omega arith) (omega arith)
      ((omega arith, (omega arith, tt)), ((omega arith, tt), tt)) tt

abbrev press : Wait
press = ready (parsed (pos 540) (pos 2000) (pos 1))

udfps_poll_returns_example :
    udfps_poll ((interrupted ∷ ready not_read ∷ []) ++ press ∷ []) ≡ event (pos 540) (pos 2000)
udfps_poll_returns_example =
    udfps_poll_returns (interrupted ∷ ready not_read ∷ []) press [] (event (pos 540) (pos 2000))
      (refl, (refl, tt)) refl

-- A thread that polls, and whose destructor runs.
abbrev reader : OneShot
reader = record {
  is_enabled = true;
  mode = normal;
  stop_thread = false;
  polling = true;
  enable_file = true;
  has_wait_pipe = true;
  wake_bytes = 0;
  events = 0;
}

abbrev joined : OneShot
joined = end_destroy (begin_poll (end_poll (polled false true) false true (begin_destroy reader)))

destroy_stuck_example :
    (joined.stop_thread ≡ true) × (joined.polling ≡ true) × (joined.wake_bytes ≡ 0)
destroy_stuck_example = destroy_stuck reader false true refl refl refl refl refl refl

listed_sensor_reached_example :
    AllOf (Reaches platform lists) (initialize_sensor_list platform 0 lists no_sensors).sensors
listed_sensor_reached_example =
    listed_sensor_reached platform lists refl (omega arith)
      ((omega arith, (omega arith, tt)), ((omega arith, tt), tt))

abbrev panel : Lcd
panel = record { hal = sub_hal; tracker = tracker }

-- A tap while the lid is shut.
abbrev tap : List Gate.Call
tap =
    Gate.activates_sensor 1 true
    ∷ Gate.begins_poll 1
    ∷ Gate.ends_poll 1 (polled true false) true [] (some (1 ∷ []))
    ∷ []

shut_lid_posts_nothing_example :
    posted (Gate.calls tap panel).hal.sensors ≡ posted panel.hal.sensors
shut_lid_posts_nothing_example = shut_lid_posts_nothing tap 3 panel refl ((1 ∷ [], refl, shut), tt)
