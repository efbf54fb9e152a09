-- ===== src/Examples/Flows.antt =====
-- aidl/sensors: events on their way from two sub-HALs, and the loading of sub-HALs.
use text.Mathlib.Text as Text
use mathlib.Core.List.{Sublist}
use android_hardware_xiaomi.Common.{
  ℕ, ◌≡◌, refl, true, false, List, [], ◌∷◌, ◌++◌, none, some, arith, ◌==◌, if◌then◌else◌,
}
use android_hardware_xiaomi.Sensors.WakeLock.{WakeLock, increment}
use android_hardware_xiaomi.Sensors.Events.{process_events, post_events}
use android_hardware_xiaomi.Sensors.Handles.{set_sub_hal_index}
use android_hardware_xiaomi.Sensors.Pending.{Event, Pending, post, write_pending, write_front}
use android_hardware_xiaomi.Sensors.Flow.{
  Pipeline, Batch, Step, posts, writes, locks, releases, acknowledges, run, passed,
}
use android_hardware_xiaomi.Sensors.Flow.Order.{flow, run-Sublist}
use android_hardware_xiaomi.Sensors.Flow.Complete.{run_complete}
use android_hardware_xiaomi.Sensors.Flow.Invariant.{IsSound, run-IsSound}
use android_hardware_xiaomi.Sensors.Flow.Release.{partly_written_unheld}
use android_hardware_xiaomi.Sensors.Loader.{System, new_hal_proxy, wrapper_v2_1}

abbrev wake : WakeLock
wake = record {
  ref_count = 0;
  held = false;
  timeout_start = 100;
  timeout_reset = 50;
  threads_run = true;
}

abbrev idle : Pending
idle = record { queue = []; size = 0; most = 0; written = []; wake = wake }

abbrev event : ℕ → Event
event h = record {
  sensor_handle = h;
  is_dynamic_meta = false;
  dynamic_handle = 0;
  scalar_is_one = false;
  timestamp = 5;
  payload = h ∷ [];
}

-- Sensor 8 is a pickup sensor, whose event is dropped if it is no pulse.
abbrev pipeline : Pipeline
pipeline = record {
  sensor = λ h. record { is_pickup = h == 8; wakes = h == 9 };
  limit = 4;
  quantum = 1;
}

abbrev batch : Batch
batch = record {
  index = 0;
  gated = false;
  lid_open = true;
  events = event 7 ∷ event 8 ∷ event 9 ∷ [];
  locked = true;
  created = 60;
}

abbrev way : List Step
way = posts batch 200 1 true ∷ posts batch 201 3 true ∷ writes true ∷ []

run-Sublist_example :
    Sublist
      (flow (run pipeline (writes false ∷ way) idle))
      (flow idle ++ passed pipeline (writes false ∷ way))
run-Sublist_example = run-Sublist pipeline (writes false ∷ way) idle

-- A test: a direct write takes one event, the others wait, and one of them is written.
in_order : run pipeline way idle ≡ record idle {
  queue = (event 7 ∷ event 9 ∷ [], 1) ∷ [];
  size = 2;
  most = 3;
  written = event 7 ∷ event 9 ∷ [];
  wake = record wake { ref_count = 2; held = true; timeout_start = 201 };
}
unfolding run post_events process_events set_sub_hal_index post write_pending write_front increment
in_order = refl

passed_events : passed pipeline way ≡ (event 7 ∷ event 9 ∷ event 7 ∷ event 9 ∷ [])
unfolding process_events set_sub_hal_index
passed_events = refl

run_complete_example : flow (run pipeline way idle) ≡ flow idle ++ passed pipeline way
run_complete_example =
    run_complete pipeline way idle (refl, tt) (refl, rw passed_events (omega arith))

run-IsSound_example :
    IsSound pipeline
      (run pipeline (locks 199 ∷ releases 199 ∷ acknowledges 1000 250 (some 1) ∷ way) idle)
run-IsSound_example =
    run-IsSound pipeline (locks 199 ∷ releases 199 ∷ acknowledges 1000 250 (some 1) ∷ way) idle
      (record { queue = record { counted = refl; bounded = omega arith }; wake = refl })

partly_written_unheld_example :
    let posted = post 4 200 1 true (event 7 ∷ event 9 ∷ []) 1 true idle in
    let p' = write_pending (λ h. true) 8 false posted in
    (p'.wake.ref_count ≡ 0) × (p'.written ≡ (event 7 ∷ [])) × (p'.queue ≡ [])
partly_written_unheld_example =
    partly_written_unheld 4 200 1 8 (λ h. true) (event 7 ∷ event 9 ∷ []) 1 idle refl refl
      (omega arith) (omega arith) (omega arith) (omega arith)

-- Only the library "lcd.so" is there, in the vendor's directory.
abbrev system : System
system = record {
  dlopen = λ path.
      if Text.◌==◌ path "/vendor/lib64/hw/lcd.so"
      then some (record { get_sub_hal = none; get_sub_hal_2_1 = some (21, 5) })
      else none;
  lp64 = true;
  version_2_0 = 20;
  version_2_1 = 21;
}

-- A test: the library that is there is loaded, and the other skipped.
lcd_loaded : new_hal_proxy system (some ("missing.so" ∷ "lcd.so" ∷ [])) none ≡ wrapper_v2_1 5 ∷ []
unfolding new_hal_proxy
lcd_loaded = refl
