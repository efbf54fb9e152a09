-- ===== src/Examples/SensorHal.antt =====
-- aidl/sensors: the proxy of the sub-HALs at concrete states.
use android_hardware_xiaomi.Common.{
  ℕ, ◌*◌, ◌^◌, ◌≡◌, refl, Bool, true, false, ◌&&◌, [], ◌∷◌, map, ◌==◌, if◌then◌else◌,
}
use android_hardware_xiaomi.Sensors.Handles.{set_sub_hal_index, sub_hal_index_is_clear}
use android_hardware_xiaomi.Sensors.Stop.{
  Threads, asleep, falling_asleep, returned, run_threads, stop_threads, stop_threads_ends,
}
use android_hardware_xiaomi.Sensors.WakeLock.{WakeLock, increment}
use android_hardware_xiaomi.Sensors.Pending.{Event, Pending, count_wakeup_events}
use android_hardware_xiaomi.Sensors.Events.{
  SensorInfo, with_index, process_events, passes, keep, process_events-keep,
}
use android_hardware_xiaomi.Sensors.Proxy.{
  Proxy, set_operation_mode, all_in, set_operation_mode-all_in,
}

abbrev wake : Bool → WakeLock
wake run = record {
  ref_count = 2;
  held = true;
  timeout_start = 100;
  timeout_reset = 50;
  threads_run = run;
}

abbrev pulse : Event
pulse = record {
  sensor_handle = 8;
  is_dynamic_meta = false;
  dynamic_handle = 0;
  scalar_is_one = true;
  timestamp = 5;
  payload = 1 ∷ [];
}

-- Two events of sensor 8 wait, one of them a wake-up event.
abbrev pending : Pending
pending = record {
  queue = (pulse ∷ pulse ∷ [], 1) ∷ [];
  size = 2;
  most = 2;
  written = pulse ∷ [];
  wake = wake true;
}

abbrev pickup : ℕ → SensorInfo
pickup h = record { is_pickup = h == 8; wakes = true }

process_events-keep_example :
    ((process_events pickup true false 0 (pulse ∷ [])).0
      ≡ keep (passes pickup true false) (map (with_index 0) (pulse ∷ [])))
    × ((process_events pickup true false 0 (pulse ∷ [])).1
        ≡ count_wakeup_events
            (λ h. (pickup h).wakes)
            (keep (passes pickup true false) (map (with_index 0) (pulse ∷ []))))
process_events-keep_example = process_events-keep pickup true false 0 (pulse ∷ [])

all_dropped : (process_events pickup true false 0 (pulse ∷ [])).1 ≡ 0
unfolding process_events with_index set_sub_hal_index
all_dropped = refl

abbrev taken : Pending
taken = record pending { wake = (increment 200 1 (wake true)).0 }

-- The second sub-HAL refuses mode 1.
abbrev answer : ℕ → ℕ → ℕ
answer i mode = if (i == 1) && (mode == 1) then 22 else 0

abbrev proxy : Proxy
proxy = record { current_mode = 0; modes = 0 ∷ 0 ∷ [] }

set_operation_mode-all_in_example :
    all_in
      (set_operation_mode answer 1 proxy).0.current_mode
      (set_operation_mode answer 1 proxy).0.modes
    ≡ true
set_operation_mode-all_in_example = set_operation_mode-all_in answer 1 proxy refl refl

abbrev mask : ℕ
mask = 0xff * 2 ^ 24

five_is_clear : sub_hal_index_is_clear mask 5 ≡ true
unfolding sub_hal_index_is_clear
five_is_clear = refl

-- The thread of pending writes sleeps and is woken; that of the wake lock misses its notification.
abbrev threads : Threads
threads = record {
  threads_run = true;
  unread_events = 3;
  wakelock_queue = [];
  pending_writes = asleep;
  wakelocks = falling_asleep;
}

abbrev stopped : Threads
stopped =
    run_threads ((true, false) ∷ (false, false) ∷ (false, true) ∷ (true, true) ∷ [])
      (stop_threads true true threads)

stop_threads_ends_example : (stopped.pending_writes ≡ returned) × (stopped.wakelocks ≡ asleep)
stop_threads_ends_example =
    stop_threads_ends true true threads (true, false) (false, false) (false, true)
      ((true, true) ∷ [])
