-- ===== src/Sensors/Sampler.antt =====
-- sensors/v2/Sensor.cpp, the base class Sensor: a sensor that posts a sample every period. One
-- turn of the thread's loop, up to its wait, holds the mutex and is one step. The clock's time in
-- nanoseconds is an argument of the step. The delays of a sensor are in microseconds, and their
-- products with 1000 are taken to fit in the source's 32 bits. What is posted stands without its
-- contents. The sensors of this repository are one-shot sensors, which replace all of
-- it but the constructor and injectEvent.
use android_hardware_xiaomi.Common.{ℕ, Bool, false, ◌||◌, not, List, [], ◌∷◌, if◌then◌else◌}
use android_hardware_xiaomi.Common.Int.{ℤ, pos, ltb_ℤ, add_ℤ, times_ℤ, neg}
use android_hardware_xiaomi.Sensors.OneShot.{OperationMode, normal, is_injection}

pub record Sensor : Type 0 where
  pub is_enabled : Bool
  pub mode : OperationMode
  pub stop_thread : Bool
  pub sampling_period : ℤ
  pub last_sample : ℕ
  pub min_delay : ℤ
  pub max_delay : ℤ
  pub injects : Bool

unfoldable pub new_sensor : ℤ → Sensor
new_sensor min_delay = record {
  is_enabled = false;
  mode = normal;
  stop_thread = false;
  sampling_period = pos 0;
  last_sample = 0;
  min_delay = min_delay;
  max_delay = pos 1000000;
  injects = false;
}

pub data Result : Type 0 where
  ok bad_value invalid_operation : Result

-- What goes to postEvents; a sample with the clock's time of its turn.
pub data Posting : Type 0 where
  sampled : ℕ → Posting
  flush_complete injected : Posting

-- std::clamp.
unfoldable pub clamp : ℤ → ℤ → ℤ → ℤ
clamp v low high = if ltb_ℤ v low then low else if ltb_ℤ high v then high else v

unfoldable pub batch : ℤ → Sensor → Sensor
unfolding clamp
batch period s = record s {
  sampling_period = clamp period (times_ℤ 1000 s.min_delay) (times_ℤ 1000 s.max_delay);
}

unfoldable pub activate : Bool → Sensor → Sensor
activate enable s = record s { is_enabled = enable }

unfoldable pub flush : Sensor → Result × List Posting
flush s = if not s.is_enabled then (bad_value, []) else (ok, flush_complete ∷ [])

unfoldable pub set_operation_mode : OperationMode → Sensor → Sensor
set_operation_mode mode s = record s { mode = mode }

-- injectEvent, by whether the event is an ADDITIONAL_INFO.
unfoldable pub inject_event : Bool → Sensor → Result × List Posting
inject_event additional_info s =
    if additional_info
    then (ok, [])
    else if not s.injects
    then (invalid_operation, [])
    else if is_injection s.mode
    then (ok, injected ∷ [])
    else (bad_value, [])

-- How a turn of the loop ends: the thread returns, sleeps until a call wakes it, or for a time.
pub data Wait : Type 0 where
  ended until_woken : Wait
  for_time : ℤ → Wait

unfoldable pub take_sample : ℕ → Sensor → Sensor × List Posting × Wait
take_sample now s =
    let next = add_ℤ (pos s.last_sample) s.sampling_period in
    if not (ltb_ℤ (pos now) next)
    then (record s { last_sample = now }, sampled now ∷ [], for_time s.sampling_period)
    else (s, [], for_time (add_ℤ next (neg (pos now))))

unfoldable pub run_turn : ℕ → Sensor → Sensor × List Posting × Wait
unfolding take_sample
run_turn now s =
    if s.stop_thread
    then (s, [], ended)
    else if not s.is_enabled || is_injection s.mode
    then (s, [], until_woken)
    else take_sample now s
