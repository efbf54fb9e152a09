-- ===== src/Sensors/Events.antt =====
-- aidl/sensors/HalProxyCallback.cpp, processEvents and postEvents: the events of a sub-HAL on their
-- way to the message queue. The sensors that HalProxy knows are an argument, a function of the
-- handle, and so are whether the pickup sensor is gated on the lid and whether the lid is open.
-- The destructor of a ScopedWakelock belongs to the platform: its release is a step of Flow.
-- The flag words and sensor types are tests: wake-up, pickup gesture, dynamic sensor event.
use android_hardware_xiaomi.Common.{
  ℕ, ◌+◌, ◌≤◌, ◌≡◌, refl, Bool, true, false, ◌&&◌, ◌||◌, not, List, [], ◌∷◌, map, some, arith, ◌==◌,
  if◌then◌else◌,
}
use android_hardware_xiaomi.Sensors.Handles.{set_sub_hal_index}
use android_hardware_xiaomi.Sensors.WakeLock.{WakeLock, Balanced, increment, decrement}
use android_hardware_xiaomi.Sensors.Pending.{Event, Pending, is_empty, count_wakeup_events, post}

pub record SensorInfo : Type 0 where
  pub is_pickup : Bool
  pub wakes : Bool

-- An event with the index of its sub-HAL.
unfoldable pub with_index : ℕ → Event → Event
with_index index e = record e {
  sensor_handle = set_sub_hal_index e.sensor_handle index;
  dynamic_handle =
      if e.is_dynamic_meta then set_sub_hal_index e.dynamic_handle index else e.dynamic_handle;
}

unfoldable pub is_dropped : Bool → Bool → SensorInfo → Event → Bool
is_dropped gated lid_open sensor e =
    (sensor.is_pickup && not e.scalar_is_one) || (sensor.is_pickup && gated && not lid_open)

-- The events that go on, and how many of them wake the system.
unfoldable pub process_events : (ℕ → SensorInfo) → Bool → Bool → ℕ → List Event → List Event × ℕ
unfolding with_index is_dropped
process_events sensor gated lid_open index [] = ([], 0)
process_events sensor gated lid_open index (event ∷ events) =
    let e = with_index index event in
    let info = sensor e.sensor_handle in
    let rest = process_events sensor gated lid_open index events in
    if is_dropped gated lid_open info e
    then rest
    else (e ∷ rest.0, (if info.wakes then 1 else 0) + rest.1)

-- postEvents, of a batch with its wake lock: whether it is locked, and when it was made.
unfoldable pub post_events :
    (ℕ → SensorInfo)
    → Bool
    → Bool
    → ℕ
    → ℕ
    → ℕ
    → ℕ
    → Bool
    → List Event
    → Bool
    → ℕ
    → Pending
    → Pending
unfolding process_events post
post_events sensor gated lid_open index limit now available write_ok events locked created p =
    if is_empty events || not p.wake.threads_run
    then p
    else let processed = process_events sensor gated lid_open index events in
      let release = processed.1 == 0 && locked in
      post limit now available write_ok processed.0 processed.1 (locked && not release)
        (record p { wake = if release then decrement 1 (some created) p.wake else p.wake })

-- What may light the display: any event of another sensor, and of a pickup sensor only the pulse,
-- with the cover open where it matters.
abbrev pub passes : (ℕ → SensorInfo) → Bool → Bool → Event → Bool
passes sensor gated lid_open e =
    not (sensor e.sensor_handle).is_pickup || (e.scalar_is_one && (not gated || lid_open))

abbrev pub keep : (Event → Bool) → List Event → List Event
keep test [] = []
keep test (e ∷ events) = if test e then e ∷ keep test events else keep test events

-- Processing a batch marks every event with its sub-HAL and keeps, in their order, just those that
-- may pass: those of other sensors, and pickup pulses while the lid is open or does not matter. The
-- number of wake-up events that it gives is the number of those that it kept.
pub process_events-keep :
    (sensor : ℕ → SensorInfo) (gated lid_open : Bool) (index : ℕ) (events : List Event)
    → let kept = keep (passes sensor gated lid_open) (map (with_index index) events) in
      ((process_events sensor gated lid_open index events).0 ≡ kept)
      × ((process_events sensor gated lid_open index events).1
          ≡ count_wakeup_events (λ h. (sensor h).wakes) kept)
unfolding process_events is_dropped
process_events-keep sensor gated lid_open index [] = (refl, refl)
process_events-keep sensor gated lid_open index (e ∷ events) =
    let rest = process_events-keep sensor gated lid_open index events in
    (ground arith, ground arith)

-- A batch that took the wake lock for itself and whose wake-up events are all dropped gives it
-- back: while the threads run and the lock was held exactly for a positive count, posting it leaves
-- the count and the system's wake lock as they were before it was made, if no reset came since.
pub post_events_released :
    (sensor : ℕ → SensorInfo) (gated lid_open : Bool) (index limit now available : ℕ) (ok : Bool)
    → (events : List Event) (created : ℕ) (w : WakeLock) (p : Pending) → is_empty events ≡ false
    → (process_events sensor gated lid_open index events).1 ≡ 0
    → w.threads_run ≡ true
    → Balanced w
    → w.timeout_reset ≤ created
    → p.wake ≡ (increment created 1 w).0
    → let p' =
        post_events sensor gated lid_open index limit now available ok events true created p in
      (p'.wake.ref_count ≡ w.ref_count) × (p'.wake.held ≡ w.held)
unfolding post_events increment decrement
post_events_released sensor gated lid_open index limit now available ok events created w p
      some_event dropped run b fresh made =
    (ground arith, ground arith)
