-- ===== src/Sensors/Startup.antt =====
-- aidl/sensors/HalProxy.cpp, initializeCommon: what a framework that connects, again or for the first
-- time, finds. Whether the event flags are created, and what the sub-HALs answer, 0 for OK, are
-- arguments; the threads and the queues themselves are the system's.
use android_hardware_xiaomi.Common.{
  ℕ, ◌≡◌, refl, Bool, true, false, ◌&&◌, ◌||◌, not, List, [], ◌∷◌, arith, ◌==◌, if◌then◌else◌,
}
use android_hardware_xiaomi.Sensors.WakeLock.{WakeLock, reset_shared_wakelock}
use android_hardware_xiaomi.Sensors.Pending.{Pending}
use android_hardware_xiaomi.Sensors.Directory.{Platform, Directory, Forward, disable_all_sensors}

pub record Hal : Type 0 where
  pub pending : Pending
  pub dynamic_sensors : List ℕ
  pub directory : Directory
  pub current_mode : ℕ

pub record Setup : Type 0 where
  pub now : ℕ
  pub event_flag_created : Bool
  pub wakelock_flag_created : Bool
  pub has_callback : Bool
  pub has_queues : Bool
  pub answers : List ℕ

pub data InitResult : Type 0 where
  init_ok init_bad_value : InitResult
  sub_hal_failed : ℕ → InitResult

-- The last sub-HAL that fails gives the result.
unfoldable pub initialize_sub_hals : List ℕ → InitResult → InitResult
initialize_sub_hals [] result = result
initialize_sub_hals (a ∷ answers) result =
    initialize_sub_hals answers (if not (a == 0) then sub_hal_failed a else result)

abbrev pub setup_result : Setup → InitResult
setup_result u =
    if not u.event_flag_created
      || not u.wakelock_flag_created
      || not u.has_callback
      || not u.has_queues
    then init_bad_value
    else init_ok

-- stopThreads and resetSharedWakelock, and the threads that run again.
abbrev pub restart_wakelock : ℕ → WakeLock → WakeLock
restart_wakelock now w = record (reset_shared_wakelock now (record w { threads_run = false })) {
  threads_run = true;
}

-- The new state, the calls that switch the sensors off, and the result; mode 0 is NORMAL.
unfoldable pub initialize_common : Platform → ℕ → Setup → Hal → Hal × List Forward × InitResult
unfolding initialize_sub_hals disable_all_sensors reset_shared_wakelock
initialize_common p count u h = (
  record {
    pending = record (h.pending) {
      queue = [];
      size = 0;
      wake = restart_wakelock u.now h.pending.wake;
    };
    dynamic_sensors = [];
    directory = h.directory;
    current_mode = 0;
  },
  disable_all_sensors p count h.directory h.dynamic_sensors,
  initialize_sub_hals u.answers (setup_result u),
)

abbrev pub all_ok : List ℕ → Bool
all_ok [] = true
all_ok (a ∷ answers) = a == 0 && all_ok answers

abbrev pub is_ok : InitResult → Bool
is_ok init_ok = true
is_ok init_bad_value = false
is_ok (sub_hal_failed a) = false

sub_hals_ok :
    (answers : List ℕ) (result : InitResult)
    → is_ok (initialize_sub_hals answers result) ≡ (is_ok result && all_ok answers)
unfolding initialize_sub_hals
sub_hals_ok [] result = ground arith
sub_hals_ok (a ∷ answers) result =
    let rest = sub_hals_ok answers (if not (a == 0) then sub_hal_failed a else result) in
    ground arith

-- The result of an initialization is OK just when both event flags are created, the callback and the
-- queues are there, and every sub-HAL answers OK.
pub initialize_common_ok :
    (p : Platform) (count : ℕ) (u : Setup) (h : Hal)
    → is_ok (initialize_common p count u h).2 ≡ (
        u.event_flag_created
        && u.wakelock_flag_created
        && u.has_callback
        && u.has_queues
        && all_ok u.answers)
unfolding initialize_common
initialize_common_ok p count u h = let rest = sub_hals_ok u.answers (setup_result u) in ground arith

-- An initialization empties the queue of pending events and the set of dynamic sensors, but not the
-- shared wake lock: the threads are stopped before the reset, so that the count and the system's wake
-- lock stay as they were, although the events they stand for are gone.
pub initialize_common_wakelock :
    (p : Platform) (count : ℕ) (u : Setup) (h : Hal)
    → let h' = (initialize_common p count u h).0 in
      (h'.pending.queue ≡ [])
      × (h'.dynamic_sensors ≡ [])
      × (h'.pending.wake.ref_count ≡ h.pending.wake.ref_count)
      × (h'.pending.wake.held ≡ h.pending.wake.held)
      × (h'.pending.wake.threads_run ≡ true)
unfolding initialize_common
initialize_common_wakelock p count u h = (refl, refl, refl, refl, refl)
