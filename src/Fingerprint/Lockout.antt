-- ===== src/Fingerprint/Lockout.antt =====
-- aidl/fingerprint/LockoutTracker.cpp and LockoutTracker.h. Times are nanoseconds; Util::hasElapsed,
-- which is not part of the repository, is the argument `has_elapsed now start duration`. The count
-- of failures, an int32_t, is left unbounded.
pub mod Modes
use android_hardware_xiaomi.Common.{
  ℕ, suc, ◌+◌, ◌-◌, ◌/◌, Bool, true, false, ltb, leb, if◌then◌else◌,
}
use android_hardware_xiaomi.Common.Int.{ℤ, pos, sub_ℕ}

abbrev pub timed_threshold : ℕ
timed_threshold = 5

abbrev pub timed_duration : ℕ
timed_duration = 10000

abbrev pub permanent_threshold : ℕ
permanent_threshold = 20

pub data LockoutMode : Type 0 where
  unlocked timed permanent : LockoutMode

pub record LockoutTracker : Type 0 where
  pub failed_count : ℕ
  pub timed_start : ℕ
  pub mode : LockoutMode

-- Util::hasElapsed.
abbrev pub HasElapsed : Type 0
HasElapsed = ℕ → ℕ → ℕ → Bool

-- The constructor sets the count only: what the memory holds in the other two fields is given.
unfoldable pub new_tracker : ℕ → LockoutMode → LockoutTracker
new_tracker start mode = record { failed_count = 0; timed_start = start; mode = mode }

unfoldable pub reset : Bool → LockoutTracker → LockoutTracker
reset clear t = record {
  failed_count = if clear then 0 else t.failed_count;
  timed_start = 0;
  mode = unlocked;
}

abbrev pub is_unlocked : LockoutMode → Bool
is_unlocked unlocked = true
is_unlocked timed = false
is_unlocked permanent = false

abbrev pub is_timed : LockoutMode → Bool
is_timed unlocked = false
is_timed timed = true
is_timed permanent = false

unfoldable pub add_failed_attempt : ℕ → LockoutTracker → LockoutTracker
add_failed_attempt now t =
    let counted = record t { failed_count = t.failed_count + 1 } in
    if leb permanent_threshold counted.failed_count
    then record counted { mode = permanent }
    else if leb timed_threshold counted.failed_count
    then if is_unlocked t.mode then record counted { mode = timed; timed_start = now } else counted
    else counted

-- The tracker after the call; its mode is the result.
unfoldable pub get_mode : HasElapsed → ℕ → LockoutTracker → LockoutTracker
get_mode has_elapsed now t =
    if is_timed t.mode
    then if has_elapsed now t.timed_start timed_duration
      then record t { mode = unlocked; timed_start = 0 }
      else t
    else t

-- Milliseconds. The division of an int64_t truncates towards zero.
unfoldable pub get_lockout_time_left : ℕ → LockoutTracker → ℤ
get_lockout_time_left now t =
    if ltb 0 t.timed_start
    then if leb t.timed_start now
      then sub_ℕ timed_duration ((now - t.timed_start) / 1000000)
      else pos (timed_duration + (t.timed_start - now) / 1000000)
    else pos 0
