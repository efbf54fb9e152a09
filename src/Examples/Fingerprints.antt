-- ===== src/Examples/Fingerprints.antt =====
-- aidl/fingerprint: a session, its tracker and its messages at concrete values.
use android_hardware_xiaomi.Common.{
  ℕ, ◌+◌, ◌*◌, ◌≤◌, ◌<◌, ◌≡◌, refl, ◌⊎◌, true, false, List, [], ◌∷◌, leb,
}
use android_hardware_xiaomi.Common.Int.{pos}
use android_hardware_xiaomi.Fingerprint.Lockout.{
  LockoutTracker, HasElapsed, unlocked, timed, permanent, reset, add_failed_attempt,
}
use android_hardware_xiaomi.Fingerprint.Lockout.Modes.{
  Attempt, failed, queried, history, history_modes,
}
use android_hardware_xiaomi.Fingerprint.Token.{HardwareAuthToken, HwAuthToken, Endian}
use android_hardware_xiaomi.Fingerprint.Session.{
  Session, Clock, authenticate, reset_lockout, lockout_timer_expired, start_lockout_timer,
}
use android_hardware_xiaomi.Fingerprint.Session.Timers.{
  authenticates, expires, resets, run, OneTimer, run-OneTimer, permanent_lockout_stale_abort,
}

-- Whether a start in nanoseconds is a duration in milliseconds or more ago.
abbrev elapsed : HasElapsed
elapsed now start duration = leb (start + duration * 1000000) now

abbrev clock : Clock
clock = record { now = 1000; has_elapsed = elapsed }

abbrev tracker : LockoutTracker
tracker = record { failed_count = 4; timed_start = 0; mode = unlocked }

abbrev locked : LockoutTracker
locked = record { failed_count = 20; timed_start = 5; mode = permanent }

abbrev session : LockoutTracker → Session
session t = record {
  tracker = t;
  timer_started = false;
  timer_aborted = false;
  timers = 0;
  closed = false;
  user_id = 10;
  has_udfps = true;
  enrollments = [];
}

-- A host in network order.
abbrev endian : Endian
endian = record {
  htobe32 = λ x. x;
  be32toh = λ x. x;
  htobe64 = λ x. x;
  be64toh = λ x. x;
  be32_inverse = λ x. refl;
  be64_inverse = λ x. refl;
}

abbrev hat : HwAuthToken
hat = record {
  challenge = 0;
  user_id = 0;
  authenticator_id = 0;
  authenticator_type = 0;
  timestamp = 0;
  hmac = 0 ∷ 0 ∷ [];
}

abbrev token : List ℕ → HardwareAuthToken
token mac = record {
  challenge = 1;
  user_id = 2;
  authenticator_id = 3;
  authenticator_type = 2;
  milli_seconds = 77;
  mac = mac;
}

run-OneTimer_example :
    OneTimer (run (authenticates clock 5 (pos 0) ∷ expires ∷ resets ∷ []) (session tracker))
run-OneTimer_example =
    run-OneTimer (authenticates clock 5 (pos 0) ∷ expires ∷ resets ∷ []) (session tracker) refl

permanent_lockout_stale_abort_example :
    ((reset_lockout (authenticate clock 5 (pos 0) (session locked)).0).0.tracker.mode ≡ unlocked)
    × ((reset_lockout (authenticate clock 5 (pos 0) (session locked)).0).0.timer_aborted ≡ true)
    × ((lockout_timer_expired (
          start_lockout_timer
            (record (reset_lockout (authenticate clock 5 (pos 0) (session locked)).0).0 {
              tracker = tracker;
            }))).1
        ≡ [])
permanent_lockout_stale_abort_example =
    permanent_lockout_stale_abort clock 5 (pos 0) (session locked) tracker refl refl

abbrev past : List (ℕ × Attempt)
past = (1, failed) ∷ (2, queried) ∷ (3, failed) ∷ []

history_modes_example :
    let u = history elapsed past (reset true locked) in
    let u' = add_failed_attempt 4 u in
    ((u.mode ≡ unlocked)
      ⊎ ((u.mode ≡ timed) × (5 ≤ 2) × (2 < 20))
      ⊎ ((u.mode ≡ permanent) × (20 ≤ 2)))
    × (u'.failed_count ≡ 3)
    × (u'.mode ≡ unlocked)
history_modes_example = history_modes elapsed past 4 locked

abbrev timed_tracker : LockoutTracker
timed_tracker = record { failed_count = 6; timed_start = 1000; mode = timed }
