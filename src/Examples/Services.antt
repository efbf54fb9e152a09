-- ===== src/Examples/Services.antt =====
-- The HIDL fingerprint service, and the AIDL service around its sessions, at concrete inputs.
use android_hardware_xiaomi.Common.{ℕ, ◌≡◌, refl, Bool, true, false, List, [], ◌∷◌, some, bytes_eq}
use android_hardware_xiaomi.Common.Int.{pos}
use android_hardware_xiaomi.Fingerprint.Hidl.{users_prefix, set_active_group}
use android_hardware_xiaomi.Fingerprint.Hidl.Modules.{Opening}
use android_hardware_xiaomi.Fingerprint.Hidl.Paths.{Allowed, device_paths, set_active_group-Allowed}
use android_hardware_xiaomi.Fingerprint.Lockout.{LockoutTracker, unlocked}
use android_hardware_xiaomi.Fingerprint.Session.{Session, close, new_session}
use android_hardware_xiaomi.Fingerprint.Service.{Service, create_session, call_session}
use android_hardware_xiaomi.Fingerprint.Service.Renewal.{
  session_created, method_called, run, step, run-created,
}

set_active_group-Allowed_example :
    Allowed 4096
      (λ p. true)
      (device_paths (set_active_group 4096 (λ p. true) (pos 0) 0 users_prefix).0)
set_active_group-Allowed_example = set_active_group-Allowed 4096 (λ p. true) (pos 0) 0 users_prefix

-- Only the module fpc opens.
abbrev opening : List ℕ → Opening
opening name = record {
  module_loads = bytes_eq name (b'f' ∷ b'p' ∷ b'c' ∷ []);
  module_given = true;
  has_open = true;
  opens = true;
  version_fits = true;
  takes_notify = true;
}

abbrev used_tracker : LockoutTracker
used_tracker = record { failed_count = 19; timed_start = 0; mode = unlocked }

abbrev fresh_tracker : LockoutTracker
fresh_tracker = record { failed_count = 0; timed_start = 0; mode = unlocked }

abbrev session : LockoutTracker → Bool → ℕ → Session
session t closed user = record {
  tracker = t;
  timer_started = false;
  timer_aborted = false;
  timers = 0;
  closed = closed;
  user_id = user;
  has_udfps = false;
  enrollments = [];
}

abbrev service : Session → Service
service s = record { tracker = fresh_tracker; has_udfps = false; session = some s }

closed_first :
    run (method_called close ∷ []) (service (session used_tracker false 10))
    ≡ some (service (session used_tracker true 10))
unfolding call_session close
closed_first = refl

then_created :
    step (session_created 10) (service (session used_tracker true 10))
    ≡ some (service (session fresh_tracker false 10))
unfolding create_session new_session
then_created = refl

-- After nineteen failed attempts, a session that is closed and created again knows of none.
run-created_example :
    (s : Session) × ((service (session fresh_tracker false 10)).session ≡ some s)
    × (s.tracker ≡ fresh_tracker)
run-created_example =
    run-created (method_called close ∷ []) 10 (service (session used_tracker false 10))
      (service (session used_tracker true 10)) (service (session fresh_tracker false 10))
      closed_first then_created
