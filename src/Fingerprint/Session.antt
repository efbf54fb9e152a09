-- ===== src/Fingerprint/Session.antt =====
-- aidl/fingerprint/Session.cpp, CancellationSignal.cpp: the session, in the default build (IMPL_V2
-- not defined). A method returns the new session and the calls that it makes, in order, of the
-- vendor's device, the under-display handler and the framework's callback. What the device returns
-- is an argument. Each running thread of startLockoutTimer counts in `timers`.
pub mod Timers
pub mod Messages
use android_hardware_xiaomi.Common.{
  ℕ, suc, ◌+◌, ◌-◌, Bool, true, false, not, List, [], ◌∷◌, ◌++◌, ◌==◌, if◌then◌else◌,
}
use android_hardware_xiaomi.Common.Int.{ℤ, pos, negsuc}
use android_hardware_xiaomi.Fingerprint.Lockout.{
  LockoutTracker, LockoutMode, unlocked, timed, permanent, HasElapsed, reset, add_failed_attempt,
  get_mode, get_lockout_time_left,
}
use android_hardware_xiaomi.Fingerprint.Codes.{
  Error, unable_to_process, canceled, AcquiredInfo, good, partial, insufficient, sensor_dirty,
  too_slow, too_fast, vendor_acquired, unknown, vendor_error_filter, vendor_acquired_filter,
}
use android_hardware_xiaomi.Fingerprint.Token.{
  HardwareAuthToken, HwAuthToken, Endian, to_legacy, from_legacy,
}

-- `enrollments` is the static vector of notify, which a new session finds as the last one left it.
pub record Session : Type 0 where
  pub tracker : LockoutTracker
  pub timer_started : Bool
  pub timer_aborted : Bool
  pub timers : ℕ
  pub closed : Bool
  pub user_id : ℕ
  pub has_udfps : Bool
  pub enrollments : List ℕ

pub data Call : Type 0 where
  set_active_group : ℕ → Call
  pre_enroll post_enroll : Call
  device_enroll : HwAuthToken → ℕ → ℕ → Call
  device_authenticate : ℕ → ℕ → Call
  device_enumerate device_get_authenticator_id device_cancel : Call
  device_remove : ℕ → ℕ → Call
  udfps_finger_down udfps_finger_up udfps_cancel udfps_succeeded udfps_failed : Call
  udfps_acquired : AcquiredInfo → ℕ → Call
  on_challenge_generated on_challenge_revoked : ℕ → Call
  on_error : Error → ℤ → Call
  on_acquired : AcquiredInfo → ℕ → Call
  on_enrollment_progress : ℕ → ℕ → Call
  on_enrollments_removed on_enrollments_enumerated : List ℕ → Call
  on_authentication_succeeded : ℕ → HardwareAuthToken → Call
  on_authentication_failed on_lockout_permanent on_lockout_cleared on_session_closed : Call
  on_lockout_timed : ℤ → Call
  on_authenticator_id_retrieved on_authenticator_id_invalidated : ℕ → Call
  delete_death_recipient : Call

abbrev pub Step : Type 0
Step = Session × List Call

-- One part of a method after another.
infixl 5 ◌>>=◌
abbrev pub ◌>>=◌ : Step → (Session → Step) → Step
s >>= f = let t = f s.0 in (t.0, s.1 ++ t.1)

-- What a method finds outside: the time, and Util::hasElapsed.
pub record Clock : Type 0 where
  pub now : ℕ
  pub has_elapsed : HasElapsed

abbrev pub when_udfps : Session → Call → List Call
when_udfps s call = if s.has_udfps then call ∷ [] else []

unfoldable pub new_session : Bool → ℕ → LockoutTracker → List ℕ → Step
new_session udfps user tracker enrollments = (
  record {
    tracker = tracker;
    timer_started = false;
    timer_aborted = false;
    timers = 0;
    closed = false;
    user_id = user;
    has_udfps = udfps;
    enrollments = enrollments;
  },
  set_active_group user ∷ [],
)

unfoldable pub clear_lockout : Bool → Session → Step
clear_lockout clear_counter s =
    (record s { tracker = reset clear_counter s.tracker }, on_lockout_cleared ∷ [])

unfoldable pub start_lockout_timer : Session → Session
start_lockout_timer s = record s { timer_started = true; timers = s.timers + 1 }

-- The timer's thread ends with it.
unfoldable pub lockout_timer_expired : Session → Step
unfolding clear_lockout
lockout_timer_expired s =
    let cleared = if s.timer_aborted then (s, []) else clear_lockout false s in
    (
      record (cleared.0) { timer_started = false; timer_aborted = false; timers = s.timers - 1 },
      cleared.1,
    )

report_lockout : LockoutMode → ℕ → Session → Step
report_lockout permanent now s = (record s { timer_aborted = true }, on_lockout_permanent ∷ [])
report_lockout timed now s = (
  if s.timer_started then s else start_lockout_timer s,
  on_lockout_timed (get_lockout_time_left now s.tracker) ∷ [],
)
report_lockout unlocked now s = (s, [])

-- The result, whether the sensor is locked, is used by no caller.
unfoldable pub check_sensor_lockout : Clock → Session → Step
unfolding report_lockout start_lockout_timer
check_sensor_lockout clock s =
    let t = get_mode clock.has_elapsed clock.now s.tracker in
    report_lockout t.mode clock.now (record s { tracker = t })

unfoldable pub generate_challenge : ℕ → Session → Step
generate_challenge challenge s = (s, pre_enroll ∷ on_challenge_generated challenge ∷ [])

unfoldable pub revoke_challenge : ℕ → Session → Step
revoke_challenge challenge s = (s, post_enroll ∷ on_challenge_revoked challenge ∷ [])

abbrev is_zero : ℤ → Bool
is_zero (pos n) = n == 0
is_zero (negsuc n) = false

abbrev pub report_failure : ℤ → List Call
report_failure error = if is_zero error then [] else on_error unable_to_process error ∷ []

-- The struct that the token is written into is not initialised: `blank`.
unfoldable pub enroll : Endian → HwAuthToken → HardwareAuthToken → ℤ → Session → Step
enroll endian blank token error s =
    (s, device_enroll (to_legacy endian token blank) s.user_id 60 ∷ report_failure error)

unfoldable pub authenticate : Clock → ℕ → ℤ → Session → Step
unfolding check_sensor_lockout
authenticate clock operation error s = check_sensor_lockout clock s >>= λ t.
    (t, device_authenticate operation t.user_id ∷ report_failure error)

unfoldable pub detect_interaction : Session → Step
detect_interaction s = (s, on_error unable_to_process (pos 0) ∷ [])

unfoldable pub enumerate_enrollments : Session → Step
enumerate_enrollments s = (s, device_enumerate ∷ [])

removals : ℕ → List ℕ → List Call
removals user [] = []
removals user (fid ∷ fids) = device_remove user fid ∷ removals user fids

unfoldable pub remove_enrollments : List ℕ → Session → Step
unfolding removals
remove_enrollments fids s = (s, removals s.user_id fids)

unfoldable pub get_authenticator_id : ℕ → Session → Step
get_authenticator_id id s = (s, device_get_authenticator_id ∷ on_authenticator_id_retrieved id ∷ [])

unfoldable pub invalidate_authenticator_id : ℕ → Session → Step
invalidate_authenticator_id id s =
    (s, device_get_authenticator_id ∷ on_authenticator_id_invalidated id ∷ [])

unfoldable pub reset_lockout : Session → Step
unfolding clear_lockout
reset_lockout s =
    let cleared = clear_lockout true s in
    (if s.timer_started then record (cleared.0) { timer_aborted = true } else cleared.0, cleared.1)

unfoldable pub on_pointer_down : Session → Step
on_pointer_down s = (s, when_udfps s udfps_finger_down)

unfoldable pub on_pointer_up : Session → Step
on_pointer_up s = (s, when_udfps s udfps_finger_up)

-- The status: the device's result, zero for ok.
unfoldable pub cancel : ℤ → Session → Step × ℤ
cancel result s = (
  (
    s,
    when_udfps s udfps_cancel
        ++ device_cancel ∷ (if is_zero result then on_error canceled (pos 0) ∷ [] else []),
  ),
  result,
)

unfoldable pub close : Session → Step
close s = (record s { closed = true }, on_session_closed ∷ delete_death_recipient ∷ [])

-- onClientDeath.
unfoldable pub on_client_death : Session → Step
unfolding close
on_client_death s = if s.closed then (s, []) else close s

-- A message of the vendor's library.
pub data Message : Type 0 where
  error_message : ℤ → Message
  acquired_message : ℤ → Message
  template_enrolling : ℕ → ℕ → Message
  template_removed : ℕ → Message
  authenticated : ℕ → HwAuthToken → Message
  template_enumerating : ℕ → ℕ → Message

abbrev is_vendor : AcquiredInfo → Bool
is_vendor vendor_acquired = true
is_vendor _ = false

-- The token that notify fills in is a new one.
abbrev empty_token : HardwareAuthToken
empty_token = record {
  challenge = 0;
  user_id = 0;
  authenticator_id = 0;
  authenticator_type = 0;
  milli_seconds = 0;
  mac = [];
}

unfoldable pub notify : Clock → Endian → Message → Session → Step
unfolding check_sensor_lockout
notify clock endian (error_message code) s =
    let (result, vendor_code) = vendor_error_filter code in
    (s, on_error result (pos vendor_code) ∷ [])
notify clock endian (acquired_message info) s =
    let (result, vendor_code) = vendor_acquired_filter info in
    (
      s,
      when_udfps s (udfps_acquired result vendor_code)
          ++ (if is_vendor result then [] else on_acquired result vendor_code ∷ []),
    )
notify clock endian (template_enrolling fid remaining) s =
    (s, on_enrollment_progress fid remaining ∷ [])
notify clock endian (template_removed fid) s = (s, on_enrollments_removed (fid ∷ []) ∷ [])
notify clock endian (authenticated fid hat) s =
    if not (fid == 0)
    then (
      record s { tracker = reset true s.tracker },
      when_udfps s udfps_succeeded
          ++ on_authentication_succeeded fid (from_legacy endian hat empty_token) ∷ [],
    )
    else (
      record s { tracker = add_failed_attempt clock.now s.tracker },
      when_udfps s udfps_failed ++ on_authentication_failed ∷ [],
    )
      >>= check_sensor_lockout clock
notify clock endian (template_enumerating fid remaining) s =
    let found = s.enrollments ++ fid ∷ [] in
    if remaining == 0
    then (record s { enrollments = [] }, on_enrollments_enumerated found ∷ [])
    else (record s { enrollments = found }, [])
