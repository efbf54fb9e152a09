-- ===== src/Fingerprint/Session/Timers.antt =====
-- The lockout timer of a session, over every order of calls.
use android_hardware_xiaomi.Common.{
  ℕ, suc, ◌<◌, ◌≡◌, true, false, List, [], ◌∷◌, ◌++◌, arith, ltb, leb, if◌then◌else◌,
}
use android_hardware_xiaomi.Common.Int.{ℤ, pos}
use android_hardware_xiaomi.Fingerprint.Lockout.{
  LockoutTracker, LockoutMode, unlocked, timed, permanent, reset, add_failed_attempt, get_mode,
  get_lockout_time_left, timed_duration,
}
use android_hardware_xiaomi.Fingerprint.Token.{HwAuthToken, Endian}
use android_hardware_xiaomi.Fingerprint.Session.{
  Session, Call, device_authenticate, on_lockout_permanent, on_lockout_timed,
  on_authentication_failed, udfps_failed, when_udfps, report_failure, Clock, Message, error_message,
  acquired_message, template_enrolling, template_removed, authenticated, template_enumerating,
  report_lockout, check_sensor_lockout, start_lockout_timer, lockout_timer_expired, reset_lockout,
  authenticate, notify, close,
}

-- The calls that touch the lockout; a timer can expire only while one runs.
pub data Event : Type 0 where
  authenticates : Clock → ℕ → ℤ → Event
  message : Clock → Endian → Message → Event
  resets expires closes : Event

unfoldable pub step : Event → Session → Session
step (authenticates clock operation error) s = (authenticate clock operation error s).0
step (message clock endian m) s = (notify clock endian m s).0
step resets s = (reset_lockout s).0
step expires s = if ltb 0 s.timers then (lockout_timer_expired s).0 else s
step closes s = (close s).0

unfoldable pub run : List Event → Session → Session
run [] s = s
run (e ∷ es) s = run es (step e s)

abbrev pub OneTimer : Session → Type 0
OneTimer s = s.timers ≡ (if s.timer_started then 1 else 0)

report_lockout-OneTimer :
    (mode : LockoutMode) (now : ℕ) (s : Session)
    → OneTimer s
    → OneTimer (report_lockout mode now s).0
unfolding report_lockout start_lockout_timer
report_lockout-OneTimer permanent now s h = ground arith
report_lockout-OneTimer timed now s h = ground arith
report_lockout-OneTimer unlocked now s h = ground arith

check-OneTimer :
    (clock : Clock) (s : Session) → OneTimer s → OneTimer (check_sensor_lockout clock s).0
unfolding check_sensor_lockout
check-OneTimer clock s h = report_lockout-OneTimer _ clock.now _ h

notify-OneTimer :
    (clock : Clock) (endian : Endian) (m : Message) (s : Session)
    → OneTimer s
    → OneTimer (notify clock endian m s).0
unfolding notify
notify-OneTimer clock endian (error_message code) s h = h
notify-OneTimer clock endian (acquired_message info) s h = h
notify-OneTimer clock endian (template_enrolling fid rem) s h = h
notify-OneTimer clock endian (template_removed fid) s h = h
notify-OneTimer clock endian (authenticated fid hat) s h =
    ground (
      arith,
      check-OneTimer clock (record s { tracker = add_failed_attempt clock.now s.tracker }) h,
    )
notify-OneTimer clock endian (template_enumerating fid rem) s h = ground arith

step-OneTimer : (e : Event) (s : Session) → OneTimer s → OneTimer (step e s)
unfolding step authenticate reset_lockout lockout_timer_expired close
step-OneTimer (authenticates clock operation error) s h = check-OneTimer clock s h
step-OneTimer (message clock endian m) s h = notify-OneTimer clock endian m s h
step-OneTimer resets s h = ground arith
step-OneTimer expires s h = ground arith
step-OneTimer closes s h = h

-- In every order of authentications, messages, resets, expiries and closes, this stays true if it is
-- true at first: at most one lockout timer runs, and one runs exactly while the session says that it
-- started one.
pub run-OneTimer : (events : List Event) (s : Session) → OneTimer s → OneTimer (run events s)
unfolding run
run-OneTimer [] s h = h
run-OneTimer (e ∷ es) s h = run-OneTimer es (step e s) (step-OneTimer e s h)

-- An authentication attempt during a permanent lockout with no timer running marks a timer as
-- aborted that does not exist. The mark outlives the framework's reset of the lockout, and the
-- timer of the next timed lockout then ends without a call of onLockoutCleared, whatever the
-- tracker holds at that time.
pub permanent_lockout_stale_abort :
    (clock : Clock) (operation : ℕ) (error : ℤ) (s : Session) (later : LockoutTracker)
    → s.tracker.mode ≡ permanent
    → s.timer_started ≡ false
    → let cleared = (reset_lockout (authenticate clock operation error s).0).0 in
      (cleared.tracker.mode ≡ unlocked)
      × (cleared.timer_aborted ≡ true)
      × ((lockout_timer_expired (start_lockout_timer (record cleared { tracker = later }))).1 ≡ [])
unfolding reset_lockout authenticate check_sensor_lockout report_lockout lockout_timer_expired
    start_lockout_timer get_mode reset
permanent_lockout_stale_abort clock operation error s later p idle = ground arith

-- In a permanent lockout the framework is told so, and the authentication is started all the same:
-- the report is followed by the call of the device's authenticate.
pub authenticate_in_lockout :
    (clock : Clock) (operation : ℕ) (error : ℤ) (s : Session)
    → s.tracker.mode ≡ permanent
    → (authenticate clock operation error s).1
      ≡ on_lockout_permanent ∷ device_authenticate operation s.user_id ∷ report_failure error
unfolding authenticate check_sensor_lockout report_lockout get_mode
authenticate_in_lockout clock operation error s p = ground arith

-- What a number of failures leads to.
abbrev pub mode_of : ℕ → LockoutMode
mode_of n = if leb 20 n then permanent else if leb 5 n then timed else unlocked

abbrev pub lockout_calls : ℕ → List Call
lockout_calls n =
    if leb 20 n
    then on_lockout_permanent ∷ []
    else if leb 5 n
    then on_lockout_timed (pos 10000) ∷ []
    else []

-- A failed attempt on an unlocked sensor at a time after 0, when a lockout that begins at that time
-- has not elapsed: below the fifth failure nothing is reported but the failure, from the fifth on a
-- timed lockout of ten seconds, and from the twentieth on a permanent one. The tracker is in the
-- mode that is reported, and its count is one more.
pub failed_attempt_report :
    (clock : Clock) (endian : Endian) (hat : HwAuthToken) (s : Session)
    → s.tracker.mode ≡ unlocked
    → 0 < clock.now
    → clock.has_elapsed clock.now clock.now timed_duration ≡ false
    → let (s', calls) = notify clock endian (authenticated 0 hat) s in
      (calls
        ≡ (when_udfps s udfps_failed ++ on_authentication_failed ∷ [])
          ++ lockout_calls (suc s.tracker.failed_count))
      × (s'.tracker.mode ≡ mode_of (suc s.tracker.failed_count))
      × (s'.tracker.failed_count ≡ suc s.tracker.failed_count)
unfolding notify check_sensor_lockout report_lockout start_lockout_timer get_mode add_failed_attempt
    get_lockout_time_left
failed_attempt_report clock endian hat s u started fresh =
    (ground arith, ground arith, ground arith)
