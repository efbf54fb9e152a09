-- ===== src/Sensors/Udfps.antt =====
-- sensors/v1/udfps_hal.cpp: the HAL module of the under-display fingerprint gesture. What the kernel
-- gives to each poll and read is an argument, a list of them for a loop; a result below 0 is -errno.
use android_hardware_xiaomi.Common.{
  ℕ, suc, ◌≡◌, Bool, false, ◌||◌, not, List, [], ◌∷◌, ◌++◌, Option, none, some, arith, ◌==◌,
  if◌then◌else◌,
}
use android_hardware_xiaomi.Common.Int.{ℤ, pos, negsuc}

abbrev pub einval : ℤ
einval = negsuc 21

abbrev pub enodev : ℤ
enodev = negsuc 18

-- What udfps_read_line and sscanf make of the file: nothing read, less than three numbers, or three.
pub data Reading : Type 0 where
  not_read not_parsed : Reading
  parsed : ℤ → ℤ → ℤ → Reading

-- udfps_read_state: the position and the state, if the state is not 0.
unfoldable pub udfps_read_state : Reading → Option (ℤ × ℤ)
udfps_read_state not_read = none
udfps_read_state not_parsed = none
udfps_read_state (parsed x y (pos n)) = if n == 0 then none else some (x, y)
udfps_read_state (parsed x y (negsuc n)) = some (x, y)

-- A call of poll: interrupted by a signal, failed with an error, timed out, or an event to read.
pub data Wait : Type 0 where
  interrupted timed_out : Wait
  failed : ℤ → Wait
  ready : Reading → Wait

-- udfps_poll, over the calls of poll; `waiting` while no call ended it.
pub data Polled : Type 0 where
  waiting : Polled
  poll_error : ℤ → Polled
  event : ℤ → ℤ → Polled

unfoldable pub udfps_poll : List Wait → Polled
unfolding udfps_read_state
udfps_poll [] = waiting
udfps_poll (interrupted ∷ waits) = udfps_poll waits
udfps_poll (timed_out ∷ waits) = udfps_poll waits
udfps_poll (failed code ∷ waits) = poll_error code
udfps_poll (ready reading ∷ waits) = elim (udfps_read_state reading) [
  | none ↦ udfps_poll waits
  | some at ↦ event at.0 at.1
]

-- udfps_flush_events: the calls of poll that are left over when it returns, if it does.
unfoldable pub udfps_flush_events : List Wait → Option (List Wait)
udfps_flush_events [] = none
udfps_flush_events (interrupted ∷ waits) = udfps_flush_events waits
udfps_flush_events (timed_out ∷ waits) = some waits
udfps_flush_events (failed code ∷ waits) = some waits
udfps_flush_events (ready reading ∷ waits) = udfps_flush_events waits

-- udfps_activate: whether the events are flushed first, and the result.
unfoldable pub udfps_activate : Bool → ℕ → Bool → Bool × ℤ
udfps_activate has_context handle enabled =
    if not has_context || not (handle == 0) then (false, einval) else (enabled, pos 0)

unfoldable pub udfps_set_delay : Bool → ℕ → ℤ
udfps_set_delay has_context handle = if not has_context || not (handle == 0) then einval else pos 0

unfoldable pub udfps_set_operation_mode : ℕ → ℤ
udfps_set_operation_mode mode = if mode == 0 then pos 0 else einval

-- open_sensors: the first of the files that opens, by its place.
unfoldable pub open_sensors : List Bool → ℕ → Option ℕ
open_sensors [] i = none
open_sensors (opens ∷ files) i = if opens then some i else open_sensors files (suc i)

-- A call of poll that ends the loop.
abbrev pub outcome : Wait → Option Polled
outcome interrupted = none
outcome timed_out = none
outcome (failed code) = some (poll_error code)
outcome (ready reading) = elim reading [
  | not_read ↦ none
  | not_parsed ↦ none
  | parsed x y state ↦ elim state [
    | pos n ↦ if n == 0 then none else some (event x y)
    | negsuc n ↦ some (event x y)
  ]
]

abbrev pub Quiet : List Wait → Type 0
Quiet [] = Unit
Quiet (w ∷ waits) = (outcome w ≡ none) × Quiet waits

-- The poll returns as soon as the kernel reports an error or a state that is not 0, with that
-- error or the position that stood before that state, whatever signals, timeouts, unreadable
-- texts and readings of state 0 came before.
pub udfps_poll_returns :
    (before : List Wait) (w : Wait) (behind : List Wait) (p : Polled)
    → Quiet before
    → outcome w ≡ some p
    → udfps_poll (before ++ w ∷ behind) ≡ p
unfolding udfps_poll udfps_read_state
udfps_poll_returns [] interrupted behind p quiet o = ground arith
udfps_poll_returns [] timed_out behind p quiet o = ground arith
udfps_poll_returns [] (failed code) behind p quiet o = ground arith
udfps_poll_returns [] (ready not_read) behind p quiet o = ground arith
udfps_poll_returns [] (ready not_parsed) behind p quiet o = ground arith
udfps_poll_returns [] (ready (parsed x y (pos n))) behind p quiet o = ground arith
udfps_poll_returns [] (ready (parsed x y (negsuc n))) behind p quiet o = ground arith
udfps_poll_returns (interrupted ∷ before) w behind p quiet o =
    udfps_poll_returns before w behind p quiet.1 o
udfps_poll_returns (timed_out ∷ before) w behind p quiet o =
    udfps_poll_returns before w behind p quiet.1 o
udfps_poll_returns (failed code ∷ before) w behind p quiet o = ground arith
udfps_poll_returns (ready not_read ∷ before) w behind p quiet o =
    udfps_poll_returns before w behind p quiet.1 o
udfps_poll_returns (ready not_parsed ∷ before) w behind p quiet o =
    udfps_poll_returns before w behind p quiet.1 o
udfps_poll_returns (ready (parsed x y (pos n)) ∷ before) w behind p quiet o =
    let rest = udfps_poll_returns before w behind p quiet.1 o in ground arith
udfps_poll_returns (ready (parsed x y (negsuc n)) ∷ before) w behind p quiet o = ground arith
