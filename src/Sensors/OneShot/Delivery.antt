-- ===== src/Sensors/OneShot/Delivery.antt =====
-- What a one-shot sensor delivers, over every order of calls and polls.
use android_hardware_xiaomi.Common.{
  ℕ, ◌+◌, ◌≤◌, ◌≡◌, Bool, true, false, ◌||◌, List, [], ◌∷◌, arith, if◌then◌else◌,
}
use android_hardware_xiaomi.Sensors.OneShot.{
  OneShot, OperationMode, PollResult, poll_failed, polled, activate, set_operation_mode, begin_poll,
  end_poll,
}

pub data Step : Type 0 where
  activates : Bool → Step
  sets_mode : OperationMode → Step
  begins : Step
  ends : PollResult → Bool → Bool → Step

unfoldable pub step : Step → OneShot → OneShot
step (activates enable) s = activate enable s
step (sets_mode mode) s = set_operation_mode mode s
step begins s = begin_poll s
step (ends poll detected deliver) s = end_poll poll detected deliver s

unfoldable pub run : List Step → OneShot → OneShot
run [] s = s
run (e ∷ es) s = run es (step e s)

-- The calls that ask for a subscription.
abbrev pub subscriptions : List Step → ℕ
subscriptions [] = 0
subscriptions (activates true ∷ es) = 1 + subscriptions es
subscriptions (activates false ∷ es) = subscriptions es
subscriptions (sets_mode mode ∷ es) = subscriptions es
subscriptions (begins ∷ es) = subscriptions es
subscriptions (ends poll detected deliver ∷ es) = subscriptions es

-- What may still be posted without another subscription.
abbrev pub armed : OneShot → ℕ
armed s = if s.is_enabled || s.polling then 1 else 0

-- An enable file that agrees with the sensor.
abbrev pub FileAgrees : OneShot → Type 0
FileAgrees s = s.enable_file ≡ s.is_enabled

end_poll_events :
    (poll : PollResult) (detected deliver : Bool) (s : OneShot)
    → (end_poll poll detected deliver s).events + armed (end_poll poll detected deliver s)
      ≤ s.events + armed s
unfolding end_poll
end_poll_events poll_failed detected deliver s = ground arith
end_poll_events (polled gesture wake) detected deliver s = ground arith

-- A sensor posts at most one event for each call that activates it: over any order of activations,
-- mode changes and polls, the events and the one that may be under way do not exceed those at the
-- beginning by more than the number of activations.
pub run_events :
    (es : List Step) (s : OneShot)
    → (run es s).events + armed (run es s) ≤ s.events + armed s + subscriptions es
unfolding run step activate set_operation_mode begin_poll end_poll
run_events [] s = omega arith
run_events (activates true ∷ es) s = let rest = run_events es (activate true s) in ground arith
run_events (activates false ∷ es) s = let rest = run_events es (activate false s) in ground arith
run_events (sets_mode mode ∷ es) s =
    let rest = run_events es (set_operation_mode mode s) in ground arith
run_events (begins ∷ es) s = let rest = run_events es (begin_poll s) in ground arith
run_events (ends poll detected deliver ∷ es) s =
    let rest = run_events es (end_poll poll detected deliver s) in
    let one = end_poll_events poll detected deliver s in omega (arith, rest, one)

step-FileAgrees : (e : Step) (s : OneShot) → FileAgrees s → FileAgrees (step e s)
unfolding step activate set_operation_mode begin_poll end_poll
step-FileAgrees (activates enable) s h = ground arith
step-FileAgrees (sets_mode mode) s h = ground arith
step-FileAgrees begins s h = ground arith
step-FileAgrees (ends poll_failed detected deliver) s h = ground arith
step-FileAgrees (ends (polled gesture wake) detected deliver) s h = ground arith

-- Over any order of activations, mode changes and polls, the kernel's enable file keeps the value
-- that the sensor believes in, if it has it at first.
pub run-FileAgrees : (es : List Step) (s : OneShot) → FileAgrees s → FileAgrees (run es s)
unfolding run
run-FileAgrees [] s h = h
run-FileAgrees (e ∷ es) s h = run-FileAgrees es (step e s) (step-FileAgrees e s h)

-- A poll that is under way is not called off: if the sensor is switched off or put in data injection
-- while it polls, a gesture that the poll returns is posted all the same.
pub late_delivery :
    (mode : OperationMode) (wake : Bool) (s : OneShot)
    → s.polling ≡ true
    → let off = set_operation_mode mode (activate false s) in
      (off.is_enabled ≡ false) × ((end_poll (polled true wake) true true off).events ≡ s.events + 1)
unfolding activate set_operation_mode end_poll
late_delivery mode wake s polls = (ground arith, ground arith)
