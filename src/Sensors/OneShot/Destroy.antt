-- ===== src/Sensors/OneShot/Destroy.antt =====
-- sensors/v2/Sensor.cpp, the destructors of a gesture sensor. ~SysfsPollingOneShotSensor interrupts
-- the poll, and only then ~Sensor sets the flag that ends the thread, which runs in between.
use android_hardware_xiaomi.Common.{◌+◌, ◌≡◌, Bool, true, false, arith}
use android_hardware_xiaomi.Sensors.OneShot.{
  OneShot, PollResult, polled, normal, interrupt_poll, activate_notify, begin_poll, finish_poll,
  end_poll,
}

unfoldable pub begin_destroy : OneShot → OneShot
unfolding interrupt_poll
begin_destroy s = interrupt_poll s

-- ~Sensor, up to the join.
unfoldable pub end_destroy : OneShot → OneShot
end_destroy s = record s { stop_thread = true; is_enabled = false }

-- Without a turn of the thread in between, the poll finds a byte in the pipe, and the thread polls no
-- more.
pub destroy_wakes :
    (s : OneShot) (poll : PollResult) (detected deliver : Bool)
    → s.has_wait_pipe ≡ true
    → let d = end_destroy (begin_destroy s) in
      (d.wake_bytes ≡ s.wake_bytes + 1)
      × ((begin_poll (end_poll poll detected deliver d)).polling ≡ false)
unfolding begin_destroy end_destroy interrupt_poll begin_poll end_poll finish_poll activate_notify
destroy_wakes s poll detected deliver piped = ground arith

-- If a sensor is destroyed that is switched on in normal mode, with its thread polling and nothing
-- in its wait pipe, and the thread reads the byte that interrupts the poll and comes to the next
-- poll before ~Sensor sets the flag, then the thread polls on with the flag set and again nothing
-- in the pipe.
pub destroy_stuck :
    (s : OneShot) (detected deliver : Bool)
    → s.has_wait_pipe ≡ true
    → s.polling ≡ true
    → s.is_enabled ≡ true
    → s.mode ≡ normal
    → s.stop_thread ≡ false
    → s.wake_bytes ≡ 0
    → let d =
        end_destroy
          (begin_poll (end_poll (polled false true) detected deliver (begin_destroy s))) in
      (d.stop_thread ≡ true) × (d.polling ≡ true) × (d.wake_bytes ≡ 0)
unfolding begin_destroy end_destroy interrupt_poll begin_poll end_poll finish_poll activate_notify
destroy_stuck s detected deliver piped polling enabled mode going empty = ground arith
