-- ===== src/Sensors/OneShot.antt =====
-- sensors/v2/Sensor.cpp, SysfsPollingOneShotSensor: a gesture sensor over two files of the kernel.
-- The sensor's thread holds no lock while it polls, so that a poll is two steps: `begin_poll` and
-- `end_poll`, with calls of the other operations between them. What the poll, the file and the
-- subclass answer is an argument of the step. `enable_file` is the last value written to the enable
-- file, which opened; `wake_bytes` counts the bytes in the wait pipe, `events` those posted.
pub mod Delivery
pub mod Destroy
use android_hardware_xiaomi.Common.{
  ℕ, ◌+◌, ◌-◌, Bool, true, false, ◌&&◌, ◌||◌, not, bool_eq, List, [], ◌∷◌, if◌then◌else◌,
}
use android_hardware_xiaomi.Common.Int.{ℤ, pos, ltb_ℤ}

pub data OperationMode : Type 0 where
  normal data_injection : OperationMode

abbrev pub is_injection : OperationMode → Bool
is_injection normal = false
is_injection data_injection = true

pub record OneShot : Type 0 where
  pub is_enabled : Bool
  pub mode : OperationMode
  pub stop_thread : Bool
  pub polling : Bool
  pub enable_file : Bool
  pub has_wait_pipe : Bool
  pub wake_bytes : ℕ
  pub events : ℕ

unfoldable pub interrupt_poll : OneShot → OneShot
interrupt_poll s = if s.has_wait_pipe then record s { wake_bytes = s.wake_bytes + 1 } else s

-- activate(enable, notify, lock); the lock is what makes it one step.
unfoldable pub activate_notify : Bool → Bool → OneShot → OneShot
unfolding interrupt_poll
activate_notify enable notify s =
    if bool_eq s.is_enabled enable
    then s
    else let written = record s { enable_file = enable; is_enabled = enable } in
      if notify then interrupt_poll written else written

unfoldable pub activate : Bool → OneShot → OneShot
unfolding activate_notify
activate enable s = activate_notify enable true s

unfoldable pub set_operation_mode : OperationMode → OneShot → OneShot
unfolding interrupt_poll
set_operation_mode mode s = interrupt_poll (record s { mode = mode })

-- The thread's loop up to the poll: it waits while the sensor is off or data is injected.
unfoldable pub begin_poll : OneShot → OneShot
begin_poll s =
    if s.stop_thread || not s.is_enabled || is_injection s.mode
    then s
    else record s { polling = true }

-- The events that poll(2) returned: those of the gesture file and those of the wait pipe.
pub data PollResult : Type 0 where
  poll_failed : PollResult
  polled : Bool → Bool → PollResult

-- The loop from the poll on; `detected` is what readFd returns, `deliver` what
-- shouldDeliverEvent does.
unfoldable pub finish_poll : PollResult → Bool → Bool → OneShot → OneShot
unfolding activate_notify
finish_poll poll_failed detected deliver s = record s { stop_thread = true }
finish_poll (polled gesture wake) detected deliver s =
    let off = activate_notify false false s in
    if gesture && detected
    then (if deliver then record off { events = off.events + 1 } else s)
    else if wake
    then record s { wake_bytes = s.wake_bytes - 1 }
    else s

unfoldable pub end_poll : PollResult → Bool → Bool → OneShot → OneShot
unfolding finish_poll
end_poll poll detected deliver s =
    if s.polling then finish_poll poll detected deliver (record s { polling = false }) else s

-- UdfpsSensor::readFd, by how far it gets: sscanf of "%d,%d,%d" assigns no value, one, two or three.
pub data Scan : Type 0 where
  seek_failed read_failed no_value : Scan
  one_value : ℤ → Scan
  two_values : ℤ → ℤ → Scan
  three_values : ℤ → ℤ → ℤ → Scan

pub record Position : Type 0 where
  pub screen_x : ℤ
  pub screen_y : ℤ

unfoldable pub read_udfps : Scan → Position → Position × Bool
read_udfps seek_failed p = (p, false)
read_udfps read_failed p = (p, false)
read_udfps no_value p = (p, false)
read_udfps (one_value state) p =
    (record { screen_x = pos 0; screen_y = pos 0 }, ltb_ℤ (pos 0) state)
read_udfps (two_values x y) p = (record { screen_x = x; screen_y = y }, false)
read_udfps (three_values x y state) p = (record { screen_x = x; screen_y = y }, ltb_ℤ (pos 0) state)
