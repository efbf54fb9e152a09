-- ===== src/Keyboard/Device.antt =====
-- aidl/keyboard/NanoappDevice.cpp: the character device, its writer and one round of its reader
-- thread. What the system calls return is an argument; an int is an ℤ, an error number a ℕ.
pub mod Transfers
pub mod StopPipe
use android_hardware_xiaomi.Common.{
  ℕ, ◌+◌, Bool, true, false, ◌&&◌, ◌||◌, not, List, [], ◌∷◌, length, Option, none, some, ◌==◌,
  if◌then◌else◌,
}
use android_hardware_xiaomi.Common.Int.{ℤ, pos, neg}
use android_hardware_xiaomi.Keyboard.Frame.{raw_frame_size}
use android_hardware_xiaomi.Keyboard.Reports.{Buffer}
use android_hardware_xiaomi.Keyboard.Client.{decode_client_command}

abbrev pub eio : ℕ
eio = 5

abbrev pub eagain : ℕ
eagain = 11

abbrev pub enodev : ℕ
enodev = 19

abbrev pub einval : ℕ
einval = 22

abbrev pub eshutdown : ℕ
eshutdown = 108

-- `fd` is the device's descriptor while it is open; `stop_pipe` says that the stop pipe exists.
pub record Device : Type 0 where
  pub fd : Option ℕ
  pub stop_pipe : Bool
  pub started : Bool
  pub stopping : Bool

-- What write(2) returns.
pub data WriteOutcome : Type 0 where
  wrote : ℕ → WriteOutcome
  write_failed : ℕ → WriteOutcome

abbrev pub is_open : Device → Bool
is_open d = elim d.fd [ none ↦ false | some f ↦ true ]

abbrev write_result : WriteOutcome → ℕ → ℤ
write_result (wrote n) size = if n == size then pos n else neg (pos eio)
write_result (write_failed e) size = neg (pos e)

-- The result, and the transfers handed to the kernel.
unfoldable pub write_command : Device → WriteOutcome → Buffer → ℤ × List (List ℕ)
write_command d outcome none = (neg (pos einval), [])
write_command d outcome (some bytes) =
    if not (length bytes == raw_frame_size)
    then (neg (pos einval), [])
    else if d.stopping
    then (neg (pos eshutdown), [])
    else if not (is_open d)
    then (neg (pos enodev), [])
    else (write_result outcome (length bytes), bytes ∷ [])

-- KeyboardController::sendClientCommand.
unfoldable pub send_client_command : Device → WriteOutcome → List ℕ → ℤ × List (List ℕ)
send_client_command d outcome command = elim (decode_client_command command) [
  | none ↦ (neg (pos einval), [])
  | some raw ↦ write_command d outcome (some raw)
]

unfoldable pub start : Device → Device
start d = if d.started then d else record d { started = true; stopping = false }

unfoldable pub stop : Device → Device
stop d = if d.started then record d { started = false; stopping = true; fd = none } else d

-- What poll(2) returns: the readiness of the stop pipe, an error flag of the device, its
-- readiness. Flags of a round that timed out are all false.
pub data PollOutcome : Type 0 where
  poll_failed : ℕ → PollOutcome
  polled : Bool → Bool → Bool → PollOutcome

-- What read(2) returns; no bytes is the end of the file.
pub data ReadOutcome : Type 0 where
  bytes_read : List ℕ → ReadOutcome
  read_failed : ℕ → ReadOutcome

pub record ReaderEnv : Type 0 where
  pub opened : Option ℕ
  pub poll : PollOutcome
  pub read : ReadOutcome

pub data Notice : Type 0 where
  data_received : List ℕ → Notice
  error_reported : ℤ → Notice

pub data Next : Type 0 where
  again leave : Next

-- closeDevice(expected): another descriptor that was opened meanwhile stays open.
unfoldable pub close_device : Device → ℕ → Device
close_device d expected = elim d.fd [
  | none ↦ d
  | some f ↦ if f == expected then record d { fd = none } else d
]

-- An error is reported before the descriptor is closed.
abbrev fail : Device → ℕ → ℕ → Device × List Notice × Next
fail d f e = (close_device d f, error_reported (neg (pos e)) ∷ [], again)

take_bytes : Device → ℕ → ReadOutcome → Device × List Notice × Next
take_bytes d f (bytes_read []) = fail d f enodev
take_bytes d f (bytes_read (b ∷ bs)) = (d, data_received (b ∷ bs) ∷ [], again)
take_bytes d f (read_failed e) = if e == eagain then (d, [], again) else fail d f e

after_poll : Device → ℕ → PollOutcome → ReadOutcome → Device × List Notice × Next
after_poll d f (poll_failed e) read = fail d f e
after_poll d f (polled stop_ready broken readable) read =
    if d.stop_pipe && stop_ready
    then (d, [], leave)
    else if broken
    then fail d f enodev
    else if not readable
    then (d, [], again)
    else take_bytes d f read

with_fd : Option ℕ → Device → ReaderEnv → Device × List Notice × Next
with_fd none d env = (d, [], again)
with_fd (some f) d env = after_poll (record d { fd = some f }) f env.poll env.read

-- One round of the reader's `while (!mStopping)`.
unfoldable pub run_round : Device → ReaderEnv → Device × List Notice × Next
unfolding with_fd after_poll take_bytes
run_round d env =
    if d.stopping
    then (d, [], leave)
    else with_fd (elim d.fd [ none ↦ env.opened | some f ↦ some f ]) d env
