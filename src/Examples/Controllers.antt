-- ===== src/Examples/Controllers.antt =====
-- aidl/keyboard/KeyboardController.cpp: a controller that has heard of a connected keyboard.
use android_hardware_xiaomi.Common.{none, some, ◌≡◌, refl, true, false, [], ◌∷◌, replicate}
use android_hardware_xiaomi.Common.Int.{pos, negsuc}
use android_hardware_xiaomi.Keyboard.Reports.{StatusReport}
use android_hardware_xiaomi.Keyboard.Controller.{Controller, Env, desired_gate, update_input_gate}
use android_hardware_xiaomi.Keyboard.Controller.Gate.{Orderly, update_input_gate-Orderly}
use android_hardware_xiaomi.Keyboard.Controller.Invariant.{
  starts, hall_switch, device_error, query, step, run, Inv, run-Inv, Justified,
}
use android_hardware_xiaomi.Keyboard.Controller.Registration.{step-Justified, step-Closes}
use android_hardware_xiaomi.Keyboard.Controller.Staleness.{stale_status_registers}
use android_hardware_xiaomi.Keyboard.Hall.{
  Monitor, Switches, InputEvent, polled, events_read, leave, start, stop, run_round,
}
use android_hardware_xiaomi.Keyboard.Hall.Snapshots.{
  report_all, closed_cover_removes, restart_leaves,
}
use android_hardware_xiaomi.Keyboard.Controller.QueryLoop.{fresh_progress, status_timed_out}
use android_hardware_xiaomi.Keyboard.Device as Device
use android_hardware_xiaomi.Keyboard.Service.{Keyboard, reader, take_turn}
use android_hardware_xiaomi.Keyboard.Service.Turns.{lost_device_removes}

abbrev pub connected_status : StatusReport
connected_status = record {
  connected = true;
  pogo_pin_healthy = true;
  over_current = false;
  leather_case_or_trx_error = false;
  keyboard_status = 0x23;
  battery_millivolts = 3600;
  uart_errors = 0;
  ppm_errors = 0;
  serial = 5;
  power_up_count = 1;
}

-- The cover is open, the status is known, and nothing is registered yet.
abbrev pub attached : Controller
attached = record {
  status = connected_status;
  keyboard_version = record {
    keyboard_version = 1;
    touchpad_version = 1;
    keyboard_info = 0;
    keyboard_type = 0;
    touchpad_type = 0;
    bluetooth = false;
  };
  keyboard_identity = record { bluetooth_address = replicate 6 0 };
  gsensor = record { raw_x = pos 0; raw_y = pos 0; raw_z = pos 0; x = pos 0; y = pos 0; z = pos 0 };
  mcu_version = [];
  have_status = true;
  have_keyboard_identity = false;
  have_gsensor = false;
  have_sleep_state = false;
  keyboard_sleeping = false;
  have_input_hall_state = true;
  have_protocol_hall_state = false;
  input_hall_state = 0x11;
  protocol_hall_state = 0;
  input_gate_known = true;
  input_enabled = false;
  touchpad_state_known = false;
  touchpad_enabled = false;
  last_status_update = 1000;
  last_input_hall_update = 1000;
  last_protocol_hall_update = 0;
  started = true;
  stopping = false;
  has_data_callback = false;
  has_error_callback = false;
}

abbrev env : Env
env = record { now = 2000; device_open = true; send = λ f. true; file_ok = true }

-- A test: the gate opens in this state.
opens : desired_gate 2000 attached ≡ true
unfolding desired_gate
opens = refl

step-Justified_example : Justified 2000 (step env (hall_switch true true true) attached)
step-Justified_example = step-Justified env (hall_switch true true true) attached refl refl

step-Closes_example :
    ((step env (device_error (negsuc 18)) attached).input_gate_known ≡ true)
    × ((step env (device_error (negsuc 18)) attached).input_enabled ≡ false)
step-Closes_example = step-Closes env (device_error (negsuc 18)) attached refl tt

update_input_gate-Orderly_example :
    Orderly true false false (update_input_gate env true false attached).1
update_input_gate-Orderly_example = update_input_gate-Orderly env true false attached

run-Inv_example : Inv (
    run
      ((env, hall_switch true true true) ∷ (env, query fresh_progress) ∷ (env, starts) ∷ [])
      attached)
run-Inv_example =
    run-Inv ((env, hall_switch true true true) ∷ (env, query fresh_progress) ∷ (env, starts) ∷ [])
      attached (record { asleep = refl; absent = refl })

-- The Hall switches of an open cover, and the event of a lid that is shut.
abbrev switches : Switches
switches = record { fd = 4; lid_open = true; tablet_open = true }

abbrev monitor : Monitor
monitor = record {
  device = some switches;
  stop_pipe = true;
  stop_signal = false;
  started = true;
  stopping = false;
}

abbrev lid_shut : InputEvent
lid_shut = record { kind = 5; code = 0; value = 1 }

closed_cover_removes_example :
    let (m, reports, next) =
      run_round [] (polled false true) (events_read (lid_shut ∷ [])) monitor in
    let c = report_all env reports attached in
    (c.input_gate_known ≡ true) × (c.input_enabled ≡ false)
closed_cover_removes_example =
    closed_cover_removes env [] (lid_shut ∷ []) monitor switches attached refl refl refl refl refl
      refl

restart_leaves_example :
    let again_started = record (start (stop monitor)) { device = some switches } in
    (again_started.started ≡ true)
    × (again_started.stopping ≡ false)
    × ((run_round [] (polled false true) (events_read (lid_shut ∷ [])) again_started).1 ≡ [])
    × ((run_round [] (polled false true) (events_read (lid_shut ∷ [])) again_started).2 ≡ leave)
restart_leaves_example =
    restart_leaves [] false true (events_read (lid_shut ∷ [])) monitor switches refl refl

-- The keyboard's device disappears while it is read.
abbrev device_gone : Device.ReaderEnv
device_gone = record {
  opened = none;
  poll = Device.polled false true false;
  read = Device.read_failed 5;
}

abbrev keyboard : Keyboard
keyboard = record {
  device = record { fd = some 3; stop_pipe = true; started = true; stopping = false };
  monitor = monitor;
  controller = attached;
}

-- The status came seven seconds before.
abbrev old_status : Controller
old_status = record attached { last_status_update = 0 }

abbrev later : Env
later = record env { now = 7000 }

abbrev opened : Controller
opened = step later (hall_switch true true true) old_status

abbrev checked : Controller
checked = step later (query fresh_progress) opened

stale_status_registers_example :
    (opened.input_gate_known ≡ true)
    × (opened.input_enabled ≡ true)
    × (checked.input_gate_known ≡ true)
    × (checked.input_enabled ≡ false)
stale_status_registers_example =
    stale_status_registers later fresh_progress old_status refl (unfold status_timed_out in refl)
      refl

-- A test: the round closes the device.
device_closed : (take_turn (reader env device_gone) keyboard).device.fd ≡ none
unfolding take_turn Device.run_round Device.close_device
device_closed = refl

lost_device_removes_example :
    let c = (take_turn (reader env device_gone) keyboard).controller in
    (c.input_gate_known ≡ true) × (c.input_enabled ≡ false)
lost_device_removes_example =
    lost_device_removes env device_gone keyboard 3 refl refl refl device_closed
