-- ===== src/Keyboard/Controller/Handlers.antt =====
-- aidl/keyboard/KeyboardController.cpp: what runs on the reader, Hall and Binder threads. Each
-- handler is one step; the logs are left out.
use android_hardware_xiaomi.Common.{
  ℕ, Bool, true, false, ◌&&◌, List, [], ◌∷◌, length, Option, none, some, ltb, leb, ◌==◌,
  if◌then◌else◌, bit_or,
}
use android_hardware_xiaomi.Common.Int.{ℤ}
use android_hardware_xiaomi.Keyboard.Reports.{
  byte, StatusReport, KeyboardVersionReport, KeyboardIdentityReport, GsensorReport, SleepReport,
  parse_status_report, parse_keyboard_version_report, parse_mcu_version_report,
  parse_keyboard_identity_report, parse_gsensor_report, parse_sleep_report, parse_hall_report,
}
use android_hardware_xiaomi.Keyboard.Client.{wrap_device_payload}
use android_hardware_xiaomi.Keyboard.Controller.{
  Controller, Env, data_callback, error_callback, Step, ◌>>=◌, update_input_gate,
}

-- start(): the forced write removes what an earlier run left registered. The two threads that it
-- starts are the reader and the query loop.
unfoldable pub start : Env → Controller → Step
start env c =
    if c.started
    then (c, [])
    else update_input_gate env false true (record c { started = true; stopping = false })

-- stop(): the gate is forced shut when the device is stopped, hence closed.
unfoldable pub stop : Env → Controller → Step
stop env c =
    if c.started
    then update_input_gate (record env { device_open = false }) false true
        (record c { started = false; stopping = true })
    else (c, [])

unfoldable pub set_callbacks : Bool → Bool → Controller → Controller
set_callbacks on_data on_error c = record c {
  has_data_callback = on_data;
  has_error_callback = on_error;
}

unfoldable pub handle_status : Env → StatusReport → Controller → Step
handle_status env status c =
    if c.have_sleep_state && c.keyboard_sleeping
    then (c, [])
    else update_input_gate env status.connected false
        (record c { status = status; have_status = true; last_status_update = env.now })

unfoldable pub on_hall_switch_state : Env → Bool → Bool → Bool → Controller → Step
on_hall_switch_state env valid lid_open tablet_open c =
    let state = bit_or (if lid_open then 0x10 else 0) (if tablet_open then 0x01 else 0) in
    update_input_gate env false false (
      if valid
      then record c {
        have_input_hall_state = true;
        input_hall_state = state;
        last_input_hall_update = env.now;
      }
      else record c { have_input_hall_state = false })

unfoldable pub handle_version : KeyboardVersionReport → Controller → Step
handle_version version c = (record c { keyboard_version = version }, [])

unfoldable pub handle_mcu_version : List ℕ → Controller → Step
handle_mcu_version version c = (record c { mcu_version = version }, [])

unfoldable pub handle_identity : KeyboardIdentityReport → Controller → Step
handle_identity identity c =
    (record c { keyboard_identity = identity; have_keyboard_identity = true }, [])

unfoldable pub handle_gsensor : GsensorReport → Controller → Step
handle_gsensor gsensor c = (record c { gsensor = gsensor; have_gsensor = true }, [])

abbrev pub disconnected : StatusReport → StatusReport
disconnected s = record s { connected = false }

unfoldable pub handle_sleep : Env → SleepReport → Controller → Step
handle_sleep env sleep c = update_input_gate env false false (
    if sleep.sleeping
    then record c {
      have_sleep_state = true;
      keyboard_sleeping = true;
      have_status = false;
      status = disconnected c.status;
    }
    else record c {
      have_sleep_state = true;
      keyboard_sleeping = false;
      touchpad_state_known = false;
    })

unfoldable pub handle_hall : Env → ℕ → Controller → Step
handle_hall env hall c = update_input_gate env false false (record c {
  protocol_hall_state = hall;
  have_protocol_hall_state = true;
  last_protocol_hall_update = env.now;
})

-- The handler of a report, if the parser returned one.
abbrev pub on_report : {A : Type 0} → Option A → (A → Controller → Step) → Controller → Step
on_report none f c = (c, [])
on_report (some a) f c = f a c

unfoldable pub deliver : List ℕ → Controller → Step
deliver bytes c =
    let frame = wrap_device_payload (some bytes) in
    (c, if c.has_data_callback && ltb 0 (length frame) then data_callback frame ∷ [] else [])

-- The private debug-level packet.
abbrev pub is_debug_packet : List ℕ → Bool
is_debug_packet bytes =
    leb 4 (length bytes) && byte bytes 0 == 0x27 && byte bytes 2 == 0xff && byte bytes 3 == 0xff

-- The feature and acknowledgement reports are logged only.
unfoldable pub on_device_data : Env → List ℕ → Controller → Step
on_device_data env bytes c =
    if is_debug_packet bytes
    then (c, [])
    else on_report (parse_status_report (some bytes)) (handle_status env) c
      >>= on_report (parse_keyboard_version_report (some bytes)) handle_version
      >>= on_report (parse_mcu_version_report (some bytes)) handle_mcu_version
      >>= on_report (parse_keyboard_identity_report (some bytes)) handle_identity
      >>= on_report (parse_gsensor_report (some bytes)) handle_gsensor
      >>= on_report (parse_sleep_report (some bytes)) (handle_sleep env)
      >>= on_report (parse_hall_report (some bytes)) (handle_hall env)
      >>= deliver bytes

report_error : ℤ → Controller → Step
report_error error c = (c, if c.has_error_callback then error_callback error ∷ [] else [])

-- What the controller forgets when the device fails.
unfoldable pub forget_device : Controller → Controller
forget_device c = record c {
  have_status = false;
  have_protocol_hall_state = false;
  have_keyboard_identity = false;
  have_gsensor = false;
  have_sleep_state = false;
  keyboard_sleeping = false;
  status = disconnected c.status;
}

unfoldable pub on_device_error : Env → ℤ → Controller → Step
unfolding report_error forget_device
on_device_error env error c =
    update_input_gate env false false
      (record (forget_device c) { input_gate_known = false; touchpad_state_known = false })
    >>= report_error error
