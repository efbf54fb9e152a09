-- ===== src/Keyboard/Controller.antt =====
-- aidl/keyboard/KeyboardController.cpp: the controller's state, its commands and the gate that
-- registers the input devices. Times are milliseconds of the steady clock.
pub mod Handlers
pub mod QueryLoop
pub mod Gate
pub mod Invariant
pub mod Registration
pub mod Staleness
pub mod Silence
use android_hardware_xiaomi.Common.{
  ℕ, ◌-◌, Bool, true, false, ◌&&◌, ◌||◌, not, List, [], ◌∷◌, ◌++◌, ltb, leb, ◌==◌, if◌then◌else◌,
  bool_eq,
}
use android_hardware_xiaomi.Common.Int.{ℤ}
use android_hardware_xiaomi.Keyboard.Frame.{make_feature_command}
use android_hardware_xiaomi.Keyboard.Reports.{
  StatusReport, KeyboardVersionReport, KeyboardIdentityReport, GsensorReport,
}

abbrev pub status_timeout : ℕ
status_timeout = 6000

pub record Controller : Type 0 where
  pub status : StatusReport
  pub keyboard_version : KeyboardVersionReport
  pub keyboard_identity : KeyboardIdentityReport
  pub gsensor : GsensorReport
  pub mcu_version : List ℕ
  pub have_status : Bool
  pub have_keyboard_identity : Bool
  pub have_gsensor : Bool
  pub have_sleep_state : Bool
  pub keyboard_sleeping : Bool
  pub have_input_hall_state : Bool
  pub have_protocol_hall_state : Bool
  pub input_hall_state : ℕ
  pub protocol_hall_state : ℕ
  pub input_gate_known : Bool
  pub input_enabled : Bool
  pub touchpad_state_known : Bool
  pub touchpad_enabled : Bool
  pub last_status_update : ℕ
  pub last_input_hall_update : ℕ
  pub last_protocol_hall_update : ℕ
  pub started : Bool
  pub stopping : Bool
  pub has_data_callback : Bool
  pub has_error_callback : Bool

-- What a handler finds outside: the time, whether the device is open, whether sendRaw of a frame
-- succeeds, and whether the write to the gate's sysfs file does.
pub record Env : Type 0 where
  pub now : ℕ
  pub device_open : Bool
  pub send : List ℕ → Bool
  pub file_ok : Bool

-- What a handler does outside, in order: a frame handed to sendRaw, a write of "1" or "0" to the
-- gate's file, a call of a callback.
pub data Action : Type 0 where
  send_frame : List ℕ → Action
  write_gate : Bool → Action
  data_callback : List ℕ → Action
  error_callback : ℤ → Action

abbrev pub Step : Type 0
Step = Controller × List Action

-- One part of a handler after another.
infixl 5 ◌>>=◌
abbrev pub ◌>>=◌ : Step → (Controller → Step) → Step
s >>= f = let t = f s.0 in (t.0, s.1 ++ t.1)

abbrev pub input_hall_fresh : ℕ → Controller → Bool
input_hall_fresh now c =
    c.have_input_hall_state && leb (now - c.last_input_hall_update) status_timeout

abbrev pub protocol_hall_fresh : ℕ → Controller → Bool
protocol_hall_fresh now c =
    c.have_protocol_hall_state && leb (now - c.last_protocol_hall_update) status_timeout

-- The state of the gate that updateInputGate computes when it is not forced.
unfoldable pub desired_gate : ℕ → Controller → Bool
desired_gate now c =
    let hall_open =
      (if input_hall_fresh now c
        then c.input_hall_state == 0x11
        else protocol_hall_fresh now c && c.protocol_hall_state == 0x11) in
    let awake = not c.have_sleep_state || not c.keyboard_sleeping in
    c.have_status && c.status.connected && hall_open && awake

-- sendRaw of the touch reporting command, and the commit of its success.
unfoldable pub switch_touchpad : Env → Bool → Controller → Step
switch_touchpad env enabled c =
    let frame = make_feature_command 0x21 (if enabled then 1 else 0) in
    if env.device_open
    then (
      if env.send frame
          then record c { touchpad_enabled = enabled; touchpad_state_known = true }
          else c,
      send_frame frame ∷ [],
    )
    else (c, [])

unfoldable pub update_input_gate : Env → Bool → Bool → Controller → Step
update_input_gate env requested force c =
    let enabled = if force then requested else desired_gate env.now c in
    let gate_needs_write =
      force || not c.input_gate_known || not (bool_eq c.input_enabled enabled) in
    let touchpad_needs_write =
      not c.touchpad_state_known || not (bool_eq c.touchpad_enabled enabled) in
    let off =
      if not enabled && touchpad_needs_write then switch_touchpad env false c else (c, []) in
    let written =
      (if gate_needs_write
        then (
          record off.0 { input_enabled = enabled; input_gate_known = true },
          off.1 ++ write_gate enabled ∷ [],
        )
        else off) in
    let on = switch_touchpad env true written.0 in
    if not gate_needs_write && not touchpad_needs_write
    then (c, [])
    else if gate_needs_write && not env.file_ok
    then (off.0, off.1 ++ write_gate enabled ∷ [])
    else if enabled && touchpad_needs_write
    then (on.0, written.1 ++ on.1)
    else written
