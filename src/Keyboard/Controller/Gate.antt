-- ===== src/Keyboard/Controller/Gate.antt =====
-- What updateInputGate leaves behind, and in which order it acts.
use android_hardware_xiaomi.Common.{
  ℕ, ◌≡◌, refl, ap, Bool, true, false, ◌&&◌, ◌||◌, not, List, [], ◌∷◌, arith, ◌==◌,
}
use android_hardware_xiaomi.Keyboard.Frame.{make_feature_command, make_command, write_at}
use android_hardware_xiaomi.Keyboard.Reports.{byte}
use android_hardware_xiaomi.Keyboard.Controller.{
  Controller, Env, Action, send_frame, write_gate, data_callback, error_callback, desired_gate,
  switch_touchpad, update_input_gate,
}

-- The state with its record of the gate and the touchpad replaced by that of another state.
abbrev pub with_gate_of : Controller → Controller → Controller
with_gate_of c c' = record c {
  input_gate_known = c'.input_gate_known;
  input_enabled = c'.input_enabled;
  touchpad_state_known = c'.touchpad_state_known;
  touchpad_enabled = c'.touchpad_enabled;
}

-- An update changes nothing but what is recorded of the gate and the touchpad.
pub update_input_gate-frame :
    (env : Env) (requested force : Bool) (c : Controller)
    → let c' = (update_input_gate env requested force c).0 in c' ≡ with_gate_of c c'
unfolding update_input_gate switch_touchpad
update_input_gate-frame env requested force c = ground arith

-- Nor does it change the decision.
pub desired_gate-update :
    (now : ℕ) (env : Env) (requested force : Bool) (c : Controller)
    → desired_gate now (update_input_gate env requested force c).0 ≡ desired_gate now c
unfolding desired_gate
desired_gate-update now env requested force c =
    ap (desired_gate now) (update_input_gate-frame env requested force c)

-- An update that is not forced and whose file write succeeds, if it makes one, leaves the input
-- devices registered exactly if there is a connected status, of whatever age, the cover is open
-- by a fresh Hall state and the keyboard is not asleep, whatever state the caller asked for.
pub update_input_gate_synced :
    (env : Env) (requested : Bool) (c : Controller)
    → env.file_ok ≡ true
    → let c' = (update_input_gate env requested false c).0 in
      (c'.input_gate_known ≡ true)
      × (c'.input_enabled ≡ desired_gate env.now c)
      × (desired_gate env.now c' ≡ desired_gate env.now c)
unfolding update_input_gate switch_touchpad
update_input_gate_synced env requested c ok =
    ground (arith, desired_gate-update env.now env requested false c)

-- A forced update with the file write succeeding leaves the devices in the state asked for.
pub update_input_gate_forced :
    (env : Env) (requested : Bool) (c : Controller)
    → env.file_ok ≡ true
    → let c' = (update_input_gate env requested true c).0 in
      (c'.input_gate_known ≡ true) × (c'.input_enabled ≡ requested)
unfolding update_input_gate switch_touchpad
update_input_gate_forced env requested c ok = ground arith

-- A trace of actions is orderly, from whether the input devices are registered and whether touch
-- reporting is off or out of reach: touch reporting is switched on only while the devices are
-- registered, and they are removed only after an attempt to switch it off.
abbrev pub Orderly : Bool → Bool → Bool → List Action → Type 0
Orderly ok registered quiet [] = Unit
Orderly ok registered quiet (send_frame f ∷ rest) =
    ((byte f 8 == 1 && not registered) ≡ false) × Orderly ok registered (byte f 8 == 0) rest
Orderly ok registered quiet (write_gate on ∷ rest) =
    ((on || quiet) ≡ true) × Orderly ok (on && ok) quiet rest
Orderly ok registered quiet (data_callback f ∷ rest) = Orderly ok registered quiet rest
Orderly ok registered quiet (error_callback e ∷ rest) = Orderly ok registered quiet rest

touch_frame_value : (v : ℕ) → byte (make_feature_command 0x21 v) 8 ≡ v
unfolding make_feature_command make_command write_at
touch_frame_value v = refl

-- Every update of the gate, forced or not, acts in a safe order: devices are removed only when
-- the touchpad is known to be off, cannot be reached, or was told to stop reporting, and
-- reporting is switched on only when the devices are known to be registered or their registration
-- has just succeeded.
pub update_input_gate-Orderly :
    (env : Env) (requested force : Bool) (c : Controller)
    → Orderly env.file_ok
        (c.input_gate_known && c.input_enabled)
        (not env.device_open || c.touchpad_state_known && not c.touchpad_enabled)
        (update_input_gate env requested force c).1
unfolding update_input_gate switch_touchpad
update_input_gate-Orderly env requested force c =
    ground (arith, touch_frame_value 0, touch_frame_value 1)
