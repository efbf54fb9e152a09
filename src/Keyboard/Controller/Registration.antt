-- ===== src/Keyboard/Controller/Registration.antt =====
-- When the input devices are registered, and what removes them.
use android_hardware_xiaomi.Common.{
  ℕ, ◌≡◌, refl, ◌⊎◌, Bool, true, false, ◌&&◌, ◌||◌, List, some, arith, ◌==◌,
}
use android_hardware_xiaomi.Common.Int.{ℤ}
use android_hardware_xiaomi.Keyboard.Reports.{
  StatusReport, SleepReport, parse_sleep_report, parse_hall_report,
}
use android_hardware_xiaomi.Keyboard.Controller.{Controller, Env, desired_gate, update_input_gate}
use android_hardware_xiaomi.Keyboard.Controller.Gate.{
  update_input_gate_synced, update_input_gate_forced, update_input_gate-frame,
}
use android_hardware_xiaomi.Keyboard.Controller.Handlers.{
  start, stop, handle_status, on_hall_switch_state, handle_version, handle_mcu_version,
  handle_identity, handle_gsensor, handle_sleep, handle_hall, deliver, on_device_data,
  is_debug_packet, forget_device, on_device_error,
}
use android_hardware_xiaomi.Keyboard.Controller.QueryLoop.{
  Progress, expire, check_timeouts, query_round, status_timed_out, hall_timed_out,
}
use android_hardware_xiaomi.Keyboard.Controller.Invariant.{
  Event, starts, stops, hall_switch, device_data, device_error, query, step, Justified,
  on_device_data_keeps, on_report_keeps,
}

update-Justified :
    (env : Env) (requested : Bool) (c : Controller)
    → env.file_ok ≡ true
    → Justified env.now (update_input_gate env requested false c).0
update-Justified env requested c ok = ground (arith, update_input_gate_synced env requested c ok)

-- Changes of fields that the decision does not read.
abbrev SameGate : Controller → Controller → Type 0
SameGate c d = (d.input_gate_known ≡ c.input_gate_known) × (d.input_enabled ≡ c.input_enabled)

Justified-same :
    (now : ℕ) (c d : Controller)
    → SameGate c d
    → desired_gate now d ≡ desired_gate now c
    → Justified now c
    → Justified now d
Justified-same now c d s e j = ground arith

module _ (env : Env) (ok : env.file_ok ≡ true) where
  handle_status-Justified :
      (s : StatusReport) (c : Controller)
      → Justified env.now c
      → Justified env.now (handle_status env s c).0
  unfolding handle_status
  handle_status-Justified s c j = ground (
    arith,
    update-Justified env s.connected
        (record c { status = s; have_status = true; last_status_update = env.now }) ok,
  )

  handle_sleep-Justified :
      (s : SleepReport) (c : Controller)
      → Justified env.now c
      → Justified env.now (handle_sleep env s c).0
  unfolding handle_sleep
  handle_sleep-Justified s c j = update-Justified env false _ ok

  handle_hall-Justified :
      (h : ℕ) (c : Controller) → Justified env.now c → Justified env.now (handle_hall env h c).0
  unfolding handle_hall
  handle_hall-Justified h c j = update-Justified env false _ ok

  on_device_data-Justified :
      (bytes : List ℕ) (c : Controller)
      → Justified env.now c
      → Justified env.now (on_device_data env bytes c).0
  unfolding handle_version handle_mcu_version handle_identity handle_gsensor desired_gate
  on_device_data-Justified =
      on_device_data_keeps (Justified env.now) env handle_status-Justified handle_sleep-Justified
        handle_hall-Justified (λ r d h. h) (λ r d h. h) (λ r d h. h) (λ r d h. h)

  query_round-Justified :
      (p : Progress) (c : Controller)
      → Justified env.now c
      → Justified env.now (query_round env p c).0
  unfolding query_round check_timeouts
  query_round-Justified p c j = ground (
    arith,
    update-Justified env false (forget_device c) ok,
    update-Justified env false (expire env.now c) ok,
  )

  on_device_error-Justified :
      (e : ℤ) (c : Controller) → Justified env.now (on_device_error env e c).0
  unfolding on_device_error
  on_device_error-Justified e c = update-Justified env false _ ok

-- While the gate's file can be written, no handler registers the input devices unless the
-- conditions of the gate hold when it does: if a justified state (one without registered devices is
-- justified) runs a handler, then devices that are registered afterwards have a connected status,
-- of whatever age, that has not been cleared, an open cover by a Hall state that is fresh at that
-- time, and a keyboard that is not asleep.
pub step-Justified :
    (env : Env) (e : Event) (c : Controller)
    → env.file_ok ≡ true
    → Justified env.now c
    → Justified env.now (step env e c)
unfolding step start stop on_hall_switch_state
step-Justified env starts c ok j =
    ground
      (arith, update_input_gate_forced env false (record c { started = true; stopping = false }) ok)
step-Justified env stops c ok j = ground (
  arith,
  update_input_gate_forced (record env { device_open = false }) false
      (record c { started = false; stopping = true }) ok,
)
step-Justified env (hall_switch valid lid tablet) c ok j = update-Justified env false _ ok
step-Justified env (device_data bytes) c ok j = on_device_data-Justified env ok bytes c j
step-Justified env (device_error e) c ok j = on_device_error-Justified env ok e c
step-Justified env (query p) c ok j = query_round-Justified env ok p c j

-- What must remove the input devices.
abbrev pub Closes : Env → Controller → Event → Type 0
Closes env c starts = c.started ≡ false
Closes env c stops = c.started ≡ true
Closes env c (hall_switch valid lid tablet) = (valid ≡ true) × ((lid && tablet) ≡ false)
Closes env c (device_data bytes) =
    (is_debug_packet bytes ≡ false)
    × (parse_sleep_report (some bytes) ≡ some (record { sleeping = true }))
Closes env c (device_error e) = Unit
Closes env c (query p) =
    (env.device_open ≡ false)
    ⊎ (((c.have_sleep_state && c.keyboard_sleeping) ≡ false)
        × ((status_timed_out env.now c || hall_timed_out env.now c) ≡ true))

abbrev IsShut : Controller → Type 0
IsShut c = (c.input_gate_known ≡ true) × (c.input_enabled ≡ false)

-- A decision that is negative for the updated state shuts the gate.
update_shuts :
    (env : Env) (requested : Bool) (c : Controller)
    → env.file_ok ≡ true
    → desired_gate env.now c ≡ false
    → IsShut (update_input_gate env requested false c).0
update_shuts env requested c ok no_gate =
    ground (arith, update_input_gate_synced env requested c ok)

no_status : (now : ℕ) (c : Controller) → c.have_status ≡ false → desired_gate now c ≡ false
unfolding desired_gate
no_status now c e = ground arith

expired :
    (now : ℕ) (c : Controller)
    → (status_timed_out now c || hall_timed_out now c) ≡ true
    → desired_gate now (expire now c) ≡ false
unfolding desired_gate status_timed_out hall_timed_out expire
expired now c e = ground arith

closed_cover :
    (now : ℕ) (c : Controller)
    → c.have_input_hall_state ≡ true
    → c.last_input_hall_update ≡ now
    → (c.input_hall_state == 0x11) ≡ false
    → desired_gate now c ≡ false
unfolding desired_gate
closed_cover now c have fresh shut = ground arith

abbrev IsAsleep : Controller → Type 0
IsAsleep c = IsShut c × (c.have_status ≡ false)

module _ (env : Env) (ok : env.file_ok ≡ true) where
  update-IsAsleep :
      (c : Controller) → c.have_status ≡ false → IsAsleep (update_input_gate env false false c).0
  update-IsAsleep c e = (
    update_shuts env false c ok (no_status env.now c e),
    ground (arith, update_input_gate-frame env false false c),
  )

  handle_sleep-IsAsleep :
      (c : Controller) → IsAsleep (handle_sleep env (record { sleeping = true }) c).0
  unfolding handle_sleep
  handle_sleep-IsAsleep c = update-IsAsleep _ refl

  handle_hall-IsAsleep : (h : ℕ) (c : Controller) → IsAsleep c → IsAsleep (handle_hall env h c).0
  unfolding handle_hall
  handle_hall-IsAsleep h c a = update-IsAsleep _ a.1

  on_device_data-IsAsleep :
      (bytes : List ℕ) (c : Controller)
      → is_debug_packet bytes ≡ false
      → parse_sleep_report (some bytes) ≡ some (record { sleeping = true })
      → IsAsleep (on_device_data env bytes c).0
  unfolding on_device_data deliver
  on_device_data-IsAsleep bytes c report e =
      rw (on_device_data, report, e)
        (on_report_keeps IsAsleep (parse_hall_report (some bytes)) (handle_hall env) _
          handle_hall-IsAsleep (handle_sleep-IsAsleep _))

-- If the gate's file can be written, the input devices are removed by a start or a stop that takes
-- effect, by a Hall switch state with a closed cover, by a report that the keyboard falls asleep,
-- by any error of the device, and by a round of the query loop that finds the device closed or,
-- while the keyboard is awake, its status or its Hall state timed out.
pub step-Closes :
    (env : Env) (e : Event) (c : Controller)
    → env.file_ok ≡ true
    → Closes env c e
    → ((step env e c).input_gate_known ≡ true) × ((step env e c).input_enabled ≡ false)
unfolding step start stop on_hall_switch_state on_device_error query_round check_timeouts
    forget_device
step-Closes env starts c ok h =
    ground
      (arith, update_input_gate_forced env false (record c { started = true; stopping = false }) ok)
step-Closes env stops c ok h = ground (
  arith,
  update_input_gate_forced (record env { device_open = false }) false
      (record c { started = false; stopping = true }) ok,
)
step-Closes env (hall_switch true true false) c ok h =
    update_shuts env false _ ok (closed_cover env.now _ refl refl refl)
step-Closes env (hall_switch true false lid) c ok h =
    update_shuts env false _ ok (closed_cover env.now _ refl refl (ground arith))
step-Closes env (hall_switch true true true) c ok h = cc
step-Closes env (hall_switch false lid tablet) c ok h = cc
step-Closes env (device_data bytes) c ok (report, e) =
    (on_device_data-IsAsleep env ok bytes c report e).0
step-Closes env (device_error e) c ok h = update_shuts env false _ ok (no_status env.now _ refl)
step-Closes env (query p) c ok h = ground (
  arith,
  update_shuts env false (forget_device c) ok (no_status env.now (forget_device c) refl),
  update_shuts env false (expire env.now c) ok,
  expired env.now c,
)
