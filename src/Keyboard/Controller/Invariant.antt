-- ===== src/Keyboard/Controller/Invariant.antt =====
-- What holds of the controller between two handlers, whatever happens.
use android_hardware_xiaomi.Common.{
  ℕ, ◌≡◌, Bool, true, false, ◌&&◌, not, List, [], ◌∷◌, Option, none, some, arith, Bool-cases, inl,
  inr,
}
use android_hardware_xiaomi.Common.Int.{ℤ}
use android_hardware_xiaomi.Keyboard.Reports.{
  StatusReport, SleepReport, KeyboardVersionReport, KeyboardIdentityReport, GsensorReport,
  parse_status_report, parse_keyboard_version_report, parse_mcu_version_report,
  parse_keyboard_identity_report, parse_gsensor_report, parse_sleep_report, parse_hall_report,
}
use android_hardware_xiaomi.Keyboard.Controller.{
  Controller, Env, Step, desired_gate, update_input_gate,
}
use android_hardware_xiaomi.Keyboard.Controller.Gate.{update_input_gate-frame}
use android_hardware_xiaomi.Keyboard.Controller.Handlers.{
  start, stop, handle_status, on_hall_switch_state, handle_version, handle_mcu_version,
  handle_identity, handle_gsensor, handle_sleep, handle_hall, on_report, deliver, on_device_data,
  is_debug_packet, forget_device, on_device_error,
}
use android_hardware_xiaomi.Keyboard.Controller.QueryLoop.{
  Progress, expire, check_timeouts, query_round,
}

-- What runs on the controller's threads.
pub data Event : Type 0 where
  starts stops : Event
  hall_switch : Bool → Bool → Bool → Event
  device_data : List ℕ → Event
  device_error : ℤ → Event
  query : Progress → Event

unfoldable pub step : Env → Event → Controller → Controller
step env starts c = (start env c).0
step env stops c = (stop env c).0
step env (hall_switch valid lid tablet) c = (on_hall_switch_state env valid lid tablet c).0
step env (device_data bytes) c = (on_device_data env bytes c).0
step env (device_error e) c = (on_device_error env e c).0
step env (query p) c = (query_round env p c).0

-- Any interleaving of handlers, each in an environment of its own.
unfoldable pub run : List (Env × Event) → Controller → Controller
run [] c = c
run ((env, e) ∷ rest) c = run rest (step env e c)

-- No status is retained while the keyboard sleeps, and none is called connected that is not held.
pub record Inv (c : Controller) : Type 0 where
  pub asleep : (c.have_sleep_state && c.keyboard_sleeping && c.have_status) ≡ false
  pub absent : (not c.have_status && c.status.connected) ≡ false

-- If the devices are known to be registered, the conditions for it hold at that time.
abbrev pub Justified : ℕ → Controller → Type 0
Justified now c = (c.input_gate_known && c.input_enabled && not (desired_gate now c)) ≡ false

update-Inv :
    (env : Env) (requested force : Bool) (c : Controller)
    → Inv c
    → Inv (update_input_gate env requested force c).0
update-Inv env requested force c v = ground (arith, update_input_gate-frame env requested force c)

module _ (env : Env) where
  handle_status-Inv : (s : StatusReport) (c : Controller) → Inv c → Inv (handle_status env s c).0
  unfolding handle_status
  handle_status-Inv s c v = ground (
    arith,
    update-Inv env s.connected false
        (record c { status = s; have_status = true; last_status_update = env.now }),
  )

  handle_sleep-Inv : (s : SleepReport) (c : Controller) → Inv c → Inv (handle_sleep env s c).0
  unfolding handle_sleep
  handle_sleep-Inv s c v = update-Inv env false false _ (ground arith)

  handle_hall-Inv : (h : ℕ) (c : Controller) → Inv c → Inv (handle_hall env h c).0
  unfolding handle_hall
  handle_hall-Inv h c v = update-Inv env false false _ (ground arith)

pub on_report_keeps :
    {A : Type 0} (P : Controller → Type 0) (o : Option A) (f : A → Controller → Step)
    (c : Controller)
    → ((a : A) (d : Controller) → P d → P (f a d).0)
    → P c
    → P (on_report o f c).0
on_report_keeps P none f c keep h = h
on_report_keeps P (some a) f c keep h = keep a c h

-- What each of the report handlers keeps, onDeviceData keeps.
module _ (P : Controller → Type 0) (env : Env)
    (status : (s : StatusReport) (c : Controller) → P c → P (handle_status env s c).0)
    (sleep : (s : SleepReport) (c : Controller) → P c → P (handle_sleep env s c).0)
    (hall : (h : ℕ) (c : Controller) → P c → P (handle_hall env h c).0)
    (version : (r : KeyboardVersionReport) (c : Controller) → P c → P (handle_version r c).0)
    (mcu : (r : List ℕ) (c : Controller) → P c → P (handle_mcu_version r c).0)
    (identity : (r : KeyboardIdentityReport) (c : Controller) → P c → P (handle_identity r c).0)
    (gsensor : (r : GsensorReport) (c : Controller) → P c → P (handle_gsensor r c).0) where
  pub on_device_data_keeps :
      (bytes : List ℕ) (c : Controller) → P c → P (on_device_data env bytes c).0
  unfolding on_device_data deliver
  on_device_data_keeps bytes c h = elim (Bool-cases (is_debug_packet bytes)) [
    | inl debug ↦ rw (on_device_data, debug) h
    | inr report ↦
        rw (on_device_data, report)
          (on_report_keeps P (parse_hall_report (some bytes)) (handle_hall env) _ hall (
            on_report_keeps P (parse_sleep_report (some bytes)) (handle_sleep env) _ sleep (
              on_report_keeps P (parse_gsensor_report (some bytes)) handle_gsensor _ gsensor (
                on_report_keeps P (parse_keyboard_identity_report (some bytes)) handle_identity _
                  identity
                  (on_report_keeps P (parse_mcu_version_report (some bytes)) handle_mcu_version _
                    mcu
                    (on_report_keeps P (parse_keyboard_version_report (some bytes)) handle_version _
                      version
                      (on_report_keeps P (parse_status_report (some bytes)) (handle_status env) c
                        status h)))))))
  ]

forget_device-Inv : (c : Controller) → Inv (forget_device c)
unfolding forget_device
forget_device-Inv c = ground arith

expire-Inv : (now : ℕ) (c : Controller) → Inv c → Inv (expire now c)
unfolding expire
expire-Inv now c v = ground arith

query_round-Inv : (env : Env) (p : Progress) (c : Controller) → Inv c → Inv (query_round env p c).0
unfolding query_round check_timeouts
query_round-Inv env p c v = ground (
  arith,
  update-Inv env false false (forget_device c) (forget_device-Inv c),
  update-Inv env false false (expire env.now c) (expire-Inv env.now c v),
)

on_device_error-Inv : (env : Env) (e : ℤ) (c : Controller) → Inv c → Inv (on_device_error env e c).0
unfolding on_device_error
on_device_error-Inv env e c v = update-Inv env false false _ (ground arith)

step-Inv : (env : Env) (e : Event) (c : Controller) → Inv c → Inv (step env e c)
unfolding step start stop on_hall_switch_state handle_version handle_mcu_version handle_identity
    handle_gsensor
step-Inv env starts c v =
    ground (arith, update-Inv env false true (record c { started = true; stopping = false }))
step-Inv env stops c v = ground (
  arith,
  update-Inv (record env { device_open = false }) false true
      (record c { started = false; stopping = true }),
)
step-Inv env (hall_switch valid lid tablet) c v = update-Inv env false false _ (ground arith)
step-Inv env (device_data bytes) c v =
    on_device_data_keeps Inv env (handle_status-Inv env) (handle_sleep-Inv env)
      (handle_hall-Inv env) (λ r d h. ground arith) (λ r d h. ground arith) (λ r d h. ground arith)
      (λ r d h. ground arith) bytes c v
step-Inv env (device_error e) c v = on_device_error-Inv env e c v
step-Inv env (query p) c v = query_round-Inv env p c v

-- Whatever the threads do, in whatever order and whatever the device, the clock and the file system
-- answer, this stays true if it is true at first: no status is held while the keyboard is known to
-- sleep, and a status that is not held is not connected.
pub run-Inv : (events : List (Env × Event)) (c : Controller) → Inv c → Inv (run events c)
unfolding run
run-Inv [] c v = v
run-Inv ((env, e) ∷ rest) c v = run-Inv rest (step env e c) (step-Inv env e c v)
