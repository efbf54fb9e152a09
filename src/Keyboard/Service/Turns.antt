-- ===== src/Keyboard/Service/Turns.antt =====
-- What the threads together do to the controller.
use android_hardware_xiaomi.Common.{
  ℕ, ◌≡◌, refl, sym, ap, ◌∙◌, true, false, List, [], ◌∷◌, ◌++◌, none, some, inl, inr, subst,
}
use mathlib.Core.Option.{none-ne-some}
use android_hardware_xiaomi.Keyboard.Device as Device
use android_hardware_xiaomi.Keyboard.Device.Transfers.{run_round-LossReported}
use android_hardware_xiaomi.Keyboard.Hall as Hall
use android_hardware_xiaomi.Keyboard.Controller.{Controller, Env}
use android_hardware_xiaomi.Keyboard.Controller.Handlers.{on_device_error}
use android_hardware_xiaomi.Keyboard.Controller.Invariant.{
  Event, hall_switch, device_data, device_error, query, step, run, Inv, run-Inv,
}
use android_hardware_xiaomi.Keyboard.Controller.Registration.{step-Closes}
use android_hardware_xiaomi.Keyboard.Service.{
  Keyboard, Turn, reader, watcher, querier, notice_callback, notice_callbacks, report_callbacks,
  take_turn, take_turns,
}

-- The controller's events of a turn, in order.
abbrev notice_events : Env → List Device.Notice → List (Env × Event)
notice_events env [] = []
notice_events env (n ∷ notices) = elim n [
  | Device.data_received bytes ↦ (env, device_data bytes) ∷ notice_events env notices
  | Device.error_reported code ↦ (env, device_error code) ∷ notice_events env notices
]

abbrev report_events : Env → List Hall.Report → List (Env × Event)
report_events env [] = []
report_events env (r ∷ reports) =
    (env, hall_switch r.valid r.lid_open r.tablet_open) ∷ report_events env reports

abbrev pub turn_events : Turn → Keyboard → List (Env × Event)
turn_events (reader env found) k = notice_events env (Device.run_round k.device found).1
turn_events (watcher env entries poll read) k =
    report_events env (Hall.run_round entries poll read k.monitor).1
turn_events (querier env progress) k = (env, query progress) ∷ []

abbrev pub all_events : List Turn → Keyboard → List (Env × Event)
all_events [] k = []
all_events (t ∷ turns) k = turn_events t k ++ all_events turns (take_turn t k)

run-append : (es fs : List (Env × Event)) (c : Controller) → run (es ++ fs) c ≡ run fs (run es c)
unfolding run
run-append [] fs c = refl
run-append ((env, e) ∷ es) fs c = run-append es fs (step env e c)

run-notice_events :
    (env : Env) (notices : List Device.Notice) (c : Controller)
    → notice_callbacks env notices c ≡ run (notice_events env notices) c
unfolding notice_callbacks notice_callback run step
run-notice_events env [] c = refl
run-notice_events env (Device.data_received bytes ∷ notices) c = run-notice_events env notices _
run-notice_events env (Device.error_reported code ∷ notices) c = run-notice_events env notices _

run-report_events :
    (env : Env) (reports : List Hall.Report) (c : Controller)
    → report_callbacks env reports c ≡ run (report_events env reports) c
unfolding report_callbacks run step
run-report_events env [] c = refl
run-report_events env (r ∷ reports) c = run-report_events env reports _

run-turn_events :
    (t : Turn) (k : Keyboard) → (take_turn t k).controller ≡ run (turn_events t k) k.controller
unfolding take_turn run step
run-turn_events (reader env found) k =
    run-notice_events env (Device.run_round k.device found).1 k.controller
run-turn_events (watcher env entries poll read) k =
    run-report_events env (Hall.run_round entries poll read k.monitor).1 k.controller
run-turn_events (querier env progress) k = refl

-- The threads of the service, in whatever order they take their turns, do to the controller what
-- a sequence of its own events does: the reports and errors of the reader's rounds, the switch
-- states of the monitor's and the rounds of the query loop, in the order of the turns.
pub take_turns-run :
    (turns : List Turn) (k : Keyboard)
    → (take_turns turns k).controller ≡ run (all_events turns k) k.controller
unfolding take_turns run
take_turns-run [] k = refl
take_turns-run (t ∷ turns) k =
    take_turns-run turns (take_turn t k)
    ∙ ap (run (all_events turns (take_turn t k))) (run-turn_events t k)
    ∙ sym (run-append (turn_events t k) (all_events turns (take_turn t k)) k.controller)

-- Over every order of the threads' rounds, the controller keeps its invariant.
pub take_turns-Inv :
    (turns : List Turn) (k : Keyboard) → Inv k.controller → Inv (take_turns turns k).controller
take_turns-Inv turns k inv =
    subst Inv (sym (take_turns-run turns k)) (run-Inv (all_events turns k) k.controller inv)

-- A round of the reader that loses the open device, while it is not stopped and the gate's file
-- can be written, removes the input devices in the same turn.
pub lost_device_removes :
    (env : Env) (found : Device.ReaderEnv) (k : Keyboard) (f : ℕ)
    → env.file_ok ≡ true
    → k.device.stopping ≡ false
    → k.device.fd ≡ some f
    → (take_turn (reader env found) k).device.fd ≡ none
    → let c = (take_turn (reader env found) k).controller in
      (c.input_gate_known ≡ true) × (c.input_enabled ≡ false)
unfolding take_turn notice_callbacks notice_callback on_device_error step
lost_device_removes env found k f ok runs opened lost =
    elim (run_round-LossReported k.device found f opened runs) [
      | inl (g, kept) ↦ absurd (none-ne-some g (sym lost ∙ kept))
      | inr (code, reported) ↦ rw reported (step-Closes env (device_error code) k.controller ok tt)
    ]
