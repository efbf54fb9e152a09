-- ===== src/Keyboard/Service.antt =====
-- aidl/keyboard: the threads of the service around one controller: the reader of the device
-- (NanoappDevice::run), the monitor of the Hall switches (HallInputMonitor::run) and the query
-- loop (KeyboardController::queryLoop). KeyboardController's constructor makes its own methods
-- the callbacks of the other two. The threads take turns of one round in any order; what a
-- handler finds outside is in its Env.
pub mod Turns
use android_hardware_xiaomi.Common.{ℕ, List, [], ◌∷◌, ◌++◌}
use android_hardware_xiaomi.Common.Int.{ℤ}
use android_hardware_xiaomi.Keyboard.Device as Device
use android_hardware_xiaomi.Keyboard.Hall as Hall
use android_hardware_xiaomi.Keyboard.Controller.{Controller, Env}
use android_hardware_xiaomi.Keyboard.Controller.Handlers.{
  on_device_data, on_device_error, on_hall_switch_state,
}
use android_hardware_xiaomi.Keyboard.Controller.QueryLoop.{Progress, query_round}

pub record Keyboard : Type 0 where
  pub device : Device.Device
  pub monitor : Hall.Monitor
  pub controller : Controller

pub data Turn : Type 0 where
  reader : Env → Device.ReaderEnv → Turn
  watcher : Env → List Hall.Entry → Hall.PollOutcome → Hall.ReadOutcome → Turn
  querier : Env → Progress → Turn

-- The data and error callbacks of the device.
unfoldable pub notice_callback : Env → Device.Notice → Controller → Controller
notice_callback env (Device.data_received bytes) c = (on_device_data env bytes c).0
notice_callback env (Device.error_reported code) c = (on_device_error env code c).0

unfoldable pub notice_callbacks : Env → List Device.Notice → Controller → Controller
unfolding notice_callback
notice_callbacks env [] c = c
notice_callbacks env (n ∷ notices) c = notice_callbacks env notices (notice_callback env n c)

-- The callback of the monitor.
unfoldable pub report_callbacks : Env → List Hall.Report → Controller → Controller
report_callbacks env [] c = c
report_callbacks env (r ∷ reports) c =
    report_callbacks env reports (on_hall_switch_state env r.valid r.lid_open r.tablet_open c).0

unfoldable pub take_turn : Turn → Keyboard → Keyboard
unfolding notice_callbacks report_callbacks
take_turn (reader env found) k =
    let r = Device.run_round k.device found in
    record k { device = r.0; controller = notice_callbacks env r.1 k.controller }
take_turn (watcher env entries poll read) k =
    let r = Hall.run_round entries poll read k.monitor in
    record k { monitor = r.0; controller = report_callbacks env r.1 k.controller }
take_turn (querier env progress) k = record k {
  controller = (query_round env progress k.controller).0;
}

unfoldable pub take_turns : List Turn → Keyboard → Keyboard
unfolding take_turn
take_turns [] k = k
take_turns (t ∷ turns) k = take_turns turns (take_turn t k)
