-- ===== src/Keyboard.antt =====
-- The keyboard service (aidl/keyboard): the wire protocol of the Nanosic controller, the
-- character device, the Hall switches and the controller that registers the input devices.
pub mod Frame
pub mod Reports
pub mod Client
pub mod Device
pub mod Nanoapp
pub mod Controller
pub mod Hall
pub mod Cli
pub mod Service
